-- ===== src/Webhook.antt =====
-- internal/webhook: the payment event, and the signature of a request.
pub mod Event
pub mod Signature
