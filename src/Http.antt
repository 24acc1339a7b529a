-- ===== src/Http.antt =====
-- internal/http: requests and responses, the webhook handler, the middleware and the router.
pub mod Message
pub mod LogFields
pub mod WebhookHandler
pub mod Router
