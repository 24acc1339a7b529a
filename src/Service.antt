-- ===== src/Service.antt =====
-- internal/service: idempotent handling of events, and the payment state machine.
pub mod Interfaces
pub mod Anomaly
pub mod PaymentProcessor
pub mod Idempotency
