-- ===== src/Repository.antt =====
-- internal/repository: the three repositories over PostgreSQL.
pub mod Origins
pub mod Rows
pub mod Postgres
pub mod Payments
pub mod WebhookEvents
pub mod Anomalies
pub mod Memory
pub mod Links
