-- ===== src/Lib.antt =====
-- The payment webhook processor: a provider posts signed events; an event is authenticated, parsed,
-- stored once, and moves the state of its payment.
--
-- How the parts interact. A request comes to `WebhookHandler.ServeHTTP` (internal/http), which checks
-- its signature and parses its body (internal/webhook), and hands the event to
-- `IdempotencyService.Process` (internal/service), which stores it by `WebhookEventRepository.Insert`
-- (internal/repository). If it is new, `PaymentProcessor.Process` reads the payment's row, records
-- anomalies, and creates the row, updates it, or ignores the event. Each part counts what it does
-- (internal/metrics), and a line is logged for each request (internal/logging).
--
-- Which file models what.
--   Failure: Go's errors: sentinels, wrapping, `errors.Is`, `errors.As`; results that may fail.
--   Text, Json: what is used of strings, encoding/hex, crypto/subtle and encoding/json.
--   Webhook/Event: internal/webhook/event.go. Webhook/Signature: internal/webhook/signature.go.
--   World: the state of an action: the database, measurements, clock and log.
--   Metrics: internal/metrics/metrics.go, over Prometheus and OpenTelemetry, which are parameters of
--     Metrics/Sdk. Logging: internal/logging/logger.go.
--   Repository/Rows, Payments, WebhookEvents, Anomalies: internal/repository. Repository/Postgres is
--     the database, a parameter with the laws of the SQL statements under the schema of
--     internal/db/migrations.go; Repository/Memory is a database in memory with these laws.
--   Service/Anomaly, PaymentProcessor, Idempotency: internal/service/anomaly.go,
--     payment_processor.go, idempotency.go. Service/Interfaces has the interfaces of these files and
--     the contract of the payments repository, which Repository/Payments/Laws fills.
--   Http/Message, LogFields, WebhookHandler: internal/http/webhook_handler.go.
--   Http/Router: internal/http/router.go and internal/http/middleware.go, with Text/Path for the
--     cleaning of paths by http.ServeMux.
--   Config: internal/config/config.go, with Text/Numbers for strconv.Atoi, and
--     Config/RoundTrip for the environment that a configuration is written to.
--   Db/Pool: internal/db/db.go. Db/Migrations: internal/db/migrations.go, over the database of
--     Db/Schema, a parameter with the laws of transactions; Db/Memory is a database with these laws.
--   Repository/Links, Repository/Origins: what the tables' rows say of one another.
--   Wiring: how cmd/server/main.go puts the repositories and services together. Wiring/Deliveries and
--     Wiring/Histories are about one event handed to the services so composed, and about deliveries
--     one after another, Wiring/Known about the set of provider ids that they store,
--     Wiring/EventLog about the rows that they add, and Wiring/Overlap about deliveries that overlap
--     in time. Wiring/Serving is the webhook's handler over the services, and Wiring/Served the
--     server's, the router over it. Wiring/Startup is `main` up to the server's start, and
--     Wiring/Lifecycle all of `main`, to the exit.
--   Tests: concrete runs.
--
-- How state and operations correspond. An operation is an action: a function from the world to its
-- result and the new world. The migrations, which measure and log nothing, are functions from the
-- database's state to a result and the new state. An early return is a branch of a helper function;
-- a deferred call comes after the helper that stands for the body, and those of `main` are a list,
-- called last one first. A nil pointer is `none`. A variable that a deferred function reads through a
-- pointer is returned by the body. The context argument, which only cancels, is left out: a cancelled
-- statement is one that reports an error, and so is a shutdown that takes more than its ten seconds.
-- What runs at once is a relation between one state and the next: the deliveries of Wiring/Overlap,
-- and the goroutine of the server beside `main`. A panic is an error of the function that panics.
--
-- Bounds and fuel. The recursion of the program's own functions is structural, on a list or a text.
-- The decimal form of a number, which only the environment that is written uses, has one unit of
-- fuel more than the number. Identifiers and durations are natural numbers: the database's
-- identifiers start at 1 and stay below 2^63, and the monotonic clock does not run backwards. An
-- instant is a number of nanoseconds from an origin before the year 0; the offset that a timestamp
-- was written with is left out, since the program only orders instants.
--
-- Not modelled here: the syntax of JSON, time.Parse, time.ParseDuration and HMAC-SHA256, which are
-- parameters; the way OpenTelemetry aggregates measurements; the answer of http.ServeMux to a path
-- that is not clean, or is "*", and percent-escapes in a path; the connections of a server that is shut down.
-- Histories of deliveries follow one another; in Wiring/Overlap they overlap, each with one step to
-- store its event, one for its read and one for what it does then, and so do the requests to the
-- payment processor in Service/PaymentProcessor/Interleaving. Two processes that migrate one database
-- at once are not modelled. A Go string is a list of code points, so one that is not UTF-8 is left
-- out. The script of the load test and the dashboards are not Go code of the server.
mod Prelude
pub mod Failure
pub mod Text
pub mod Json
pub mod Webhook
pub mod World
pub mod Metrics
pub mod Repository
pub mod Service
pub mod Logging
pub mod Config
pub mod Db
pub mod Http
pub mod Wiring
mod Tests
