-- ===== src/Http/Message.antt =====
-- Requests and responses, as far as internal/http reads and writes them.
use payment_webhook_processo.Prelude.{ℕ, String, Option, none, some, List, [], ◌∷◌, ◌++◌}
use payment_webhook_processo.Failure.{Result}
use payment_webhook_processo.Json.{Json, text, object, field, end}
use payment_webhook_processo.Logging.{SpanContext}

-- `header` is `r.Header.Get`, which gives "" for an absent header; `body` is what `io.ReadAll` gives.
pub record Request : Type 0 where
  pub method : String
  pub path : String
  pub header : String → String
  pub body : Result (List ℕ)
  pub request_id : Option String
  pub span : Option SpanContext

-- What is written to a body: an encoded JSON value, or text.
pub data Content : Type 0 where
  json : Json → Content
  plain : String → Content

-- What was written: the header fields in order, the status once it is sent, and the body.
pub record ResponseWriter : Type 0 where
  pub headers : List (String × String)
  pub status : Option ℕ
  pub body : List Content

abbrev pub fresh_writer : ResponseWriter
fresh_writer = record { headers = []; status = none; body = [] }

abbrev pub set_header : String → String → ResponseWriter → ResponseWriter
set_header key value w = record w { headers = w.headers ++ (key, value) ∷ [] }

-- Only the first status is sent.
abbrev sent : ℕ → Option ℕ → Option ℕ
sent code none = some code
sent code (some old) = some old

abbrev pub write_header : ℕ → ResponseWriter → ResponseWriter
write_header code w = record w { status = sent code w.status }

-- A body without a status is sent with 200.
abbrev pub write : Content → ResponseWriter → ResponseWriter
write value w = record w { status = sent 200 w.status; body = w.body ++ value ∷ [] }

-- The structs `webhookResponse` and `healthResponse`, encoded.
abbrev pub status_json : String → Json
status_json status = object (field "status" (text status) end)

unfoldable pub write_json : ResponseWriter → ℕ → Json → ResponseWriter
write_json w status_code payload =
    write (json payload) (write_header status_code (set_header "Content-Type" "application/json" w))
