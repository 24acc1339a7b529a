-- ===== src/Http/Router.antt =====
-- internal/http/router.go and internal/http/middleware.go, with Go's `http.ServeMux` for patterns
-- that are literal paths. A path has no percent-escapes here. `redirect` is what the mux writes for
-- a path that is not clean, which depends on Go's version.
pub mod Laws
use payment_webhook_processo.Prelude.{
  ℕ, String, Bool, not, Option, none, some, List, [], ◌∷◌, ◌==◌, if◌then◌else◌,
}
use payment_webhook_processo.Failure.{Result, ok, err}
use payment_webhook_processo.World.{Action, pure}
use payment_webhook_processo.Text.{trim_space, encode_to_string}
use payment_webhook_processo.Text.Path.{clean_path}
use payment_webhook_processo.Http.Message.{
  Request, ResponseWriter, json, plain, set_header, write_header, write, status_json,
}

-- `http.Handler`.
abbrev pub Handler : Type 0 → Type 0
Handler D = ResponseWriter → Request → Action D ResponseWriter

abbrev pub request_id_header : String
request_id_header = "X-Request-ID"

-- `random` is what rand.Read gives: 16 bytes, or an error.
unfoldable pub new_request_id : Result (List ℕ) → String
unfolding encode_to_string
new_request_id (ok buffer) = encode_to_string buffer
new_request_id (err e) = ""

unfoldable pub request_id_for : Result (List ℕ) → Request → String
unfolding new_request_id
request_id_for random r =
    let request_id = trim_space (r.header request_id_header) in
    if request_id == "" then new_request_id random else request_id

abbrev pub with_id : String → Request → Request
with_id request_id r = record r { request_id = some request_id }

unfoldable pub with_request_id : {D : Type 0} → Result (List ℕ) → Handler D → Handler D
with_request_id random next w r = next w (with_id (request_id_for random r) r)

unfoldable pub healthz_handler : {D : Type 0} → Handler D
healthz_handler w r =
    if not (r.method == "GET")
    then pure (write_header 405 w)
    else pure (write (json (status_json "ok")) (set_header "Content-Type" "application/json" w))

-- `http.NotFound`.
abbrev pub not_found : {D : Type 0} → Handler D
not_found w r = pure (
    write (plain "404 page not found\n") (
      write_header 404 (
        set_header "X-Content-Type-Options" "nosniff"
          (set_header "Content-Type" "text/plain; charset=utf-8" w))))

abbrev pub Route : Type 0 → Type 0
Route D = String × Handler D

unfoldable pub lookup : {D : Type 0} → List (Route D) → String → Handler D
lookup [] path = not_found
lookup ((pattern, handler) ∷ routes) path =
    let rest = lookup routes path in if pattern == path then handler else rest

unfoldable pub serve_mux : {D : Type 0} → (String → Handler D) → List (Route D) → Handler D
unfolding lookup
serve_mux redirect routes w r =
    if r.method == "CONNECT"
    then lookup routes r.path w r
    else if clean_path r.path == r.path
    then lookup routes r.path w r
    else redirect (clean_path r.path) w r

-- A nil handler is `none`.
abbrev pub with_route : {D : Type 0} → String → Option (Handler D) → List (Route D) → List (Route D)
with_route pattern none routes = routes
with_route pattern (some handler) routes = (pattern, handler) ∷ routes

abbrev pub routes : {D : Type 0} → Option (Handler D) → Option (Handler D) → List (Route D)
routes webhook_handler metrics_handler =
    ("/healthz", healthz_handler)
    ∷ with_route "/webhooks/payment" webhook_handler (with_route "/metrics" metrics_handler [])

unfoldable pub new_router :
    {D : Type 0}
    → (String → Handler D)
    → Option (Handler D)
    → Option (Handler D)
    → Result (List ℕ)
    → Handler D
unfolding serve_mux with_request_id
new_router redirect webhook_handler metrics_handler random =
    with_request_id random (serve_mux redirect (routes webhook_handler metrics_handler))
