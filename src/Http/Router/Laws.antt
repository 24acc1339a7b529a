-- ===== src/Http/Router/Laws.antt =====
-- Where the router sends a request, and the identifier that it gives it.
use payment_webhook_processo.Prelude.{
  ℕ, ◌<◌, All, String, false, some, List, ◌≡◌, ◌≢◌, refl, sym, ap, ◌∙◌, ◌⊎◌, inl, inr, Bool-cases,
  ◌==◌, eq_iff,
}
use payment_webhook_processo.Failure.{Error, Result, ok, err}
use payment_webhook_processo.World.{World, Action}
use payment_webhook_processo.Text.{trim_space, decode_string}
use payment_webhook_processo.Text.Hex.{decode-encode}
use payment_webhook_processo.Text.Path.{clean_path}
use payment_webhook_processo.Http.Message.{Request, ResponseWriter}
use payment_webhook_processo.Http.Router.{
  Handler, request_id_header, new_request_id, request_id_for, with_id, with_request_id,
  healthz_handler, not_found, lookup, serve_mux, routes, new_router,
}

different : {s t : String} → (s == t) ≡ false → t ≢ s
different {s} {t} h same = cc ((eq_iff s t).1 (sym same), h)

-- The identifier that a request gets.
pub data Identified (random : Result (List ℕ)) (r : Request) (id : String) : Type 0 where
  given :
      trim_space (r.header request_id_header) ≢ ""
      → id ≡ trim_space (r.header request_id_header)
      → Identified random r id
  fresh :
      (buffer : List ℕ)
      → trim_space (r.header request_id_header) ≡ ""
      → random ≡ ok buffer
      → decode_string id ≡ some buffer
      → Identified random r id
  absent :
      (e : Error)
      → trim_space (r.header request_id_header) ≡ ""
      → random ≡ err e
      → id ≡ ""
      → Identified random r id

new_request_id-Identified :
    (random : Result (List ℕ)) (r : Request)
    → ((buffer : List ℕ) → random ≡ ok buffer → All (λ b. b < 256) buffer)
    → trim_space (r.header request_id_header) ≡ ""
    → Identified random r (new_request_id random)
unfolding new_request_id
new_request_id-Identified (ok buffer) r bytes blank =
    fresh buffer blank refl (decode-encode buffer (bytes buffer refl))
new_request_id-Identified (err e) r bytes blank = absent e blank refl refl

-- If the random bytes are bytes, a request keeps the identifier that its header gives, without the blanks around it; one with a
-- blank header, or none, gets the hexadecimal form of the random bytes, or "" if there are none.
pub request_id_for-Identified :
    (random : Result (List ℕ)) (r : Request)
    → ((buffer : List ℕ) → random ≡ ok buffer → All (λ b. b < 256) buffer)
    → Identified random r (request_id_for random r)
unfolding request_id_for
request_id_for-Identified random r bytes =
    elim (Bool-cases (trim_space (r.header request_id_header) == "")) [
      | inl blank ↦ rw blank (new_request_id-Identified random r bytes ((eq_iff _ _).0 blank))
      | inr set ↦ rw set (given (λ h. different set (sym h)) refl)
    ]

module _ {D : Type 0} (redirect : String → Handler D) (webhook metrics : Handler D) where
  -- What a path finds among the routes.
  pub data Found (path : String) (w : ResponseWriter) (r : Request) (run : Action D ResponseWriter)
      : Type 0 where
    healthz : path ≡ "/healthz" → run ≡ healthz_handler w r → Found path w r run
    payment : path ≡ "/webhooks/payment" → run ≡ webhook w r → Found path w r run
    scrape : path ≡ "/metrics" → run ≡ metrics w r → Found path w r run
    nothing :
        path ≢ "/healthz"
        → path ≢ "/webhooks/payment"
        → path ≢ "/metrics"
        → run ≡ not_found w r
        → Found path w r run

  lookup-Found :
      (path : String) (w : ResponseWriter) (r : Request)
      → Found path w r (lookup (routes (some webhook) (some metrics)) path w r)
  unfolding lookup
  lookup-Found path w r = elim (Bool-cases ("/healthz" == path)) [
    | inl here ↦ rw here (healthz (sym ((eq_iff _ _).0 here)) refl)
    | inr a ↦ elim (Bool-cases ("/webhooks/payment" == path)) [
      | inl here ↦ rw (a, here) (payment (sym ((eq_iff _ _).0 here)) refl)
      | inr b ↦ elim (Bool-cases ("/metrics" == path)) [
        | inl here ↦ rw (a, b, here) (scrape (sym ((eq_iff _ _).0 here)) refl)
        | inr c ↦ rw (a, b, c) (nothing (different a) (different b) (different c) refl)
      ]
    ]
  ]

  -- What the router does with a request: `seen` is the request as the handlers see it.
  pub data Routed (r seen : Request) (w : ResponseWriter) (run : Action D ResponseWriter)
      : Type 0 where
    to_route :
        (r.method ≡ "CONNECT") ⊎ (clean_path r.path ≡ r.path)
        → Found r.path w seen run
        → Routed r seen w run
    redirected :
        r.method ≢ "CONNECT"
        → clean_path r.path ≢ r.path
        → run ≡ redirect (clean_path r.path) w seen
        → Routed r seen w run

  -- With both handlers given, a request whose path is clean, or that is a CONNECT, goes to the
  -- handler of its path, or is not found if the path is none of the three; any other is redirected
  -- to its cleaned path. The handlers see the request with its identifier.
  pub new_router-Routed :
      (random : Result (List ℕ)) (w : ResponseWriter) (r : Request)
      → Routed r
          (with_id (request_id_for random r) r)
          w
          (new_router redirect (some webhook) (some metrics) random w r)
  unfolding new_router with_request_id serve_mux
  new_router-Routed random w r =
      let seen = with_id (request_id_for random r) r in
      elim (Bool-cases (r.method == "CONNECT")) [
        | inl tunnel ↦
            rw tunnel (to_route (inl ((eq_iff _ _).0 tunnel)) (lookup-Found r.path w seen))
        | inr other ↦ elim (Bool-cases (clean_path r.path == r.path)) [
          | inl clean ↦
              rw (other, clean) (to_route (inr ((eq_iff _ _).0 clean)) (lookup-Found r.path w seen))
          | inr unclean ↦
              rw (other, unclean)
                (redirected (λ h. different other (sym h)) (λ h. different unclean (sym h)) refl)
        ]
      ]

  -- If redirecting and serving the metrics leave the database alone, then a request that changes it
  -- is one for the webhook's path, and goes to the webhook's handler with its identifier.
  pub new_router_changes :
      ((path : String) (w : ResponseWriter) (r : Request) (v : World D)
        → (redirect path w r v).1.database ≡ v.database)
      → ((w : ResponseWriter) (r : Request) (v : World D) → (metrics w r v).1.database ≡ v.database)
      → (random : Result (List ℕ)) (w : ResponseWriter) (r : Request) (v : World D)
      → (new_router redirect (some webhook) (some metrics) random w r v).1.database ≢ v.database
      → (r.path ≡ "/webhooks/payment")
        × (new_router redirect (some webhook) (some metrics) random w r
            ≡ webhook w (with_id (request_id_for random r) r))
  unfolding healthz_handler
  new_router_changes redirect_keeps metrics_keeps random w r v changed =
      elim (new_router-Routed random w r) [
        | redirected _ _ run ↦
            absurd (changed (at_world run ∙ redirect_keeps (clean_path r.path) w seen v))
        | to_route _ (payment path run) ↦ (path, run)
        | to_route _ (scrape _ run) ↦ absurd (changed (at_world run ∙ metrics_keeps w seen v))
        | to_route _ (nothing _ _ _ run) ↦ absurd (changed (at_world run))
        | to_route _ (healthz _ run) ↦ absurd (changed (at_world run ∙ healthz_keeps))
      ]
    where
      seen : Request
      seen = with_id (request_id_for random r) r

      at_world :
          {run other : Action D ResponseWriter}
          → run ≡ other
          → (run v).1.database ≡ (other v).1.database
      at_world h = ap (λ (a : Action D ResponseWriter). (a v).1.database) h

      healthz_keeps : (healthz_handler w seen v).1.database ≡ v.database
      healthz_keeps = elim (Bool-cases (r.method == "GET")) [
        | inl get ↦ rw get refl
        | inr other ↦ rw other refl
      ]
