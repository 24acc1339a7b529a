-- ===== src/Http/LogFields/Laws.antt =====
-- The log fields' table of statuses against the one that events are parsed with.
use payment_webhook_processo.Prelude.{
  String, Option, none, some, List, [], ◌∷◌, ◌≡◌, refl, ap, ◌∙◌, inl, inr, Bool-cases, ◌==◌, sym,
}
use payment_webhook_processo.Failure.{unknown_event_type, sentinel, detail, Result, ok, err}
use payment_webhook_processo.Webhook.Event.{EventType, PaymentStatus, map_event_type_to_status}
use payment_webhook_processo.Webhook.Event.Statuses.{
  Status, event_name, statuses, switch, map-eq-switch,
}
use payment_webhook_processo.Http.LogFields.{payment_status_from_payload}

abbrev pub to_option {ℓ} : {A : Type ℓ} → Result A → Option A
to_option (ok a) = some a
to_option (err e) = none

switch-to_option :
    (default : Result PaymentStatus) (rest : List Status) (t : EventType)
    → to_option (switch ok default rest t) ≡ switch some (to_option default) rest t
switch-to_option default [] t = refl
switch-to_option default (a ∷ rest) t = elim (Bool-cases (t == event_name a)) [
  | inl same ↦ rw same refl
  | inr other ↦ rw other (switch-to_option default rest t)
]

payload-eq-switch : (t : String) → payment_status_from_payload t ≡ switch some none statuses t
unfolding payment_status_from_payload
payload-eq-switch t = refl

-- The status that a log line takes from a payload's event type is the one that the event's parser
-- takes, and none where the parser fails.
pub payment_status_from_payload_agrees :
    (t : String) → payment_status_from_payload t ≡ to_option (map_event_type_to_status t)
payment_status_from_payload_agrees t =
    let default = err (detail (sentinel unknown_event_type) t) in
    payload-eq-switch t
    ∙ sym (switch-to_option default statuses t)
    ∙ ap to_option (sym (map-eq-switch t))
