-- ===== src/Webhook/Event/Statuses.antt =====
-- The ten payment statuses as an enumeration, and the event types and statuses of event.go as its
-- names.
use payment_webhook_processo.Prelude.{
  ◌≡◌, true, refl, sym, ◌∙◌, ◌↔◌, ◌⊎◌, inl, inr, Bool-cases, ◌==◌, eq_iff, List, [], ◌∷◌,
  if◌then◌else◌,
}
use payment_webhook_processo.Failure.{
  unknown_event_type, Error, sentinel, detail, is, ok, err, ok-injective, err-injective, err≢ok,
}
use payment_webhook_processo.Webhook.Event.{EventType, PaymentStatus, map_event_type_to_status}

pub data Status : Type 0 where
  pending authorized paid failed expired cancelled : Status
  partially_refunded refunded disputed chargeback : Status

abbrev pub status_name : Status → PaymentStatus
status_name pending = "pending"
status_name authorized = "authorized"
status_name paid = "paid"
status_name failed = "failed"
status_name expired = "expired"
status_name cancelled = "cancelled"
status_name partially_refunded = "partially_refunded"
status_name refunded = "refunded"
status_name disputed = "disputed"
status_name chargeback = "chargeback"

abbrev pub event_name : Status → EventType
event_name pending = "payment.pending"
event_name authorized = "payment.authorized"
event_name paid = "payment.paid"
event_name failed = "payment.failed"
event_name expired = "payment.expired"
event_name cancelled = "payment.cancelled"
event_name partially_refunded = "payment.partially_refunded"
event_name refunded = "payment.refunded"
event_name disputed = "payment.disputed"
event_name chargeback = "payment.chargeback"

-- The status that an event type and a payment status both name.
pub record Names (t : EventType) (s : PaymentStatus) : Type 0 where
  pub status : Status
  pub event_type : t ≡ event_name status
  pub payment_status : s ≡ status_name status

map-event_name : (a : Status) → map_event_type_to_status (event_name a) ≡ ok (status_name a)
unfolding map_event_type_to_status
map-event_name pending = refl
map-event_name authorized = refl
map-event_name paid = refl
map-event_name failed = refl
map-event_name expired = refl
map-event_name cancelled = refl
map-event_name partially_refunded = refl
map-event_name refunded = refl
map-event_name disputed = refl
map-event_name chargeback = refl

abbrev pub statuses : List Status
statuses =
    pending ∷ authorized ∷ paid ∷ failed ∷ expired ∷ cancelled ∷ partially_refunded ∷ refunded
    ∷ disputed ∷ chargeback ∷ []

-- A switch over the event names of the listed statuses.
abbrev pub switch : {A : Type 0} → (PaymentStatus → A) → A → List Status → EventType → A
switch found default [] t = default
switch found default (a ∷ rest) t =
    if t == event_name a then found (status_name a) else switch found default rest t

-- What a switch finds is named by a status; otherwise it gives the default.
pub switch-Names :
    {A : Type 0} (found : PaymentStatus → A) (default : A) (rest : List Status) (t : EventType)
    → ((s : PaymentStatus) × Names t s × (switch found default rest t ≡ found s))
      ⊎ (switch found default rest t ≡ default)
switch-Names found default [] t = inr refl
switch-Names found default (a ∷ rest) t = elim (Bool-cases (t == event_name a)) [
  | inl same ↦ inl (
    status_name a,
    record { status = a; event_type = (eq_iff _ _).0 same; payment_status = refl },
    rw same,
  )
  | inr other ↦ rw other (switch-Names found default rest t)
]

pub map-eq-switch :
    (t : EventType)
    → map_event_type_to_status t
      ≡ switch ok (err (detail (sentinel unknown_event_type) t)) statuses t
unfolding map_event_type_to_status
map-eq-switch t = refl

-- An event type maps to a payment status exactly when one of the ten statuses names both; on any
-- other event type the error is `ErrUnknownEventType`.
pub map_event_type_to_status_iff :
    (t : EventType) (s : PaymentStatus) → (map_event_type_to_status t ≡ ok s) ↔ Names t s
map_event_type_to_status_iff t s = (to, from)
  where
    to : map_event_type_to_status t ≡ ok s → Names t s
    to h = elim (switch-Names ok (err (detail (sentinel unknown_event_type) t)) statuses t) [
      | inl (s', names, found) ↦ rw (ok-injective (sym h ∙ map-eq-switch t ∙ found)) names
      | inr missed ↦ absurd (err≢ok (sym missed ∙ sym (map-eq-switch t) ∙ h))
    ]

    from : Names t s → map_event_type_to_status t ≡ ok s
    from n = rw (n.event_type, n.payment_status) (map-event_name n.status)

pub map-eq-err :
    (t : EventType) {x : Error}
    → map_event_type_to_status t ≡ err x
    → is x unknown_event_type ≡ true
unfolding is
map-eq-err t h = elim (switch-Names ok (err (detail (sentinel unknown_event_type) t)) statuses t) [
  | inl (s, names, found) ↦ absurd (err≢ok (sym h ∙ map-eq-switch t ∙ found))
  | inr missed ↦ rw (← err-injective (sym missed ∙ sym (map-eq-switch t) ∙ h)) refl
]
