-- ===== src/Service/Anomaly/Transitions.antt =====
-- The payment state machine: the allowed status changes as a relation on the ten statuses.
use payment_webhook_processo.Prelude.{
  ◌≡◌, refl, ap, Option, none, some, ◌↔◌, inl, inr, Bool, true, false, Bool-cases, List, [], ◌∷◌,
  All, ◌||◌, ◌==◌, eq_iff, if◌then◌else◌,
}
use mathlib.Core.Bool.{or_assoc}
use payment_webhook_processo.Webhook.Event.{PaymentStatus}
use payment_webhook_processo.Webhook.Event.Statuses.{
  Status, pending, authorized, paid, failed, expired, cancelled, partially_refunded, refunded,
  disputed, chargeback, status_name, statuses,
}
use payment_webhook_processo.Service.Anomaly.{is_transition_allowed}

-- A payment is authorised and paid, or fails, expires or is cancelled before it is paid; a paid one
-- is refunded, in parts or whole, or disputed; a dispute is won or charged back.
pub data Transition : Status → Status → Type 0 where
  authorize : Transition pending authorized
  pay_directly : Transition pending paid
  fail_early : Transition pending failed
  expire_early : Transition pending expired
  cancel_early : Transition pending cancelled
  capture : Transition authorized paid
  fail_late : Transition authorized failed
  expire_late : Transition authorized expired
  cancel_late : Transition authorized cancelled
  refund_part : Transition paid partially_refunded
  refund_all : Transition paid refunded
  dispute : Transition paid disputed
  refund_more : Transition partially_refunded partially_refunded
  refund_rest : Transition partially_refunded refunded
  dispute_rest : Transition partially_refunded disputed
  win_dispute : Transition disputed paid
  lose_dispute : Transition disputed chargeback

-- The two texts name statuses between which the change is allowed.
pub record Allowed (current next : PaymentStatus) : Type 0 where
  pub from : Status
  pub to : Status
  pub current_status : current ≡ status_name from
  pub next_status : next ≡ status_name to
  pub transition : Transition from to

abbrev any_of : List Status → PaymentStatus → Bool
any_of [] s = false
any_of (b ∷ []) s = s == status_name b
any_of (b ∷ c ∷ rest) s = s == status_name b || any_of (c ∷ rest) s

any_of_sound :
    {P : Status → Type 0} (bs : List Status) (s : PaymentStatus)
    → All P bs
    → any_of bs s ≡ true
    → (b : Status) × (s ≡ status_name b) × P b
any_of_sound [] s ps h = cc
any_of_sound (b ∷ []) s ps h = (b, (eq_iff _ _).0 h, ps.0)
any_of_sound (b ∷ c ∷ rest) s ps h = elim (Bool-cases (s == status_name b)) [
  | inl same ↦ (b, (eq_iff _ _).0 same, ps.0)
  | inr other ↦ any_of_sound (c ∷ rest) s ps.1 (rw other at h)
]

-- The source's switch, as a table.
abbrev table : List (Status × List Status)
table =
    (pending, authorized ∷ paid ∷ failed ∷ expired ∷ cancelled ∷ [])
    ∷ (authorized, paid ∷ failed ∷ expired ∷ cancelled ∷ [])
    ∷ (paid, partially_refunded ∷ refunded ∷ disputed ∷ [])
    ∷ (partially_refunded, partially_refunded ∷ refunded ∷ disputed ∷ [])
    ∷ (disputed, paid ∷ chargeback ∷ [])
    ∷ []

abbrev allowed_by : List (Status × List Status) → PaymentStatus → PaymentStatus → Bool
allowed_by [] current next = false
allowed_by ((a, bs) ∷ rest) current next =
    if current == status_name a then any_of bs next else allowed_by rest current next

allowed_by_sound :
    (rows : List (Status × List Status)) (current next : PaymentStatus)
    → All (λ r. All (Transition r.0) r.1) rows
    → allowed_by rows current next ≡ true
    → Allowed current next
allowed_by_sound [] current next ts h = cc
allowed_by_sound ((a, bs) ∷ rest) current next ts h = elim (Bool-cases (current == status_name a)) [
  | inl same ↦
      let (b, named, t) = any_of_sound bs next ts.0 (rw same at h) in
      record {
        from = a;
        to = b;
        current_status = (eq_iff _ _).0 same;
        next_status = named;
        transition = t;
      }
  | inr other ↦ allowed_by_sound rest current next ts.1 (rw other at h)
]

table-Transition : All (λ r. All (Transition r.0) r.1) table
table-Transition = (
  (authorize, (pay_directly, (fail_early, (expire_early, (cancel_early, tt))))),
  (
    (capture, (fail_late, (expire_late, (cancel_late, tt)))),
    (
      (refund_part, (refund_all, (dispute, tt))),
      ((refund_more, (refund_rest, (dispute_rest, tt))), ((win_dispute, (lose_dispute, tt)), tt)),
    ),
  ),
)

allowed-eq-table :
    (current next : PaymentStatus)
    → is_transition_allowed current next ≡ allowed_by table current next
unfolding is_transition_allowed
allowed-eq-table current next = simp or_assoc

allowed_of_Transition :
    {a b : Status} → Transition a b → is_transition_allowed (status_name a) (status_name b) ≡ true
unfolding is_transition_allowed
allowed_of_Transition authorize = refl
allowed_of_Transition pay_directly = refl
allowed_of_Transition fail_early = refl
allowed_of_Transition expire_early = refl
allowed_of_Transition cancel_early = refl
allowed_of_Transition capture = refl
allowed_of_Transition fail_late = refl
allowed_of_Transition expire_late = refl
allowed_of_Transition cancel_late = refl
allowed_of_Transition refund_part = refl
allowed_of_Transition refund_all = refl
allowed_of_Transition dispute = refl
allowed_of_Transition refund_more = refl
allowed_of_Transition refund_rest = refl
allowed_of_Transition dispute_rest = refl
allowed_of_Transition win_dispute = refl
allowed_of_Transition lose_dispute = refl

-- A change between two texts is allowed exactly when they name statuses that the relation joins;
-- a text that names no status allows nothing, on either side.
pub is_transition_allowed_iff :
    (current next : PaymentStatus)
    → (is_transition_allowed current next ≡ true) ↔ Allowed current next
is_transition_allowed_iff current next = (
  λ h. allowed_by_sound table current next table-Transition (rw allowed-eq-table at h),
  λ a. rw (a.current_status, a.next_status) (allowed_of_Transition a.transition),
)

-- Any number of allowed changes.
pub data Run (a : Status) : Status → Type 0 where
  here : Run a a
  next : {b c : Status} → Run a b → Transition b c → Run a c

-- The money has been taken.
abbrev pub WasPaid : Status → Type 0
WasPaid paid = Unit
WasPaid partially_refunded = Unit
WasPaid refunded = Unit
WasPaid disputed = Unit
WasPaid chargeback = Unit
WasPaid _ = ⊥

Transition-WasPaid : {a b : Status} → Transition a b → WasPaid a → WasPaid b
Transition-WasPaid authorize h = absurd h
Transition-WasPaid pay_directly h = tt
Transition-WasPaid fail_early h = absurd h
Transition-WasPaid expire_early h = absurd h
Transition-WasPaid cancel_early h = absurd h
Transition-WasPaid capture h = tt
Transition-WasPaid fail_late h = absurd h
Transition-WasPaid expire_late h = absurd h
Transition-WasPaid cancel_late h = absurd h
Transition-WasPaid refund_part h = tt
Transition-WasPaid refund_all h = tt
Transition-WasPaid dispute h = tt
Transition-WasPaid refund_more h = tt
Transition-WasPaid refund_rest h = tt
Transition-WasPaid dispute_rest h = tt
Transition-WasPaid win_dispute h = tt
Transition-WasPaid lose_dispute h = tt

pub Run-WasPaid : {a b : Status} → Run a b → WasPaid a → WasPaid b
Run-WasPaid here h = h
Run-WasPaid (next r t) h = Transition-WasPaid t (Run-WasPaid r h)

abbrev pub IsFinal : Status → Type 0
IsFinal failed = Unit
IsFinal expired = Unit
IsFinal cancelled = Unit
IsFinal refunded = Unit
IsFinal chargeback = Unit
IsFinal _ = ⊥

-- A payment whose status is final accepts no further status; from every other status one does.
pub IsFinal-iff :
    (a : Status)
    → IsFinal a ↔ ((s : PaymentStatus) → is_transition_allowed (status_name a) s ≡ false)
unfolding is_transition_allowed
IsFinal-iff failed = (λ _ s. refl, λ _. tt)
IsFinal-iff expired = (λ _ s. refl, λ _. tt)
IsFinal-iff cancelled = (λ _ s. refl, λ _. tt)
IsFinal-iff refunded = (λ _ s. refl, λ _. tt)
IsFinal-iff chargeback = (λ _ s. refl, λ _. tt)
IsFinal-iff pending = (λ h. absurd h, λ all. cc (all "paid"))
IsFinal-iff authorized = (λ h. absurd h, λ all. cc (all "paid"))
IsFinal-iff paid = (λ h. absurd h, λ all. cc (all "refunded"))
IsFinal-iff partially_refunded = (λ h. absurd h, λ all. cc (all "refunded"))
IsFinal-iff disputed = (λ h. absurd h, λ all. cc (all "paid"))

-- The names are distinct.
abbrev of_name : PaymentStatus → List Status → Option Status
of_name s [] = none
of_name s (a ∷ rest) = if s == status_name a then some a else of_name s rest

of_name-status_name : (a : Status) → of_name (status_name a) statuses ≡ some a
of_name-status_name pending = refl
of_name-status_name authorized = refl
of_name-status_name paid = refl
of_name-status_name failed = refl
of_name-status_name expired = refl
of_name-status_name cancelled = refl
of_name-status_name partially_refunded = refl
of_name-status_name refunded = refl
of_name-status_name disputed = refl
of_name-status_name chargeback = refl

pub status_name-injective : (a b : Status) → status_name a ≡ status_name b → a ≡ b
status_name-injective a b h =
    cc (of_name-status_name a, of_name-status_name b, ap (λ s. of_name s statuses) h)
