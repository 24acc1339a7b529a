-- ===== src/Wiring/Overlap/Invariants.antt =====
-- Invariants of deliveries that overlap: what each delivery knows of the database stays true while
-- the others go on, and with it what is to hold of the database.
use payment_webhook_processo.Prelude.{ℕ, String, Option, List, [], ◌∷◌, All}
use payment_webhook_processo.Failure.{Result}
use payment_webhook_processo.World.{World}
use payment_webhook_processo.Metrics.{Metrics}
use payment_webhook_processo.Webhook.Event.{PaymentEvent}
use payment_webhook_processo.Repository.Postgres.{Postgres}
use payment_webhook_processo.Wiring.Overlap.{
  Delivery, arrived, advance, Step, move, other, Steps, stop, step,
}
use payment_webhook_processo.Wiring.Overlap.Claims.{arrivals}

-- `Leads s t`: a step may go from `s` to `t`. `Knows s d`: what the delivery `d` knows holds of `s`.
pub record Invariant (pg : Postgres) (metrics : Option Metrics) (marshal_time : ℕ → Result String)
    : Type 1 where
  pub Leads : pg.State → pg.State → Type 0
  pub Knows : pg.State → Delivery → Type 0
  pub Holds : pg.State → Type 0
  pub knows_mono : {s t : pg.State} → Leads s t → (d : Delivery) → Knows s d → Knows t d
  pub holds_mono : {s t : pg.State} → Leads s t → Holds s → Holds t
  pub advances :
      (d : Delivery) (w : World pg.State)
      → Knows w.database d
      → Leads w.database (advance pg metrics marshal_time d w).1.database
        × Knows
            (advance pg metrics marshal_time d w).1.database
            (advance pg metrics marshal_time d w).0

module _ (pg : Postgres) (metrics : Option Metrics) (marshal_time : ℕ → Result String)
    (i : Invariant pg metrics marshal_time) where
  All-Knows :
      {s t : pg.State}
      → i.Leads s t
      → (ds : List Delivery) → All (i.Knows s) ds
      → All (i.Knows t) ds
  All-Knows l [] hs = tt
  All-Knows l (d ∷ ds) (h, hs) = (i.knows_mono l d h, All-Knows l ds hs)

  Step-Leads :
      {ds es : List Delivery} {w v : World pg.State}
      → Step pg metrics marshal_time ds w es v
      → All (i.Knows w.database) ds
      → i.Leads w.database v.database × All (i.Knows v.database) es
  Step-Leads (move {d} {ds} {w} _) (h, hs) =
      let (leads, knows) = i.advances d w h in (leads, (knows, All-Knows leads ds hs))
  Step-Leads (other {d} s) (h, hs) =
      let (leads, rest) = Step-Leads s hs in (leads, (i.knows_mono leads d h, rest))

  Steps-Holds :
      {ds es : List Delivery} {w v : World pg.State}
      → Steps pg metrics marshal_time ds w es v
      → All (i.Knows w.database) ds
      → i.Holds w.database
      → i.Holds v.database
  Steps-Holds stop hs h = h
  Steps-Holds (step s ss) hs h =
      let (leads, knows) = Step-Leads s hs in Steps-Holds ss knows (i.holds_mono leads h)

  All-Knows-arrivals :
      (s : pg.State) (events : List PaymentEvent)
      → All (λ (event : PaymentEvent). i.Knows s (arrived event)) events
      → All (i.Knows s) (arrivals events)
  All-Knows-arrivals s [] hs = tt
  All-Knows-arrivals s (event ∷ events) (h, hs) = (h, All-Knows-arrivals s events hs)

  pub arrivals-Holds :
      (events : List PaymentEvent) {ds : List Delivery} {w v : World pg.State}
      → All (λ (event : PaymentEvent). i.Knows w.database (arrived event)) events
      → Steps pg metrics marshal_time (arrivals events) w ds v
      → i.Holds w.database
      → i.Holds v.database
  arrivals-Holds events {w} knows ss h =
      Steps-Holds ss (All-Knows-arrivals w.database events knows) h
