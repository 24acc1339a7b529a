-- ===== src/World/Growth.antt =====
-- Actions that add measurements and log nothing: what every operation below the handler does.
use mathlib.Core.List.{append-nil, append_assoc}
use payment_webhook_processo.Prelude.{List, [], ◌++◌, ◌≡◌, sym, ap, ◌∙◌}
use payment_webhook_processo.World.{Measurement, World, Action}

-- The second world has the first one's measurements and more, and the same log.
pub record Grown {D : Type 0} (w v : World D) : Type 0 where
  pub added : List Measurement
  pub measured : v.measurements ≡ w.measurements ++ added
  pub logged : v.log ≡ w.log

abbrev pub Grows : {D A : Type 0} → Action D A → Type 0
Grows {D} m = (w : World D) → Grown w (m w).1

module _ {D : Type 0} where
  pub Grown-refl : (w v : World D) → v.measurements ≡ w.measurements → v.log ≡ w.log → Grown w v
  Grown-refl w v ms ls = record {
    added = [];
    measured = ms ∙ sym (append-nil w.measurements);
    logged = ls;
  }

  pub Grown-trans : {u v w : World D} → Grown u v → Grown v w → Grown u w
  Grown-trans {u} {v} {w} first second = record {
    added = first.added ++ second.added;
    measured =
        second.measured
        ∙ ap (λ (ms : List Measurement). ms ++ second.added) first.measured
        ∙ append_assoc u.measurements first.added second.added;
    logged = second.logged ∙ first.logged;
  }
