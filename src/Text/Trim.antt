-- ===== src/Text/Trim.antt =====
-- Laws of `strings.TrimSpace`.
use Prim.Native.Char.{Char}
use Prim.Native.String.{[], ◌∷◌}
use payment_webhook_processo.Prelude.{
  String, ◌≡◌, refl, ap, ◌∙◌, false, Bool-cases, inl, inr, arith,
}
use payment_webhook_processo.Text.{is_space, trim_left, trim_right, trim_space, keep_unless_blank}

-- The text is empty or begins with no space.
abbrev StartsSolid : String → Type 0
StartsSolid [] = Unit {0}
StartsSolid (c ∷ s) = is_space c ≡ false

trim_left-StartsSolid : (s : String) → StartsSolid (trim_left s)
unfolding trim_left
trim_left-StartsSolid [] = tt
trim_left-StartsSolid (c ∷ s) = ground (arith, trim_left-StartsSolid s)

trim_left_of_StartsSolid : (s : String) → StartsSolid s → trim_left s ≡ s
unfolding trim_left
trim_left_of_StartsSolid [] h = refl
trim_left_of_StartsSolid (c ∷ s) h = ground arith

keep-StartsSolid :
    (c : Char) (r : String) → is_space c ≡ false → StartsSolid (keep_unless_blank c r)
keep-StartsSolid c [] h = ground arith
keep-StartsSolid c (d ∷ r) h = ground arith

trim_right-StartsSolid : (s : String) → StartsSolid s → StartsSolid (trim_right s)
unfolding trim_right
trim_right-StartsSolid [] h = tt
trim_right-StartsSolid (c ∷ s) h = keep-StartsSolid c (trim_right s) h

trim_right-keep :
    (c : Char) (r : String)
    → trim_right r ≡ r
    → trim_right (keep_unless_blank c r) ≡ keep_unless_blank c r
unfolding trim_right
trim_right-keep c [] h = elim (Bool-cases (is_space c)) [
  | inl blank ↦ rw blank refl
  | inr solid ↦ rw solid (rw solid refl)
]
trim_right-keep c (d ∷ r) h = ground arith

trim_right_idempotent : (s : String) → trim_right (trim_right s) ≡ trim_right s
unfolding trim_right
trim_right_idempotent [] = refl
trim_right_idempotent (c ∷ s) = trim_right-keep c (trim_right s) (trim_right_idempotent s)

-- Trimming a trimmed text changes nothing.
pub trim_space_idempotent : (s : String) → trim_space (trim_space s) ≡ trim_space s
unfolding trim_space
trim_space_idempotent s =
    ap trim_right (trim_left_of_StartsSolid _ (trim_right-StartsSolid _ (trim_left-StartsSolid s)))
    ∙ trim_right_idempotent (trim_left s)

-- No character is a space.
abbrev pub IsSolid : String → Type 0
IsSolid [] = Unit {0}
IsSolid (c ∷ s) = (is_space c ≡ false) × IsSolid s

trim_right_of_IsSolid : (s : String) → IsSolid s → trim_right s ≡ s
unfolding trim_right
trim_right_of_IsSolid [] h = refl
trim_right_of_IsSolid (c ∷ s) (p, h) = rw (trim_right_of_IsSolid s h, p) refl

pub trim_space_of_IsSolid : (s : String) → IsSolid s → trim_space s ≡ s
unfolding trim_space
trim_space_of_IsSolid [] h = refl
trim_space_of_IsSolid (c ∷ s) (p, h) = rw p (trim_right_of_IsSolid (c ∷ s) (p, h))

trim_space_test : trim_space " \t pay 1 \n" ≡ "pay 1"
unfolding trim_space is_space
trim_space_test = refl
