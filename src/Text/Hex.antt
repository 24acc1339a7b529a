-- ===== src/Text/Hex.antt =====
-- Laws of `hex.DecodeString`, `hex.EncodeToString` and `subtle.ConstantTimeCompare`.
use Prim.Native.Char.{code}
use text.Mathlib.TextLemmas.{cons≢nil}
use payment_webhook_processo.Prelude.{
  ℕ, zero, suc, ◌/◌, ◌%◌, ◌<◌, ◌≡◌, refl, ◌↔◌, Bool, true, false, not, ◌&&◌, Option, some, List,
  All, nat_eq, arith,
}
use payment_webhook_processo.Text.Trim.{IsSolid}
use payment_webhook_processo.Text.{
  is_space, hex_value, hex_digit, decode_string, encode_to_string, constant_time_compare,
}

abbrev reads_back : ℕ → Option ℕ → Bool
reads_back n Option.none = false
reads_back n (some m) = nat_eq n m

unfoldable pub every_below : (ℕ → Bool) → ℕ → Bool
every_below p zero = true
every_below p (suc n) = p n && every_below p n

pub every_below_sound : (p : ℕ → Bool) (k n : ℕ) → every_below p k ≡ true → n < k → p n ≡ true
unfolding every_below
every_below_sound p zero n h lt = elim lt [ ]
every_below_sound p (suc k) n h lt = ground (arith, every_below_sound p k n)

abbrev is_right : ℕ → Bool
is_right n = reads_back n (hex_value (code (hex_digit n)))

digit_table : every_below is_right 16 ≡ true
unfolding every_below hex_value
digit_table = refl

reads_back-eq : (n : ℕ) (o : Option ℕ) → reads_back n o ≡ true → o ≡ some n
reads_back-eq n Option.none h = cc
reads_back-eq n (some m) h = ground arith

hex_value-hex_digit : (n : ℕ) → n < 16 → hex_value (code (hex_digit n)) ≡ some n
hex_value-hex_digit n h = reads_back-eq n _ (every_below_sound is_right 16 n digit_table h)

abbrev is_solid : ℕ → Bool
is_solid n = not (is_space (hex_digit n))

solid_table : every_below is_solid 16 ≡ true
unfolding every_below is_space
solid_table = refl

hex_digit_solid : (n : ℕ) → n < 16 → is_space (hex_digit n) ≡ false
hex_digit_solid n h =
    not-true (is_space (hex_digit n)) (every_below_sound is_solid 16 n solid_table h)
  where
    not-true : (b : Bool) → not b ≡ true → b ≡ false
    not-true true e = cc
    not-true false e = refl

-- An encoded sequence of bytes holds no space.
pub encode-IsSolid : (bs : List ℕ) → All (λ b. b < 256) bs → IsSolid (encode_to_string bs)
unfolding encode_to_string
encode-IsSolid List.[] h = tt
encode-IsSolid (List.◌∷◌ b bs) (lt, h) = (
  hex_digit_solid (b / 16) (omega arith),
  (hex_digit_solid (b % 16) (omega arith), encode-IsSolid bs h),
)

pub encode-ne-empty : (bs : List ℕ) → encode_to_string bs ≡ "" → bs ≡ List.[]
unfolding encode_to_string
encode-ne-empty List.[] h = refl
encode-ne-empty (List.◌∷◌ b bs) h = absurd (cons≢nil h)

-- Decoding an encoded sequence of bytes gives it back.
pub decode-encode :
    (bs : List ℕ) → All (λ b. b < 256) bs → decode_string (encode_to_string bs) ≡ some bs
unfolding decode_string encode_to_string
decode-encode List.[] h = refl
decode-encode (List.◌∷◌ b bs) (lt, h) =
    rw
      (
        hex_value-hex_digit (b / 16) (omega arith),
        hex_value-hex_digit (b % 16) (omega arith),
        decode-encode bs h,
      )
      (ground arith)

-- The comparison gives 1 exactly for equal sequences.
pub compare-eq-one_iff : (xs ys : List ℕ) → (constant_time_compare xs ys ≡ 1) ↔ (xs ≡ ys)
unfolding constant_time_compare
compare-eq-one_iff List.[] List.[] = ground arith
compare-eq-one_iff (List.◌∷◌ x xs) (List.◌∷◌ y ys) = ground (arith, compare-eq-one_iff xs ys)
compare-eq-one_iff List.[] (List.◌∷◌ y ys) = ground arith
compare-eq-one_iff (List.◌∷◌ x xs) List.[] = ground arith
