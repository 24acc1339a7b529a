-- ===== src/Text/Numbers/Decimal.antt =====
-- Decimal numerals, and what `strconv.Atoi` makes of them.
use Prim.Native.Char.{Char, code}
use Prim.Native.String.{[], ◌∷◌}
use text.Mathlib.TextLemmas.{cons≢nil}
use payment_webhook_processo.Prelude.{
  ℕ, zero, suc, ◌+◌, ◌-◌, ◌*◌, ◌/◌, ◌%◌, ◌^◌, ◌≤◌, ◌<◌, String, Bool, true, false, some, ◌≡◌, ◌≢◌,
  refl, ap, ◌∙◌, ◌&&◌, leb, ltb, nat_eq, if◌then◌else◌, inl, inr, Bool-cases, arith,
}
use payment_webhook_processo.Text.{digit_at}
use payment_webhook_processo.Text.Hex.{every_below, every_below_sound}
use payment_webhook_processo.Failure.{Result, ok, err, external}
use payment_webhook_processo.Text.Numbers.{ℤ, pos, negsuc, digits, atoi, numeral, positive}

abbrev digit : ℕ → Char
digit = digit_at "0123456789"

-- A number is written from its last digit on; `fuel` is more than the number.
format_on : (fuel : ℕ) → ℕ → String → String
format_on zero n tail = tail
format_on (suc fuel) n tail =
    let rest = format_on fuel (n / 10) (digit (n % 10) ∷ tail) in
    if ltb n 10 then digit n ∷ tail else rest

unfoldable pub format : ℕ → String
unfolding format_on
format n = format_on (suc n) n ""

-- The numeral of an integer, with the sign of a negative one.
unfoldable pub format_int : ℤ → String
unfolding format
format_int (pos n) = format n
format_int (negsuc n) = digit_at "-" 0 ∷ format (suc n)

abbrev pub int64 : ℤ → Result ℤ
int64 (pos n) = if ltb n (2 ^ 63) then ok (pos n) else err (external "value out of range")
int64 (negsuc n) = if ltb n (2 ^ 63) then ok (negsuc n) else err (external "value out of range")

abbrev is_right : ℕ → Bool
is_right n = nat_eq (code (digit n)) (48 + n)

digit_table : every_below is_right 10 ≡ true
unfolding every_below
digit_table = refl

code-digit : (n : ℕ) → n < 10 → code (digit n) ≡ 48 + n
code-digit n h = ground (arith, every_below_sound is_right 10 n digit_table h)

-- One more digit.
digits-digit :
    (acc n value : ℕ) (tail : String)
    → n < 10
    → acc * 10 + n ≡ value
    → digits acc (digit n ∷ tail) ≡ digits value tail
unfolding digits
digits-digit acc n value tail h sum =
    let in_range : (leb 48 (48 + n) && leb (48 + n) 57) ≡ true = ground (arith, h) in
    let next : acc * 10 + (48 + n - 48) ≡ value = omega (arith, sum) in
    rw (code-digit n h, in_range, next) refl

digits-format_on :
    (fuel n : ℕ) (tail : String) → n < fuel → digits 0 (format_on fuel n tail) ≡ digits n tail
unfolding format_on
digits-format_on zero n tail h = absurd (omega (arith, h))
digits-format_on (suc fuel) n tail h = elim (Bool-cases (ltb n 10)) [
  | inl small ↦ rw small (digits-digit 0 n n tail (ground arith) (omega arith))
  | inr large ↦
      let big : 10 ≤ n = ground arith in
      rw large (
        digits-format_on fuel (n / 10) (digit (n % 10) ∷ tail) (omega (arith, h, big))
        ∙ digits-digit (n / 10) (n % 10) n tail (omega arith) (omega arith))
]

-- A numeral begins with a digit.
abbrev BeginsWithDigit : String → Type 0
BeginsWithDigit [] = ⊥
BeginsWithDigit (c ∷ s) = (48 ≤ code c) × (code c ≤ 57)

digit-BeginsWithDigit : (n : ℕ) (tail : String) → n < 10 → BeginsWithDigit (digit n ∷ tail)
digit-BeginsWithDigit n tail h = (omega (arith, code-digit n h), omega (arith, code-digit n h, h))

format_on-BeginsWithDigit :
    (fuel n : ℕ) (tail : String) → n < fuel → BeginsWithDigit (format_on fuel n tail)
unfolding format_on
format_on-BeginsWithDigit zero n tail h = absurd (omega (arith, h))
format_on-BeginsWithDigit (suc fuel) n tail h = elim (Bool-cases (ltb n 10)) [
  | inl small ↦ rw small (digit-BeginsWithDigit n tail (ground arith))
  | inr large ↦
      let big : 10 ≤ n = ground arith in
      rw large
        (format_on-BeginsWithDigit fuel (n / 10) (digit (n % 10) ∷ tail) (omega (arith, h, big)))
]

format-BeginsWithDigit : (n : ℕ) → BeginsWithDigit (format n)
unfolding format
format-BeginsWithDigit n = format_on-BeginsWithDigit (suc n) n "" (omega arith)

numeral-lem : (s : String) (n : ℕ) → BeginsWithDigit s → digits 0 s ≡ some n → numeral s ≡ some n
numeral-lem [] n h k = absurd h
numeral-lem (c ∷ s) n h k = k

unsigned-lem : (s : String) → BeginsWithDigit s → atoi s ≡ positive (numeral s)
unfolding atoi
unsigned-lem [] h = absurd h
unsigned-lem (c ∷ s) (low, high) =
    let not_minus : nat_eq (code c) 45 ≡ false = ground (arith, low) in
    let not_plus : nat_eq (code c) 43 ≡ false = ground (arith, low) in rw (not_minus, not_plus) refl

numeral-format : (n : ℕ) → numeral (format n) ≡ some n
unfolding format digits
numeral-format n =
    numeral-lem (format n) n (format-BeginsWithDigit n)
      (digits-format_on (suc n) n "" (omega arith))

minus-lem :
    (n : ℕ) (s : String) → numeral s ≡ some (suc n) → atoi (digit_at "-" 0 ∷ s) ≡ int64 (negsuc n)
unfolding atoi
minus-lem n s h = rw h (elim (Bool-cases (ltb n (2 ^ 63))) [
  | inl fits ↦ rw (fits, within fits) refl
  | inr large ↦ rw (large, beyond large) refl
])
  where
    within : ltb n (2 ^ 63) ≡ true → leb (suc n) (2 ^ 63) ≡ true
    within h = ground arith

    beyond : ltb n (2 ^ 63) ≡ false → leb (suc n) (2 ^ 63) ≡ false
    beyond h = ground arith

-- What Atoi makes of an integer's numeral: the integer, if it has 64 bits.
pub atoi-format_int : (z : ℤ) → atoi (format_int z) ≡ int64 z
unfolding format_int
atoi-format_int (pos n) =
    unsigned-lem (format n) (format-BeginsWithDigit n) ∙ ap positive (numeral-format n)
atoi-format_int (negsuc n) = minus-lem n (format (suc n)) (numeral-format (suc n))

pub format_int-ne-empty : (z : ℤ) → format_int z ≢ ""
unfolding format_int
format_int-ne-empty (pos n) h = not_empty (format n) (format-BeginsWithDigit n) h
  where
    not_empty : (s : String) → BeginsWithDigit s → s ≢ ""
    not_empty [] b e = absurd b
    not_empty (c ∷ s) b e = cons≢nil e
format_int-ne-empty (negsuc n) h = cons≢nil h
