-- ===== src/Text/Numbers.antt =====
-- `strconv.Atoi`: a numeral of a 64-bit int.
pub mod Decimal
use Prim.Native.Char.{Char, code}
use Prim.Native.String.{[], ◌∷◌}
use payment_webhook_processo.Prelude.{
  ℕ, zero, suc, ◌+◌, ◌-◌, ◌*◌, ◌^◌, String, Bool, true, false, Option, none, some, ◌&&◌, leb, ltb,
  nat_eq, if◌then◌else◌,
}
use payment_webhook_processo.Failure.{Result, ok, err, external}

pub data ℤ : Type 0 where
  pos : ℕ → ℤ
  negsuc : ℕ → ℤ

-- `n < 0`.
abbrev pub is_negative : ℤ → Bool
is_negative (pos n) = false
is_negative (negsuc n) = true

abbrev pub negate : ℕ → ℤ
negate zero = pos 0
negate (suc n) = negsuc n

-- The value of a string of digits after the value of the digits before it.
unfoldable pub digits : ℕ → String → Option ℕ
digits n [] = some n
digits n (c ∷ s) =
    let d = code c in
    let rest = digits (n * 10 + (d - 48)) s in if leb 48 d && leb d 57 then rest else none

abbrev numeral : String → Option ℕ
numeral [] = none
numeral (c ∷ s) = digits 0 (c ∷ s)

abbrev invalid_syntax : Result ℤ
invalid_syntax = err (external "invalid syntax")

abbrev out_of_range : Result ℤ
out_of_range = err (external "value out of range")

abbrev positive : Option ℕ → Result ℤ
positive none = invalid_syntax
positive (some n) = if ltb n (2 ^ 63) then ok (pos n) else out_of_range

abbrev negative : Option ℕ → Result ℤ
negative none = invalid_syntax
negative (some n) = if leb n (2 ^ 63) then ok (negate n) else out_of_range

abbrev signed : Char → String → Result ℤ
signed c s =
    if nat_eq (code c) 45
    then negative (numeral s)
    else if nat_eq (code c) 43
    then positive (numeral s)
    else positive (numeral (c ∷ s))

unfoldable pub atoi : String → Result ℤ
unfolding digits
atoi [] = invalid_syntax
atoi (c ∷ s) = signed c s
