-- ===== src/Text.antt =====
-- What the program uses of Go's `strings`, `encoding/hex` and `crypto/subtle`. A Go string is a
-- `String`, a list of code points, and a []byte is a list of numbers.
pub mod Trim
pub mod Hex
pub mod Numbers
pub mod Path
use Prim.Native.Char.{Char, code, nul}
use Prim.Native.String.{[], ◌∷◌}
use payment_webhook_processo.Prelude.{
  ℕ, zero, suc, ◌+◌, ◌-◌, ◌*◌, ◌/◌, ◌%◌, String, Bool, true, false, Option, none, some, List, ◌&&◌,
  ◌||◌, leb, nat_eq, ◌==◌, if◌then◌else◌,
}

-- `unicode.IsSpace`.
unfoldable pub is_space : Char → Bool
is_space c =
    let n = code c in
    (leb 9 n && leb n 13)
    || nat_eq n 0x20
    || nat_eq n 0x85
    || nat_eq n 0xa0
    || nat_eq n 0x1680
    || (leb 0x2000 n && leb n 0x200a)
    || nat_eq n 0x2028
    || nat_eq n 0x2029
    || nat_eq n 0x202f
    || nat_eq n 0x205f
    || nat_eq n 0x3000

unfoldable pub trim_left : String → String
trim_left [] = ""
trim_left (c ∷ s) = let rest = trim_left s in if is_space c then rest else c ∷ s

abbrev is_empty : String → Bool
is_empty [] = true
is_empty (c ∷ s) = false

abbrev keep_unless_blank : Char → String → String
keep_unless_blank c rest = if is_space c && is_empty rest then "" else c ∷ rest

unfoldable pub trim_right : String → String
trim_right [] = ""
trim_right (c ∷ s) = keep_unless_blank c (trim_right s)

-- `strings.TrimSpace`.
unfoldable pub trim_space : String → String
unfolding trim_left trim_right
trim_space s = trim_right (trim_left s)

-- The value of a hexadecimal digit of either case.
unfoldable pub hex_value : ℕ → Option ℕ
hex_value n =
    if leb b'0' n && leb n b'9'
    then some (n - b'0')
    else if leb b'a' n && leb n b'f'
    then some (n - b'a' + 10)
    else if leb b'A' n && leb n b'F'
    then some (n - b'A' + 10)
    else none

abbrev pair : Option ℕ → Option ℕ → Option (List ℕ) → Option (List ℕ)
pair (some hi) (some lo) (some rest) = some (List.◌∷◌ (hi * 16 + lo) rest)
pair _ _ _ = none

-- `hex.DecodeString`; `none` is its error.
unfoldable pub decode_string : String → Option (List ℕ)
decode_string [] = some List.[]
decode_string (a ∷ []) = none
decode_string (a ∷ b ∷ s) = pair (hex_value (code a)) (hex_value (code b)) (decode_string s)

abbrev pub digit_at : String → ℕ → Char
digit_at [] n = nul
digit_at (c ∷ s) zero = c
digit_at (c ∷ s) (suc n) = digit_at s n

abbrev hex_digit : ℕ → Char
hex_digit = digit_at "0123456789abcdef"

-- `hex.EncodeToString`, on bytes.
unfoldable pub encode_to_string : List ℕ → String
encode_to_string List.[] = ""
encode_to_string (List.◌∷◌ b bs) = hex_digit (b / 16) ∷ hex_digit (b % 16) ∷ encode_to_string bs

-- `subtle.ConstantTimeCompare`: 1 for equal contents, 0 otherwise.
unfoldable pub constant_time_compare : List ℕ → List ℕ → ℕ
constant_time_compare List.[] List.[] = 1
constant_time_compare (List.◌∷◌ x xs) (List.◌∷◌ y ys) =
    if nat_eq x y then constant_time_compare xs ys else 0
constant_time_compare _ _ = 0
