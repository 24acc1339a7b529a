-- ===== src/Json.antt =====
-- What the program uses of `encoding/json`: JSON values, and decoding one into a struct whose
-- fields are all strings. The syntax, from bytes to a value, is a parameter of the clients.
use Prim.Native.Char.{code}
use Prim.Native.String.{[], ◌∷◌}
use payment_webhook_processo.Prelude.{
  ℕ, ◌-◌, String, Bool, true, false, Option, none, some, ◌&&◌, leb, nat_eq, if◌then◌else◌,
}
use payment_webhook_processo.Failure.{Result, ok, err, external, ◌>>=◌}

mutual
  pub data Json : Type 0 where
    null : Json
    boolean : Bool → Json
    number : String → Json
    text : String → Json
    array : Items → Json
    object : Fields → Json

  pub data Items : Type 0 where
    nil : Items
    cons : Json → Items → Items

  pub data Fields : Type 0 where
    end : Fields
    field : String → Json → Fields → Fields

-- Keys match without regard to case; two characters outside ASCII fold to an ASCII letter.
pub fold : ℕ → ℕ
fold n =
    if leb b'a' n && leb n b'z'
    then n - 32
    else if nat_eq n 0x17f
    then b'S'
    else if nat_eq n 0x212a
    then b'K'
    else n

unfoldable pub equal_fold : String → String → Bool
unfolding fold
equal_fold [] [] = true
equal_fold (c ∷ s) (d ∷ t) = nat_eq (fold (code c)) (fold (code d)) && equal_fold s t
equal_fold _ _ = false

module _ {P : Type 0} (setter : String → Option (String → P → P)) where
  -- A string is stored, null leaves the field alone, any other value is an error.
  unfoldable pub assign : Option (String → P → P) → Json → P → Result P
  assign none v p = ok p
  assign (some set) (text s) p = ok (set s p)
  assign (some set) null p = ok p
  assign (some set) _ p = err (external "json: cannot unmarshal into a field of type string")

  unfoldable pub decode_fields : Fields → P → Result P
  unfolding assign
  decode_fields end p = ok p
  decode_fields (field key v fs) p = assign (setter key) v p >>= decode_fields fs

  -- The decoding step of `json.Unmarshal` into a pointer to the struct.
  unfoldable pub decode_struct : Json → P → Result P
  unfolding decode_fields
  decode_struct null p = ok p
  decode_struct (object fs) p = decode_fields fs p
  decode_struct _ p = err (external "json: cannot unmarshal into a struct")
