-- ===== src/Webhook/Signature.antt =====
-- internal/webhook/signature.go: the HMAC signature of a request's body.
pub mod Laws
use payment_webhook_processo.Prelude.{
  ℕ, String, Bool, not, Option, none, some, List, nat_eq, ◌==◌, if◌then◌else◌,
}
use payment_webhook_processo.Failure.{
  missing_signature, invalid_signature, sentinel, Result, ok, err,
}
use payment_webhook_processo.Text.{trim_space, decode_string, constant_time_compare}

abbrev pub signature_header : String
signature_header = "X-Webhook-Signature"

-- `hmac_sha256 key message` is the sum of `hmac.New(sha256.New, []byte(key))` over the message.
module _ (hmac_sha256 : String → List ℕ → List ℕ) where
  unfoldable pub compute_signature : List ℕ → String → List ℕ
  compute_signature raw_body secret = hmac_sha256 secret raw_body

  abbrev check_decoded : List ℕ → Option (List ℕ) → Result (Unit {0})
  check_decoded expected none = err (sentinel invalid_signature)
  check_decoded expected (some provided) =
      if not (nat_eq (constant_time_compare expected provided) 1)
      then err (sentinel invalid_signature)
      else ok tt

  unfoldable pub validate_signature : List ℕ → String → String → Result (Unit {0})
  validate_signature raw_body signature secret =
      let provided_signature = trim_space signature in
      if provided_signature == ""
      then err (sentinel missing_signature)
      else check_decoded (compute_signature raw_body secret) (decode_string provided_signature)
