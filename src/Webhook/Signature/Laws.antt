-- ===== src/Webhook/Signature/Laws.antt =====
-- Which signatures `ValidateSignature` accepts.
use payment_webhook_processo.Prelude.{
  ℕ, ◌<◌, String, ◌≡◌, ◌≢◌, ap, ◌↔◌, Option, none, some, List, [], All, length, eq_iff, arith,
}
use payment_webhook_processo.Failure.{ok}
use payment_webhook_processo.Text.{trim_space, decode_string, encode_to_string}
use payment_webhook_processo.Text.Trim.{trim_space_of_IsSolid}
use payment_webhook_processo.Text.Hex.{
  decode-encode, encode-IsSolid, encode-ne-empty, compare-eq-one_iff,
}
use payment_webhook_processo.Webhook.Signature.{
  compute_signature, check_decoded, validate_signature,
}

module _ (hmac_sha256 : String → List ℕ → List ℕ) where
  check_decoded_iff :
      (expected : List ℕ) (o : Option (List ℕ))
      → (check_decoded hmac_sha256 expected o ≡ ok tt) ↔ (o ≡ some expected)
  check_decoded_iff expected none = ground arith
  check_decoded_iff expected (some provided) = ground (arith, compare-eq-one_iff expected provided)

  -- A signature is accepted exactly when, trimmed, it is the hexadecimal form, in either case, of
  -- the body's HMAC under the secret, and not empty.
  pub validate_signature_iff :
      (raw_body : List ℕ) (signature secret : String)
      → (validate_signature hmac_sha256 raw_body signature secret ≡ ok tt) ↔ (
          (trim_space signature ≢ "")
          × (decode_string (trim_space signature)
              ≡ some (compute_signature hmac_sha256 raw_body secret)))
  unfolding validate_signature
  validate_signature_iff raw_body signature secret = ground (
    arith,
    eq_iff (trim_space signature) "",
    check_decoded_iff (compute_signature hmac_sha256 raw_body secret)
        (decode_string (trim_space signature)),
  )

  -- The signature that a sender computes, the hexadecimal form of the HMAC, is accepted, if the
  -- HMAC is a sequence of 32 bytes.
  pub validate-encode :
      (raw_body : List ℕ) (secret : String)
      → All (λ b. b < 256) (hmac_sha256 secret raw_body)
      → length (hmac_sha256 secret raw_body) ≡ 32
      → validate_signature hmac_sha256 raw_body
          (encode_to_string (compute_signature hmac_sha256 raw_body secret))
          secret
        ≡ ok tt
  unfolding compute_signature
  validate-encode raw_body secret bytes long =
      let digest = hmac_sha256 secret raw_body in
      let solid = trim_space_of_IsSolid _ (encode-IsSolid digest bytes) in
      (validate_signature_iff raw_body (encode_to_string digest) secret).1 (
        rw solid (λ e. nonempty digest long (encode-ne-empty digest e)),
        rw solid (decode-encode digest bytes),
      )
    where
      nonempty : (bs : List ℕ) → length bs ≡ 32 → bs ≢ []
      nonempty bs l e = absurd (omega (arith, ap length e, l))
