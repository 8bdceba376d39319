-- ===== src/Cluster/Token.antt =====
-- The join tokens of src/cluster/token.rs.
use nexad.Prelude.{
  ℕ, ◌*◌, ◌≡◌, Bool, true, not, List, ◌++◌, arith, Text, text, ◌==◌, byte_eq, list_eq, beq_refl,
  if◌then◌else◌, length, drop,
}
use nexad.Result.{runtime, Result, ok, err, is_ok}
use nexad.Str.{starts_with}
use nexad.Str.Laws.{starts_with-eq}
use nexad.Str.Decimal.{show}

abbrev pub token_prefix : Text
token_prefix = text "nxa_"

abbrev pub token_random_bytes : ℕ
token_random_bytes = 32

-- `encode` and `is_hex` are `hex::encode` and whether `hex::decode` succeeds, `digest` is SHA-256.
module _ (encode : List ℕ → Text) (is_hex : Text → Bool) (digest : Text → List ℕ) where
  -- for the bytes that the random source gives
  unfoldable pub generate_token : List ℕ → Text
  generate_token bytes = token_prefix ++ encode bytes

  unfoldable pub hash_token : Text → Text
  hash_token token = encode (digest token)

  unfoldable pub verify_token : Text → Text → Bool
  unfolding hash_token
  verify_token token stored_hash = hash_token token == stored_hash

  unfoldable pub validate_token_format : Text → Result (Unit {0})
  validate_token_format token =
      let hex_part = drop (length token_prefix) token in
      if not (starts_with token token_prefix)
      then err (runtime (text "token must start with 'nxa_'"))
      else if not (length hex_part == token_random_bytes * 2)
      then err (
          runtime (
            text "token hex part must be "
            ++ (show (token_random_bytes * 2)
                ++ (text " characters, got " ++ show (length hex_part)))))
      else if not (is_hex hex_part)
      then err (runtime (text "token contains invalid hex"))
      else ok tt

  -- A token generated from 32 bytes has the right form and passes the check against its own hash,
  -- where the hexadecimal form has two digits for a byte and is read as hexadecimal.
  pub validate-generate :
      (bytes : List ℕ)
      → length bytes ≡ 32
      → ((bs : List ℕ) → length (encode bs) ≡ 2 * length bs)
      → ((bs : List ℕ) → is_hex (encode bs) ≡ true)
      → let token = generate_token bytes in
        (validate_token_format token ≡ ok tt) × (verify_token token (hash_token token) ≡ true)
  unfolding generate_token validate_token_format verify_token starts_with
  validate-generate bytes h len hex =
      (ground (arith, h, len bytes, hex bytes), beq_refl (hash_token (generate_token bytes)))

  accepted :
      (token : Text)
      → is_ok (validate_token_format token) ≡ true
      → (starts_with token token_prefix ≡ true)
        × (length (drop 4 token) ≡ 64)
        × (is_hex (drop 4 token) ≡ true)
  unfolding validate_token_format
  accepted token h = (ground (arith, h), ground (arith, h), ground (arith, h))

  -- A text passes the check only if it is the prefix before 64 bytes that are read as hexadecimal.
  pub validate_token_format_lem :
      (token : Text)
      → is_ok (validate_token_format token) ≡ true
      → (hex_part : Text) × (token ≡ token_prefix ++ hex_part)
        × (length hex_part ≡ 64)
        × (is_hex hex_part ≡ true)
  validate_token_format_lem token h =
      let parts = accepted token h in
      (drop 4 token, starts_with-eq token token_prefix parts.0, parts.1, parts.2)
