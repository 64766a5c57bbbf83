-- ===== src/Secret.antt =====
-- vibeconnect_common/crypto.py: secrets and their hashes.
use vibe_connect.Base.{
  ℕ, String, Bool, Result, ok, raise, secret_error, ltb, length, if◌then◌else◌, ◌==◌, string_eq,
}
use vibe_connect.Identifiers.{codes}

abbrev pub generated_secret_min_chars : ℕ
generated_secret_min_chars = 43

-- A generated secret; `str` and `repr` of one do not show it, `reveal` does.
pub record SecretValue : Type 0 where
  pub reveal : String

-- `len(value) < GENERATED_SECRET_MIN_CHARS`
unfoldable pub too_short : String → Bool
too_short value = ltb (length (codes value)) generated_secret_min_chars

-- `SecretValue(value)`, whose `__post_init__` checks the length.
unfoldable pub secret_value : String → Result SecretValue
secret_value value =
    if too_short value
    then raise (secret_error "secret value must be generated with at least 256 bits")
    else ok (record { reveal = value })

-- SHA-256 of the text's UTF-8, in hexadecimal, is not part of the repository.
module _ (sha256_hex_text : String → String) where
  unfoldable pub sha256_hex : SecretValue → String
  sha256_hex secret = sha256_hex_text secret.reveal

  -- `hmac.compare_digest` of the two texts is their equality.
  unfoldable pub verify_secret_hash : SecretValue → String → Bool
  unfolding sha256_hex
  verify_secret_hash secret expected_hash = sha256_hex secret == expected_hash
