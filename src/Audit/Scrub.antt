-- ===== src/Audit/Scrub.antt =====
-- scrub_secret_metadata: the redaction of secret fields. `lower` is the code points of
-- `str.lower()`, which Unicode's tables define.
pub mod Clean
use vibe_connect.Base.{
  ℕ, String, Bool, true, false, ◌&&◌, ◌||◌, not, List, [], ◌∷◌, nat_beq, if◌then◌else◌, ◌≡◌, refl,
  Bool-cases, inl, inr, arith,
}
use vibe_connect.Identifiers.{codes}
use vibe_connect.Value.{
  Value, null, real, secret, bool, int, str, list, dict, Items, nil, item, Fields, end, field,
}

abbrev pub secret_redaction : Value
secret_redaction = str "[REDACTED]"

abbrev pub secret_key_fragments : List String
secret_key_fragments =
    "token" ∷ "secret" ∷ "password" ∷ "private_key" ∷ "bearer" ∷ "authorization" ∷ "replay_payload"
    ∷ "provider_response" ∷ "dsn" ∷ []

unfoldable pub is_prefix : List ℕ → List ℕ → Bool
is_prefix [] ys = true
is_prefix (x ∷ xs) [] = false
is_prefix (x ∷ xs) (y ∷ ys) = nat_beq x y && is_prefix xs ys

-- `xs in ys`
unfoldable pub occurs : List ℕ → List ℕ → Bool
unfolding is_prefix
occurs xs [] = is_prefix xs []
occurs xs (y ∷ ys) = is_prefix xs (y ∷ ys) || occurs xs ys

-- `.replace("-", "_")`
unfoldable pub underscored : List ℕ → List ℕ
underscored [] = []
underscored (c ∷ cs) = (if nat_beq c b'-' then b'_' else c) ∷ underscored cs

-- `.replace("_", "")`
unfoldable pub compacted : List ℕ → List ℕ
compacted [] = []
compacted (c ∷ cs) = let rest = compacted cs in if nat_beq c b'_' then rest else c ∷ rest

unfoldable pub any_fragment : List String → List ℕ → List ℕ → Bool
unfolding occurs compacted
any_fragment [] normalized compact = false
any_fragment (f ∷ fs) normalized compact =
    occurs (codes f) normalized
    || occurs (compacted (codes f)) compact
    || any_fragment fs normalized compact

module _ (lower : String → List ℕ) where
  unfoldable pub is_secret_key : String → Bool
  unfolding any_fragment underscored
  is_secret_key key =
      let normalized = underscored (lower key) in
      any_fragment secret_key_fragments normalized (compacted normalized)

  unfoldable mutual
    pub scrub_secret_metadata : Value → Value
    scrub_secret_metadata (dict fields) = dict (scrub_fields fields)
    scrub_secret_metadata (list items) = list (scrub_items items)
    scrub_secret_metadata secret = secret_redaction
    scrub_secret_metadata value = value

    pub scrub_items : Items → Items
    scrub_items nil = nil
    scrub_items (item value items) = item (scrub_secret_metadata value) (scrub_items items)

    pub scrub_fields : Fields → Fields
    scrub_fields end = end
    scrub_fields (field key value fields) =
        let value' = scrub_secret_metadata value in
        field key (if is_secret_key key then secret_redaction else value') (scrub_fields fields)
