-- ===== src/Audit/Scrub/Clean.antt =====
-- scrub_secret_metadata: the values without secrets.
use vibe_connect.Base.{
  ℕ, String, Bool, true, false, ◌&&◌, ◌||◌, not, List, ◌==◌, string_eq, if◌then◌else◌, ◌≡◌, refl,
  ap,
}
use vibe_connect.Base.{eq_of_beq, sym, ◌∙◌, ◌↔◌}
use mathlib.Core.Path.{ap₂}
use vibe_connect.Value.{
  Value, null, real, secret, bool, int, str, list, dict, Items, nil, item, Fields, end, field,
}
use vibe_connect.Audit.Scrub.{
  secret_redaction, is_secret_key, scrub_secret_metadata, scrub_items, scrub_fields,
}

abbrev pub is_redaction : Value → Bool
is_redaction (str s) = s == "[REDACTED]"
is_redaction _ = false

redaction_of : (v : Value) → is_redaction v ≡ true → v ≡ secret_redaction
redaction_of (str s) h = ap str (eq_of_beq s "[REDACTED]" h)
redaction_of null h = cc
redaction_of real h = cc
redaction_of secret h = cc
redaction_of (bool b) h = cc
redaction_of (int n) h = cc
redaction_of (list xs) h = cc
redaction_of (dict fs) h = cc

both_true : (a b : Bool) → (a && b) ≡ true → (a ≡ true) × (b ≡ true)
both_true true b h = (refl, h)
both_true false b h = cc

module _ (lower : String → List ℕ) where
  -- At any depth, no secret object stands in the value, and a secret key has the redaction.
  unfoldable mutual
    pub is_clean : Value → Bool
    is_clean (dict fields) = are_clean fields
    is_clean (list items) = all_clean items
    is_clean secret = false
    is_clean value = true

    pub all_clean : Items → Bool
    all_clean nil = true
    all_clean (item value items) = is_clean value && all_clean items

    pub are_clean : Fields → Bool
    are_clean end = true
    are_clean (field key value fields) =
        (not (is_secret_key lower key) || is_redaction value) && is_clean value && are_clean fields

  field_clean :
      (b : Bool) (v v' : Value)
      → is_clean v' ≡ true
      → let w = if b then secret_redaction else v' in
        ((not b || is_redaction w) ≡ true) × (is_clean w ≡ true)
  unfolding is_clean
  field_clean true v v' h = (refl, refl)
  field_clean false v v' h = (refl, h)

  clean_field :
      (key : String) (v v' : Value) (fs : Fields)
      → is_clean v' ≡ true
      → are_clean fs ≡ true
      → are_clean (field key (if is_secret_key lower key then secret_redaction else v') fs) ≡ true
  unfolding is_clean
  clean_field key v v' fs h k =
      let (a, b) = field_clean (is_secret_key lower key) v v' h in rw (a, b, k)

  field_kept :
      (b : Bool) (v v' : Value)
      → (not b || is_redaction v) ≡ true
      → v' ≡ v
      → (if b then secret_redaction else v') ≡ v
  field_kept true v v' h e = sym (redaction_of v h)
  field_kept false v v' h e = e

  mutual
    unfolding is_clean scrub_secret_metadata

    scrubbed : (v : Value) → is_clean (scrub_secret_metadata lower v) ≡ true
    scrubbed (dict fields) = scrubbed_fields fields
    scrubbed (list items) = scrubbed_items items
    scrubbed secret = refl
    scrubbed null = refl
    scrubbed real = refl
    scrubbed (bool b) = refl
    scrubbed (int n) = refl
    scrubbed (str s) = refl

    scrubbed_items : (xs : Items) → all_clean (scrub_items lower xs) ≡ true
    scrubbed_items nil = refl
    scrubbed_items (item v xs) = rw (scrubbed v, scrubbed_items xs)

    scrubbed_fields : (fs : Fields) → are_clean (scrub_fields lower fs) ≡ true
    scrubbed_fields end = refl
    scrubbed_fields (field key v fs) =
        clean_field key v (scrub_secret_metadata lower v) (scrub_fields lower fs) (scrubbed v)
          (scrubbed_fields fs)

  mutual
    unfolding is_clean scrub_secret_metadata

    kept : (v : Value) → is_clean v ≡ true → scrub_secret_metadata lower v ≡ v
    kept (dict fields) h = ap dict (kept_fields fields h)
    kept (list items) h = ap list (kept_items items h)
    kept secret h = cc
    kept null h = refl
    kept real h = refl
    kept (bool b) h = refl
    kept (int n) h = refl
    kept (str s) h = refl

    kept_items : (xs : Items) → all_clean xs ≡ true → scrub_items lower xs ≡ xs
    kept_items nil h = refl
    kept_items (item v xs) h =
        let (clean, others) = both_true (is_clean v) (all_clean xs) h in
        ap₂ item (kept v clean) (kept_items xs others)

    kept_fields : (fs : Fields) → are_clean fs ≡ true → scrub_fields lower fs ≡ fs
    kept_fields end h = refl
    kept_fields (field key v fs) h =
        let (this, others) =
          both_true ((not (is_secret_key lower key) || is_redaction v) && is_clean v) (are_clean fs)
            h in
        let (safe, clean) =
          both_true (not (is_secret_key lower key) || is_redaction v) (is_clean v) this in
        ap₂ (field key)
          (field_kept (is_secret_key lower key) v (scrub_secret_metadata lower v) safe
            (kept v clean))
          (kept_fields fs others)

  -- At any depth of a scrubbed value there is no secret object, and every secret key has the
  -- redaction for its value; and scrubbing leaves exactly such values unchanged.
  pub scrub_secret_metadata-is_clean :
      (v : Value)
      → (is_clean (scrub_secret_metadata lower v) ≡ true)
        × ((scrub_secret_metadata lower v ≡ v) ↔ (is_clean v ≡ true))
  scrub_secret_metadata-is_clean v = (scrubbed v, (λ e. ap is_clean (sym e) ∙ scrubbed v, kept v))
