-- ===== src/Access/Identity.antt =====
-- The user behind a presented public key: LDAP and Azure AD records, and the authorized-keys map.
-- A frozenset of groups is a list.
pub mod Binding
use text.Mathlib.TextEquality.{eq_iff}
use vibe_connect.Base.{
  ℕ, ◌≡◌, ◌≢◌, ◌↔◌, String, Bool, true, false, ◌||◌, not, ◌&&◌, List, [], ◌∷◌, ◌++◌, Result, ok,
  raise, ◌>>=◌, ◌>>◌, raise_if, auth_error, ltb, leb, nat_beq, length, All, contains, ◌==◌, ◌!=◌,
  string_eq, nat_eq, if◌then◌else◌, refl, arith, ap, sym, ◌∙◌, >>=-eq-ok, raise_if-then-eq-ok,
  Bool-cases, inl, inr, eq_self, eq_of_beq,
}
use vibe_connect.Base.Sets.{add}
use vibe_connect.Identifiers.{validate_username_principal}

pub record ResolvedIdentity : Type 0 where
  pub username : String
  pub public_key : String
  pub groups : List String

pub record ProviderPublicKeyRecord : Type 0 where
  pub username : String
  pub public_keys : List String
  pub groups : List String

-- `[record for record in records if presented_public_key in record.public_keys]`
unfoldable pub matching : String → List ProviderPublicKeyRecord → List ProviderPublicKeyRecord
matching key [] = []
matching key (r ∷ rs) =
    let rest = matching key rs in if contains r.public_keys key then r ∷ rest else rest

-- A set of validated names; the first that is refused raises.
unfoldable pub validated_names : List String → Result (List String)
validated_names [] = ok []
validated_names (n ∷ ns) =
    let rest = validated_names ns in
    (validate_username_principal n >>= λ safe. rest >>= λ names. ok (add safe names))

abbrev pub usernames_of : List ProviderPublicKeyRecord → List String
usernames_of [] = []
usernames_of (r ∷ rs) = r.username ∷ usernames_of rs

-- `names == {name}`
abbrev pub is_only : List String → String → Bool
is_only (n ∷ []) name = n == name
is_only _ name = false

-- `matches[0]` after the check of the length; the other case does not occur.
unfoldable pub identity_of :
    String → String → List ProviderPublicKeyRecord → Result ResolvedIdentity
identity_of username public_key (r ∷ _) =
    ok (record { username = username; public_key = public_key; groups = r.groups })
identity_of username public_key [] = raise (auth_error "public key identity mismatch")

unfoldable pub resolve_provider_public_key_identity :
    String → String → List ProviderPublicKeyRecord → Result ResolvedIdentity
unfolding identity_of
resolve_provider_public_key_identity login_username presented_public_key records = do
  safe_login ← validate_username_principal login_username
  let matches = matching presented_public_key records
  matched_usernames ← validated_names (usernames_of matches)
  raise_if (ltb 1 (length matched_usernames)) (auth_error "public key maps to multiple usernames")
  raise_if (not (is_only matched_usernames safe_login) || length matches != 1)
      (auth_error "public key identity mismatch")
  identity_of safe_login presented_public_key matches

abbrev pub keyed_names : String → List (String × List String) → List String
keyed_names key [] = []
keyed_names key ((name, keys) ∷ rest) =
    let names = keyed_names key rest in if contains keys key then name ∷ names else names

-- `authorized_keys` is the list of the map's items.
unfoldable pub resolve_file_public_key_identity :
    String → String → List (String × List String) → Result ResolvedIdentity
resolve_file_public_key_identity login_username presented_public_key authorized_keys = do
  safe_login ← validate_username_principal login_username
  matched_usernames ← validated_names (keyed_names presented_public_key authorized_keys)
  raise_if (ltb 1 (length matched_usernames)) (auth_error "public key maps to multiple usernames")
  raise_if (not (is_only matched_usernames safe_login)) (auth_error "public key identity mismatch")
  ok (record { username = safe_login; public_key = presented_public_key; groups = [] })
