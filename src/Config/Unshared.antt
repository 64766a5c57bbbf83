-- ===== src/Config/Unshared.antt =====
-- A file's public keys belong to one user each when they are accepted.
use vibe_connect.Base.{
  String, Bool, true, false, Option, none, some, List, [], ◌∷◌, ok, config_error, ◌≡◌, refl, ◌∙◌,
  sym, ap, eq_self, eq_of_beq, eq_of_not_differs, string_eq, ◌==◌, arith, >>=-eq-ok,
  raise_if-then-eq-ok, if◌then◌else◌,
}
use mathlib.Core.Option.{some-injective}
use vibe_connect.Base.Action.{ok-injective}
use vibe_connect.Base.Dict.{Dict, get, put, get-put}
use vibe_connect.Identifiers.{validate_username_principal}
use vibe_connect.Config.Models.{FilePublicKeyEntry}
use vibe_connect.Config.Keys.{
  is_other, no_keys, add_keys, add_entry, add_entries, validate_file_public_key_entries,
}

module _ (owners : Dict String String) where
  abbrev pub AllOwnedBy : String → List String → Type 0
  AllOwnedBy user [] = Unit
  AllOwnedBy user (key ∷ keys) = (get key owners ≡ some user) × AllOwnedBy user keys

  -- An entry names a permitted user and has a key, and `owners` gives that user for each of its keys.
  abbrev pub IsOwned : FilePublicKeyEntry → Type 0
  IsOwned entry =
      (user : String) × (validate_username_principal entry.entry_username ≡ ok user)
      × (no_keys entry.entry_keys ≡ false)
      × AllOwnedBy user entry.entry_keys

  abbrev pub AllOwned : List FilePublicKeyEntry → Type 0
  AllOwned [] = Unit
  AllOwned (entry ∷ entries) = IsOwned entry × AllOwned entries

owner_of_key :
    (o : Option String) (username user : String)
    → is_other o username ≡ false
    → o ≡ some user
    → user ≡ username
owner_of_key none username user h e = cc
owner_of_key (some prior) username user h e =
    some-injective user prior (sym e) ∙ eq_of_not_differs prior username h

-- Putting a key that no other user has changes no owner.
put-keeps :
    (key username k user : String) (seen : Dict String String)
    → is_other (get key seen) username ≡ false
    → get k seen ≡ some user
    → get k (put key username seen) ≡ some user
put-keeps key username k user seen h e = get-put key k username seen ∙ same (key == k) refl
  where
    same : (b : Bool) → (key == k) ≡ b → (if b then some username else get k seen) ≡ some user
    same false b = e
    same true b = ap some (
        sym (
          owner_of_key (get key seen) username user h
            (ap (λ x. get x seen) (eq_of_beq key k b) ∙ e)))

add_keys-keeps :
    (username : String) (keys : List String) (seen seen' : Dict String String) (k user : String)
    → add_keys username keys seen ≡ ok seen'
    → get k seen ≡ some user
    → get k seen' ≡ some user
unfolding add_keys
add_keys-keeps username [] seen seen' k user h e = ap (get k) (sym (ok-injective h)) ∙ e
add_keys-keeps username (key ∷ keys) seen seen' k user h e =
    let (mine, more) =
      raise_if-then-eq-ok (is_other (get key seen) username)
        (config_error "file public-key auth maps a key to multiple users")
        (add_keys username keys (put key username seen)) h in
    add_keys-keeps username keys (put key username seen) seen' k user more
      (put-keeps key username k user seen mine e)

get-put_same :
    (key username : String) (seen : Dict String String)
    → get key (put key username seen) ≡ some username
get-put_same key username seen = ground (arith, get-put key key username seen, eq_self key)

add_keys-AllOwnedBy :
    (username : String) (keys : List String) (seen seen' : Dict String String)
    → add_keys username keys seen ≡ ok seen'
    → AllOwnedBy seen' username keys
unfolding add_keys
add_keys-AllOwnedBy username [] seen seen' h = tt
add_keys-AllOwnedBy username (key ∷ keys) seen seen' h =
    let (mine, more) =
      raise_if-then-eq-ok (is_other (get key seen) username)
        (config_error "file public-key auth maps a key to multiple users")
        (add_keys username keys (put key username seen)) h in
    (
      add_keys-keeps username keys (put key username seen) seen' key username more
          (get-put_same key username seen),
      add_keys-AllOwnedBy username keys (put key username seen) seen' more,
    )

abbrev pub Extends : Dict String String → Dict String String → Type 0
Extends seen seen' = (k user : String) → get k seen ≡ some user → get k seen' ≡ some user

AllOwnedBy-mono :
    (user : String) (keys : List String) (seen seen' : Dict String String)
    → Extends seen seen'
    → AllOwnedBy seen user keys
    → AllOwnedBy seen' user keys
AllOwnedBy-mono user [] seen seen' more h = tt
AllOwnedBy-mono user (key ∷ keys) seen seen' more (e, h) =
    (more key user e, AllOwnedBy-mono user keys seen seen' more h)

add_entry-Extends :
    (entry : FilePublicKeyEntry) (seen seen' : Dict String String)
    → add_entry entry seen ≡ ok seen'
    → IsOwned seen' entry × Extends seen seen'
unfolding add_entry
add_entry-Extends entry seen seen' h =
    let (username, name, h1) = >>=-eq-ok (validate_username_principal entry.entry_username) _ h in
    let (some_key, h2) =
      raise_if-then-eq-ok (no_keys entry.entry_keys)
        (config_error "file public-key entry must include at least one key")
        (add_keys username entry.entry_keys seen) h1 in
    (
      (username, name, some_key, add_keys-AllOwnedBy username entry.entry_keys seen seen' h2),
      λ k user. add_keys-keeps username entry.entry_keys seen seen' k user h2,
    )

IsOwned-mono :
    (entry : FilePublicKeyEntry) (seen seen' : Dict String String)
    → Extends seen seen'
    → IsOwned seen entry
    → IsOwned seen' entry
IsOwned-mono entry seen seen' more (user, name, some_key, owned) =
    (user, name, some_key, AllOwnedBy-mono user entry.entry_keys seen seen' more owned)

add_entries-Extends :
    (entries : List FilePublicKeyEntry) (seen seen' : Dict String String)
    → add_entries entries seen ≡ ok seen'
    → AllOwned seen' entries × Extends seen seen'
unfolding add_entries
add_entries-Extends [] seen seen' h = (tt, λ k user e. ap (get k) (sym (ok-injective h)) ∙ e)
add_entries-Extends (entry ∷ entries) seen seen' h =
    let (middle, first, next) = >>=-eq-ok (add_entry entry seen) (add_entries entries) h in
    let (mine, grows) = add_entry-Extends entry seen middle first in
    let (others, more) = add_entries-Extends entries middle seen' next in
    ((IsOwned-mono entry middle seen' more mine, others), λ k user e. more k user (grows k user e))

-- When _validate_file_public_key_entries returns, there is one map from keys to users that agrees
-- with every entry: each entry names a permitted user, lists a key, and all its keys are mapped to
-- that user, so no key stands under two users.
pub validate_file_public_key_entries-AllOwned :
    (entries : List FilePublicKeyEntry)
    → validate_file_public_key_entries entries ≡ ok tt
    → (owners : Dict String String) × AllOwned owners entries
unfolding validate_file_public_key_entries
validate_file_public_key_entries-AllOwned entries h =
    let (owners, e, _) = >>=-eq-ok (add_entries entries []) _ h in
    (owners, (add_entries-Extends entries [] owners e).0)
