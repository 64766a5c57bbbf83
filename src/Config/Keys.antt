-- ===== src/Config/Keys.antt =====
-- The public keys of a file: `seen` has the user of each key so far.
use vibe_connect.Base.{
  String, Bool, true, false, Option, none, some, List, [], ◌∷◌, Result, ok, config_error, ◌>>=◌,
  ◌>>◌, raise_if, string_eq, ◌!=◌,
}
use vibe_connect.Base.Dict.{Dict, get, put}
use vibe_connect.Identifiers.{validate_username_principal}
use vibe_connect.Config.Models.{FilePublicKeyEntry}

abbrev pub is_other : Option String → String → Bool
is_other none username = false
is_other (some prior) username = prior != username

unfoldable pub add_keys : String → List String → Dict String String → Result (Dict String String)
add_keys username [] seen = ok seen
add_keys username (key ∷ keys) seen =
    let rest = add_keys username keys in
    (raise_if (is_other (get key seen) username)
        (config_error "file public-key auth maps a key to multiple users")
      >> rest (put key username seen))

abbrev pub no_keys : List String → Bool
no_keys [] = true
no_keys (k ∷ ks) = false

unfoldable pub add_entry : FilePublicKeyEntry → Dict String String → Result (Dict String String)
unfolding add_keys
add_entry entry seen = do
  username ← validate_username_principal entry.entry_username
  raise_if (no_keys entry.entry_keys)
      (config_error "file public-key entry must include at least one key")
  add_keys username entry.entry_keys seen

unfoldable pub add_entries :
    List FilePublicKeyEntry → Dict String String → Result (Dict String String)
unfolding add_entry
add_entries [] seen = ok seen
add_entries (entry ∷ entries) seen =
    let rest = add_entries entries in (add_entry entry seen >>= rest)

unfoldable pub validate_file_public_key_entries : List FilePublicKeyEntry → Result (Unit {0})
unfolding add_entries
validate_file_public_key_entries entries = add_entries entries [] >>= λ seen. ok tt
