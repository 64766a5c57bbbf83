-- ===== src/Access/Ldap.antt =====
-- escape_ldap_filter_value: RFC 4515's escapes, and their inverse.
use vibe_connect.Base.{
  ℕ, ◌+◌, ◌-◌, ◌*◌, ◌≡◌, Char, code, String, Bool, true, false, ◌&&◌, not, List, [], ◌∷◌, Result,
  ok, ◌>>=◌, ◌>>◌, raise_if, auth_error, nat_beq, leb, ◌==◌, string_eq, if◌then◌else◌, refl, ap,
  sym, nat_beq_iff, Bool-cases, inl, inr, ◌||◌,
}
use vibe_connect.Identifiers.{codes, all, validate_username_principal}
use vibe_connect.Text.{append}

unfoldable pub escape_char : Char → String → String
unfolding append
escape_char c rest =
    if nat_beq (code c) 0
    then append "\\00" rest
    else if nat_beq (code c) b'*'
    then append "\\2a" rest
    else if nat_beq (code c) b'('
    then append "\\28" rest
    else if nat_beq (code c) b')'
    then append "\\29" rest
    else if nat_beq (code c) b'\\'
    then append "\\5c" rest
    else String.◌∷◌ c rest

unfoldable pub escape_ldap_filter_value : String → String
unfolding escape_char
escape_ldap_filter_value String.[] = ""
escape_ldap_filter_value (String.◌∷◌ c s) = escape_char c (escape_ldap_filter_value s)

unfoldable pub validate_ldap_tls : Bool → Bool → Result (Unit {0})
validate_ldap_tls use_tls validate_tls =
    raise_if (not use_tls || not validate_tls)
      (auth_error "LDAP requires TLS certificate validation")

-- `bind` is the LDAP bind.
unfoldable pub verify_ldap_password_bind :
    (String → String → Bool) → String → String → Bool → Bool → Result String
unfolding validate_ldap_tls
verify_ldap_password_bind bind username password use_tls validate_tls = do
  validate_ldap_tls use_tls validate_tls
  safe_username ← validate_username_principal username
  raise_if (password == "") (auth_error "password is required")
  raise_if (not (bind safe_username password)) (auth_error "LDAP bind denied")
  ok safe_username

-- The value of a hexadecimal digit.
abbrev pub hex_value : ℕ → ℕ
hex_value c = if leb c b'9' then c - b'0' else c - 87

-- RFC 4515's reading of a filter's value: a backslash and two digits are one character.
unfoldable pub unescape : List ℕ → List ℕ
unescape [] = []
unescape (c ∷ []) = c ∷ []
unescape (c ∷ d ∷ []) = c ∷ d ∷ []
unescape (c ∷ d ∷ e ∷ cs) =
    let escaped = unescape cs in
    let plain = unescape (d ∷ e ∷ cs) in
    if nat_beq c b'\\' then (hex_value d * 16 + hex_value e) ∷ escaped else c ∷ plain

-- The character has no meaning in a filter, but for the backslash.
abbrev pub is_inert : ℕ → Bool
is_inert c =
    not (nat_beq c 0) && not (nat_beq c b'*') && not (nat_beq c b'(') && not (nat_beq c b')')

unescape-cons :
    (c : ℕ) (cs : List ℕ) → nat_beq c b'\\' ≡ false → unescape (c ∷ cs) ≡ c ∷ unescape cs
unfolding unescape
unescape-cons c [] h = refl
unescape-cons c (d ∷ []) h = refl
unescape-cons c (d ∷ e ∷ cs) h = rw h refl

same_head : (n k : ℕ) (ts : List ℕ) → nat_beq n k ≡ true → k ∷ ts ≡ n ∷ ts
same_head n k ts h = ap (λ m. m ∷ ts) (sym ((nat_beq_iff n k).0 h))

escape_char_lem :
    (c : Char) (rest : String)
    → all is_inert (codes rest) ≡ true
    → (all is_inert (codes (escape_char c rest)) ≡ true)
      × (unescape (codes (escape_char c rest)) ≡ code c ∷ unescape (codes rest))
unfolding escape_char all unescape
escape_char_lem c rest h = elim (Bool-cases (nat_beq (code c) 0)) [
  | inl e ↦ rw e (h, same_head (code c) 0 _ e)
  | inr nul ↦ rw nul (elim (Bool-cases (nat_beq (code c) b'*')) [
    | inl e ↦ rw e (h, same_head (code c) b'*' _ e)
    | inr star ↦ rw star (elim (Bool-cases (nat_beq (code c) b'(')) [
      | inl e ↦ rw e (h, same_head (code c) b'(' _ e)
      | inr opening ↦ rw opening (elim (Bool-cases (nat_beq (code c) b')')) [
        | inl e ↦ rw e (h, same_head (code c) b')' _ e)
        | inr closing ↦ rw closing (elim (Bool-cases (nat_beq (code c) b'\\')) [
          | inl e ↦ rw e (h, same_head (code c) b'\\' _ e)
          | inr back ↦
              rw back (rw (nul, star, opening, closing) h, unescape-cons (code c) (codes rest) back)
        ])
      ])
    ])
  ])
]

-- No escaped text has a character that a filter gives a meaning, other than the backslash, and the
-- RFC's reading of it is the original text.
pub unescape-escape_ldap_filter_value :
    (s : String)
    → (all is_inert (codes (escape_ldap_filter_value s)) ≡ true)
      × (unescape (codes (escape_ldap_filter_value s)) ≡ codes s)
unfolding escape_ldap_filter_value all
unescape-escape_ldap_filter_value String.[] = (refl, unfold unescape in refl)
unescape-escape_ldap_filter_value (String.◌∷◌ c s) =
    let (inert, same) = unescape-escape_ldap_filter_value s in
    let (a, b) = escape_char_lem c (escape_ldap_filter_value s) inert in (a, rw same at b)
