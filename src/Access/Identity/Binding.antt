-- ===== src/Access/Identity/Binding.antt =====
-- Which users a presented public key resolves to.
use vibe_connect.Base.{
  ◌≡◌, ◌↔◌, String, true, false, All, Bool-cases, inl, inr, ◌++◌, ◌||◌, not, List, [], ◌∷◌, ok,
  length, contains, ◌==◌, ◌!=◌, string_eq, nat_eq, refl, arith, ap, ◌∙◌, >>=-eq-ok,
  raise_if-then-eq-ok, eq_self, eq_of_beq,
}
use vibe_connect.Base.Sets.{add}
use vibe_connect.Identifiers.{validate_username_principal}
use vibe_connect.Access.Identity.{
  ResolvedIdentity, ProviderPublicKeyRecord, matching, validated_names, usernames_of, is_only,
  identity_of, resolve_provider_public_key_identity,
}

validate_same : (s t : String) → validate_username_principal s ≡ ok t → t ≡ s
unfolding validate_username_principal
validate_same s t h = ground arith

one_name : (n : String) (names : List String) → validated_names (n ∷ []) ≡ ok names → names ≡ n ∷ []
unfolding validated_names add contains
one_name n names h =
    let (safe, valid, h1) = >>=-eq-ok (validate_username_principal n) _ h in
    cc (validate_same n safe valid, h1)

one_valid :
    (n : String) → validate_username_principal n ≡ ok n → validated_names (n ∷ []) ≡ ok (n ∷ [])
unfolding validated_names add contains
one_valid n h = rw h refl

module _ (login key : String) where
  abbrev pub resolved : ProviderPublicKeyRecord → ResolvedIdentity
  resolved r = record { username = login; public_key = key; groups = r.groups }

  only_record :
      (ms : List ProviderPublicKeyRecord) (names : List String) (identity : ResolvedIdentity)
      → validated_names (usernames_of ms) ≡ ok names
      → (not (is_only names login) || length ms != 1) ≡ false
      → identity_of login key ms ≡ ok identity
      → (r : ProviderPublicKeyRecord) × (ms ≡ r ∷ [])
        × (r.username ≡ login)
        × (identity ≡ resolved r)
  unfolding identity_of
  only_record [] names identity v h e = cc
  only_record (r ∷ q ∷ ms) names identity v h e = absurd (ground arith)
  only_record (r ∷ []) names identity v h e =
      let only : names ≡ r.username ∷ [] = one_name r.username names v in
      let g : (not (is_only (r.username ∷ []) login) || length (r ∷ []) != 1) ≡ false =
        rw only at h in
      let same : (r.username == login) ≡ true = ground arith in
      (r, refl, eq_of_beq r.username login same, cc)

  only_safe_record :
      (ms : List ProviderPublicKeyRecord) (names : List String) (identity : ResolvedIdentity)
      (safe : String)
      → safe ≡ login
      → validated_names (usernames_of ms) ≡ ok names
      → (not (is_only names safe) || length ms != 1) ≡ false
      → identity_of safe key ms ≡ ok identity
      → (r : ProviderPublicKeyRecord) × (ms ≡ r ∷ [])
        × (r.username ≡ login)
        × (identity ≡ resolved r)
  only_safe_record ms names identity safe same v h e =
      only_record ms names identity v (rw same at h) (rw same at e)

  record_lem :
      (r : ProviderPublicKeyRecord)
      → r.username ≡ login
      → validate_username_principal login ≡ ok login
      → validated_names (usernames_of (r ∷ [])) ≡ ok (login ∷ [])
  record_lem r named valid = rw named (one_valid login valid)

  -- Of these records no one has the key.
  abbrev pub Lack : List ProviderPublicKeyRecord → Type 0
  Lack = All (λ q. contains q.public_keys key ≡ false)

  -- The record has the key, and every record before and after it lacks it.
  abbrev pub HasAlone : List ProviderPublicKeyRecord → ProviderPublicKeyRecord → Type 0
  HasAlone records r =
      (before : List ProviderPublicKeyRecord) × (after : List ProviderPublicKeyRecord) × (records
        ≡ before ++ (r ∷ after))
      × (contains r.public_keys key ≡ true)
      × Lack before
      × Lack after

  matching-Lack : (rs : List ProviderPublicKeyRecord) → Lack rs → matching key rs ≡ []
  unfolding matching
  matching-Lack [] h = refl
  matching-Lack (r ∷ rs) (h, hs) = rw (h, matching-Lack rs hs) refl

  none-Lack : (rs : List ProviderPublicKeyRecord) → matching key rs ≡ [] → Lack rs
  unfolding matching
  none-Lack [] h = tt
  none-Lack (r ∷ rs) h = elim (Bool-cases (contains r.public_keys key)) [
    | inl has ↦ absurd (cc (rw has at h))
    | inr lacks ↦ (lacks, none-Lack rs (rw lacks at h))
  ]

  matching-HasAlone :
      (before after : List ProviderPublicKeyRecord) (r : ProviderPublicKeyRecord)
      → contains r.public_keys key ≡ true
      → Lack before
      → Lack after
      → matching key (before ++ (r ∷ after)) ≡ r ∷ []
  unfolding matching
  matching-HasAlone [] after r has h k = rw (has, matching-Lack after k) refl
  matching-HasAlone (q ∷ before) after r has (h, hs) k =
      rw (h, matching-HasAlone before after r has hs k) refl

  one-HasAlone :
      (rs : List ProviderPublicKeyRecord) (r : ProviderPublicKeyRecord)
      → matching key rs ≡ r ∷ []
      → HasAlone rs r
  unfolding matching
  one-HasAlone [] r h = cc
  one-HasAlone (q ∷ rs) r h = elim (Bool-cases (contains q.public_keys key)) [
    | inl has ↦
        let (same, none_else) = cons_injective q r (matching key rs) [] (rw has at h) in
        rw (← same) ([], rs, refl, has, tt, none-Lack rs none_else)
    | inr lacks ↦
        let (before, after, e, has, hs, ks) = one-HasAlone rs r (rw lacks at h) in
        (q ∷ before, after, ap (λ xs. q ∷ xs) e, has, (lacks, hs), ks)
  ]
    where
      cons_injective :
          (q r : ProviderPublicKeyRecord) (qs rs : List ProviderPublicKeyRecord)
          → q ∷ qs ≡ r ∷ rs
          → (q ≡ r) × (qs ≡ rs)
      cons_injective q r qs rs h = (cc h, cc h)

  abbrev Resolves : List ProviderPublicKeyRecord → ResolvedIdentity → Type 0
  Resolves records identity =
      (validate_username_principal login ≡ ok login)
      × ((r : ProviderPublicKeyRecord) × HasAlone records r
          × (r.username ≡ login)
          × (identity ≡ resolved r))

  found_alone :
      (records : List ProviderPublicKeyRecord) (identity : ResolvedIdentity)
      → (r : ProviderPublicKeyRecord) × (matching key records ≡ r ∷ [])
        × (r.username ≡ login)
        × (identity ≡ resolved r)
      → (r : ProviderPublicKeyRecord) × HasAlone records r
        × (r.username ≡ login)
        × (identity ≡ resolved r)
  found_alone records identity (r, alone, named, shown) =
      (r, one-HasAlone records r alone, named, shown)

  binding_of_ok :
      (records : List ProviderPublicKeyRecord) (identity : ResolvedIdentity)
      → resolve_provider_public_key_identity login key records ≡ ok identity
      → Resolves records identity
  unfolding resolve_provider_public_key_identity
  binding_of_ok records identity h =
      let (safe, valid, h1) = >>=-eq-ok (validate_username_principal login) _ h in
      let same = validate_same login safe valid in
      let (names, v, h2) = >>=-eq-ok (validated_names (usernames_of (matching key records))) _ h1 in
      let (few, h3) = raise_if-then-eq-ok _ _ _ h2 in
      let (only, h4) = raise_if-then-eq-ok _ _ _ h3 in
      (
        valid ∙ ap ok same,
        found_alone records identity
            (only_safe_record (matching key records) names identity safe same v only h4),
      )

  ok_of_binding :
      (records : List ProviderPublicKeyRecord) (identity : ResolvedIdentity)
      → Resolves records identity
      → resolve_provider_public_key_identity login key records ≡ ok identity
  unfolding resolve_provider_public_key_identity identity_of
  ok_of_binding records identity (valid, (r, (before, after, e, has, h, k), named, shown)) =
      let alone = matching-HasAlone before after r has h k in
      rw (valid, e, alone, record_lem r named valid, eq_self login, shown) refl

  -- A key that LDAP or Azure AD records name resolves to the login exactly when the login is a
  -- permitted username, one record lists the key among its keys, every record before and after it
  -- does not, and that record is the login's; the identity has the login, the key and the record's
  -- groups.
  pub resolve_provider_iff :
      (records : List ProviderPublicKeyRecord) (identity : ResolvedIdentity)
      → (resolve_provider_public_key_identity login key records ≡ ok identity) ↔ (
          (validate_username_principal login ≡ ok login)
          × ((r : ProviderPublicKeyRecord) × HasAlone records r
              × (r.username ≡ login)
              × (identity ≡ resolved r)))
  resolve_provider_iff records identity =
      (binding_of_ok records identity, ok_of_binding records identity)
