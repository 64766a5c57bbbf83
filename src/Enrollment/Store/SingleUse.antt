-- ===== src/Enrollment/Store/SingleUse.antt =====
-- InMemoryEnrollmentStore.consume_enrollment_token: the tokens that are usable and those that are spent.
use text.Mathlib.TextEquality.{eq_iff}
use vibe_connect.Base.{
  ℕ, ◌≡◌, ◌≢◌, ◌↔◌, ◌<◌, String, true, false, Option, none, some, List, [], ◌∷◌, string_eq, nat_eq,
  ◌==◌, refl, arith, eq_self, beq_of_ne, Bool-cases, inl, inr,
}
use vibe_connect.Base.Dict.{Dict, get, get-put}
use vibe_connect.Enrollment.Store.{
  EnrollmentTokenRecord, StoredAgent, TokenRow, EnrollmentStore, is_active_for, disable_row,
  disable_rows, create_enrollment_token, is_consumable, record_of, consume_row,
  consume_enrollment_token, persist_agent,
}

-- A token that may be used for the node at the instant.
pub record IsUsable (node_name : String) (now : ℕ) (row : TokenRow) : Type 0 where
  pub for_node : row.node_name ≡ node_name
  pub unused : row.used ≡ false
  pub enabled : row.disabled_at ≡ none
  pub current : now < row.expires_at

consumable_iff :
    (n : String) (now : ℕ) (row : TokenRow) → (is_consumable n now row ≡ true) ↔ IsUsable n now row
unfolding is_consumable
consumable_iff n now row = (
  λ h. record {
    for_node = ground (arith, eq_iff row.node_name n);
    unused = ground arith;
    enabled = ground arith;
    current = ground arith;
  },
  λ u. rw (u.for_node, u.unused, u.enabled, eq_self n) (ground (arith, u.current)),
)

module _ (h n : String) (now : ℕ) where
  consume_row_iff :
      (o : Option TokenRow) (s : EnrollmentStore) (r : EnrollmentTokenRecord)
      → ((consume_row h n now o s).0 ≡ some r)
        ↔ ((row : TokenRow) × (o ≡ some row) × IsUsable n now row × (r ≡ record_of h n row))
  unfolding consume_row
  consume_row_iff none s r = (λ e. cc, λ p. cc p.1)
  consume_row_iff (some row) s r = (
    λ e. elim (Bool-cases (is_consumable n now row)) [
      | inl able ↦ (row, refl, (consumable_iff n now row).0 able, ground arith)
      | inr unable ↦ absurd (ground arith)
    ],
    λ (row', same, usable, named).
        let e : row ≡ row' = cc in
        let u : is_consumable n now row ≡ true = rw e ((consumable_iff n now row').1 usable) in
        rw (u, named, e) refl,
  )

  -- A token is consumed exactly when its row names the node and is neither used, nor disabled, nor
  -- expired; the answer is the row's labels and host key.
  pub consume_enrollment_token_iff :
      (s : EnrollmentStore) (r : EnrollmentTokenRecord)
      → ((consume_enrollment_token h n now s).0 ≡ some r) ↔ (
          (row : TokenRow) × (get h s.tokens ≡ some row)
          × IsUsable n now row
          × (r ≡ record_of h n row))
  unfolding consume_enrollment_token
  consume_enrollment_token_iff s r = consume_row_iff (get h s.tokens) s r

pub data StoreCall : Type 0 where
  creates : String → String → List String → String → String → ℕ → ℕ → StoreCall
  consumes : String → String → ℕ → StoreCall
  persists : StoredAgent → StoreCall

unfoldable pub after_store_call : StoreCall → EnrollmentStore → EnrollmentStore
after_store_call (creates h n labels key by expires now) s =
    create_enrollment_token h n labels key by expires now s
after_store_call (consumes h n now) s = (consume_enrollment_token h n now s).1
after_store_call (persists agent) s = persist_agent agent s

unfoldable pub after_store_calls : List StoreCall → EnrollmentStore → EnrollmentStore
after_store_calls [] s = s
after_store_calls (c ∷ cs) s = after_store_calls cs (after_store_call c s)

-- No call creates a token of this hash again; a hash is that of a fresh random token.
abbrev pub CreatesOthers : String → List StoreCall → Type 0
CreatesOthers h [] = Unit
CreatesOthers h (creates g n labels key by expires now ∷ cs) = (g ≢ h) × CreatesOthers h cs
CreatesOthers h (_ ∷ cs) = CreatesOthers h cs

abbrev pub IsSpentRow : Option TokenRow → Type 0
IsSpentRow none = ⊥
IsSpentRow (some row) = row.used ≡ true

abbrev pub IsSpent : String → EnrollmentStore → Type 0
IsSpent h s = IsSpentRow (get h s.tokens)

get-disable_rows-IsSpentRow :
    (h n : String) (now : ℕ) (d : Dict String TokenRow)
    → IsSpentRow (get h d)
    → IsSpentRow (get h (disable_rows n now d))
unfolding disable_rows get disable_row
get-disable_rows-IsSpentRow h n now [] e = e
get-disable_rows-IsSpentRow h n now ((g, row) ∷ d) e = elim (Bool-cases (g == h)) [
  | inl same ↦ rw same (elim (Bool-cases (is_active_for n row)) [
    | inl active ↦ rw active (rw same at e)
    | inr idle ↦ rw idle (rw same at e)
  ])
  | inr other ↦ rw other (get-disable_rows-IsSpentRow h n now d (rw other at e))
]

module _ (h : String) where
  pub create-IsSpent :
      (g n : String) (labels : List String) (key by : String) (expires now : ℕ)
      (s : EnrollmentStore)
      → g ≢ h
      → IsSpent h s
      → IsSpent h (create_enrollment_token g n labels key by expires now s)
  unfolding create_enrollment_token
  create-IsSpent g n labels key by expires now s ne e =
      rw (get-put, beq_of_ne g h ne) (get-disable_rows-IsSpentRow h n now s.tokens e)

  consume_row-IsSpent :
      (g n : String) (now : ℕ) (o : Option TokenRow) (s : EnrollmentStore)
      → IsSpent h s
      → IsSpent h (consume_row g n now o s).1
  unfolding consume_row
  consume_row-IsSpent g n now none s e = e
  consume_row-IsSpent g n now (some row) s e = elim (Bool-cases (is_consumable n now row)) [
    | inl able ↦
        rw (able, get-put)
          (elim (Bool-cases (g == h)) [ inl same ↦ rw same refl | inr other ↦ rw other e ])
    | inr unable ↦ rw unable e
  ]

  pub consume-IsSpent :
      (g n : String) (now : ℕ) (s : EnrollmentStore)
      → IsSpent h s
      → IsSpent h (consume_enrollment_token g n now s).1
  unfolding consume_enrollment_token
  consume-IsSpent g n now s e = consume_row-IsSpent g n now (get g s.tokens) s e

  after_store_calls-IsSpent :
      (cs : List StoreCall) (s : EnrollmentStore)
      → CreatesOthers h cs
      → IsSpent h s
      → IsSpent h (after_store_calls cs s)
  unfolding after_store_calls after_store_call persist_agent
  after_store_calls-IsSpent [] s a e = e
  after_store_calls-IsSpent (creates g n labels key by expires now ∷ cs) s a e =
      after_store_calls-IsSpent cs _ a.1 (create-IsSpent g n labels key by expires now s a.0 e)
  after_store_calls-IsSpent (consumes g n now ∷ cs) s a e =
      after_store_calls-IsSpent cs _ a (consume-IsSpent g n now s e)
  after_store_calls-IsSpent (persists agent ∷ cs) s a e = after_store_calls-IsSpent cs _ a e

  spent_row_refused :
      (n : String) (now : ℕ) (o : Option TokenRow) (s : EnrollmentStore)
      → IsSpentRow o
      → (consume_row h n now o s).0 ≡ none
  unfolding consume_row is_consumable
  spent_row_refused n now none s e = refl
  spent_row_refused n now (some row) s e = ground arith

  pub spent_refused :
      (n : String) (now : ℕ) (s : EnrollmentStore)
      → IsSpent h s
      → (consume_enrollment_token h n now s).0 ≡ none
  unfolding consume_enrollment_token
  spent_refused n now s e = spent_row_refused n now (get h s.tokens) s e

  consumed_row-IsSpent :
      (n : String) (now : ℕ) (o : Option TokenRow) (s : EnrollmentStore) (r : EnrollmentTokenRecord)
      → (consume_row h n now o s).0 ≡ some r
      → IsSpent h (consume_row h n now o s).1
  unfolding consume_row
  consumed_row-IsSpent n now none s r e = cc
  consumed_row-IsSpent n now (some row) s r e = elim (Bool-cases (is_consumable n now row)) [
    | inl able ↦ rw (able, get-put, eq_self h) refl
    | inr unable ↦ absurd (ground arith)
  ]

  pub consumed-IsSpent :
      (n : String) (now : ℕ) (s : EnrollmentStore) (r : EnrollmentTokenRecord)
      → (consume_enrollment_token h n now s).0 ≡ some r
      → IsSpent h (consume_enrollment_token h n now s).1
  unfolding consume_enrollment_token
  consumed-IsSpent n now s r e = consumed_row-IsSpent n now (get h s.tokens) s r e

  -- A token that was consumed is consumed only once: after any further calls that create no token
  -- of the same hash, no node gets it at any time.
  pub consumed_once :
      (n m : String) (now later : ℕ) (s : EnrollmentStore) (r : EnrollmentTokenRecord)
      (cs : List StoreCall)
      → (consume_enrollment_token h n now s).0 ≡ some r
      → CreatesOthers h cs
      → (consume_enrollment_token h m later
          (after_store_calls cs (consume_enrollment_token h n now s).1)).0
        ≡ none
  consumed_once n m now later s r cs e a =
      spent_refused m later _ (after_store_calls-IsSpent cs _ a (consumed-IsSpent n now s r e))
