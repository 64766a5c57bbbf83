-- ===== src/Enrollment/Store/Replacement.antt =====
-- InMemoryEnrollmentStore.create_enrollment_token and the node's earlier tokens.
use vibe_connect.Base.{
  ℕ, ◌≡◌, ◌≢◌, String, false, Option, none, some, List, [], ◌∷◌, string_eq, ◌==◌, refl, arith,
  beq_of_ne, Bool-cases, inl, inr,
}
use vibe_connect.Base.Dict.{Dict, get, get-put}
use vibe_connect.Enrollment.Store.{
  TokenRow, EnrollmentStore, disable_row, disable_rows, create_enrollment_token, is_consumable,
  consume_row, consume_enrollment_token,
}

-- Consuming with this row, or with none, returns nothing.
abbrev IsRefused : String → ℕ → Option TokenRow → Type 0
IsRefused n now none = Unit
IsRefused n now (some row) = is_consumable n now row ≡ false

disabled_refused :
    (n : String) (now later : ℕ) (row : TokenRow)
    → is_consumable n later (disable_row n now row) ≡ false
unfolding is_consumable disable_row
disabled_refused n now later row = ground arith

get-disable_rows-IsRefused :
    (h n : String) (now later : ℕ) (d : Dict String TokenRow)
    → IsRefused n later (get h (disable_rows n now d))
unfolding get disable_rows
get-disable_rows-IsRefused h n now later [] = tt
get-disable_rows-IsRefused h n now later ((g, row) ∷ d) = elim (Bool-cases (g == h)) [
  | inl same ↦ rw same (disabled_refused n now later row)
  | inr other ↦ rw other (get-disable_rows-IsRefused h n now later d)
]

refused_lem :
    (h n : String) (now : ℕ) (o : Option TokenRow) (s : EnrollmentStore)
    → IsRefused n now o
    → consume_row h n now o s ≡ (none, s)
unfolding consume_row
refused_lem h n now none s e = refl
refused_lem h n now (some row) s e = rw e refl

-- After a token was created for a node, every other token is refused for that node at any time,
-- and the refusal changes nothing.
pub create_disables_others :
    (g h n : String) (labels : List String) (key by : String) (expires now later : ℕ)
    (s : EnrollmentStore)
    → g ≢ h
    → let s' = create_enrollment_token g n labels key by expires now s in
      consume_enrollment_token h n later s' ≡ (none, s')
unfolding create_enrollment_token consume_enrollment_token
create_disables_others g h n labels key by expires now later s ne =
    rw (get-put, beq_of_ne g h ne)
      (refused_lem h n later _ _ (get-disable_rows-IsRefused h n now later s.tokens))
