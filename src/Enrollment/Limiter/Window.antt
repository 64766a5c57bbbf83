-- ===== src/Enrollment/Limiter/Window.antt =====
-- EnrollmentRateLimiter: the pruned deques against the failures of the window, counted over all
-- that were ever recorded.
use vibe_connect.Base.{
  ℕ, ◌≡◌, ◌≤◌, ◌+◌, String, Bool, true, false, List, [], ◌∷◌, ◌++◌, leb, string_eq, ◌==◌,
  if◌then◌else◌, length, All, refl, arith, ap, ◌∙◌, append-nil, eq_of_beq, Bool-cases, inl, inr,
}
use vibe_connect.Base.Dict.{put, get-put}
use vibe_connect.Enrollment.Limiter.{Failures, failures_of, drop_old, count, append_failure}

-- The instants whose window reaches past `now`.
unfoldable pub live : ℕ → ℕ → List ℕ → List ℕ
live w now [] = []
live w now (t ∷ ts) = let rest = live w now ts in if leb (t + w) now then rest else t ∷ rest

live-append : (w now : ℕ) (xs ys : List ℕ) → live w now (xs ++ ys) ≡ live w now xs ++ live w now ys
unfolding live
live-append w now [] ys = refl
live-append w now (x ∷ xs) ys = ground (arith, live-append w now xs ys)

-- Every instant is at most the next one, and the last one is at most `now`.
abbrev pub Ordered : List ℕ → ℕ → Type 0
Ordered [] now = Unit
Ordered (t ∷ ts) now = (t ≤ now) × All (λ u. t ≤ u) ts × Ordered ts now

bounded_live :
    (w now t : ℕ) (ts : List ℕ) → leb (t + w) now ≡ false → All (λ u. t ≤ u) ts → live w now ts ≡ ts
unfolding live
bounded_live w now t [] h a = refl
bounded_live w now t (u ∷ ts) h a = ground (arith, bounded_live w now t ts h a.1)

drop_old-live :
    (w now : ℕ) (ts : List ℕ) (bound : ℕ) → Ordered ts bound → drop_old w now ts ≡ live w now ts
unfolding drop_old live
drop_old-live w now [] bound h = refl
drop_old-live w now (t ∷ ts) bound h =
    ground (arith, drop_old-live w now ts bound h.2, bounded_live w now t ts)

live-drop_old :
    (w now later : ℕ) (ts : List ℕ)
    → now ≤ later
    → live w later (drop_old w now ts) ≡ live w later ts
unfolding drop_old live
live-drop_old w now later [] h = refl
live-drop_old w now later (t ∷ ts) h = ground (arith, live-drop_old w now later ts h)

bounded_drop_old :
    (w now t : ℕ) (ts : List ℕ) → All (λ u. t ≤ u) ts → All (λ u. t ≤ u) (drop_old w now ts)
unfolding drop_old
bounded_drop_old w now t [] h = tt
bounded_drop_old w now t (u ∷ ts) h = ground (arith, bounded_drop_old w now t ts h.1)

Ordered-later :
    (ts : List ℕ) (bound later : ℕ) → bound ≤ later → Ordered ts bound → Ordered ts later
Ordered-later [] bound later le h = tt
Ordered-later (t ∷ ts) bound later le h =
    (omega (arith, h.0), h.1, Ordered-later ts bound later le h.2)

drop_old-Ordered :
    (w now : ℕ) (ts : List ℕ) (bound later : ℕ)
    → bound ≤ later
    → Ordered ts bound
    → Ordered (drop_old w now ts) later
unfolding drop_old
drop_old-Ordered w now [] bound later le h = tt
drop_old-Ordered w now (t ∷ ts) bound later le h =
    ground
      (arith, Ordered-later ts bound later le h.2, drop_old-Ordered w now ts bound later le h.2)

append-Ordered :
    (ts : List ℕ) (bound later : ℕ)
    → bound ≤ later
    → Ordered ts bound
    → Ordered (ts ++ (later ∷ [])) later
append-Ordered [] bound later le h = (omega arith, tt, tt)
append-Ordered (t ∷ ts) bound later le h =
    (omega (arith, h.0), all_append t ts h.1, append-Ordered ts bound later le h.2)
  where
    all_append : (u : ℕ) (us : List ℕ) → All (λ v. t ≤ v) us → All (λ v. t ≤ v) (us ++ (later ∷ []))
    all_append u [] a = (omega (arith, h.0), tt)
    all_append u (v ∷ us) a = (a.0, all_append u us a.1)

-- A deque at an instant, against all the instants that were recorded: they agree on every window
-- from then on.
pub record Tracks (w now : ℕ) (recorded deque : List ℕ) : Type 0 where
  pub ordered : Ordered deque now
  pub same : (later : ℕ) → now ≤ later → live w later deque ≡ live w later recorded

module _ (w now later : ℕ) (recorded deque : List ℕ) (le : now ≤ later)
    (h : Tracks w now recorded deque) where
  Tracks-later : Tracks w later recorded deque
  Tracks-later = record {
    ordered = Ordered-later deque now later le h.ordered;
    same = λ t k. h.same t (omega arith);
  }

  drop_old-Tracks : Tracks w later recorded (drop_old w later deque)
  drop_old-Tracks = record {
    ordered = drop_old-Ordered w later deque now later le h.ordered;
    same = λ t k. live-drop_old w later t deque k ∙ h.same t (omega arith);
  }

  append-Tracks : Tracks w later (recorded ++ (later ∷ [])) (deque ++ (later ∷ []))
  append-Tracks = record {
    ordered = append-Ordered deque now later le h.ordered;
    same = λ t k. rw (live-append, live-append, h.same t (omega arith));
  }

  counted : length (drop_old w later deque) ≡ length (live w later recorded)
  counted = ap (length {A = ℕ}) (drop_old-live w later deque now h.ordered ∙ h.same later le)

failures_of-put :
    (key k : String) (v : List ℕ) (d : Failures)
    → failures_of k (put key v d) ≡ (if key == k then v else failures_of k d)
unfolding failures_of
failures_of-put key k v d = ground (arith, get-put key k v d)

-- Every key's deque tracks what was recorded for the key.
abbrev pub AllTrack : ℕ → ℕ → (String → List ℕ) → Failures → Type 0
AllTrack w now recorded d = (k : String) → Tracks w now (recorded k) (failures_of k d)

abbrev pub one_if : Bool → ℕ → List ℕ
one_if true t = t ∷ []
one_if false t = []

module _ (w now later : ℕ) (recorded : String → List ℕ) (d : Failures) (key : String)
    (le : now ≤ later) (h : AllTrack w now recorded d) where
  pub AllTrack-later : AllTrack w later recorded d
  AllTrack-later k = Tracks-later w now later (recorded k) (failures_of k d) le (h k)

  pub count-AllTrack : AllTrack w later recorded (count w key later d).1
  unfolding count
  count-AllTrack k = rw failures_of-put (elim (Bool-cases (key == k)) [
    | inl e ↦
        rw (e, eq_of_beq key k e)
          (drop_old-Tracks w now later (recorded k) (failures_of k d) le (h k))
    | inr e ↦ rw e (AllTrack-later k)
  ])

  pub count_lem : (count w key later d).0 ≡ length (live w later (recorded key))
  unfolding count
  count_lem = counted w now later (recorded key) (failures_of key d) le (h key)

  pub append_failure-AllTrack :
      AllTrack w later (λ k. recorded k ++ one_if (key == k) later) (append_failure key later d)
  unfolding append_failure
  append_failure-AllTrack k = rw failures_of-put (elim (Bool-cases (key == k)) [
    | inl e ↦
        rw (e, eq_of_beq key k e)
          (append-Tracks w now later (recorded k) (failures_of k d) le (h k))
    | inr e ↦ rw (e, append-nil) (AllTrack-later k)
  ])
