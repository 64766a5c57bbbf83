-- ===== src/Enrollment/Limiter/History.antt =====
-- EnrollmentRateLimiter over a history of calls: who is limited, and who is not.
use vibe_connect.Base.{
  ℕ, ◌≡◌, ◌≤◌, String, ◌||◌, List, [], ◌∷◌, ◌++◌, leb, string_eq, ◌==◌, length, refl, arith,
  append_assoc, append-nil, Bool-cases, inl, inr,
}
use vibe_connect.Base.Dict.{get}
use vibe_connect.Enrollment.Limiter.{
  EnrollmentRateLimiter, new_limiter, failures_of, count, is_limited, record_failure, window,
}
use vibe_connect.Enrollment.Limiter.Window.{
  live, AllTrack, AllTrack-later, one_if, count-AllTrack, count_lem, append_failure-AllTrack,
}

-- `record_failure` and `is_limited`, of a source and a token, at an instant.
pub data LimiterCall : Type 0 where
  fails asks : String → String → ℕ → LimiterCall

abbrev pub instant : LimiterCall → ℕ
instant (fails source token t) = t
instant (asks source token t) = t

unfoldable pub after_call : LimiterCall → EnrollmentRateLimiter → EnrollmentRateLimiter
after_call (fails source token t) limiter = record_failure source token t limiter
after_call (asks source token t) limiter = (is_limited source token t limiter).1

unfoldable pub after_calls : List LimiterCall → EnrollmentRateLimiter → EnrollmentRateLimiter
after_calls [] limiter = limiter
after_calls (c ∷ cs) limiter = after_calls cs (after_call c limiter)

-- From `start` to `end` the instants do not go back.
abbrev pub Chronological : ℕ → List LimiterCall → ℕ → Type 0
Chronological start [] end = start ≤ end
Chronological start (c ∷ cs) end = (start ≤ instant c) × Chronological (instant c) cs end

abbrev pub source_instants : String → LimiterCall → List ℕ
source_instants key (fails source token t) = one_if (source == key) t
source_instants key (asks source token t) = []

abbrev pub token_instants : String → LimiterCall → List ℕ
token_instants key (fails source token t) = one_if (token == key) t
token_instants key (asks source token t) = []

-- All the failures of a source or of a token, the oldest first.
unfoldable pub collected : (LimiterCall → List ℕ) → List LimiterCall → List ℕ
collected f [] = []
collected f (c ∷ cs) = f c ++ collected f cs

module _ (max_source_failures max_token_failures window_seconds : ℕ) where
  abbrev w : ℕ
  w = window (new_limiter max_source_failures max_token_failures window_seconds)

  -- The limiter has its settings, and both its deques track what was recorded.
  record Follows (now : ℕ) (sources tokens : String → List ℕ) (l : EnrollmentRateLimiter)
      : Type 0 where
    most_sources : l.max_source_failures ≡ max_source_failures
    most_tokens : l.max_token_failures ≡ max_token_failures
    seconds : l.window_seconds ≡ window_seconds
    tracked_sources : AllTrack w now sources l.source_failures
    tracked_tokens : AllTrack w now tokens l.token_failures

  module _ (now later : ℕ) (sources tokens : String → List ℕ) (source token : String)
      (l : EnrollmentRateLimiter) (le : now ≤ later) (f : Follows now sources tokens l) where
    window_kept : window l ≡ w
    window_kept = omega (arith, f.seconds)

    record_failure-Follows :
        Follows later
          (λ k. sources k ++ one_if (source == k) later)
          (λ k. tokens k ++ one_if (token == k) later)
          (record_failure source token later l)
    unfolding record_failure
    record_failure-Follows = record {
      most_sources = f.most_sources;
      most_tokens = f.most_tokens;
      seconds = f.seconds;
      tracked_sources =
          append_failure-AllTrack w now later sources l.source_failures source le f.tracked_sources;
      tracked_tokens =
          append_failure-AllTrack w now later tokens l.token_failures token le f.tracked_tokens;
    }

    is_limited-Follows : Follows later sources tokens (is_limited source token later l).1
    unfolding is_limited
    is_limited-Follows =
        rw window_kept
          (elim (Bool-cases
            (leb l.max_source_failures (count w source later l.source_failures).0)) [
              | inl many ↦ rw many (record {
                most_sources = f.most_sources;
                most_tokens = f.most_tokens;
                seconds = f.seconds;
                tracked_sources =
                    count-AllTrack w now later sources l.source_failures source le
                      f.tracked_sources;
                tracked_tokens =
                    AllTrack-later w now later tokens l.token_failures token le f.tracked_tokens;
              })
              | inr few ↦ rw few (record {
                most_sources = f.most_sources;
                most_tokens = f.most_tokens;
                seconds = f.seconds;
                tracked_sources =
                    count-AllTrack w now later sources l.source_failures source le
                      f.tracked_sources;
                tracked_tokens =
                    count-AllTrack w now later tokens l.token_failures token le f.tracked_tokens;
              })
            ])

    is_limited_lem : (is_limited source token later l).0 ≡ (
        leb max_source_failures (length (live w later (sources source)))
        || leb max_token_failures (length (live w later (tokens token))))
    unfolding is_limited
    is_limited_lem =
        rw
          (
            window_kept,
            f.most_sources,
            f.most_tokens,
            count_lem w now later sources l.source_failures source le f.tracked_sources,
            count_lem w now later tokens l.token_failures token le f.tracked_tokens,
          )
          (elim (Bool-cases (leb max_source_failures (length (live w later (sources source))))) [
            | inl many ↦ rw many
            | inr few ↦ rw few
          ])

  Follows-same :
      (now : ℕ) (s s' t t' : String → List ℕ) (l : EnrollmentRateLimiter)
      → ((k : String) → s k ≡ s' k)
      → ((k : String) → t k ≡ t' k)
      → Follows now s t l
      → Follows now s' t' l
  Follows-same now s s' t t' l es et f = record {
    most_sources = f.most_sources;
    most_tokens = f.most_tokens;
    seconds = f.seconds;
    tracked_sources = λ k. rw (← es k) (f.tracked_sources k);
    tracked_tokens = λ k. rw (← et k) (f.tracked_tokens k);
  }

  after_calls-Follows :
      (cs : List LimiterCall) (start end : ℕ) (s t : String → List ℕ) (l : EnrollmentRateLimiter)
      → Chronological start cs end
      → Follows start s t l
      → Follows end
          (λ k. s k ++ collected (source_instants k) cs)
          (λ k. t k ++ collected (token_instants k) cs)
          (after_calls cs l)
  unfolding after_calls after_call collected
  after_calls-Follows [] start end s t l le f = record {
    most_sources = f.most_sources;
    most_tokens = f.most_tokens;
    seconds = f.seconds;
    tracked_sources = λ k.
        rw append-nil (AllTrack-later w start end s l.source_failures "" le f.tracked_sources k);
    tracked_tokens =
        λ k. rw append-nil (AllTrack-later w start end t l.token_failures "" le f.tracked_tokens k);
  }
  after_calls-Follows (fails source token now ∷ cs) start end s t l (le, chrono) f =
      Follows-same end _ _ _ _ _ (λ k. append_assoc (s k) _ _) (λ k. append_assoc (t k) _ _)
        (after_calls-Follows cs now end _ _ (record_failure source token now l) chrono
          (record_failure-Follows start now s t source token l le f))
  after_calls-Follows (asks source token now ∷ cs) start end s t l (le, chrono) f =
      after_calls-Follows cs now end s t (is_limited source token now l).1 chrono
        (is_limited-Follows start now s t source token l le f)

  new_limiter-Follows :
      Follows 0
        (λ k. [])
        (λ k. [])
        (new_limiter max_source_failures max_token_failures window_seconds)
  unfolding failures_of get live
  new_limiter-Follows = record {
    most_sources = refl;
    most_tokens = refl;
    seconds = refl;
    tracked_sources = λ k. record { ordered = tt; same = λ t h. refl };
    tracked_tokens = λ k. record { ordered = tt; same = λ t h. refl };
  }

  -- After calls whose instants do not go back, a source and a token are limited exactly when the
  -- failures recorded for the source within the window before now reach the source's limit, or
  -- those for the token its limit: pruning never loses a failure that counts.
  pub is_limited-after_calls :
      (cs : List LimiterCall) (now : ℕ) (source token : String)
      → Chronological 0 cs now
      → (is_limited source token now
          (after_calls cs (new_limiter max_source_failures max_token_failures window_seconds))).0
        ≡ (leb max_source_failures (length (live w now (collected (source_instants source) cs)))
            || leb max_token_failures (length (live w now (collected (token_instants token) cs))))
  is_limited-after_calls cs now source token h =
      is_limited_lem now now _ _ source token _ (omega arith)
        (after_calls-Follows cs 0 now _ _ _ h new_limiter-Follows)
