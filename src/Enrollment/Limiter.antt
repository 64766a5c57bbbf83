-- ===== src/Enrollment/Limiter.antt =====
-- server/enrollment.py: `EnrollmentRateLimiter`. A deque is a list with its oldest entry first; the
-- window's end `failure <= now - window` is written as a sum.
pub mod Window
pub mod History
use vibe_connect.Base.{
  ℕ, ◌+◌, ◌*◌, String, Bool, true, Option, none, some, List, [], ◌∷◌, ◌++◌, leb, string_eq,
  if◌then◌else◌, length,
}
use vibe_connect.Base.Dict.{Dict, get, put}

abbrev pub Failures : Type 0
Failures = Dict String (List ℕ)

pub record EnrollmentRateLimiter : Type 0 where
  pub max_source_failures : ℕ
  pub max_token_failures : ℕ
  pub window_seconds : ℕ
  pub source_failures : Failures
  pub token_failures : Failures

abbrev pub new_limiter : ℕ → ℕ → ℕ → EnrollmentRateLimiter
new_limiter max_source_failures max_token_failures window_seconds = record {
  max_source_failures = max_source_failures;
  max_token_failures = max_token_failures;
  window_seconds = window_seconds;
  source_failures = [];
  token_failures = [];
}

abbrev pub or_empty : Option (List ℕ) → List ℕ
or_empty none = []
or_empty (some xs) = xs

-- An entry of a `defaultdict(deque)`.
unfoldable pub failures_of : String → Failures → List ℕ
failures_of key failures = or_empty (get key failures)

abbrev pub window : EnrollmentRateLimiter → ℕ
window limiter = limiter.window_seconds * 1_000_000

-- The loop of `_count`.
unfoldable pub drop_old : ℕ → ℕ → List ℕ → List ℕ
drop_old window now [] = []
drop_old window now (t ∷ ts) =
    let rest = drop_old window now ts in if leb (t + window) now then rest else t ∷ ts

-- `_count` on an entry, which is created where it is missing: the count, and the entries after it.
unfoldable pub count : ℕ → String → ℕ → Failures → ℕ × Failures
unfolding drop_old failures_of
count window key now failures =
    let left = drop_old window now (failures_of key failures) in
    (length left, put key left failures)

-- `or` leaves the token's entry alone where the source is limited.
unfoldable pub is_limited :
    String → String → ℕ → EnrollmentRateLimiter → Bool × EnrollmentRateLimiter
unfolding count
is_limited source_address token_hash now limiter =
    let (n, sources) = count (window limiter) source_address now limiter.source_failures in
    let (m, tokens) = count (window limiter) token_hash now limiter.token_failures in
    if leb limiter.max_source_failures n
    then (true, record limiter { source_failures = sources })
    else (
      leb limiter.max_token_failures m,
      record limiter { source_failures = sources; token_failures = tokens },
    )

unfoldable pub append_failure : String → ℕ → Failures → Failures
unfolding failures_of
append_failure key now failures = put key (failures_of key failures ++ (now ∷ [])) failures

unfoldable pub record_failure : String → String → ℕ → EnrollmentRateLimiter → EnrollmentRateLimiter
unfolding append_failure
record_failure source_address token_hash now limiter = record limiter {
  source_failures = append_failure source_address now limiter.source_failures;
  token_failures = append_failure token_hash now limiter.token_failures;
}
