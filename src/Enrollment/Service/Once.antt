-- ===== src/Enrollment/Service/Once.antt =====
-- EnrollmentService.enroll: the token that a success took.
use vibe_connect.Base.{
  ℕ, ◌≡◌, ◌≢◌, String, Bool, Option, some, List, Result, ok, enrollment_error, string_eq, ap, sym,
  ◌∙◌, or_raise-eq-ok, arith,
}
use vibe_connect.Base.Action.{raise, lift, raise_if, bind-eq-ok, raise_if_keeps}
use vibe_connect.Base.Dict.{get}
use vibe_connect.Identifiers.{validate_node_name}
use vibe_connect.Secret.{SecretValue, secret_value, sha256_hex}
use vibe_connect.Enrollment.Store.{
  EnrollmentTokenRecord, EnrollmentStore, TokenRow, consume_enrollment_token,
}
use vibe_connect.Enrollment.Store.SingleUse.{
  IsSpent, IsUsable, consumed-IsSpent, spent_refused, consume_enrollment_token_iff,
}
use vibe_connect.Enrollment.Requests.{
  EnrollmentPlatform, EnrollmentRequest, EnrollmentResponse, EnrollmentState,
}
use vibe_connect.Enrollment.Service.{
  limited, consumed, claim_token, persist_enrolled, hash_encoded, try_enroll,
  record_enrollment_failure, or_failed, enroll,
}
use vibe_connect.Enrollment.Service.Outcome.{
  persist_enrolled-Kept, ServiceCall, after_service_calls, after_service_calls-Spent,
  GeneratesOthers,
}

hash_encoded-ok :
    (platform : EnrollmentPlatform) (secret : SecretValue) (hash : String)
    → hash_encoded platform secret ≡ ok hash
    → hash ≡ sha256_hex platform.sha256_hex_text secret
unfolding hash_encoded
hash_encoded-ok platform secret hash h = ground arith

module _ (platform : EnrollmentPlatform) where
  limited_same :
      (source t : String) (now : ℕ) (s s' : EnrollmentState) (answer : Bool)
      → limited source t now s ≡ (ok answer, s')
      → s'.store ≡ s.store
  unfolding limited
  limited_same source t now s s' answer e = sym (ap (λ p. p.1.store) e)

  consumed_lem :
      (t n : String) (now : ℕ) (s s' : EnrollmentState) (o : Option EnrollmentTokenRecord)
      → consumed t n now s ≡ (ok o, s')
      → ((consume_enrollment_token t n now s.store).0 ≡ o)
        × ((consume_enrollment_token t n now s.store).1 ≡ s'.store)
  unfolding consumed
  consumed_lem t n now s s' o e = (cc (ap (λ p. p.0) e), ap (λ p. p.1.store) e)

  -- What a claim that succeeded did to the store.
  abbrev Claims :
      String → String → ℕ → EnrollmentStore → EnrollmentTokenRecord → EnrollmentStore → Type 0
  Claims t n now before found after =
      ((consume_enrollment_token t n now before).0 ≡ some found) × (IsSpent t after)

  claim_token-Claims :
      (source t n : String) (now : ℕ) (s s' : EnrollmentState) (found : EnrollmentTokenRecord)
      → claim_token platform source t n now s ≡ (ok found, s')
      → Claims t n now s.store found s'.store
  unfolding claim_token lift
  claim_token-Claims source t n now s s' found h =
      let (answer, s1, e1, h1) = bind-eq-ok (limited source t now) _ h in
      let (u, s2, e2, h2) = bind-eq-ok (raise_if answer (enrollment_error "rate_limited")) _ h1 in
      let (o, s3, e3, h3) = bind-eq-ok (consumed t n now) _ h2 in
      let same : s2.store ≡ s.store =
        ap (λ x. x.store) (sym (raise_if_keeps answer _ s1 s2 e2))
        ∙ limited_same source t now s s1 answer e1 in
      let taken : o ≡ some found = or_raise-eq-ok o _ (ap (λ p. p.0) h3) in
      let (first, after) = consumed_lem t n now s2 s3 o e3 in
      let got = ap (λ x. (consume_enrollment_token t n now x).0) (sym same) ∙ first ∙ taken in
      (
        got,
        rw (← ap (λ p. p.1.store) h3, ← after)
            (consumed-IsSpent t n now s2.store found (first ∙ taken)),
      )

  secret_value-reveal :
      (text : String) (secret : SecretValue) → secret_value text ≡ ok secret → secret.reveal ≡ text
  unfolding secret_value
  secret_value-reveal text secret h = ground arith

  abbrev hash_of : EnrollmentRequest → String
  hash_of request = platform.sha256_hex_text request.token

  -- What an enrollment that succeeded did to the store.
  record Enrolls (request : EnrollmentRequest) (now : ℕ) (before after : EnrollmentStore)
      : Type 0 where
    node : String
    found : EnrollmentTokenRecord
    valid : validate_node_name request.node_name ≡ ok node
    claimed : (consume_enrollment_token (hash_of request) node now before).0 ≡ some found
    spent : IsSpent (hash_of request) after

  try_enroll-Enrolls :
      (request : EnrollmentRequest) (now id : ℕ) (secret : SecretValue) (s s' : EnrollmentState)
      (r : EnrollmentResponse)
      → try_enroll platform request now id secret s ≡ (ok r, s')
      → Enrolls request now s.store s'.store
  unfolding try_enroll lift sha256_hex
  try_enroll-Enrolls request now id secret s s' r h =
      let (n, s1, e1, h1) = bind-eq-ok (lift (validate_node_name request.node_name)) _ h in
      let (token, s2, e2, h2) = bind-eq-ok (lift (secret_value request.token)) _ h1 in
      let (hash, s4, e4, h4) = bind-eq-ok (lift (hash_encoded platform token)) _ h2 in
      let (found, s3, e3, h3) =
        bind-eq-ok (claim_token platform request.source_address hash n now) _ h4 in
      let same = hash_encoded-ok platform token hash (ap (λ p. p.0) e4) in
      enrolled n token found s1 s4 s3 (ap (λ p. p.0) e1) (ap (λ p. p.0) e2)
        (ap (λ p. p.1) e1 ∙ ap (λ p. p.1) e2 ∙ ap (λ p. p.1) e4) (rw same at e3) h3
    where
      enrolled :
          (n : String) (token : SecretValue) (found : EnrollmentTokenRecord)
          (s1 s2 s3 : EnrollmentState)
          → validate_node_name request.node_name ≡ ok n
          → secret_value request.token ≡ ok token
          → s ≡ s2
          → claim_token platform request.source_address
              (sha256_hex platform.sha256_hex_text token)
              n
              now
              s2
            ≡ (ok found, s3)
          → persist_enrolled platform request n found now id secret s3 ≡ (ok r, s')
          → Enrolls request now s.store s'.store
      enrolled n token found s1 s2 s3 valid long same claim rest =
          let hash : sha256_hex platform.sha256_hex_text token ≡ hash_of request =
            ap platform.sha256_hex_text (secret_value-reveal request.token token long) in
          let (claimed, spent) =
            claim_token-Claims request.source_address _ n now s2 s3 found claim in
          let after =
            (persist_enrolled-Kept (sha256_hex platform.sha256_hex_text token) platform request n
                found now id secret).from
              s3 spent in
          record {
            node = n;
            found = found;
            valid = valid;
            claimed = rw (same, ← hash) claimed;
            spent = rw (← hash, ← ap (λ p. p.1) rest) after;
          }

  or_failed_ok :
      (request : EnrollmentRequest) (now : ℕ) (x : Result EnrollmentResponse × EnrollmentState)
      (r : EnrollmentResponse) (s' : EnrollmentState)
      → or_failed platform request now x ≡ (ok r, s')
      → x ≡ (ok r, s')
  unfolding or_failed raise
  or_failed_ok request now (ok q, s) r s' h = h
  or_failed_ok request now (Result.raise e, s) r s' h =
      let (u, s1, e1, h1) = bind-eq-ok (record_enrollment_failure platform request now e) _ h in
      absurd (cc (ap (λ p. p.0) h1))

  enroll-Enrolls :
      (request : EnrollmentRequest) (now id : ℕ) (secret : SecretValue) (s s' : EnrollmentState)
      (r : EnrollmentResponse)
      → enroll platform request now id secret s ≡ (ok r, s')
      → Enrolls request now s.store s'.store
  unfolding enroll
  enroll-Enrolls request now id secret s s' r h =
      try_enroll-Enrolls request now id secret s s' r (or_failed_ok request now _ r s' h)

  -- An enrollment succeeds only for a node name that is valid, with a token that was created for
  -- that node and is neither used, nor replaced, nor expired; and the token is used afterwards.
  pub enroll-IsUsable :
      (request : EnrollmentRequest) (now id : ℕ) (secret : SecretValue) (s s' : EnrollmentState)
      (r : EnrollmentResponse)
      → enroll platform request now id secret s ≡ (ok r, s')
      → (node : String) × (row : TokenRow) × (validate_node_name request.node_name ≡ ok node)
        × (get (platform.sha256_hex_text request.token) s.store.tokens ≡ some row)
        × IsUsable node now row
        × IsSpent (platform.sha256_hex_text request.token) s'.store
  enroll-IsUsable request now id secret s s' r h =
      let e = enroll-Enrolls request now id secret s s' r h in
      let (row, stored, usable, named) =
        (consume_enrollment_token_iff (hash_of request) e.node now s.store e.found).0 e.claimed in
      (e.node, row, e.valid, stored, usable, e.spent)

  -- A token enrolls once: after an enrollment that succeeded and any further calls of the service
  -- that generate no token of the same hash, no request with that token succeeds, whatever node,
  -- keys and source it names.
  pub enroll_once :
      (request again : EnrollmentRequest) (now later id id' : ℕ) (secret secret' : SecretValue)
      (s s' : EnrollmentState) (r q : EnrollmentResponse) (cs : List ServiceCall)
      → enroll platform request now id secret s ≡ (ok r, s')
      → GeneratesOthers platform (platform.sha256_hex_text request.token) cs
      → again.token ≡ request.token
      → (enroll platform again later id' secret' (after_service_calls platform cs s')).0 ≢ ok q
  enroll_once request again now later id id' secret secret' s s' r q cs h others same succeeded =
      let first = enroll-Enrolls request now id secret s s' r h in
      let kept = after_service_calls-Spent platform (hash_of request) cs s' others first.spent in
      let t = after_service_calls platform cs s' in
      let second = enroll-Enrolls again later id' secret' t _ q (pair_of _ q succeeded) in
      let refused = spent_refused (hash_of request) second.node later t.store kept in
      cc (
        ap
              (λ token.
                (consume_enrollment_token (platform.sha256_hex_text token) second.node later
                  t.store).0)
              same
            ∙ refused,
        second.claimed,
      )
    where
      pair_of :
          (x : Result EnrollmentResponse × EnrollmentState) (q : EnrollmentResponse)
          → x.0 ≡ ok q
          → x ≡ (ok q, x.1)
      pair_of (a, b) q e = ap (λ a. (a, b)) e
