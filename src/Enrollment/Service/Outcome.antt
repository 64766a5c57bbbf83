-- ===== src/Enrollment/Service/Outcome.antt =====
-- EnrollmentService: what its methods do to a token that is used.
use vibe_connect.Base.{
  ℕ, ◌≢◌, String, Option, none, some, List, [], ◌∷◌, Result, ok, Error, enrollment_error, string_eq,
}
use vibe_connect.Base.Action.{Action, raise, modify, ◌>>◌}
use vibe_connect.Base.Action.Invariants.{Preserves, invariants}
use vibe_connect.Value.{Fields}
use vibe_connect.Secret.{SecretValue, sha256_hex}
use vibe_connect.Audit.Writer.{AuditEventType, AuditPlatform}
use vibe_connect.Enrollment.Store.{EnrollmentTokenRecord, create_enrollment_token, persist_agent}
use vibe_connect.Enrollment.Store.SingleUse.{IsSpent, create-IsSpent, consume-IsSpent}
use vibe_connect.Enrollment.Requests.{
  EnrollmentPlatform, EnrollmentRequest, EnrollmentResponse, EnrollmentState,
}
use vibe_connect.Enrollment.Service.{
  limited, consumed, written, audit, create_agent, claim_token, persist_enrolled, try_enroll,
  audit_failure, record_enrollment_failure, or_failed, enroll,
}

module _ (h : String) where
  abbrev pub Spent : EnrollmentState → Type 0
  Spent s = IsSpent h s.store

  abbrev Kept : {A : Type 0} → Action EnrollmentState A → Type 0
  Kept = Preserves Spent

  limited-Kept : (source t : String) (now : ℕ) → Kept (limited source t now)
  unfolding limited
  limited-Kept source t now = record { from = λ s p. p }

  consumed-Kept : (t n : String) (now : ℕ) → Kept (consumed t n now)
  unfolding consumed
  consumed-Kept t n now = record { from = λ s p. consume-IsSpent h t n now s.store p }

  written-Kept :
      (o : Option AuditPlatform) (t : AuditEventType) (actor : String) (fs : Fields) (id : Option ℕ)
      (n : Option String)
      → Kept (written o t actor fs id n)
  written-Kept none t actor fs id n = record { from = λ s p. p }
  written-Kept (some w) t actor fs id n = record { from = λ s p. p }

  module _ (platform : EnrollmentPlatform) where
    audit-Kept :
        (t : AuditEventType) (actor : String) (fs : Fields) (id : Option ℕ) (n : Option String)
        → Kept (audit platform t actor fs id n)
    unfolding audit
    audit-Kept t actor fs id n = written-Kept platform.audit t actor fs id n

    claim_token-Kept : (source t n : String) (now : ℕ) → Kept (claim_token platform source t n now)
    unfolding claim_token
    claim_token-Kept source t n now = search (invariants, limited-Kept, consumed-Kept)

    pub persist_enrolled-Kept :
        (request : EnrollmentRequest) (n : String) (found : EnrollmentTokenRecord) (now id : ℕ)
        (secret : SecretValue)
        → Kept (persist_enrolled platform request n found now id secret)
    unfolding persist_enrolled persist_agent
    persist_enrolled-Kept request n found now id secret = search (invariants, audit-Kept) depth 9

    try_enroll-Kept :
        (request : EnrollmentRequest) (now id : ℕ) (secret : SecretValue)
        → Kept (try_enroll platform request now id secret)
    unfolding try_enroll
    try_enroll-Kept request now id secret =
        search (invariants, claim_token-Kept, persist_enrolled-Kept) depth 9

    audit_failure-Kept :
        (o : Option AuditPlatform) (request : EnrollmentRequest) (token_hash : String) (e : Error)
        → Kept (audit_failure platform o request token_hash e)
    unfolding audit_failure
    audit_failure-Kept none request token_hash e = record { from = λ s p. p }
    audit_failure-Kept (some w) request token_hash e = record { from = λ s p. p }

    record_failure-Kept :
        (request : EnrollmentRequest) (now : ℕ) (e : Error)
        → Kept (record_enrollment_failure platform request now e)
    unfolding record_enrollment_failure
    record_failure-Kept request now e = search (invariants, audit_failure-Kept) depth 9

    failed-Kept :
        (request : EnrollmentRequest) (now : ℕ) (e : Error)
        → Kept (
            record_enrollment_failure platform request now e
            >> raise {A = EnrollmentResponse} (enrollment_error "enrollment failed"))
    failed-Kept request now e = search (invariants, record_failure-Kept)

    or_failed-Spent :
        (request : EnrollmentRequest) (now : ℕ) (r : Result EnrollmentResponse × EnrollmentState)
        → Spent r.1
        → Spent (or_failed platform request now r).1
    unfolding or_failed
    or_failed-Spent request now (ok response, s) p = p
    or_failed-Spent request now (Result.raise e, s) p = (failed-Kept request now e).from s p

    pub enroll-Spent :
        (request : EnrollmentRequest) (now id : ℕ) (secret : SecretValue) (s : EnrollmentState)
        → Spent s
        → Spent (enroll platform request now id secret s).1
    unfolding enroll
    enroll-Spent request now id secret s p =
        or_failed-Spent request now _ ((try_enroll-Kept request now id secret).from s p)

    module _ (token : SecretValue) (other : sha256_hex platform.sha256_hex_text token ≢ h) where
      created-Kept :
          (n : String) (labels : List String) (key by : String) (expires now : ℕ)
          → Kept (
              modify λ s. record s {
                store =
                    create_enrollment_token
                      (sha256_hex platform.sha256_hex_text token)
                      n
                      labels
                      key
                      by
                      expires
                      now
                      s.store;
              })
      unfolding modify
      created-Kept n labels key by expires now = record {
        from = λ s p. create-IsSpent h _ n labels key by expires now s.store other p;
      }

      pub create_agent-Kept :
          (n : String) (labels : List String) (key by : String) (now created_at : ℕ)
          → Kept (create_agent platform n labels key by now created_at token)
      unfolding create_agent
      create_agent-Kept n labels key by now created_at =
          search (invariants, created-Kept, audit-Kept) depth 9

-- What happens to the service: an agent is created with a fresh token, or a request comes in.
pub data ServiceCall : Type 0 where
  creates : String → List String → String → String → ℕ → ℕ → SecretValue → ServiceCall
  requests : EnrollmentRequest → ℕ → ℕ → SecretValue → ServiceCall

module _ (platform : EnrollmentPlatform) where
  unfoldable pub after_service_call : ServiceCall → EnrollmentState → EnrollmentState
  after_service_call (creates n labels key by now created_at token) s =
      (create_agent platform n labels key by now created_at token s).1
  after_service_call (requests request now id secret) s =
      (enroll platform request now id secret s).1

  unfoldable pub after_service_calls : List ServiceCall → EnrollmentState → EnrollmentState
  after_service_calls [] s = s
  after_service_calls (c ∷ cs) s = after_service_calls cs (after_service_call c s)

  -- No call creates a token with this hash; a token is random.
  abbrev pub GeneratesOthers : String → List ServiceCall → Type 0
  GeneratesOthers h [] = Unit
  GeneratesOthers h (creates n labels key by now created_at token ∷ cs) =
      (sha256_hex platform.sha256_hex_text token ≢ h) × GeneratesOthers h cs
  GeneratesOthers h (_ ∷ cs) = GeneratesOthers h cs

  pub after_service_calls-Spent :
      (h : String) (cs : List ServiceCall) (s : EnrollmentState)
      → GeneratesOthers h cs
      → Spent h s
      → Spent h (after_service_calls cs s)
  unfolding after_service_calls after_service_call
  after_service_calls-Spent h [] s g p = p
  after_service_calls-Spent h (creates n labels key by now created_at token ∷ cs) s g p =
      after_service_calls-Spent h cs _ g.1
        ((create_agent-Kept h platform token g.0 n labels key by now created_at).from s p)
  after_service_calls-Spent h (requests request now id secret ∷ cs) s g p =
      after_service_calls-Spent h cs _ g (enroll-Spent h platform request now id secret s p)
