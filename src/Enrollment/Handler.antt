-- ===== src/Enrollment/Handler.antt =====
-- server/enrollment.py: `EnrollmentResponse.to_json` and `enroll_handler`, which answers every
-- refusal alike. `repr` is `str` of a value that is no text, `uuid_text` that of a UUID.
use vibe_connect.Base.{
  ℕ, ◌≡◌, ◌⊎◌, inl, inr, false, Bool-cases, String, Option, none, some, Result, ok, raise,
  enrollment_error, ◌==◌, string_eq, if◌then◌else◌, refl,
}
use vibe_connect.Base.Action.{Action, ◌>>=◌}
use vibe_connect.Value.{Value, str, int, pos, dict, Fields, end, field, get_field}
use vibe_connect.Secret.{SecretValue, secret_value, too_short, sha256_hex}
use vibe_connect.Enrollment.Requests.{
  unicode_encode_error, EnrollmentPlatform, EnrollmentRequest, EnrollmentResponse, EnrollmentState,
}
use vibe_connect.Enrollment.Service.{
  record_enrollment_failure, hash_encoded, best_effort_token_hash, or_failed, try_enroll, enroll,
}

pub record HttpResponse : Type 0 where
  pub status : ℕ
  pub body : Fields

-- `web.json_response(GENERIC_ENROLLMENT_ERROR, status=400)`
abbrev pub generic_enrollment_error : HttpResponse
generic_enrollment_error = record {
  status = 400;
  body = field "error" (str "enrollment failed") end;
}

module _ (uuid_text : ℕ → String) where
  unfoldable pub to_json : EnrollmentResponse → Fields
  to_json response = field "agent_id" (str (uuid_text response.agent_id)) (
      field "agent_x509_cert" (str response.agent_x509_cert) (
        field "tunnel_ca_bundle" (str response.tunnel_ca_bundle) (
          field "tunnel_host" (str response.tunnel_host) (
            field "tunnel_port" (int (pos response.tunnel_port))
              (field "tunnel_secret" (str response.tunnel_secret.reveal) end)))))

  -- The response of the handler's `try`; an exception that is no EnrollmentError passes.
  unfoldable pub answered :
      Result EnrollmentResponse × EnrollmentState → Result HttpResponse × EnrollmentState
  unfolding to_json
  answered (ok response, s) = (ok (record { status = 200; body = to_json response }), s)
  answered (raise (enrollment_error message), s) = (ok generic_enrollment_error, s)
  answered (raise e, s) = (raise e, s)

  -- What may come out of the handler.
  abbrev pub IsUniform : Result HttpResponse → Type 0
  IsUniform r =
      (r ≡ ok generic_enrollment_error)
      ⊎ ((response : EnrollmentResponse) × (r
            ≡ ok (record { status = 200; body = to_json response })))

  module _ (repr : Value → String) (platform : EnrollmentPlatform) where
    -- `str(body.get(key, ""))`
    unfoldable pub member : Option Value → String
    member none = ""
    member (some (str s)) = s
    member (some v) = repr v

    unfoldable pub request_of : Fields → String → EnrollmentRequest
    unfolding member
    request_of body source_address = record {
      node_name = member (get_field "node_name" body);
      token = member (get_field "token" body);
      agent_x509_public_key = member (get_field "agent_x509_public_key" body);
      node_ssh_host_public_key = member (get_field "node_ssh_host_public_key" body);
      source_address = source_address;
    }

    unfoldable pub or_unknown : Option String → String
    or_unknown none = "unknown"
    or_unknown (some remote) = if remote == "" then "unknown" else remote

    -- The handler on a body that `request.json` returned.
    unfoldable pub enroll_body :
        Value → Option String → ℕ → ℕ → SecretValue → Action EnrollmentState HttpResponse
    unfolding answered request_of or_unknown
    enroll_body (dict body) remote now agent_id tunnel_secret s =
        answered
          (enroll platform (request_of body (or_unknown remote)) now agent_id tunnel_secret s)
    enroll_body _ remote now agent_id tunnel_secret s = (ok generic_enrollment_error, s)

    -- The first argument is what `await request.json()` returns or raises.
    unfoldable pub enroll_handler :
        Result Value → Option String → ℕ → ℕ → SecretValue → Action EnrollmentState HttpResponse
    unfolding enroll_body
    enroll_handler (ok body) remote now agent_id tunnel_secret s =
        enroll_body body remote now agent_id tunnel_secret s
    enroll_handler (raise e) remote now agent_id tunnel_secret s = (raise e, s)

    -- A body whose token `encode` refuses.
    abbrev pub HasBadToken : Value → Type 0
    HasBadToken (dict fields) = platform.encodes (member (get_field "token" fields)) ≡ false
    HasBadToken _ = ⊥

    -- The answer to what `request.json` gave: uniform, or one of the two exceptions that pass.
    abbrev pub IsAnswered : Result Value → Result HttpResponse → Type 0
    IsAnswered (raise e) r = r ≡ raise e
    IsAnswered (ok body) r = IsUniform r ⊎ (HasBadToken body × (r ≡ raise unicode_encode_error))

    module _ (silent : platform.audit ≡ none) where
      best_effort-ok :
          (token : String)
          → ((hash : String) × (best_effort_token_hash platform token ≡ ok hash))
            ⊎ ((platform.encodes token ≡ false)
                × (best_effort_token_hash platform token ≡ raise unicode_encode_error))
      unfolding best_effort_token_hash hash_encoded secret_value
      best_effort-ok token = elim (Bool-cases (token == "")) [
        | inl empty ↦ inl ("empty", rw empty refl)
        | inr some_text ↦ rw some_text (elim (Bool-cases (too_short token)) [
          | inl short ↦ inl ("invalid", rw short refl)
          | inr long ↦ rw long (elim (Bool-cases (platform.encodes token)) [
            | inl good ↦
                inl (sha256_hex platform.sha256_hex_text (record { reveal = token }), rw good refl)
            | inr bad ↦ inr (bad, rw bad refl)
          ])
        ])
      ]

      -- The handler's answer where the token is hashed, and where it is not.
      or_failed-IsUniform :
          (request : EnrollmentRequest) (now : ℕ) (x : Result EnrollmentResponse × EnrollmentState)
          → IsUniform (answered (or_failed platform request now x)).0
            ⊎ ((platform.encodes request.token ≡ false)
                × ((answered (or_failed platform request now x)).0 ≡ raise unicode_encode_error))
      unfolding or_failed answered ◌>>=◌ record_enrollment_failure
      or_failed-IsUniform request now (ok response, s) = inl (inr (response, refl))
      or_failed-IsUniform request now (raise e, s) = elim (best_effort-ok request.token) [
        | inl (hash, h) ↦ inl (inl (rw (h, silent) refl))
        | inr (bad, h) ↦ inr (bad, rw h refl)
      ]

      -- Without an audit writer the endpoint answers every request whose body is JSON, whatever it
      -- holds and the reason of a refusal, with the one generic error or with the response of an
      -- enrollment that succeeded, unless encode refuses the token, where the UnicodeEncodeError may
      -- pass. Where the body is not JSON, the exception of request.json passes.
      pub enroll_handler-IsUniform :
          (body : Result Value) (remote : Option String) (now id : ℕ) (secret : SecretValue)
          (s : EnrollmentState)
          → IsAnswered body (enroll_handler body remote now id secret s).0
      unfolding enroll_handler enroll_body enroll
      enroll_handler-IsUniform (ok (dict fs)) remote now id secret s =
          or_failed-IsUniform (request_of fs (or_unknown remote)) now
            (try_enroll platform (request_of fs (or_unknown remote)) now id secret s)
      enroll_handler-IsUniform (ok _) remote now id secret s = inl (inl refl)
      enroll_handler-IsUniform (raise e) remote now id secret s = refl
