-- ===== src/Enrollment/Service.antt =====
-- server/enrollment.py: `EnrollmentService` over the in-memory store, and `enroll_handler`.
pub mod Outcome
pub mod Once
use vibe_connect.Base.{
  ℕ, ◌+◌, ◌*◌, String, Bool, true, false, not, Option, none, some, List, [], ◌∷◌, Result, ok, Error,
  enrollment_error, ◌==◌, ◌!=◌, string_eq, nat_eq, if◌then◌else◌, or_raise, ◌>>=◌ as bind_result,
}
use vibe_connect.Base.Action.{Action, pure, raise, lift, gets, modify, raise_if, ◌>>=◌, ◌>>◌}
use Prim.Native.Char.{char}
use vibe_connect.Text.{append, join}
use vibe_connect.Identifiers.{validate_node_name, validate_label}
use vibe_connect.Value.{
  Value, str, int, pos, list, dict, Items, nil, item, Fields, end, field, get_field,
}
use vibe_connect.Secret.{SecretValue, secret_value, sha256_hex}
use vibe_connect.HostKeys.{validate_node_ssh_host_public_key}
use vibe_connect.Tunnel.Auth.{IssuedAgentCertificate}
use vibe_connect.Audit.Scrub.{scrub_fields}
use vibe_connect.Audit.Writer.{
  AuditEventType, enrollment_token_created, enrollment_succeeded, enrollment_failed, AuditEvent,
  AuditPlatform, write,
}
use vibe_connect.Enrollment.Requests.{
  EnrollmentPlatform, EnrollmentConfigPackage, EnrollmentRequest, EnrollmentResponse,
  EnrollmentState, token_lifetime, newline, render_agent_conf, label_items, validate_labels,
  unicode_encode_error, as_enrollment_error, message_of, with_same_message,
}
use vibe_connect.Enrollment.Store.{
  EnrollmentTokenRecord, StoredAgent, EnrollmentStore, create_enrollment_token,
  consume_enrollment_token, persist_agent,
}
use vibe_connect.Enrollment.Limiter.{EnrollmentRateLimiter, is_limited, record_failure}

unfoldable pub limited : String → String → ℕ → Action EnrollmentState Bool
limited source_address token_hash now s =
    let (answer, limiter) = is_limited source_address token_hash now s.limiter in
    (ok answer, record s { limiter = limiter })

unfoldable pub consumed :
    String → String → ℕ → Action EnrollmentState (Option EnrollmentTokenRecord)
consumed token_hash node_name now s =
    let (found, store) = consume_enrollment_token token_hash node_name now s.store in
    (ok found, record s { store = store })

abbrev pub kept_audited :
    EnrollmentState → Result (Unit {0}) × List AuditEvent → Result (Unit {0}) × EnrollmentState
kept_audited s (r, audited) = (r, record s { audited = audited })

abbrev pub written :
    Option AuditPlatform
    → AuditEventType
    → String
    → Fields
    → Option ℕ
    → Option String
    → Action EnrollmentState (Unit {0})
written none event_type actor metadata agent_id node_name s = (ok tt, s)
written (some platform) event_type actor metadata agent_id node_name s =
    kept_audited s (write platform event_type actor metadata agent_id node_name s.audited)

module _ (platform : EnrollmentPlatform) where
  -- the call of the audit writer, where there is one
  unfoldable pub audit :
      AuditEventType
      → String
      → Fields
      → Option ℕ
      → Option String
      → Action EnrollmentState (Unit {0})
  audit event_type actor metadata agent_id node_name =
      written platform.audit event_type actor metadata agent_id node_name

  -- `token` is a fresh generated one, `created_at` the time that the store reads.
  unfoldable pub create_agent :
      String
      → List String
      → String
      → String
      → ℕ
      → ℕ
      → SecretValue
      → Action EnrollmentState EnrollmentConfigPackage
  create_agent node_name labels host_key created_by now created_at token = do
    safe_node_name ← lift (validate_node_name node_name)
    safe_labels ← lift (validate_labels labels)
    let token_hash = sha256_hex platform.sha256_hex_text token
    safe_host_key ←
        lift (with_same_message (validate_node_ssh_host_public_key platform.importable host_key))
    modify λ s. record s {
      store =
          create_enrollment_token token_hash safe_node_name safe_labels safe_host_key created_by
            (now + token_lifetime) created_at s.store;
    }
    audit enrollment_token_created created_by
        (field "labels" (list (label_items safe_labels)) (field "token_hash" (str token_hash) end))
        none (some safe_node_name)
    pure (record {
      node_name = safe_node_name;
      labels = safe_labels;
      token = token;
      token_hash = token_hash;
      agent_conf = render_agent_conf safe_node_name token safe_host_key;
      enrollment_tls_ca_bundle = platform.enrollment_tls_ca_bundle;
    })

  -- The token is consumed, or the request is refused.
  unfoldable pub claim_token :
      String → String → String → ℕ → Action EnrollmentState EnrollmentTokenRecord
  claim_token source_address token_hash node_name now = do
    answer ← limited source_address token_hash now
    raise_if answer (enrollment_error "rate_limited")
    found ← consumed token_hash node_name now
    lift (or_raise found (enrollment_error "invalid_token"))

  abbrev pub agent_of :
      EnrollmentRequest
      → String
      → EnrollmentTokenRecord
      → ℕ
      → SecretValue
      → IssuedAgentCertificate
      → StoredAgent
  agent_of request node_name found agent_id tunnel_secret issued = record {
    agent_id = agent_id;
    node_name = node_name;
    labels = found.labels;
    x509_public_key = request.agent_x509_public_key;
    node_ssh_host_public_key = found.node_ssh_host_public_key;
    tunnel_secret_hash = sha256_hex platform.sha256_hex_text tunnel_secret;
    cert_serial = issued.serial;
    cert_expires_at = issued.expires_at;
  }

  -- From the consumed token to the response.
  unfoldable pub persist_enrolled :
      EnrollmentRequest
      → String
      → EnrollmentTokenRecord
      → ℕ
      → ℕ
      → SecretValue
      → Action EnrollmentState EnrollmentResponse
  persist_enrolled request node_name found now agent_id tunnel_secret = do
    request_host_key ← lift (
        as_enrollment_error "node_host_key_mismatch"
          (validate_node_ssh_host_public_key platform.importable request.node_ssh_host_public_key))
    raise_if (request_host_key != found.node_ssh_host_public_key)
        (enrollment_error "node_host_key_mismatch")
    issued ← lift (platform.issue request.agent_x509_public_key node_name agent_id now)
    modify λ s. record s {
      store =
          persist_agent (agent_of request node_name found agent_id tunnel_secret issued) s.store;
    }
    audit enrollment_succeeded "enrollment-api"
        (field "source_address" (str request.source_address) end) (some agent_id) (some node_name)
    pure (record {
      agent_id = agent_id;
      agent_x509_cert = issued.certificate_pem;
      tunnel_ca_bundle = platform.tunnel_ca_bundle;
      tunnel_host = platform.tunnel_host;
      tunnel_port = platform.tunnel_port;
      tunnel_secret = tunnel_secret;
    })

  -- `sha256_hex` of a secret that came with a request.
  unfoldable pub hash_encoded : SecretValue → Result String
  hash_encoded secret =
      if platform.encodes secret.reveal
      then ok (sha256_hex platform.sha256_hex_text secret)
      else Result.raise unicode_encode_error

  -- The body of `enroll`'s `try`; the agent's UUID and its tunnel secret are fresh.
  unfoldable pub try_enroll :
      EnrollmentRequest → ℕ → ℕ → SecretValue → Action EnrollmentState EnrollmentResponse
  unfolding hash_encoded
  try_enroll request now agent_id tunnel_secret = do
    safe_node_name ← lift (validate_node_name request.node_name)
    token ← lift (secret_value request.token)
    token_hash ← lift (hash_encoded token)
    found ← claim_token request.source_address token_hash safe_node_name now
    persist_enrolled request safe_node_name found now agent_id tunnel_secret

  -- Only a SecretError is caught, and `secret_value` raises no other.
  unfoldable pub hash_if : Result SecretValue → Result String
  unfolding hash_encoded
  hash_if (ok secret) = hash_encoded secret
  hash_if (Result.raise e) = ok "invalid"

  unfoldable pub best_effort_token_hash : String → Result String
  unfolding hash_if
  best_effort_token_hash token = if token == "" then ok "empty" else hash_if (secret_value token)

  -- The metadata that goes to the audit writer, which scrubs it again.
  unfoldable pub failure_metadata : AuditPlatform → EnrollmentRequest → String → Error → Fields
  failure_metadata writer request token_hash e = scrub_fields writer.lower (
      field "source_address" (str request.source_address)
        (field "reason" (str (platform.class_name e)) (field "token_hash" (str token_hash) end)))

  unfoldable pub audit_failure :
      Option AuditPlatform → EnrollmentRequest → String → Error → Action EnrollmentState (Unit {0})
  unfolding failure_metadata
  audit_failure none request token_hash e s = (ok tt, s)
  audit_failure (some writer) request token_hash e s =
      written (some writer) enrollment_failed "enrollment-api"
        (failure_metadata writer request token_hash e) none (some request.node_name) s

  unfoldable pub record_enrollment_failure :
      EnrollmentRequest → ℕ → Error → Action EnrollmentState (Unit {0})
  unfolding audit_failure best_effort_token_hash
  record_enrollment_failure request now e = do
    token_hash ← lift (best_effort_token_hash request.token)
    modify
        λ s. record s { limiter = record_failure request.source_address token_hash now s.limiter }
    audit_failure platform.audit request token_hash e

  -- `except Exception` of `enroll`
  unfoldable pub or_failed :
      EnrollmentRequest
      → ℕ
      → Result EnrollmentResponse × EnrollmentState
      → Result EnrollmentResponse × EnrollmentState
  or_failed request now (ok response, s) = (ok response, s)
  or_failed request now (Result.raise e, s) =
      (record_enrollment_failure request now e >> raise (enrollment_error "enrollment failed")) s

  unfoldable pub enroll :
      EnrollmentRequest → ℕ → ℕ → SecretValue → Action EnrollmentState EnrollmentResponse
  unfolding or_failed
  enroll request now agent_id tunnel_secret s =
      or_failed request now (try_enroll request now agent_id tunnel_secret s)
