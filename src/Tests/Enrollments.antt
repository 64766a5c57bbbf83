-- ===== src/Tests/Enrollments.antt =====
-- Enrollment, its limiter and the scrubbing of metadata at concrete inputs.
use vibe_connect.Base.{
  raise, ℕ, ◌≡◌, ◌≢◌, ◌↔◌, String, Bool, true, false, ◌||◌, Option, none, some, List, [], ◌∷◌,
  Result, ok, refl, ne_of_beq, string_eq, nat_eq, leb, length, arith,
}
use vibe_connect.Base.Action.{◌>>=◌}
use vibe_connect.Base.Dict.{get, put}
use vibe_connect.Identifiers.{codes, validate_node_name}
use vibe_connect.Value.{Value, str, secret, list, dict, nil, item, end, field}
use vibe_connect.Secret.{SecretValue, too_short, secret_value, sha256_hex}
use vibe_connect.HostKeys.{validate_node_ssh_host_public_key}
use vibe_connect.Tunnel.Auth.{IssuedAgentCertificate}
use vibe_connect.Audit.Scrub.{scrub_secret_metadata}
use vibe_connect.Audit.Scrub.Clean.{is_clean, scrub_secret_metadata-is_clean}
use vibe_connect.Enrollment.Store.{
  EnrollmentTokenRecord, StoredAgent, TokenRow, EnrollmentStore, create_enrollment_token,
  consume_enrollment_token, record_of, persist_agent,
}
use vibe_connect.Enrollment.Store.SingleUse.{
  IsUsable, IsSpent, StoreCall, creates, consumes, after_store_calls, consume_enrollment_token_iff,
  consumed_once,
}
use vibe_connect.Enrollment.Store.Replacement.{create_disables_others}
use vibe_connect.Enrollment.Limiter.{new_limiter, is_limited}
use vibe_connect.Enrollment.Limiter.Window.{live}
use vibe_connect.Enrollment.Limiter.History.{
  LimiterCall, fails, asks, after_calls, collected, source_instants, token_instants,
  is_limited-after_calls,
}
use vibe_connect.Enrollment.Requests.{
  unicode_encode_error, EnrollmentPlatform, EnrollmentRequest, EnrollmentResponse, EnrollmentState,
}
use vibe_connect.Enrollment.Service.{
  try_enroll, claim_token, limited, consumed, persist_enrolled, audit, enroll,
}
use vibe_connect.Enrollment.Service.Outcome.{requests, after_service_calls}
use vibe_connect.Enrollment.Handler.{enroll_handler, IsAnswered, enroll_handler-IsUniform}
use vibe_connect.Enrollment.Service.Once.{enroll-IsUsable, enroll_once}

abbrev some_metadata : Value
some_metadata = dict (
    field "Tunnel-Secret" (str "x")
      (field "labels" (list (item secret (item (str "web") nil))) end))

scrub_secret_metadata-is_clean_example :
    (is_clean codes (scrub_secret_metadata codes some_metadata) ≡ true)
    × ((scrub_secret_metadata codes some_metadata ≡ some_metadata)
        ↔ (is_clean codes some_metadata ≡ true))
scrub_secret_metadata-is_clean_example = scrub_secret_metadata-is_clean codes some_metadata

abbrev some_calls : List LimiterCall
some_calls = fails "a" "t" 1 ∷ asks "a" "t" 2_000_000 ∷ fails "a" "u" 3_000_000 ∷ []

is_limited-after_calls_example :
    (is_limited "a" "t" 4_000_000 (after_calls some_calls (new_limiter 2 2 10))).0 ≡ (
      leb 2 (length (live 10_000_000 4_000_000 (collected (source_instants "a") some_calls)))
      || leb 2 (length (live 10_000_000 4_000_000 (collected (token_instants "t") some_calls))))
is_limited-after_calls_example =
    is_limited-after_calls 2 2 10 some_calls 4_000_000 "a" "t"
      (omega arith, (omega arith, (omega arith, omega arith)))

abbrev row_of : Bool → Option ℕ → TokenRow
row_of used used_at = record {
  node_name = "web";
  labels = "prod" ∷ [];
  node_ssh_host_public_key = "k1 AAAA";
  created_by = "admin";
  expires_at = 100;
  used = used;
  used_at = used_at;
  disabled_at = none;
}

abbrev token_text : String
token_text = "0123456789012345678901234567890123456789012"

abbrev one_token : EnrollmentStore
one_token = record { tokens = (token_text, row_of false none) ∷ []; agents = [] }

abbrev web_record : EnrollmentTokenRecord
web_record = record {
  token_hash = token_text;
  node_name = "web";
  labels = "prod" ∷ [];
  node_ssh_host_public_key = "k1 AAAA";
}

consume_enrollment_token_iff_example :
    ((consume_enrollment_token token_text "web" 99 one_token).0 ≡ some web_record) ↔ (
      (row : TokenRow) × (get token_text one_token.tokens ≡ some row)
      × IsUsable "web" 99 row
      × (web_record ≡ record_of token_text "web" row))
consume_enrollment_token_iff_example =
    consume_enrollment_token_iff token_text "web" 99 one_token web_record

web_consumed : (consume_enrollment_token token_text "web" 99 one_token).0 ≡ some web_record
unfolding consume_enrollment_token get
web_consumed = refl

abbrev later_calls : List StoreCall
later_calls = creates "h2" "web" [] "k1 AAAA" "admin" 200 99 ∷ consumes token_text "web" 99 ∷ []

consumed_once_example :
    (consume_enrollment_token token_text "db" 99
      (after_store_calls later_calls (consume_enrollment_token token_text "web" 99 one_token).1)).0
    ≡ none
consumed_once_example =
    consumed_once token_text "web" "db" 99 99 one_token web_record later_calls web_consumed
      (ne_of_beq "h2" token_text refl, tt)

create_disables_others_example :
    let s' = create_enrollment_token "h2" "web" [] "k1 AAAA" "admin" 200 99 one_token in
    consume_enrollment_token token_text "web" 99 s' ≡ (none, s')
create_disables_others_example =
    create_disables_others "h2" token_text "web" [] "k1 AAAA" "admin" 200 99 99 one_token
      (ne_of_beq "h2" token_text refl)

abbrev issue_first : String → String → ℕ → ℕ → Result IssuedAgentCertificate
issue_first key node id now =
    ok (record { certificate_pem = "cert"; serial = "s1"; expires_at = 200 })

abbrev plain : EnrollmentPlatform
plain = record {
  sha256_hex_text = λ s. s;
  encodes = λ s. true;
  importable = λ s. true;
  issue = issue_first;
  class_name = λ e. "Error";
  audit = none;
  tunnel_ca_bundle = "ca";
  tunnel_host = "host";
  tunnel_port = 4444;
  enrollment_tls_ca_bundle = "ca";
}

abbrev first_state : EnrollmentState
first_state = record { store = one_token; limiter = new_limiter 10 5 600; audited = [] }

abbrev web_request : EnrollmentRequest
web_request = record {
  node_name = "web";
  token = token_text;
  agent_x509_public_key = "pem";
  node_ssh_host_public_key = " k1 AAAA comment";
  source_address = "10.0.0.1";
}

abbrev agent_secret : SecretValue
agent_secret = record { reveal = "secret" }

abbrev web_response : EnrollmentResponse
web_response = record {
  agent_id = 7;
  agent_x509_cert = "cert";
  tunnel_ca_bundle = "ca";
  tunnel_host = "host";
  tunnel_port = 4444;
  tunnel_secret = agent_secret;
}

abbrev web_stored : StoredAgent
web_stored = record {
  agent_id = 7;
  node_name = "web";
  labels = "prod" ∷ [];
  x509_public_key = "pem";
  node_ssh_host_public_key = "k1 AAAA";
  tunnel_secret_hash = "secret";
  cert_serial = "s1";
  cert_expires_at = 200;
}

abbrev second_state : EnrollmentState
second_state = record {
  store = record {
    tokens = (token_text, row_of true (some 99)) ∷ [];
    agents = (7, web_stored) ∷ [];
  };
  limiter = record (new_limiter 10 5 600) {
    source_failures = ("10.0.0.1", []) ∷ [];
    token_failures = (token_text, []) ∷ [];
  };
  audited = [];
}

web_enrolled :
    enroll plain web_request 99 7 agent_secret first_state ≡ (ok web_response, second_state)
unfolding enroll try_enroll ◌>>=◌ validate_node_name secret_value too_short claim_token limited
    is_limited get consumed consume_enrollment_token sha256_hex persist_enrolled
    validate_node_ssh_host_public_key audit persist_agent put
web_enrolled = refl

enroll-IsUsable_example :
    (node : String) × (row : TokenRow) × (validate_node_name "web" ≡ ok node)
    × (get token_text one_token.tokens ≡ some row)
    × IsUsable node 99 row
    × IsSpent token_text second_state.store
enroll-IsUsable_example =
    enroll-IsUsable plain web_request 99 7 agent_secret first_state second_state web_response
      web_enrolled

enroll_once_example :
    (enroll plain web_request 120 8 agent_secret
      (after_service_calls plain (requests web_request 110 9 agent_secret ∷ []) second_state)).0
    ≢ ok web_response
enroll_once_example =
    enroll_once plain web_request web_request 99 120 7 8 agent_secret agent_secret first_state
      second_state web_response web_response (requests web_request 110 9 agent_secret ∷ [])
      web_enrolled tt refl

abbrev web_body : Value
web_body = dict (field "node_name" (str "web") (field "token" (str token_text) end))

enroll_handler-IsUniform_example :
    IsAnswered
      (λ n. "id")
      (λ v. "")
      plain
      (ok web_body)
      (enroll_handler
        (λ n. "id")
        (λ v. "")
        plain
        (ok web_body)
        none
        99
        7
        agent_secret
        first_state).0
enroll_handler-IsUniform_example =
    enroll_handler-IsUniform (λ n. "id") (λ v. "") plain refl (ok web_body) none 99 7 agent_secret
      first_state

-- A token that encode refuses: the exception passes the handler, and nothing is counted.
bad_token_passes :
    enroll_handler
      (λ n. "id")
      (λ v. "")
      (record plain { encodes = λ s. false })
      (ok web_body)
      none
      99
      7
      agent_secret
      first_state
    ≡ (raise unicode_encode_error, first_state)
unfolding enroll_handler enroll try_enroll ◌>>=◌ validate_node_name vibe_connect.Value.get_field
    secret_value too_short vibe_connect.Enrollment.Service.record_enrollment_failure
bad_token_passes = refl
