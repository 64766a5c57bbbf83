-- ===== src/Enrollment/Requests.antt =====
-- server/enrollment.py: what goes in and out of `EnrollmentService`, its state and its settings.
use vibe_connect.Base.{
  ℕ, ◌*◌, String, Bool, Option, List, [], ◌∷◌, Result, ok, Error, enrollment_error, value_error,
  string_eq, nat_eq, ◌>>=◌ as bind_result,
}
use Prim.Native.Char.{char}
use vibe_connect.Text.{append, join}
use vibe_connect.Identifiers.{validate_label}
use vibe_connect.Value.{str, Items, nil, item}
use vibe_connect.Secret.{SecretValue}
use vibe_connect.Tunnel.Auth.{IssuedAgentCertificate}
use vibe_connect.Audit.Writer.{AuditEvent, AuditPlatform}
use vibe_connect.Enrollment.Store.{EnrollmentStore}
use vibe_connect.Enrollment.Limiter.{EnrollmentRateLimiter}

-- What the service takes from libraries: SHA-256, whether `encode("utf-8")` returns on a text, which it
-- does not where the str has a lone surrogate, the import of an OpenSSH key, the parse of an
-- Ed25519 key with the issue of a certificate, and the names of the exceptions' classes. `audit` is
-- none where the service has no audit writer; the last four are its settings.
pub record EnrollmentPlatform : Type 0 where
  pub sha256_hex_text : String → String
  pub encodes : String → Bool
  pub importable : String → Bool
  pub issue : String → String → ℕ → ℕ → Result IssuedAgentCertificate
  pub class_name : Error → String
  pub audit : Option AuditPlatform
  pub tunnel_ca_bundle : String
  pub tunnel_host : String
  pub tunnel_port : ℕ
  pub enrollment_tls_ca_bundle : String

pub record EnrollmentConfigPackage : Type 0 where
  pub node_name : String
  pub labels : List String
  pub token : SecretValue
  pub token_hash : String
  pub agent_conf : String
  pub enrollment_tls_ca_bundle : String

pub record EnrollmentRequest : Type 0 where
  pub node_name : String
  pub token : String
  pub agent_x509_public_key : String
  pub node_ssh_host_public_key : String
  pub source_address : String

pub record EnrollmentResponse : Type 0 where
  pub agent_id : ℕ
  pub agent_x509_cert : String
  pub tunnel_ca_bundle : String
  pub tunnel_host : String
  pub tunnel_port : ℕ
  pub tunnel_secret : SecretValue

pub record EnrollmentState : Type 0 where
  pub store : EnrollmentStore
  pub limiter : EnrollmentRateLimiter
  pub audited : List AuditEvent

-- UnicodeEncodeError, a ValueError.
abbrev pub unicode_encode_error : Error
unicode_encode_error = value_error "surrogates not allowed"

abbrev pub token_lifetime : ℕ
token_lifetime = 7 * 86_400 * 1_000_000

abbrev pub newline : String
newline = String.◌∷◌ (char 10 tt) String.[]

-- `_render_agent_conf`
unfoldable pub render_agent_conf : String → SecretValue → String → String
render_agent_conf node_name token host_key = join newline (
    "[enrollment]"
    ∷ append "node_name = " node_name
    ∷ append "token = " token.reveal
    ∷ "api_url = https://server:4443/enroll"
    ∷ "tls_ca_bundle = /etc/vibeconnect/ca.crt"
    ∷ append "node_ssh_host_public_key = " host_key
    ∷ ""
    ∷ "[tunnel]"
    ∷ "server_url = https://server:4444/tunnel"
    ∷ "tls_ca_bundle = /etc/vibeconnect/ca.crt"
    ∷ "heartbeat_seconds = 30"
    ∷ ""
    ∷ "[proxy]"
    ∷ "target = 127.0.0.1:2222"
    ∷ ""
    ∷ "[identity]"
    ∷ "path = /var/lib/vibeconnect/identity.json"
    ∷ ""
    ∷ [])

unfoldable pub label_items : List String → Items
label_items [] = nil
label_items (l ∷ ls) = item (str l) (label_items ls)

unfoldable pub validate_labels : List String → Result (List String)
validate_labels [] = ok []
validate_labels (l ∷ ls) =
    let rest = validate_labels ls in
    bind_result (validate_label l) (λ safe. bind_result rest (λ safe_rest. ok (safe ∷ safe_rest)))

-- `raise EnrollmentError(…) from exc`, for the ValueError of the host key's check
abbrev pub as_enrollment_error {ℓ} : {A : Type ℓ} → String → Result A → Result A
as_enrollment_error message (ok a) = ok a
as_enrollment_error message (Result.raise e) = Result.raise (enrollment_error message)

-- The message of an exception, `str(exc)`.
abbrev pub message_of : Error → String
message_of (Error.value_error message) = message
message_of _ = ""

abbrev pub with_same_message {ℓ} : {A : Type ℓ} → Result A → Result A
with_same_message (ok a) = ok a
with_same_message (Result.raise e) = Result.raise (enrollment_error (message_of e))
