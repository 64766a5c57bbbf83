-- ===== src/Audit/Writer.antt =====
-- AuditWriter.write, over the events that were persisted so far. An insert into the database may
-- fail; the identifier and the time of an event are left out.
use vibe_connect.Base.{
  ℕ, ◌*◌, String, Bool, not, Option, List, ◌∷◌, audit_error, os_error, ltb, length, ◌==◌, string_eq,
}
use vibe_connect.Base.Action.{Action, pure, raise_if, modify, ◌>>=◌, ◌>>◌}
use vibe_connect.Value.{dict, Fields, Json}
use vibe_connect.Audit.Scrub.{scrub_fields}

abbrev pub audit_metadata_max_bytes : ℕ
audit_metadata_max_bytes = 16 * 1024

-- models.py
pub data AuditEventType : Type 0 where
  enrollment_token_created enrollment_token_expired enrollment_succeeded : AuditEventType
  enrollment_failed agent_tunnel_connected agent_tunnel_rejected : AuditEventType
  agent_tunnel_disconnected agent_revoked tunnel_secret_rotated : AuditEventType
  ca_rotation_started ca_rotation_completed node_host_key_updated : AuditEventType
  user_login_succeeded user_login_failed node_authorization_denied : AuditEventType
  session_started session_closed session_failed replay_write_failed replay_pruned : AuditEventType

pub record AuditEvent : Type 0 where
  pub event_type : AuditEventType
  pub actor : String
  pub agent_id : Option ℕ
  pub node_name : Option String
  pub metadata : Fields

-- The database: whether the next insert succeeds after the given events.
pub record AuditPlatform : Type 0 where
  pub json : Json
  pub lower : String → List ℕ
  pub inserts : List AuditEvent → AuditEvent → Bool

module _ (platform : AuditPlatform) where
  -- `_sanitize_metadata`
  unfoldable pub sanitize_metadata : Fields → Action (List AuditEvent) Fields
  sanitize_metadata metadata = do
    let scrubbed = scrub_fields platform.lower metadata
    raise_if (ltb audit_metadata_max_bytes (length (platform.json.dumps (dict scrubbed))))
        (audit_error "audit metadata exceeds 16 KiB")
    pure scrubbed

  unfoldable pub insert : AuditEvent → Action (List AuditEvent) (Unit {0})
  unfolding ◌>>=◌
  insert event written =
      (do
        raise_if (not (platform.inserts written event)) os_error
        modify (λ events. event ∷ events))
        written

  unfoldable pub write :
      AuditEventType
      → String
      → Fields
      → Option ℕ
      → Option String
      → Action (List AuditEvent) (Unit {0})
  unfolding sanitize_metadata
  write event_type actor metadata agent_id node_name = do
    raise_if (actor == "") (audit_error "audit actor is required")
    sanitized ← sanitize_metadata metadata
    insert (record {
      event_type = event_type;
      actor = actor;
      agent_id = agent_id;
      node_name = node_name;
      metadata = sanitized;
    })
