-- ===== src/Replay/Storage.antt =====
-- The files that replay.py works on, the audit events that it writes, and what the file system and
-- Python's `json` and `hmac` do. A file has the bytes that were written to it; what a write that
-- failed left of its bytes is not kept.
use vibe_connect.Base.{
  ℕ, String, Bool, not, Option, List, ◌∷◌, is_none, os_error, string_eq, if◌then◌else◌,
}
use vibe_connect.Base.Action.{Action, pure, raise_if, modify, gets, ◌>>=◌, ◌>>◌}
use vibe_connect.Base.Dict.{Dict, get, pop}
use vibe_connect.Value.{Fields, Json}
use vibe_connect.Audit.Writer.{AuditEventType}

pub record ReplayEvent : Type 0 where
  pub event_type : AuditEventType
  pub session_id : Option ℕ
  pub metadata : Fields

-- `mode` is that of the replay directory.
pub record Disk : Type 0 where
  pub mode : ℕ
  pub files : Dict String (List ℕ)
  pub events : List ReplayEvent

-- `dumps` of `json` keeps the order of the members. The tests say which calls return: a `write` of
-- bytes after those of the file, and `flush`, `fsync`, `os.replace` and `read_bytes` of a file
-- with the given bytes.
pub record ReplayPlatform : Type 0 where
  pub json : Json
  pub hmac_hex : List ℕ → List ℕ → String
  -- `str` of an OSError
  pub os_error_text : String
  pub uuid_text : ℕ → String
  pub uuid_of : String → Option ℕ
  -- the text of a path in the directory
  pub in_directory : String → String
  pub writes : List ℕ → List ℕ → Bool
  pub flushes : List ℕ → Bool
  pub syncs : List ℕ → Bool
  pub replaces : List ℕ → Bool
  pub reads : List ℕ → Bool
  pub unlinks : String → Bool
  pub accepts : List ReplayEvent → Bool

module _ (platform : ReplayPlatform) where
  -- `write_replay_event` of the sink, where there is one
  unfoldable pub write_replay_event : Bool → ReplayEvent → Action Disk (Unit {0})
  write_replay_event audited event =
      if audited
      then (do
        accepted ← gets (λ d. platform.accepts d.events)
        raise_if (not accepted) os_error
        modify λ d. record d { events = event ∷ d.events })
      else pure tt

  -- `path.unlink()` of a file that is there
  unfoldable pub unlink : String → Action Disk (Unit {0})
  unlink path = do
    raise_if (not (platform.unlinks path)) os_error
    modify λ d. record d { files = pop path d.files }

  -- `_unlink_if_exists`
  unfoldable pub unlink_if_exists : String → Action Disk (Unit {0})
  unfolding unlink
  unlink_if_exists path = do
    missing ← gets (λ d. is_none (get path d.files))
    if missing then pure tt else unlink path
