-- ===== src/Jump/World.antt =====
-- What a jump works on: the database's agents and sessions, the audit events, the replay files and
-- the broker. An event has its session's identifier; `statements` counts the calls of the database.
use vibe_connect.Base.{ℕ, String, Bool, Option, List, Result}
use vibe_connect.Base.Action.{Action}
use vibe_connect.Base.Dict.{Dict}
use vibe_connect.Value.{Fields}
use vibe_connect.Audit.Writer.{AuditEventType}
use vibe_connect.Replay.Storage.{Disk}
use vibe_connect.Broker.State.{Broker}

-- models.py
pub data SessionStatus : Type 0 where
  status_open status_closed status_failed status_terminated : SessionStatus

-- A row of the table `agents`.
pub record AgentRow : Type 0 where
  pub id : ℕ
  pub row_node_name : String
  pub host_public_key : String
  pub last_seen_at : Option ℕ
  pub revoked : Bool

-- A row of the table `sessions`.
pub record SessionRow : Type 0 where
  pub agent_id : ℕ
  pub user_name : String
  pub started_at : ℕ
  pub replay_path : String
  pub status : SessionStatus
  pub user_cert_serial : ℕ
  pub ended_at : Option ℕ
  pub replay_hmac : Option String

pub record JumpEvent : Type 0 where
  pub event_type : AuditEventType
  pub actor : String
  pub agent_id : Option ℕ
  pub session_id : Option ℕ
  pub node_name : Option String
  pub metadata : Fields

pub record World : Type 0 where
  pub agents : List AgentRow
  pub sessions : Dict ℕ SessionRow
  pub next_serial : ℕ
  pub statements : ℕ
  pub events : List JumpEvent
  pub disk : Disk
  pub broker : Broker

abbrev pub with_disk {ℓ} : {A : Type ℓ} → World → Result A × Disk → Result A × World
with_disk w (r, d) = (r, record w { disk = d })

abbrev pub with_broker {ℓ} : {A : Type ℓ} → World → Result A × Broker → Result A × World
with_broker w (r, b) = (r, record w { broker = b })

unfoldable pub on_replay_disk {ℓ} : {A : Type ℓ} → Action Disk A → Action World A
on_replay_disk m w = with_disk w (m w.disk)

unfoldable pub on_broker {ℓ} : {A : Type ℓ} → Action Broker A → Action World A
on_broker m w = with_broker w (m w.broker)
