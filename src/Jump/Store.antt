-- ===== src/Jump/Store.antt =====
-- PostgresJumpStore, its statements read as operations on the rows; `answers n` is whether the
-- database answers the n-th statement. A row's `user_cert_serial` comes from a sequence.
use vibe_connect.Base.{
  ℕ, suc, String, Bool, true, false, not, ◌&&◌, Option, none, some, List, [], ◌∷◌, ok, os_error,
  string_eq, nat_eq, ◌==◌, if◌then◌else◌,
}
use vibe_connect.Base.Action.{Action, raise_if, modify, gets, ◌>>=◌, ◌>>◌}
use vibe_connect.Base.Dict.{get, put}
use vibe_connect.Text.{append}
use vibe_connect.Tunnel.Heartbeat.{HeartbeatState, mark_seen}
use vibe_connect.Jump.World.{SessionStatus, status_open, status_failed, AgentRow, SessionRow, World}

pub record JumpTarget : Type 0 where
  pub agent_id : ℕ
  pub node_name : String
  pub node_ssh_host_public_key : String
  pub heartbeat : HeartbeatState

pub record JumpSession : Type 0 where
  pub session_id : ℕ
  pub user_cert_serial : ℕ
  pub replay_path : String
  pub started_at : ℕ

-- `SELECT … WHERE node_name = $1 AND revoked = false`, the first row
unfoldable pub select_agent : String → List AgentRow → Option AgentRow
select_agent node_name [] = none
select_agent node_name (row ∷ rows) =
    if row.row_node_name == node_name && not row.revoked
    then some row
    else select_agent node_name rows

abbrev pub seen : Option ℕ → HeartbeatState → HeartbeatState
seen none heartbeat = heartbeat
seen (some at) heartbeat = mark_seen at heartbeat

unfoldable pub target_of : ℕ → AgentRow → JumpTarget
unfolding mark_seen
target_of heartbeat_seconds row = record {
  agent_id = row.id;
  node_name = row.row_node_name;
  node_ssh_host_public_key = row.host_public_key;
  heartbeat =
      seen row.last_seen_at (record { heartbeat_seconds = heartbeat_seconds; last_seen = none });
}

abbrev pub target_option : ℕ → Option AgentRow → Option JumpTarget
target_option heartbeat_seconds none = none
target_option heartbeat_seconds (some row) = some (target_of heartbeat_seconds row)

abbrev pub is_open_status : SessionStatus → Bool
is_open_status status_open = true
is_open_status _ = false

-- `UPDATE sessions SET … WHERE id = $1 AND status = 'open'`, on the row with the identifier
unfoldable pub updated : SessionStatus → ℕ → String → Option String → SessionRow → SessionRow
updated status ended_at replay_path replay_hmac row =
    if is_open_status row.status
    then (record row {
      status = status;
      ended_at = some ended_at;
      replay_path = replay_path;
      replay_hmac = replay_hmac;
    })
    else row

abbrev pub put_row : ℕ → Option SessionRow → (SessionRow → SessionRow) → World → World
put_row session_id none f w = w
put_row session_id (some row) f w = record w { sessions = put session_id (f row) w.sessions }

unfoldable pub update_row : ℕ → (SessionRow → SessionRow) → World → World
update_row session_id f w = put_row session_id (get session_id w.sessions) f w

-- `INSERT INTO sessions … RETURNING …`
unfoldable pub insert_session : ℕ → ℕ → String → String → ℕ → Action World JumpSession
insert_session session_id agent_id username replay_path started_at w = (
  ok (record {
    session_id = session_id;
    user_cert_serial = w.next_serial;
    replay_path = replay_path;
    started_at = started_at;
  }),
  record w {
    next_serial = suc w.next_serial;
    sessions =
        put session_id
          (record {
            agent_id = agent_id;
            user_name = username;
            started_at = started_at;
            replay_path = replay_path;
            status = status_open;
            user_cert_serial = w.next_serial;
            ended_at = none;
            replay_hmac = none;
          })
          w.sessions;
  },
)

module _ (answers : ℕ → Bool) where
  -- One statement.
  unfoldable pub statement : Action World (Unit {0})
  statement = do
    answered ← gets (λ w. answers w.statements)
    modify λ w. record w { statements = suc w.statements }
    raise_if (not answered) os_error

  unfoldable pub get_jump_target : ℕ → String → Action World (Option JumpTarget)
  unfolding statement select_agent target_of
  get_jump_target heartbeat_seconds node_name = do
    statement
    gets (λ w. target_option heartbeat_seconds (select_agent node_name w.agents))

  -- `session_id` is fresh; the row does not have the node's name.
  unfoldable pub create_session : ℕ → ℕ → String → String → String → ℕ → Action World JumpSession
  unfolding statement insert_session
  create_session session_id agent_id username node_name replay_path started_at = do
    statement
    insert_session session_id agent_id username replay_path started_at

  unfoldable pub close_session_row :
      ℕ → SessionStatus → ℕ → String → Option String → Action World (Unit {0})
  unfolding statement update_row updated
  close_session_row session_id status ended_at replay_path replay_hmac = do
    statement
    modify (update_row session_id (updated status ended_at replay_path replay_hmac))

  -- `uuid_text` is `str` of a UUID.
  unfoldable pub fail_session : (ℕ → String) → ℕ → ℕ → Action World (Unit {0})
  unfolding close_session_row append
  fail_session uuid_text session_id ended_at =
      close_session_row session_id status_failed ended_at (append (uuid_text session_id) ".cast")
        none
