-- ===== src/Jump/Bridge.antt =====
-- JumpPtyBridge between the user's terminal, the recording and the channel, whose broker is
-- ServerTunnelBroker, and AsyncSshJumpSessionLifecycle.
use vibe_connect.Base.{
  ℕ, String, Bool, true, ◌||◌, Option, none, some, List, Result, jump_error, string_eq, leb, ◌==◌,
  if◌then◌else◌,
}
use vibe_connect.Base.Action.{Action, pure, raise, raise_if, modify, gets, ◌>>=◌, ◌>>◌}
use vibe_connect.Value.{Value, Fields, str, field, end}
use vibe_connect.Audit.Writer.{AuditEventType, session_closed, session_failed}
use vibe_connect.Replay.Recorder.{
  Recording, ReplayCloseResult, record_input, record_output, fail, close,
}
use vibe_connect.Broker.Sessions.{send_data, resize_broker_pty, close_broker_session}
use vibe_connect.Jump.World.{
  World, SessionStatus, status_open, status_closed, status_failed, status_terminated, JumpEvent,
  on_broker,
}
use vibe_connect.Jump.Store.{close_session_row}
use vibe_connect.Jump.Opener.{JumpPlatform}
use vibe_connect.Jump.Checks.{audit}
use vibe_connect.Jump.Coordinator.{StartedJump}

-- The bridge, with the recorder of its jump as the calls so far left it, and the world around it.
pub record Bridge : Type 0 where
  pub jump : StartedJump
  pub bridge_closed : Bool
  pub world : World

abbrev pub in_world {ℓ} : {A : Type ℓ} → Bridge → Result A × World → Result A × Bridge
in_world b (r, w) = (r, record b { world = w })

unfoldable pub on_world {ℓ} : {A : Type ℓ} → Action World A → Action Bridge A
on_world m b = in_world b (m b.world)

abbrev pub recorded {ℓ} : {A : Type ℓ} → Bridge → Result A × Recording → Result A × Bridge
recorded b (r, s) = (
  r,
  record b {
    jump = record b.jump { replay = s.recorder };
    world = record b.world { disk = s.disk };
  },
)

-- A method of the recorder.
unfoldable pub on_recording {ℓ} : {A : Type ℓ} → Action Recording A → Action Bridge A
on_recording m b = recorded b (m (record { recorder = b.jump.replay; disk = b.world.disk }))

unfoldable pub status_value : SessionStatus → String
status_value status_open = "open"
status_value status_closed = "closed"
status_value status_failed = "failed"
status_value status_terminated = "terminated"

-- `error or status.value`
unfoldable pub error_text : Option String → SessionStatus → String
unfolding status_value
error_text none status = status_value status
error_text (some error) status = if error == "" then status_value status else error

-- What the end of the recording contributes to the row and to the event.
pub record Terminal : Type 0 where
  pub row_path : String
  pub row_hmac : Option String
  pub event_type : AuditEventType
  pub metadata : Fields

unfoldable pub published_terminal : ReplayCloseResult → Terminal
published_terminal result = record {
  row_path = result.path;
  row_hmac = some result.hmac_hex;
  event_type = session_closed;
  metadata =
      field "status" (str "closed")
        (field "replay_path" (str result.path) (field "replay_hmac" (str result.hmac_hex) end));
}

unfoldable pub failed_terminal : StartedJump → SessionStatus → Option String → Terminal
unfolding status_value error_text
failed_terminal jump status error = record {
  row_path = jump.session.replay_path;
  row_hmac = none;
  event_type = session_failed;
  metadata =
      field "status" (str (status_value status))
        (field "error" (str (error_text error status)) end);
}

unfoldable pub bridge_ensure_open : Action Bridge (Unit {0})
bridge_ensure_open = do
  closed ← gets (λ b. b.bridge_closed)
  raise_if closed (jump_error "jump channel is closed")

-- `decode` is `_decode_pty`, `stores` whether there is a session store.
module _ (platform : JumpPlatform) (decode : List ℕ → String) (stores : Bool) where
  unfoldable pub send_user_input : Value → List ℕ → String → Action Bridge (Unit {0})
  unfolding bridge_ensure_open on_recording on_world record_input on_broker send_data
  send_user_input seconds payload request_id = do
    bridge_ensure_open
    on_recording (record_input platform.replay seconds (decode payload))
    channel_id ← gets (λ b. b.jump.channel_id)
    on_world (
        on_broker
          (send_data platform.broker platform.max_frame_bytes channel_id payload request_id))

  unfoldable pub receive_node_output : Value → List ℕ → Action Bridge (List ℕ)
  unfolding bridge_ensure_open on_recording record_output
  receive_node_output seconds payload = do
    bridge_ensure_open
    on_recording (record_output platform.replay seconds (decode payload))
    pure payload

  -- A size that is not positive is 0.
  unfoldable pub resize_bridge_pty : ℕ → ℕ → String → Action Bridge (Unit {0})
  unfolding bridge_ensure_open on_world on_broker resize_broker_pty
  resize_bridge_pty width height request_id = do
    bridge_ensure_open
    raise_if (leb width 0 || leb height 0) (jump_error "PTY size must be positive")
    channel_id ← gets (λ b. b.jump.channel_id)
    on_world (
        on_broker (
          resize_broker_pty platform.broker platform.max_frame_bytes channel_id width height
            request_id))

  -- The recording's end.
  unfoldable pub end_recording : SessionStatus → ℕ → Option String → Action Bridge Terminal
  unfolding on_recording close fail published_terminal failed_terminal error_text
  end_recording status_closed now error = do
    result ← on_recording (close platform.replay now)
    pure (published_terminal result)
  end_recording status_open now error = raise (jump_error "unsupported terminal session status")
  end_recording status now error = do
    on_recording (fail platform.replay (error_text error status))
    jump ← gets (λ b. b.jump)
    pure (failed_terminal jump status error)

  unfoldable pub store_terminal :
      SessionStatus → ℕ → Terminal → StartedJump → Action World (Unit {0})
  unfolding close_session_row
  store_terminal status now terminal jump =
      if stores
      then close_session_row platform.answers jump.session.session_id status now terminal.row_path
          terminal.row_hmac
      else pure tt

  unfoldable pub terminal_event : StartedJump → Terminal → JumpEvent
  terminal_event jump terminal = record {
    event_type = terminal.event_type;
    actor = jump.user_certificate.cert_username;
    agent_id = some jump.target.agent_id;
    session_id = some jump.session.session_id;
    node_name = some jump.target.node_name;
    metadata = terminal.metadata;
  }

  -- What `close` does once it has set the flag.
  unfoldable pub finish_bridge :
      SessionStatus → ℕ → Option String → String → Action Bridge (Unit {0})
  unfolding end_recording on_world store_terminal on_broker close_broker_session audit
      terminal_event
  finish_bridge status now error request_id = do
    terminal ← end_recording status now error
    jump ← gets (λ b. b.jump)
    on_world (store_terminal status now terminal jump)
    on_world (
        on_broker (
          close_broker_session platform.broker platform.max_frame_bytes jump.channel_id request_id))
    on_world (audit platform (terminal_event jump terminal))

  unfoldable pub close_open_bridge :
      SessionStatus → ℕ → Option String → String → Action Bridge (Unit {0})
  unfolding finish_bridge
  close_open_bridge status now error request_id = do
    modify λ b. record b { bridge_closed = true }
    finish_bridge status now error request_id

  unfoldable pub close_bridge :
      SessionStatus → ℕ → Option String → String → Action Bridge (Unit {0})
  unfolding close_open_bridge
  close_bridge status now error request_id = do
    closed ← gets (λ b. b.bridge_closed)
    if closed then pure tt else close_open_bridge status now error request_id

  -- AsyncSshJumpSessionLifecycle; an exception is its text and the name of its class.
  unfoldable pub connection_lost : Option (String × String) → ℕ → String → Action Bridge (Unit {0})
  unfolding close_bridge
  connection_lost none now request_id = close_bridge status_closed now none request_id
  connection_lost (some (text, class_name)) now request_id =
      close_bridge status_failed now (some (if text == "" then class_name else text)) request_id

  unfoldable pub terminate : String → ℕ → String → Action Bridge (Unit {0})
  unfolding close_bridge
  terminate reason now request_id = close_bridge status_terminated now (some reason) request_id
