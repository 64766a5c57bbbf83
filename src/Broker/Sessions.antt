-- ===== src/Broker/Sessions.antt =====
-- ServerTunnelBroker: the sessions that the server opens on an agent's tunnel.
use vibe_connect.Base.{
  ℕ, String, not, Option, none, some, List, [], ◌∷◌, Error, tunnel_state_error, key_error, os_error,
  contains, ◌==◌, ◌!=◌, string_eq, nat_eq,
}
use vibe_connect.Base.Sets.{add, discard}
use vibe_connect.Base.Action.{Action, pure, raise, lift, gets, modify, raise_if, ◌>>=◌, ◌>>◌}
use vibe_connect.Base.Dict.{get, put, pop}
use vibe_connect.Value.{str, int, pos, dict, end, field}
use vibe_connect.Frame.{
  FrameType, open_session, session_data, resize_pty, close_session, encode_frame,
}
use vibe_connect.Tunnel.Channels.{require_open, apply_to_channel}
use vibe_connect.Tunnel.Heartbeat.{allows_new_jump}
use vibe_connect.Broker.Platform.{Platform}
use vibe_connect.Broker.State.{new_stream, Connection, Broker, on_connection, on_channels}

-- The option, or the error.
abbrev pub require {ℓ} : {A : Type ℓ} → Option A → Error → Action Broker A
require none e = raise e
require (some a) e = pure a

-- `_require_connection`: the identifier of the agent's connection
unfoldable pub require_connection : ℕ → String → Action Broker String
require_connection agent_id channel_id = do
  raise_if (channel_id == "") (tunnel_state_error "channel_id is required")
  found ← gets (λ b. get agent_id b.connections)
  require found (tunnel_state_error "agent tunnel is not connected")

-- `_require_channel_connection`
unfoldable pub require_channel_connection : String → Action Broker String
require_channel_connection channel_id = do
  owner ← gets (λ b. get channel_id b.channel_agents)
  agent_id ← require owner (tunnel_state_error "channel is not open")
  found ← gets (λ b. get agent_id b.connections)
  require found key_error

-- The part of `open_session` on the connection object: the heartbeat, the channel, the adapter.
unfoldable pub open_on_connection : String → ℕ → Action Connection (Unit {0})
open_on_connection channel_id now c =
    (do
      raise_if (not (allows_new_jump now c.heartbeat))
          (tunnel_state_error "agent heartbeat is stale")
      on_channels (apply_to_channel open_session channel_id)
      modify λ c. record c {
        adapters = add channel_id c.adapters;
        streams = put channel_id new_stream c.streams;
      })
      c

-- `_retire_channel` on the connection object
unfoldable pub retire_on_connection : String → Action Connection (Unit {0})
retire_on_connection channel_id = do
  on_channels (apply_to_channel close_session channel_id)
  modify λ c. record c { adapters = discard channel_id c.adapters }

unfoldable pub retire_channel : String → String → Action Broker (Unit {0})
retire_channel connection_id channel_id = do
  on_connection connection_id (retire_on_connection channel_id)
  modify λ b. record b { channel_agents = pop channel_id b.channel_agents }

-- `connection.channels.require_open(channel_id)` on the channel's connection, which it returns
unfoldable pub require_open_channel : String → Action Broker String
require_open_channel channel_id = do
  connection_id ← require_channel_connection channel_id
  on_connection connection_id (on_channels (require_open channel_id))
  pure connection_id

-- `connector_for_agent`: the stream of a channel that is listed
unfoldable pub connector_for_agent : ℕ → String → Action Broker (Unit {0})
connector_for_agent agent_id channel_id = do
  connection_id ← require_connection agent_id channel_id
  listed ← on_connection connection_id (gets (λ c. contains c.adapters channel_id))
  raise_if (not listed) (tunnel_state_error "channel is not open")

module _ (platform : Platform) (max_frame_bytes : ℕ) where
  -- `_write_frame`: the frame is written, then `drain` may fail.
  unfoldable pub write_frame :
      String → FrameType → String → Option String → List ℕ → Action Broker (Unit {0})
  write_frame connection_id frame_type request_id channel_id payload = do
    frame ←
        lift (encode_frame platform.json frame_type request_id channel_id payload max_frame_bytes)
    modify λ b. record b { sent = (connection_id, frame) ∷ b.sent }
    drained ← gets (λ b. platform.drains b.sent)
    raise_if (not drained) os_error

  -- `request_id` is the text of a fresh UUID.
  unfoldable pub open_broker_session :
      ℕ → String → String → String → String → String → ℕ → String → Action Broker (Unit {0})
  open_broker_session agent_id channel_id node_name host_key username principal now request_id = do
    raise_if (principal != username) (tunnel_state_error "user certificate principal mismatch")
    raise_if (host_key == "") (tunnel_state_error "node sshd host key is not pinned")
    connection_id ← require_connection agent_id channel_id
    on_connection connection_id (open_on_connection channel_id now)
    modify λ b. record b { channel_agents = put channel_id agent_id b.channel_agents }
    let payload =
        platform.json.dumps
          (dict (field "node_name" (str node_name) (field "username" (str username) end)))
    write_frame connection_id open_session request_id (some channel_id) payload

  unfoldable pub send_data : String → List ℕ → String → Action Broker (Unit {0})
  send_data channel_id payload request_id = do
    connection_id ← require_open_channel channel_id
    write_frame connection_id session_data request_id (some channel_id) payload

  unfoldable pub resize_broker_pty : String → ℕ → ℕ → String → Action Broker (Unit {0})
  resize_broker_pty channel_id width height request_id = do
    connection_id ← require_open_channel channel_id
    let payload =
        platform.json.dumps
          (dict (field "width" (int (pos width)) (field "height" (int (pos height)) end)))
    write_frame connection_id resize_pty request_id (some channel_id) payload

  -- `close_session` up to the wait for `drain`, and after it; between them other tasks may run.
  unfoldable pub begin_close : String → String → Action Broker String
  begin_close channel_id request_id = do
    connection_id ← require_open_channel channel_id
    write_frame connection_id close_session request_id (some channel_id) []
    pure connection_id

  unfoldable pub close_broker_session : String → String → Action Broker (Unit {0})
  close_broker_session channel_id request_id = do
    connection_id ← begin_close channel_id request_id
    retire_channel connection_id channel_id
