-- ===== src/Broker/Frames.antt =====
-- ServerTunnelBroker._handle_agent_frame: the frames that an authenticated agent sends.
use vibe_connect.Base.{
  ℕ, String, not, Option, none, some, List, Error, tunnel_state_error, tunnel_protocol_error,
  key_error, string_eq, nat_eq, contains,
}
use vibe_connect.Base.Action.{Action, pure, raise, modify, raise_if, ◌>>◌}
use vibe_connect.Frame.{FrameType, heartbeat, session_data, close_session, DecodedFrame}
use vibe_connect.Tunnel.Channels.{require_open}
use vibe_connect.Tunnel.Heartbeat.{mark_seen}
use vibe_connect.Tunnel.Auth.{update_last_seen}
use vibe_connect.Broker.State.{
  feed_data, feed_eof, BrokerStream, Connection, Broker, on_connection, on_channels, on_stream,
}
use vibe_connect.Broker.Sessions.{retire_channel}

-- `connection.adapters[channel_id]`, after the channel was found open, and a call of its stream
unfoldable pub feed_adapter : String → (BrokerStream → BrokerStream) → Action Connection (Unit {0})
feed_adapter channel_id f c =
    (do
      on_channels (require_open channel_id)
      raise_if (not (contains c.adapters channel_id)) key_error
      modify (on_stream channel_id f))
      c

-- a frame with its channel's identifier
unfoldable pub handle_channel_frame :
    String → FrameType → String → List ℕ → Action Broker (Unit {0})
handle_channel_frame connection_id session_data channel_id payload =
    on_connection connection_id (feed_adapter channel_id (feed_data payload))
handle_channel_frame connection_id close_session channel_id payload = do
  on_connection connection_id (feed_adapter channel_id feed_eof)
  retire_channel connection_id channel_id
handle_channel_frame connection_id _ channel_id payload =
    raise (tunnel_protocol_error "agent frame type is not accepted")

unfoldable pub channel_missing : FrameType → Error
channel_missing session_data = tunnel_state_error "channel_id is required"
channel_missing close_session = tunnel_state_error "channel_id is required"
channel_missing _ = tunnel_protocol_error "agent frame type is not accepted"

unfoldable pub handle_other_frame :
    String → FrameType → Option String → List ℕ → Action Broker (Unit {0})
handle_other_frame connection_id frame_type none payload = raise (channel_missing frame_type)
handle_other_frame connection_id frame_type (some channel_id) payload =
    handle_channel_frame connection_id frame_type channel_id payload

unfoldable pub handle_agent_frame :
    String → FrameType → Option String → List ℕ → Action Broker (Unit {0})
handle_agent_frame connection_id heartbeat channel_id payload = pure tt
handle_agent_frame connection_id frame_type channel_id payload =
    handle_other_frame connection_id frame_type channel_id payload

-- One round of `handle_stream`'s loop, on a frame that was read at `seen_at`.
unfoldable pub receive_frame : String → ℕ → DecodedFrame → ℕ → Action Broker (Unit {0})
receive_frame connection_id agent_id decoded seen_at = do
  on_connection connection_id (modify λ c. record c { heartbeat = mark_seen seen_at c.heartbeat })
  modify λ b. record b { store = update_last_seen agent_id seen_at b.store }
  handle_agent_frame connection_id decoded.frame.frame_type decoded.frame.channel_id decoded.payload
