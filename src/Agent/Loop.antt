-- ===== src/Agent/Loop.antt =====
-- agent/tunnel.py: handle_agent_tunnel_stream on the frames that the reader decoded. A connection
-- to the local sshd is numbered in the order of opening; the platform says which attempts to
-- connect and which calls of `drain` and `wait_closed` succeed, and which of the tasks that copy from
-- sshd to the tunnel ended with an exception. These tasks change nothing but the frames that are sent.
pub mod Listed
pub mod Closing
use vibe_connect.Base.{
  ℕ, zero, suc, ◌+◌, String, Bool, true, false, not, Option, none, some, List, [], ◌∷◌, ◌++◌,
  Result, ok, Error, agent_tunnel_error, os_error, ◌==◌, string_eq, nat_eq, is_none, if◌then◌else◌,
}
use vibe_connect.Base.Action.{Action, pure, raise, lift, gets, modify, raise_if, ◌>>=◌, ◌>>◌}
use vibe_connect.Base.Dict.{Dict, get, put, pop}
use vibe_connect.Value.{Json}
use vibe_connect.Frame.{
  FrameType, auth_ok, heartbeat, open_session, session_data, resize_pty, close_session,
  DecodedFrame, encode_frame, default_frame_max_bytes,
}

-- What was written to a connection, and whether it was closed.
pub record LocalWriter : Type 0 where
  pub written : List ℕ
  pub closed : Bool

-- `channels` has the number of each channel's connection.
pub record AgentTunnel : Type 0 where
  pub channels : Dict String ℕ
  pub connections : Dict ℕ LocalWriter
  pub opened : ℕ
  pub sent : List (List ℕ)

abbrev pub new_tunnel : AgentTunnel
new_tunnel = record { channels = []; connections = []; opened = 0; sent = [] }

pub record AgentPlatform : Type 0 where
  pub json : Json
  pub connects : ℕ → Bool
  pub local_drains : ℕ → List ℕ → Bool
  pub tunnel_drains : List (List ℕ) → Bool
  pub task_fails : ℕ → Bool
  pub waits_closed : ℕ → Bool

unfoldable pub require_channel_id : Option String → Action AgentTunnel String
require_channel_id none = raise (agent_tunnel_error "tunnel channel_id is required")
require_channel_id (some channel_id) =
    if channel_id == ""
    then raise (agent_tunnel_error "tunnel channel_id is required")
    else pure channel_id

abbrev pub shut : Option LocalWriter → LocalWriter
shut none = record { written = []; closed = true }
shut (some w) = record w { closed = true }

-- `writer.write(payload)` on a connection
unfoldable pub write_found : ℕ → List ℕ → Option LocalWriter → AgentTunnel → AgentTunnel
write_found number payload none t = t
write_found number payload (some w) t = record t {
  connections = put number (record w { written = w.written ++ payload }) t.connections;
}

unfoldable pub write_local : ℕ → List ℕ → AgentTunnel → AgentTunnel
unfolding write_found
write_local number payload t = write_found number payload (get number t.connections) t

unfoldable pub close_local : ℕ → AgentTunnel → AgentTunnel
close_local number t = record t {
  connections = put number (shut (get number t.connections)) t.connections;
}

abbrev pub fresh_writer : LocalWriter
fresh_writer = record { written = []; closed = false }

unfoldable pub add_channel : String → AgentTunnel → AgentTunnel
add_channel channel_id t = record t {
  channels = put channel_id t.opened t.channels;
  connections = put t.opened fresh_writer t.connections;
  opened = suc t.opened;
}

-- An exception of the `finally` takes the place of the loop's.
abbrev pub after_finally :
    Result (Unit {0}) → Result (Unit {0}) × AgentTunnel → Result (Unit {0}) × AgentTunnel
after_finally r (ok u, t) = (r, t)
after_finally r (Result.raise e, t) = (Result.raise e, t)

module _ (platform : AgentPlatform) where
  unfoldable pub send_heartbeat : String → Action AgentTunnel (Unit {0})
  send_heartbeat request_id = do
    frame ← lift (encode_frame platform.json heartbeat request_id none [] default_frame_max_bytes)
    modify λ t. record t { sent = frame ∷ t.sent }
    drained ← gets (λ t. platform.tunnel_drains t.sent)
    raise_if (not drained) os_error

  unfoldable pub open_agent_channel : String → Action AgentTunnel (Unit {0})
  open_agent_channel channel_id = do
    known ← gets (λ t. get channel_id t.channels)
    raise_if (not (is_none known)) (agent_tunnel_error "tunnel channel reuse rejected")
    connected ← gets (λ t. platform.connects t.opened)
    raise_if (not connected) os_error
    modify (add_channel channel_id)

  unfoldable pub forward_data : Option ℕ → List ℕ → Action AgentTunnel (Unit {0})
  forward_data none payload = raise (agent_tunnel_error "session_data for unknown tunnel channel")
  forward_data (some number) payload = do
    modify (write_local number payload)
    raise_if (not (platform.local_drains number payload)) os_error

  -- `_close_channel`: the exception of a task that failed passes before the writer is closed, and
  -- that of `wait_closed` after it.
  unfoldable pub close_connection : ℕ → Action AgentTunnel (Unit {0})
  unfolding ◌>>=◌
  close_connection number = do
    raise_if (platform.task_fails number) os_error
    modify (close_local number)
    raise_if (not (platform.waits_closed number)) os_error

  unfoldable pub close_found : Option ℕ → Action AgentTunnel (Unit {0})
  unfolding close_connection ◌>>=◌
  close_found none = pure tt
  close_found (some number) = close_connection number

  -- `channels.pop(channel_id, None)`, and the channel's end where there was one
  unfoldable pub close_agent_channel : String → Action AgentTunnel (Unit {0})
  unfolding close_found ◌>>=◌
  close_agent_channel channel_id = do
    found ← gets (λ t. get channel_id t.channels)
    modify λ t. record t { channels = pop channel_id t.channels }
    close_found found

  -- One round of the loop.
  unfoldable pub dispatch : DecodedFrame → FrameType → Action AgentTunnel (Unit {0})
  dispatch decoded auth_ok = pure tt
  dispatch decoded heartbeat = send_heartbeat decoded.frame.request_id
  dispatch decoded open_session = do
    channel_id ← require_channel_id decoded.frame.channel_id
    open_agent_channel channel_id
  dispatch decoded session_data = do
    channel_id ← require_channel_id decoded.frame.channel_id
    found ← gets (λ t. get channel_id t.channels)
    forward_data found decoded.payload
  dispatch decoded resize_pty = do
    channel_id ← require_channel_id decoded.frame.channel_id
    found ← gets (λ t. get channel_id t.channels)
    raise_if (is_none found) (agent_tunnel_error "resize_pty for unknown tunnel channel")
  dispatch decoded close_session = do
    channel_id ← require_channel_id decoded.frame.channel_id
    close_agent_channel channel_id
  dispatch decoded _ = raise (agent_tunnel_error "unsupported agent tunnel frame")

  -- The loop, until the frames end or one raises.
  unfoldable pub serve : List DecodedFrame → Action AgentTunnel (Unit {0})
  serve [] = pure tt
  serve (d ∷ ds) = let rest = serve ds in (dispatch d d.frame.frame_type >> rest)

  -- The `finally`: every channel that is listed, until one raises.
  unfoldable pub close_listed : Dict String ℕ → Action AgentTunnel (Unit {0})
  unfolding close_connection ◌>>=◌
  close_listed [] = pure tt
  close_listed ((channel_id, number) ∷ channels) =
      let rest = close_listed channels in (close_connection number >> rest)

  abbrev pub finished : Result (Unit {0}) × AgentTunnel → Result (Unit {0}) × AgentTunnel
  finished (r, t) = after_finally r (close_listed t.channels t)

  unfoldable pub handle_agent_tunnel_stream : List DecodedFrame → Result (Unit {0}) × AgentTunnel
  handle_agent_tunnel_stream frames = finished (serve frames new_tunnel)
