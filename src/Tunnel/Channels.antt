-- ===== src/Tunnel/Channels.antt =====
-- server/tunnel.py: `TunnelChannelRegistry`, the sessions of one tunnel. The two sets are lists
-- without repetitions; `max_sessions` is a natural, and 0 stands for every refused value.
pub mod Lifecycle
pub mod Outcomes
use vibe_connect.Base.{
  ℕ, String, Bool, ◌||◌, not, Option, none, some, List, [], Result, ok, tunnel_state_error, ◌==◌,
  string_eq, contains, leb, length, if◌then◌else◌,
}
use vibe_connect.Base.Sets.{add, discard}
use vibe_connect.Base.Action.{Action, pure, raise, raise_if, gets, modify, ◌>>=◌, ◌>>◌}
use vibe_connect.Frame.{FrameType, open_session, session_data, resize_pty, close_session}

pub record Channels : Type 0 where
  pub max_sessions : ℕ
  pub open_channels : List String
  pub retired_channels : List String

unfoldable pub new_channels : ℕ → Result Channels
new_channels max_sessions =
    if leb max_sessions 0
    then Result.raise (tunnel_state_error "max_sessions must be positive")
    else ok (record { max_sessions = max_sessions; open_channels = []; retired_channels = [] })

abbrev pub is_open : Channels → String → Bool
is_open channels = contains channels.open_channels

abbrev pub is_retired : Channels → String → Bool
is_retired channels = contains channels.retired_channels

unfoldable pub open_channel : String → Action Channels (Unit {0})
unfolding ◌>>=◌
open_channel channel_id channels =
    (do
      raise_if (channel_id == "") (tunnel_state_error "channel_id is required")
      raise_if (is_open channels channel_id || is_retired channels channel_id)
          (tunnel_state_error "channel_id reuse")
      raise_if (leb channels.max_sessions (length channels.open_channels))
          (tunnel_state_error "max sessions exceeded")
      modify λ c. record c { open_channels = add channel_id c.open_channels })
      channels

unfoldable pub close_channel : String → Action Channels (Unit {0})
unfolding ◌>>=◌
close_channel channel_id channels =
    (do
      raise_if (not (is_open channels channel_id)) (tunnel_state_error "unknown channel")
      modify λ c. record c {
        open_channels = discard channel_id c.open_channels;
        retired_channels = add channel_id c.retired_channels;
      })
      channels

unfoldable pub require_open : String → Action Channels (Unit {0})
unfolding ◌>>=◌
require_open channel_id channels =
    raise_if (not (is_open channels channel_id)) (tunnel_state_error "unknown channel") channels

-- `apply_channel_frame`, on a channel's identifier that is there
unfoldable pub apply_to_channel : FrameType → String → Action Channels (Unit {0})
unfolding open_channel close_channel require_open ◌>>=◌
apply_to_channel open_session channel_id = open_channel channel_id
apply_to_channel session_data channel_id = require_open channel_id
apply_to_channel resize_pty channel_id = require_open channel_id
apply_to_channel close_session channel_id = do require_open channel_id; close_channel channel_id
apply_to_channel _ channel_id = pure tt

-- The frame types that carry a channel.
unfoldable pub is_session_scoped : FrameType → Bool
is_session_scoped open_session = Bool.true
is_session_scoped session_data = Bool.true
is_session_scoped resize_pty = Bool.true
is_session_scoped close_session = Bool.true
is_session_scoped _ = Bool.false

unfoldable pub apply_channel_frame : FrameType → Option String → Action Channels (Unit {0})
unfolding apply_to_channel is_session_scoped ◌>>=◌
apply_channel_frame frame_type (some channel_id) = apply_to_channel frame_type channel_id
apply_channel_frame frame_type none =
    raise_if (is_session_scoped frame_type) (tunnel_state_error "channel_id is required")
