-- ===== src/Broker/State.antt =====
-- The broker's state, and access to the connection objects.
use vibe_connect.Base.{
  ℕ, String, Bool, Option, none, some, List, [], Result, raise, key_error, if◌then◌else◌, nat_eq,
  string_eq, ◌++◌, length, take, drop, leb,
}
use vibe_connect.Base.Action.{Action}
use vibe_connect.Base.Dict.{Dict, get, put}
use vibe_connect.Tunnel.Registry.{Registry}
use vibe_connect.Tunnel.Channels.{Channels}
use vibe_connect.Tunnel.Heartbeat.{HeartbeatState}
use vibe_connect.Tunnel.Auth.{AgentTunnelRecord, AgentStore}

-- `BrokerTunnelStream`: what the agent sent and the session has not read
pub record BrokerStream : Type 0 where
  pub buffer : List ℕ
  pub closed : Bool

abbrev pub new_stream : BrokerStream
new_stream = record { buffer = []; closed = Bool.false }

unfoldable pub feed_data : List ℕ → BrokerStream → BrokerStream
feed_data payload stream = record stream { buffer = stream.buffer ++ payload }

unfoldable pub feed_eof : BrokerStream → BrokerStream
feed_eof stream = record stream { closed = Bool.true }

-- `read(n)` once it does not wait: at most `n` bytes, all of them for a negative `n` (`none`)
unfoldable pub read : Option ℕ → BrokerStream → List ℕ × BrokerStream
read none stream = (stream.buffer, record stream { buffer = [] })
read (some n) stream =
    if leb (length stream.buffer) n
    then (stream.buffer, record stream { buffer = [] })
    else (take n stream.buffer, record stream { buffer = drop n stream.buffer })

-- `_BrokerTunnelConnection`; `adapters` are the listed channels, `streams` all that were created
pub record Connection : Type 0 where
  pub agent : AgentTunnelRecord
  pub connection_id : String
  pub channels : Channels
  pub heartbeat : HeartbeatState
  pub adapters : List String
  pub streams : Dict String BrokerStream

pub record Broker : Type 0 where
  pub store : AgentStore
  pub registry : Registry
  pub objects : Dict String Connection
  pub connections : Dict ℕ String
  pub channel_agents : Dict String ℕ
  pub sent : List (String × List ℕ)

abbrev pub empty_broker : AgentStore → Broker
empty_broker store = record {
  store = store;
  registry = [];
  objects = [];
  connections = [];
  channel_agents = [];
  sent = [];
}

abbrev pub stored {ℓ} : {A : Type ℓ} → String → Result A × Connection → Broker → Result A × Broker
stored connection_id (r, c) b = (r, record b { objects = put connection_id c b.objects })

abbrev pub run_on {ℓ} :
    {A : Type ℓ} → String → Action Connection A → Option Connection → Broker → Result A × Broker
run_on connection_id m none b = (raise key_error, b)
run_on connection_id m (some c) b = stored connection_id (m c) b

-- A method of a connection object.
unfoldable pub on_connection {ℓ} : {A : Type ℓ} → String → Action Connection A → Action Broker A
on_connection connection_id m b = run_on connection_id m (get connection_id b.objects) b

abbrev pub kept_channels {ℓ} :
    {A : Type ℓ} → Connection → Result A × Channels → Result A × Connection
kept_channels c (r, channels) = (r, record c { channels = channels })

unfoldable pub on_channels {ℓ} : {A : Type ℓ} → Action Channels A → Action Connection A
on_channels m c = kept_channels c (m c.channels)

abbrev pub fed :
    Option BrokerStream → (BrokerStream → BrokerStream) → String → Connection → Connection
fed none f channel_id c = c
fed (some stream) f channel_id c = record c { streams = put channel_id (f stream) c.streams }

unfoldable pub on_stream : String → (BrokerStream → BrokerStream) → Connection → Connection
on_stream channel_id f c = fed (get channel_id c.streams) f channel_id c
