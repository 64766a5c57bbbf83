-- ===== src/Broker/Tunnels.antt =====
-- ServerTunnelBroker.handle_stream: a tunnel's start, its loop and its end, and _drop_connection.
use vibe_connect.Base.{
  ℕ, String, Bool, true, false, not, Option, none, some, List, [], ◌∷◌, Result, Error,
  tunnel_auth_error, tunnel_protocol_error, string_eq, nat_eq, ◌!=◌, if◌then◌else◌,
}
use vibe_connect.Base.Action.{Action, pure, raise, lift, gets, modify, raise_if, ◌>>=◌, ◌>>◌}
use vibe_connect.Base.Dict.{Dict, get, put, pop}
use vibe_connect.Value.{Value, str, dict, Fields, get_field}
use vibe_connect.Frame.{FrameType, auth, auth_ok, DecodedFrame}
use vibe_connect.Tunnel.Registry.{Registry, connect, disconnect}
use vibe_connect.Tunnel.Channels.{Channels, new_channels}
use vibe_connect.Tunnel.Heartbeat.{HeartbeatState, new_heartbeat, mark_seen}
use vibe_connect.Tunnel.Auth.{
  AgentTunnelRecord, TunnelAuthRequest, PeerCertificateBinding, update_last_seen,
  verify_peer_certificate_binding, authenticate,
}
use vibe_connect.Broker.Platform.{Platform}
use vibe_connect.Broker.State.{feed_eof, Connection, Broker, on_stream}
use vibe_connect.Broker.Sessions.{require, write_frame}

-- `feed_eof` on every listed adapter
unfoldable pub feed_eof_all : List String → Connection → Connection
feed_eof_all [] c = c
feed_eof_all (i ∷ is) c = feed_eof_all is (on_stream i feed_eof c)

unfoldable pub pop_all : List String → Dict String ℕ → Dict String ℕ
pop_all [] d = d
pop_all (i ∷ is) d = pop_all is (pop i d)

abbrev pub drop_object : ℕ → Option Connection → String → Broker → Broker
drop_object agent_id none current b = record b { connections = pop agent_id b.connections }
drop_object agent_id (some c) current b = record b {
  connections = pop agent_id b.connections;
  objects = put current (feed_eof_all c.adapters c) b.objects;
  channel_agents = pop_all c.adapters b.channel_agents;
}

-- the dictionaries, where the agent's current connection is the one that ends, or there is none
abbrev pub drop_current : ℕ → Option String → String → Broker → Broker
drop_current agent_id none connection_id b = b
drop_current agent_id (some current) connection_id b =
    if current != connection_id then b else drop_object agent_id (get current b.objects) current b

unfoldable pub drop_connection : ℕ → String → Broker → Broker
drop_connection agent_id connection_id b =
    let b' = drop_current agent_id (get agent_id b.connections) connection_id b in
    record b' { registry = disconnect agent_id connection_id b'.registry }

abbrev pub kept_registry {ℓ} : {A : Type ℓ} → Broker → Result A × Registry → Result A × Broker
kept_registry b (r, registry) = (r, record b { registry = registry })

unfoldable pub on_registry {ℓ} : {A : Type ℓ} → Action Registry A → Action Broker A
on_registry m b = kept_registry b (m b.registry)

unfoldable pub new_connection : AgentTunnelRecord → String → Channels → HeartbeatState → Connection
new_connection agent connection_id channels heartbeat = record {
  agent = agent;
  connection_id = connection_id;
  channels = channels;
  heartbeat = heartbeat;
  adapters = [];
  streams = [];
}

unfoldable pub add_connection : Connection → Broker → Broker
add_connection c b = record b {
  connections = put c.agent.agent_id c.connection_id b.connections;
  objects = put c.connection_id c b.objects;
}

-- From the authenticated agent to the registered connection.
unfoldable pub register_connection :
    ℕ → ℕ → AgentTunnelRecord → String → ℕ → Action Broker (Unit {0})
register_connection max_sessions heartbeat_seconds agent connection_id seen_at = do
  channels ← lift (new_channels max_sessions)
  fresh ← lift (new_heartbeat heartbeat_seconds)
  modify λ b. record b { store = update_last_seen agent.agent_id seen_at b.store }
  on_registry (connect agent.agent_id connection_id)
  modify (add_connection (new_connection agent connection_id channels (mark_seen seen_at fresh)))

module _ (platform : Platform) where
  abbrev pub text_of : Value → String
  text_of (str s) = s
  text_of v = platform.repr v

  abbrev pub incomplete : Error
  incomplete = tunnel_protocol_error "auth payload is incomplete"

  -- `str(values[key])`
  unfoldable pub member_text : String → Fields → Action Broker String
  member_text key values = do
    value ← require (get_field key values) incomplete
    pure (text_of value)

  unfoldable pub auth_values : Option Value → Action Broker Fields
  auth_values none = raise (tunnel_protocol_error "auth payload is invalid")
  auth_values (some (dict values)) = pure values
  auth_values (some _) = raise (tunnel_protocol_error "auth payload must be an object")

  -- `_decode_auth_payload`
  unfoldable pub decode_auth_payload : List ℕ → Action Broker TunnelAuthRequest
  decode_auth_payload payload = do
    values ← auth_values (platform.json.loads payload)
    id_text ← member_text "agent_id" values
    agent_id ← require (platform.uuid_of id_text) incomplete
    node_name ← member_text "node_name" values
    cert_serial ← member_text "cert_serial" values
    cert_public_key ← member_text "cert_public_key" values
    tunnel_secret ← member_text "tunnel_secret" values
    pure (record {
      agent_id = agent_id;
      node_name = node_name;
      cert_serial = cert_serial;
      cert_public_key = cert_public_key;
      tunnel_secret = tunnel_secret;
    })

  abbrev pub is_auth : FrameType → Bool
  is_auth auth = true
  is_auth _ = false

  -- `handle_stream` from the first frame to the authenticated agent
  unfoldable pub authenticate_stream :
      DecodedFrame → PeerCertificateBinding → ℕ → Action Broker AgentTunnelRecord
  authenticate_stream first peer now = do
    raise_if (not (is_auth first.frame.frame_type))
        (tunnel_auth_error "tunnel must start with auth")
    request ← decode_auth_payload first.payload
    lift (verify_peer_certificate_binding request peer)
    store ← gets (λ b. b.store)
    lift (authenticate platform.sha256_hex_text request now store)

  unfoldable pub accept_stream :
      ℕ
      → ℕ
      → ℕ
      → DecodedFrame
      → PeerCertificateBinding
      → String
      → ℕ
      → ℕ
      → Action Broker AgentTunnelRecord
  accept_stream max_sessions heartbeat_seconds max_frame_bytes first peer connection_id now
        seen_at =
      do
        agent ← authenticate_stream first peer now
        register_connection max_sessions heartbeat_seconds agent connection_id seen_at
        write_frame platform max_frame_bytes connection_id auth_ok first.frame.request_id none []
        pure agent
