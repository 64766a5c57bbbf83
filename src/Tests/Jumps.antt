-- ===== src/Tests/Jumps.antt =====
-- A jump of one user to one node, at concrete values.
use vibe_connect.Base.{
  ℕ, ◌≡◌, ◌≢◌, ◌⊎◌, ◌++◌, true, false, Bool, String, Option, none, some, List, [], ◌∷◌, refl,
  Result, ok, raise, length, ◌≤◌, arith, jump_error, string_eq, nat_eq, key_error,
}
use vibe_connect.Base.Dict.{get}
use vibe_connect.Value.{Value, real}
use vibe_connect.Replay.Recorder.{event_value, header_value}
use vibe_connect.Text.{append}
use vibe_connect.Replay.Writer.{new_recorder}
use vibe_connect.Broker.State.{Broker, Connection}
use vibe_connect.Jump.World.{World, AgentRow, status_open, status_closed, status_failed, SessionRow}
use vibe_connect.Jump.Opener.{JumpPlatform, Fresh, IssuedUserCertificate, open_node_session}
use vibe_connect.Jump.Checks.{JumpRequest}
use vibe_connect.Jump.Coordinator.{StartedJump, start_jump}
use vibe_connect.Jump.Opened.{IsReady, start_jump-IsReady}
use vibe_connect.Jump.Bridge.{
  Bridge, send_user_input, receive_node_output, resize_bridge_pty, close_bridge, connection_lost,
  terminate,
}
use vibe_connect.Jump.Recorded.{IsRecordedFirst, HasLines, bridge_records_first}
use vibe_connect.Jump.Once.{close_bridge-once}
use vibe_connect.Jump.Released.{IsReleased, close_bridge-IsReleased}
use vibe_connect.Jump.Adapter.{Adapter, new_adapter}
use vibe_connect.Jump.Delivery.{
  Use, feed, feed_end, read_next, traffic, IsFaithful, read_times, drained, adapter_delivers,
}
use vibe_connect.Tests.Replays.{
  line_json, replay_platform, replay_writer_7, creation, empty_disk, recorder_7, started_disk,
  other_name,
}

abbrev web_row : AgentRow
web_row = record {
  id = 1;
  row_node_name = "web";
  host_public_key = "ssh-ed25519 K";
  last_seen_at = some 100;
  revoked = false;
}

abbrev web_connection : Connection
web_connection = record {
  agent = record {
    agent_id = 1;
    node_name = "web";
    x509_public_key = "p";
    tunnel_secret_hash = "h";
    cert_serial = "1";
    cert_expires_at = 900;
    revoked_at = none;
  };
  connection_id = "k1";
  channels = record { max_sessions = 4; open_channels = []; retired_channels = [] };
  heartbeat = record { heartbeat_seconds = 10; last_seen = some 100 };
  adapters = [];
  streams = [];
}

abbrev web_broker : Broker
web_broker = record {
  store = record { records = []; last_seen = [] };
  registry = [];
  objects = ("k1", web_connection) ∷ [];
  connections = (1, "k1") ∷ [];
  channel_agents = [];
  sent = [];
}

abbrev web_world : World
web_world = record {
  agents = web_row ∷ [];
  sessions = [];
  next_serial = 5;
  statements = 0;
  events = [];
  disk = empty_disk;
  broker = web_broker;
}

abbrev certificate : IssuedUserCertificate
certificate = record {
  certificate = 1 ∷ [];
  serial = 5;
  cert_username = "alice";
  valid_after = 0;
  valid_before = 900;
}

abbrev jump_platform : JumpPlatform
jump_platform = record {
  replay = replay_platform;
  writer = replay_writer_7;
  creation = creation;
  broker = record {
    json = line_json;
    sha256_hex_text = λ s. s;
    uuid_of = λ s. none;
    repr = λ v. "";
    drains = λ sent. true;
  };
  max_frame_bytes = 100;
  heartbeat_seconds = 10;
  answers = λ n. true;
  audited = true;
  accepts = λ events event. true;
  issue = λ username session serial now. some certificate;
  imports_known_hosts = λ text. true;
  attempt = λ b. (true, b);
  uuid_text = λ n. "7";
  node_port = 2222;
  port_text = λ n. "2222";
}

abbrev jump_request : JumpRequest
jump_request = record {
  identity = record { username = "alice"; public_key = "k"; groups = [] };
  command = "web";
  visible_nodes = record { node_name = "web"; labels = [] } ∷ [];
  presented_node_host_key = some "ssh-ed25519 K";
  width = 80;
  height = 24;
  now = 1000000;
}

abbrev fresh : Fresh
fresh = record {
  path_id = 8;
  session_id = 7;
  channel_id = "c1";
  open_request_id = "r1";
  close_request_id = "r2";
  opened_at = 1000000;
}

abbrev web_jump : StartedJump
web_jump = record {
  session = record {
    session_id = 7;
    user_cert_serial = 5;
    replay_path = "7.cast";
    started_at = 1000000;
  };
  target = record {
    agent_id = 1;
    node_name = "web";
    node_ssh_host_public_key = "ssh-ed25519 K";
    heartbeat = record { heartbeat_seconds = 10; last_seen = some 100 };
  };
  user_certificate = certificate;
  replay = recorder_7;
  channel_id = "c1";
}

jump_started : (start_jump jump_platform jump_request fresh web_world).0 ≡ ok web_jump
unfolding start_jump vibe_connect.Base.Action.◌>>=◌
    vibe_connect.Access.Shell.parse_restricted_shell_command
    vibe_connect.Access.Shell.validated_nodes vibe_connect.Identifiers.validate_node_name
    vibe_connect.Access.Shell.exact_node vibe_connect.Base.contains get vibe_connect.Base.Dict.put
    vibe_connect.Broker.Sessions.require_connection vibe_connect.Broker.State.on_connection
    vibe_connect.Broker.Sessions.open_on_connection vibe_connect.Broker.State.on_channels
    vibe_connect.Tunnel.Channels.apply_to_channel vibe_connect.Broker.Sessions.write_frame
    vibe_connect.Frame.encode_frame vibe_connect.Base.Sets.add
jump_started = refl

distinct_names : ".7.x.tmp" ≢ (new_recorder replay_platform replay_writer_7 creation 7).path
unfolding append
distinct_names = other_name

start_jump-IsReady_example :
    (((start_jump jump_platform jump_request fresh web_world).1.broker ≡ web_broker)
      ⊎ ((jump : StartedJump) × (v : World) × IsReady jump_platform jump_request fresh web_world
            distinct_names jump v))
    × ((jump : StartedJump) (w' : World)
        → start_jump jump_platform jump_request fresh web_world ≡ (ok jump, w')
        → (v : World) × (v' : World) × IsReady jump_platform jump_request fresh web_world
            distinct_names jump v
          × (open_node_session jump_platform fresh jump.target.agent_id jump.target.node_name
                jump.target.node_ssh_host_public_key "alice" jump.user_certificate v
              ≡ (ok tt, v')))
start_jump-IsReady_example =
    start_jump-IsReady jump_platform jump_request fresh web_world distinct_names

-- The bridge of the started jump, whose channel is open at the broker.
abbrev open_broker : Broker
open_broker = record {
  store = record { records = []; last_seen = [] };
  registry = [];
  objects =
      (
        "k1",
        record web_connection {
          channels = record { max_sessions = 4; open_channels = "c1" ∷ []; retired_channels = [] };
          adapters = "c1" ∷ [];
        },
      )
      ∷ [];
  connections = (1, "k1") ∷ [];
  channel_agents = ("c1", 1) ∷ [];
  sent = [];
}

abbrev open_row : SessionRow
open_row = record {
  agent_id = 1;
  user_name = "alice";
  started_at = 1000000;
  replay_path = "7.cast";
  status = status_open;
  user_cert_serial = 5;
  ended_at = none;
  replay_hmac = none;
}

abbrev open_bridge : Bridge
open_bridge = record {
  jump = web_jump;
  bridge_closed = false;
  world = record web_world {
    sessions = (7, open_row) ∷ [];
    disk = started_disk;
    broker = open_broker;
  };
}

abbrev no_text : List ℕ → String
no_text bytes = "x"

web_header : Value
web_header = header_value "web" 80 24 1

open-HasLines :
    HasLines jump_platform no_text true "7.cast" ".7.x.tmp"
      (1 ∷ 2 ∷ [])
      other_name
      none
      (web_header ∷ [])
      open_bridge
unfolding get vibe_connect.Replay.Recorder.line_bytes web_header header_value
open-HasLines = record {
  names = record { named = refl; temp_named = refl; keyed = refl };
  open_recorder = refl;
  open_file = refl;
  held = refl;
  untouched = refl;
}

bridge_records_first_example :
    IsRecordedFirst jump_platform no_text true "7.cast" ".7.x.tmp"
      (1 ∷ 2 ∷ [])
      other_name
      none
      (event_value real "i" "x")
      (web_header ∷ [])
      open_bridge
      (send_user_input jump_platform no_text true real (108 ∷ []) "r3" open_bridge).1
    × ((shown : List ℕ) (b' : Bridge)
        → receive_node_output jump_platform no_text true real (108 ∷ []) open_bridge
          ≡ (ok shown, b')
        → (shown ≡ 108 ∷ [])
          × HasLines jump_platform no_text true "7.cast" ".7.x.tmp"
              (1 ∷ 2 ∷ [])
              other_name
              none
              (web_header ∷ event_value real "o" "x" ∷ [])
              b')
bridge_records_first_example =
    bridge_records_first jump_platform no_text true "7.cast" ".7.x.tmp" (1 ∷ 2 ∷ []) other_name none
      open_bridge (web_header ∷ []) real (108 ∷ []) "r3" open-HasLines

input_sent_once :
    length
      (send_user_input jump_platform no_text true real
        (108 ∷ [])
        "r3"
        open_bridge).1.world.broker.sent
    ≡ 1
unfolding send_user_input vibe_connect.Base.Action.◌>>=◌ vibe_connect.Replay.Recorder.record_event
    vibe_connect.Replay.Recorder.write_line get vibe_connect.Broker.Sessions.require_open_channel
    vibe_connect.Broker.Sessions.require_channel_connection vibe_connect.Broker.State.on_connection
    vibe_connect.Broker.State.on_channels vibe_connect.Tunnel.Channels.require_open
    vibe_connect.Base.contains vibe_connect.Broker.Sessions.write_frame
    vibe_connect.Frame.encode_frame
input_sent_once = refl

abbrev closed_bridge : Bridge
closed_bridge = (close_bridge jump_platform no_text true status_closed 9 none "r4" open_bridge).1

close_bridge-once_example :
    let refusal = jump_error "jump channel is closed" in
    (send_user_input jump_platform no_text true real [] "r4" closed_bridge
      ≡ (raise refusal, closed_bridge))
    × (receive_node_output jump_platform no_text true real [] closed_bridge
        ≡ (raise refusal, closed_bridge))
    × (resize_bridge_pty jump_platform no_text true 80 24 "r4" closed_bridge
        ≡ (raise refusal, closed_bridge))
    × (close_bridge jump_platform no_text true status_failed 10 none "r4" closed_bridge
        ≡ (ok tt, closed_bridge))
    × (connection_lost jump_platform no_text true none 10 "r4" closed_bridge
        ≡ (ok tt, closed_bridge))
    × (terminate jump_platform no_text true "stop" 10 "r4" closed_bridge ≡ (ok tt, closed_bridge))
close_bridge-once_example =
    close_bridge-once jump_platform no_text true status_closed 9 none "r4" open_bridge real [] 80 24
      10 status_failed none "stop"

bridge_closes :
    close_bridge jump_platform no_text true status_closed 9 none "r4" open_bridge
    ≡ (ok tt, closed_bridge)
unfolding close_bridge vibe_connect.Base.Action.◌>>=◌ vibe_connect.Broker.Sessions.begin_close
    vibe_connect.Broker.Sessions.require_open_channel
    vibe_connect.Broker.Sessions.require_channel_connection get
    vibe_connect.Broker.State.on_connection vibe_connect.Broker.State.on_channels
    vibe_connect.Tunnel.Channels.require_open vibe_connect.Base.contains
    vibe_connect.Broker.Sessions.write_frame vibe_connect.Frame.encode_frame
    vibe_connect.Broker.Sessions.retire_channel vibe_connect.Base.Dict.put
    vibe_connect.Broker.Sessions.retire_on_connection vibe_connect.Tunnel.Channels.apply_to_channel
bridge_closes = refl

close_bridge-IsReleased_example :
    (status_closed ≢ status_open) × IsReleased jump_platform no_text true "c1" 7 closed_bridge
close_bridge-IsReleased_example =
    close_bridge-IsReleased jump_platform no_text true status_closed 9 none "r4" open_bridge
      closed_bridge refl bridge_closes

abbrev c1_adapter : Adapter
c1_adapter = record { channel_id = "c1"; incoming = []; adapter_closed = false; eof = false }

abbrev some_uses : List Use
some_uses = feed (1 ∷ 2 ∷ []) ∷ read_next ∷ feed (3 ∷ []) ∷ feed_end ∷ feed (4 ∷ []) ∷ []

c1_created : new_adapter "c1" ≡ ok c1_adapter
unfolding new_adapter
c1_created = refl

abbrev never_closes : String → Result (Unit {0})
never_closes channel_id = raise key_error

adapter_delivers_example :
    let t = traffic never_closes some_uses (record { fed = []; seen = []; adapter = c1_adapter }) in
    IsFaithful never_closes t
    × (t.adapter.eof ≡ true
        → (n : ℕ) → length t.adapter.incoming ≤ n
        → (rest : List ℕ) × (read_times n t.adapter ≡ (some rest, drained t.adapter))
          × (t.fed ≡ t.seen ++ rest))
adapter_delivers_example = adapter_delivers never_closes "c1" c1_adapter some_uses c1_created

one_unread :
    (traffic never_closes some_uses
      (record { fed = []; seen = []; adapter = c1_adapter })).adapter.incoming
    ≡ some (3 ∷ []) ∷ none ∷ []
unfolding vibe_connect.Jump.Adapter.feed_adapter_data vibe_connect.Base.Action.◌>>=◌
    vibe_connect.Jump.Adapter.feed_adapter_eof vibe_connect.Jump.Adapter.read_adapter
one_unread = refl
