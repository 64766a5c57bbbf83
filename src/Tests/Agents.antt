-- ===== src/Tests/Agents.antt =====
-- The agent's loop at concrete frames.
use vibe_connect.Base.{ltb, ◌≡◌, true, false, none, some, List, [], ◌∷◌, refl}
use vibe_connect.Frame.{auth_ok, open_session, session_data, DecodedFrame}
use vibe_connect.Frame.RoundTrip.{as_sent}
use vibe_connect.Agent.Loop.{AgentPlatform, handle_agent_tunnel_stream}
use vibe_connect.Agent.Loop.Listed.{stays_open}
use vibe_connect.Agent.Loop.Closing.{handle_agent_tunnel_stream-closes}
use vibe_connect.Tests.Codec.{small_json}
use vibe_connect.Agent.Streamed.{handle_byte_stream, Reads, handle_byte_stream-ends, served_then}
use vibe_connect.Frame.{encode_frame, heartbeat, decode_frame}
use vibe_connect.Agent.Loop.{new_tunnel, finished}
use vibe_connect.Base.{Result, ok, raise, ℕ, length, ◌<◌, arith}

-- The second connection fails.
abbrev agent_platform : AgentPlatform
agent_platform = record {
  json = small_json;
  connects = λ n. ltb n 1;
  local_drains = λ n payload. true;
  tunnel_drains = λ frames. true;
  task_fails = λ n. false;
  waits_closed = λ n. true;
}

abbrev server_frames : List DecodedFrame
server_frames =
    as_sent auth_ok "r1" none []
    ∷ as_sent open_session "r2" (some "c1") []
    ∷ as_sent session_data "r3" (some "c1") (1 ∷ 2 ∷ [])
    ∷ as_sent open_session "r4" (some "c2") []
    ∷ []

handle_agent_tunnel_stream-closes_example :
    stays_open 0 (handle_agent_tunnel_stream agent_platform server_frames).1 ≡ false
handle_agent_tunnel_stream-closes_example =
    handle_agent_tunnel_stream-closes agent_platform (λ n. refl) (λ n. refl) server_frames 0

abbrev bytes_or_none : Result (List ℕ) → List ℕ
bytes_or_none (ok bytes) = bytes
bytes_or_none (raise e) = []

abbrev heartbeat_bytes : List ℕ
heartbeat_bytes = bytes_or_none (encode_frame small_json heartbeat "r1" none [] 1000)

heartbeat_short : length heartbeat_bytes < 100
unfolding encode_frame vibe_connect.Tests.Codec.write_fields vibe_connect.Tests.Codec.write_text
    vibe_connect.Frame.pack_u32
heartbeat_short = omega arith

handle_byte_stream-ends_example :
    (ds : List DecodedFrame) × (r : Result (Unit {0})) × Reads agent_platform 1000 heartbeat_bytes
      ds r
    × (handle_byte_stream agent_platform 1000 100 heartbeat_bytes
        ≡ some (finished agent_platform (served_then agent_platform 1000 ds r new_tunnel)))
handle_byte_stream-ends_example =
    handle_byte_stream-ends agent_platform 1000 100 heartbeat_bytes heartbeat_short
