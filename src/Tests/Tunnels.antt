-- ===== src/Tests/Tunnels.antt =====
-- The registries, the flow limit, the authenticator and the broker at concrete inputs.
use vibe_connect.Base.{
  ℕ, arith, ◌≡◌, ◌⊎◌, ◌≢◌, nat_eq, contains, ◌<◌, ◌≤◌, ◌↔◌, String, true, false, Option, none, some,
  List, [], ◌∷◌, Result, ok, raise, tunnel_state_error, refl, ne_of_beq, string_eq, inr,
}
use vibe_connect.Base.Dict.{get, put}
use vibe_connect.Base.Sets.{add, discard}
use vibe_connect.Secret.{too_short}
use vibe_connect.Frame.{FrameType, auth, heartbeat, open_session, close_session}
use vibe_connect.Frame.RoundTrip.{as_sent}
use vibe_connect.Tunnel.Registry.{Registry}
use vibe_connect.Tunnel.Registry.Ownership.{connects, disconnects, revokes, calls, calls-keep_owner}
use vibe_connect.Tunnel.Channels.{
  new_channels, close_channel, Channels, is_open, is_retired, open_channel,
}
use vibe_connect.Tunnel.Channels.Lifecycle.{
  IsValid, apply_frames, apply_frames-IsValid, Opened, open_channel_iff, no_channel_reuse,
}
use vibe_connect.Tunnel.Backpressure.{
  new_backpressure, Backpressure, Traffic, queued, drained, traffic, traffic_bounded,
}
use vibe_connect.Tunnel.Auth.{
  AgentTunnelRecord, TunnelAuthRequest, AgentStore, IssuedAgentCertificate, RenewedAgentCertificate,
  get_agent, authenticate, renew,
}
use vibe_connect.Tunnel.Auth.Decision.{IsBound, authenticate_iff}
use vibe_connect.Tunnel.Auth.Renewal.{renew-authenticate}
use vibe_connect.Broker.Platform.{Platform}
use vibe_connect.Broker.State.{empty_broker}
use vibe_connect.Broker.Objects.{AllConsistent}
use vibe_connect.Broker.Runs.{Event, starts, brings, opens, run, run-AllConsistent}
use vibe_connect.Tests.Codec.{small_json}

abbrev taken : Registry
taken = (1, "k1") ∷ []

calls-keep_owner_example :
    get 1 (calls (connects 1 "k2" ∷ disconnects 1 "k2" ∷ revokes 2 ∷ []) taken) ≡ some "k1"
unfolding get
calls-keep_owner_example =
    calls-keep_owner 1 "k1" (connects 1 "k2" ∷ disconnects 1 "k2" ∷ revokes 2 ∷ []) taken
      (tt, (inr (ne_of_beq "k2" "k1" refl), ((λ e. omega (arith, e)), tt))) refl

abbrev no_channels : Channels
no_channels = record { max_sessions = 2; open_channels = []; retired_channels = [] }

abbrev two_frames : List (FrameType × Option String)
two_frames = (open_session, some "c1") ∷ (close_session, some "c1") ∷ []

apply_frames-IsValid_example : IsValid (apply_frames two_frames no_channels)
unfolding new_channels
apply_frames-IsValid_example = apply_frames-IsValid 2 no_channels two_frames refl

open_channel_iff_example :
    (((open_channel "c1" no_channels).0 ≡ ok tt) ↔ (
      (◌≢◌ {A = String} "c1" "")
      × (is_open no_channels "c1" ≡ false)
      × (is_retired no_channels "c1" ≡ false)
      × (0 < 2)))
    × ((((open_channel "c1" no_channels).0 ≡ ok tt)
          × Opened "c1" no_channels (open_channel "c1" no_channels).1)
        ⊎ (((open_channel "c1" no_channels).0 ≢ ok tt)
            × ((open_channel "c1" no_channels).1 ≡ no_channels)))
open_channel_iff_example = open_channel_iff "c1" no_channels

abbrev one_channel : Channels
one_channel = record { max_sessions = 2; open_channels = "c1" ∷ []; retired_channels = [] }

no_channel_reuse_example :
    let later =
      apply_frames two_frames
        (record { max_sessions = 2; open_channels = []; retired_channels = "c1" ∷ [] }) in
    open_channel "c1" later ≡ (raise (tunnel_state_error "channel_id reuse"), later)
unfolding close_channel contains discard add
no_channel_reuse_example =
    no_channel_reuse "c1" one_channel two_frames (ne_of_beq "c1" "" refl) refl

abbrev idle : Backpressure
idle = record { max_pending_bytes = 4; pending_bytes = 0 }

abbrev some_traffic : List Traffic
some_traffic = queued (1 ∷ 2 ∷ 3 ∷ []) ∷ queued (4 ∷ 5 ∷ []) ∷ drained 2 ∷ []

traffic_bounded_example :
    ((traffic some_traffic idle).pending_bytes ≤ 4)
    × ((traffic some_traffic idle).max_pending_bytes ≡ 4)
unfolding new_backpressure
traffic_bounded_example = traffic_bounded 4 idle some_traffic refl

abbrev secret_text : String
secret_text = "0123456789012345678901234567890123456789012"

-- A hash that keeps the text.
abbrev plain_hash : String → String
plain_hash s = s

abbrev web_agent : AgentTunnelRecord
web_agent = record {
  agent_id = 1;
  node_name = "web";
  x509_public_key = "key";
  tunnel_secret_hash = secret_text;
  cert_serial = "s1";
  cert_expires_at = 100;
  revoked_at = none;
}

abbrev one_agent : AgentStore
one_agent = record { records = (1, web_agent) ∷ []; last_seen = [] }

abbrev request_of : String → String → TunnelAuthRequest
request_of serial key = record {
  agent_id = 1;
  node_name = "web";
  cert_serial = serial;
  cert_public_key = key;
  tunnel_secret = secret_text;
}

authenticate_iff_example :
    (authenticate plain_hash (request_of "s1" "key") 99 one_agent ≡ ok web_agent) ↔ (
      (get_agent 1 one_agent ≡ some web_agent)
      × IsBound plain_hash (request_of "s1" "key") 99 web_agent)
authenticate_iff_example =
    authenticate_iff plain_hash (request_of "s1" "key") 99 one_agent web_agent

abbrev issue_next : String → String → ℕ → ℕ → Result IssuedAgentCertificate
issue_next key node id now =
    ok (record { certificate_pem = "cert"; serial = "s2"; expires_at = 200 })

abbrev next_certificate : RenewedAgentCertificate
next_certificate = record {
  public_key_pem = "key2";
  certificate_pem = "cert";
  cert_serial = "s2";
  cert_expires_at = 200;
}

abbrev renewed_agent : AgentTunnelRecord
renewed_agent = record web_agent {
  x509_public_key = "key2";
  cert_serial = "s2";
  cert_expires_at = 200;
}

abbrev renewed_store : AgentStore
renewed_store = record { records = (1, renewed_agent) ∷ []; last_seen = [] }

web_renewed : renew issue_next 1 "web" "key2" 99 one_agent ≡ ok (next_certificate, renewed_store)
unfolding renew get put
web_renewed = refl

web_admitted : authenticate plain_hash (request_of "s2" "key2") 150 renewed_store ≡ ok renewed_agent
unfolding authenticate get too_short
web_admitted = refl

renew-authenticate_example :
    ((request_of "s2" "key2").cert_serial ≡ next_certificate.cert_serial)
    × (◌≡◌ {A = String} (request_of "s2" "key2").cert_public_key "key2")
    × (web_agent.node_name ≡ web_agent.node_name)
    × (150 < 200)
renew-authenticate_example =
    renew-authenticate issue_next 1 "web" "key2" 99 one_agent plain_hash next_certificate
      renewed_store (request_of "s2" "key2") 150 renewed_agent web_renewed refl web_admitted

abbrev small_platform : Platform
small_platform = record {
  json = small_json;
  sha256_hex_text = plain_hash;
  uuid_of = λ s. some 1;
  repr = λ v. "";
  drains = λ frames. true;
}

abbrev some_events : List Event
some_events =
    starts (as_sent auth "r1" none []) (record { cert_serial = "s1"; cert_public_key = "key" }) "k1"
      10 11
    ∷ opens 1 "c1" "web" "host" "alice" "alice" 20 "r2"
    ∷ brings "k1" 1 (as_sent heartbeat "r3" none []) 30
    ∷ []

run-AllConsistent_example :
    AllConsistent (run small_platform 2 30 1024 some_events (empty_broker one_agent))
run-AllConsistent_example = run-AllConsistent small_platform 2 30 1024 one_agent some_events
