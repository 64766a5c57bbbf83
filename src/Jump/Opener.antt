-- ===== src/Jump/Opener.antt =====
-- The pinned host key, and AsyncSshNodeTunnelOpener: the node's SSH connection over the broker. The
-- connection object itself is AsyncSSH's and is left out.
use vibe_connect.Base.{
  ℕ, String, Bool, true, false, not, Option, none, some, List, Result, ok, jump_error, string_eq,
  nat_eq, ◌==◌, ◌!=◌, if◌then◌else◌,
}
use vibe_connect.Base.Action.{Action, pure, raise, raise_if, ◌>>=◌, ◌>>◌}
use vibe_connect.Text.{append, strip}
use vibe_connect.Replay.Storage.{ReplayPlatform}
use vibe_connect.Replay.Writer.{ReplayWriter, Creation}
use vibe_connect.Broker.Platform.{Platform}
use vibe_connect.Broker.State.{Broker}
use vibe_connect.Broker.Sessions.{open_broker_session, connector_for_agent, close_broker_session}
use vibe_connect.Jump.World.{World, JumpEvent, on_broker}

-- `if not x`, on a text that may be missing
abbrev pub is_missing : Option String → Bool
is_missing none = true
is_missing (some text) = text == ""

abbrev pub differs_from : Option String → Option String → Bool
differs_from (some a) (some b) = a != b
differs_from none none = false
differs_from _ _ = true

-- The returned key is the presented one.
unfoldable pub validate_pinned_host_key : Option String → Option String → Action World (Unit {0})
validate_pinned_host_key expected_host_key presented_host_key = do
  raise_if (is_missing expected_host_key) (jump_error "node sshd host key is not pinned")
  raise_if (is_missing presented_host_key) (jump_error "node sshd host key was not presented")
  raise_if (differs_from presented_host_key expected_host_key)
      (jump_error "node sshd host key mismatch")

-- crypto.py; the private key is left out.
pub record IssuedUserCertificate : Type 0 where
  pub certificate : List ℕ
  pub serial : ℕ
  pub cert_username : String
  pub valid_after : ℕ
  pub valid_before : ℕ

-- What a jump takes from outside. `attempt` is an attempt to connect: whether AsyncSSH returns, and
-- the broker afterwards, on which other tasks may have worked meanwhile. `answers` is as in Store,
-- `accepts` says whether the audit sink takes an event.
pub record JumpPlatform : Type 0 where
  pub replay : ReplayPlatform
  pub writer : ReplayWriter
  pub creation : Creation
  pub broker : Platform
  pub max_frame_bytes : ℕ
  pub heartbeat_seconds : ℕ
  pub answers : ℕ → Bool
  pub audited : Bool
  pub accepts : List JumpEvent → JumpEvent → Bool
  pub issue : String → ℕ → ℕ → ℕ → Option IssuedUserCertificate
  pub imports_known_hosts : String → Bool
  pub attempt : Broker → Bool × Broker
  pub uuid_text : ℕ → String
  pub node_port : ℕ
  pub port_text : ℕ → String

-- The fresh identifiers of a jump, and the time that the broker reads when it opens the channel.
pub record Fresh : Type 0 where
  pub path_id : ℕ
  pub session_id : ℕ
  pub channel_id : String
  pub open_request_id : String
  pub close_request_id : String
  pub opened_at : ℕ

module _ (platform : JumpPlatform) where
  unfoldable pub host_pattern : String → String
  unfolding append
  host_pattern node_name =
      if platform.node_port != 22
      then append "[" (append node_name (append "]:" (platform.port_text platform.node_port)))
      else node_name

  -- `_known_hosts_for_node`
  unfoldable pub known_hosts_for_node : String → String → Action World (Unit {0})
  unfolding host_pattern append strip
  known_hosts_for_node node_name host_public_key =
      raise_if
        (not (
          platform.imports_known_hosts
            (append (host_pattern node_name) (append " " (append (strip host_public_key) "\n")))))
        (jump_error "node sshd host key is invalid")

  abbrev pub attempted : World → Bool × Broker → Result Bool × World
  attempted w (connected, b) = (ok connected, record w { broker = b })

  unfoldable pub connect : Action World Bool
  connect w = attempted w (platform.attempt w.broker)

  -- `AsyncSshNodeTunnelOpener.open_session`
  unfoldable pub open_node_session :
      Fresh → ℕ → String → String → String → IssuedUserCertificate → Action World (Unit {0})
  unfolding known_hosts_for_node connect on_broker open_broker_session connector_for_agent
      close_broker_session
  open_node_session fresh agent_id node_name host_key username user_certificate = do
    raise_if (user_certificate.cert_username != username)
        (jump_error "user certificate principal mismatch")
    raise_if (host_key == "") (jump_error "node sshd host key is not pinned")
    on_broker (
        open_broker_session platform.broker platform.max_frame_bytes agent_id fresh.channel_id
          node_name host_key username user_certificate.cert_username fresh.opened_at
          fresh.open_request_id)
    on_broker (connector_for_agent agent_id fresh.channel_id)
    known_hosts_for_node node_name host_key
    connected ← connect
    if connected then pure tt else (do
      on_broker (
          close_broker_session platform.broker platform.max_frame_bytes fresh.channel_id
            fresh.close_request_id)
      raise (jump_error "node SSH connection failed"))
