-- ===== src/Jump/Coordinator.antt =====
-- ServerJumpCoordinator.start_jump. The target that the query returns has the node's name that was
-- asked for, so the name that start_jump goes on with is the target's.
use vibe_connect.Base.{
  ℕ, String, Option, none, some, Result, ok, raise as failed, Error, jump_error, replay_error,
  value_error, string_eq, ◌!=◌, if◌then◌else◌,
}
use vibe_connect.Base.Action.{Action, pure, raise, ◌>>=◌, ◌>>◌}
use vibe_connect.Text.{append}
use vibe_connect.Value.{str, field, end}
use vibe_connect.Audit.Writer.{session_started}
use vibe_connect.Replay.Recorder.{ReplayRecorder, Recording, fail}
use vibe_connect.Replay.Writer.{start}
use vibe_connect.Jump.World.{World, on_replay_disk}
use vibe_connect.Jump.Store.{JumpTarget, JumpSession, create_session, fail_session}
use vibe_connect.Jump.Opener.{JumpPlatform, Fresh, IssuedUserCertificate, open_node_session}
use vibe_connect.Jump.Checks.{JumpRequest, audit, audit_denial, admitted_target}

pub record StartedJump : Type 0 where
  pub session : JumpSession
  pub target : JumpTarget
  pub user_certificate : IssuedUserCertificate
  pub replay : ReplayRecorder
  pub channel_id : String

abbrev pub recorded_disk {ℓ} : {A : Type ℓ} → World → Result A × Recording → Result A × World
recorded_disk w (r, s) = (r, record w { disk = s.disk })

-- A method of a recorder that is given up afterwards.
unfoldable pub on_recorder {ℓ} : {A : Type ℓ} → ReplayRecorder → Action Recording A → Action World A
on_recorder recorder m w = recorded_disk w (m (record { recorder = recorder; disk = w.disk }))

module _ (platform : JumpPlatform) where
  -- `fail_session`, the denial, and the exception
  unfoldable pub fail_and_deny {ℓ} :
      {A : Type ℓ} → JumpRequest → JumpTarget → String → ℕ → String → Error → Action World A
  unfolding fail_session audit_denial
  fail_and_deny request target node_name session_id reason error = do
    fail_session platform.answers platform.uuid_text session_id request.now
    audit_denial platform request.identity.username (some target.agent_id) (some node_name) reason
        (some session_id)
    raise error

  abbrev pub caught_start :
      JumpRequest
      → JumpTarget
      → String
      → ℕ
      → Result ReplayRecorder × World
      → Result ReplayRecorder × World
  caught_start request target node_name session_id (ok recorder, w) = (ok recorder, w)
  caught_start request target node_name session_id (failed (replay_error m), w) =
      fail_and_deny request target node_name session_id "replay start failed"
        (jump_error "replay capture is required") w
  caught_start request target node_name session_id (failed e, w) = (failed e, w)

  unfoldable pub start_replay :
      JumpRequest → JumpTarget → String → JumpSession → Action World ReplayRecorder
  unfolding on_replay_disk start
  start_replay request target node_name session w =
      caught_start request target node_name session.session_id (
        on_replay_disk
          (start platform.replay platform.writer platform.creation session.session_id node_name
            request.width request.height session.started_at)
          w)

  -- `issue`; what it raises is not a JumpError.
  abbrev pub issued : Option IssuedUserCertificate → Action World IssuedUserCertificate
  issued none = raise (value_error "certificate not issued")
  issued (some certificate) = pure certificate

  -- `replay.fail`, `fail_session` and the exception, for a certificate of another user
  unfoldable pub require_principal :
      JumpRequest → JumpSession → ReplayRecorder → IssuedUserCertificate → Action World (Unit {0})
  unfolding on_recorder fail fail_session
  require_principal request session replay certificate =
      if certificate.cert_username != request.identity.username
      then (do
        on_recorder replay (fail platform.replay "certificate principal mismatch")
        fail_session platform.answers platform.uuid_text session.session_id request.now
        raise (jump_error "user certificate principal mismatch"))
      else pure tt

  -- What is ready when the tunnel is to be opened; no channel yet.
  unfoldable pub prepare_jump : JumpRequest → Fresh → Action World StartedJump
  unfolding admitted_target create_session start_replay require_principal append
  prepare_jump request fresh = do
    target ← admitted_target platform request
    let node_name = target.node_name
    session ←
        create_session platform.answers fresh.session_id target.agent_id request.identity.username
          node_name (append (platform.uuid_text fresh.path_id) ".cast") request.now
    replay ← start_replay request target node_name session
    certificate ← issued (
        platform.issue request.identity.username session.session_id session.user_cert_serial
          request.now)
    require_principal request session replay certificate
    pure (record {
      session = session;
      target = target;
      user_certificate = certificate;
      replay = replay;
      channel_id = fresh.channel_id;
    })

  -- `except JumpError` around the opening of the tunnel
  abbrev pub caught_open :
      JumpRequest → StartedJump → Result (Unit {0}) × World → Result (Unit {0}) × World
  caught_open request jump (ok u, w) = (ok u, w)
  caught_open request jump (failed (jump_error m), w) =
      (do
        on_recorder jump.replay (fail platform.replay "node SSH connection failed")
        fail_and_deny request jump.target jump.target.node_name jump.session.session_id
            "node SSH connection failed" (jump_error "node SSH connection failed"))
        w
  caught_open request jump (failed e, w) = (failed e, w)

  unfoldable pub open_jump : JumpRequest → Fresh → StartedJump → Action World (Unit {0})
  unfolding on_recorder fail fail_and_deny open_node_session
  open_jump request fresh jump w = caught_open request jump (
      open_node_session platform fresh jump.target.agent_id jump.target.node_name
        jump.target.node_ssh_host_public_key request.identity.username jump.user_certificate w)

  -- From the ready jump to its start.
  unfoldable pub finish_jump : JumpRequest → Fresh → StartedJump → Action World StartedJump
  unfolding open_jump audit
  finish_jump request fresh jump = do
    open_jump request fresh jump
    audit platform (record {
      event_type = session_started;
      actor = request.identity.username;
      agent_id = some jump.target.agent_id;
      session_id = some jump.session.session_id;
      node_name = some jump.target.node_name;
      metadata = field "status" (str "open") end;
    })
    pure jump

  unfoldable pub start_jump : JumpRequest → Fresh → Action World StartedJump
  unfolding prepare_jump finish_jump
  start_jump request fresh = do jump ← prepare_jump request fresh; finish_jump request fresh jump
