-- ===== src/Jump/Untouched.antt =====
-- The broker until start_jump opens a channel.
use vibe_connect.Base.{
  ℕ, ◌≡◌, String, Bool, Option, none, some, Result, ok, raise as failed, Error, jump_error,
  auth_error, replay_error, string_eq, arith,
}
use vibe_connect.Base.Action.{Action, pure, raise_if, modify, gets, ◌>>=◌}
use vibe_connect.Base.Action.Invariants.{Preserves, invariants}
use vibe_connect.Replay.Storage.{Disk}
use vibe_connect.Replay.Recorder.{ReplayRecorder, Recording}
use vibe_connect.Broker.State.{Broker}
use vibe_connect.Jump.World.{SessionRow, World, JumpEvent, on_replay_disk}
use vibe_connect.Jump.Store.{
  JumpTarget, JumpSession, get_jump_target, create_session, insert_session, fail_session, statement,
  close_session_row, update_row,
}
use vibe_connect.Jump.Opener.{JumpPlatform, Fresh, IssuedUserCertificate, validate_pinned_host_key}
use vibe_connect.Jump.Checks.{
  JumpRequest, audit, audit_denial, authorized, active_target, require_fresh, admitted_target,
}
use vibe_connect.Jump.Coordinator.{
  on_recorder, fail_and_deny, caught_start, start_replay, issued, require_principal, prepare_jump,
}

row_kept :
    (session_id : ℕ) (f : SessionRow → SessionRow) (w : World)
    → (update_row session_id f w).broker ≡ w.broker
unfolding update_row
row_kept session_id f w = ground arith

module _ (platform : JumpPlatform) (broker : Broker) where
  abbrev IsUntouched : World → Type 0
  IsUntouched w = w.broker ≡ broker

  statement-IsUntouched : (answers : ℕ → Bool) → Preserves IsUntouched (statement answers)
  unfolding statement ◌>>=◌ gets modify raise_if
  statement-IsUntouched answers = record { from = λ w h. ground arith }

  on_replay_disk-IsUntouched {ℓ} :
      {A : Type ℓ} (m : Action Disk A) → Preserves IsUntouched (on_replay_disk m)
  unfolding on_replay_disk
  on_replay_disk-IsUntouched m = record { from = λ w h. h }

  on_recorder-IsUntouched {ℓ} :
      {A : Type ℓ} (r : ReplayRecorder) (m : Action Recording A)
      → Preserves IsUntouched (on_recorder r m)
  unfolding on_recorder
  on_recorder-IsUntouched r m = record { from = λ w h. h }

  audit-IsUntouched : (event : JumpEvent) → Preserves IsUntouched (audit platform event)
  unfolding audit ◌>>=◌ gets modify raise_if pure
  audit-IsUntouched event = record { from = λ w h. ground arith }

  ruleset quiet = (
    invariants, statement-IsUntouched, on_replay_disk-IsUntouched, on_recorder-IsUntouched,
    audit-IsUntouched,
  )

  audit_denial-IsUntouched :
      (actor : String) (agent_id : Option ℕ) (node_name : Option String) (reason : String)
      (session_id : Option ℕ)
      → Preserves IsUntouched (audit_denial platform actor agent_id node_name reason session_id)
  unfolding audit_denial
  audit_denial-IsUntouched actor agent_id node_name reason session_id = audit-IsUntouched _

  authorized-IsUntouched :
      (username : String) (r : Result String)
      → Preserves IsUntouched (authorized platform username r)
  unfolding authorized audit_denial
  authorized-IsUntouched username (ok n) = search quiet
  authorized-IsUntouched username (failed (auth_error m)) = search quiet
  authorized-IsUntouched username (failed e) = search quiet

  active_target-IsUntouched :
      (username node_name : String) (found : Option JumpTarget)
      → Preserves IsUntouched (active_target platform username node_name found)
  unfolding active_target
  active_target-IsUntouched username node_name none = search quiet
  active_target-IsUntouched username node_name (some target) = search quiet

  admitted_target-IsUntouched :
      (request : JumpRequest) → Preserves IsUntouched (admitted_target platform request)
  unfolding admitted_target get_jump_target require_fresh validate_pinned_host_key
  admitted_target-IsUntouched request =
      search (quiet, authorized-IsUntouched, active_target-IsUntouched) depth 16

  fail_session-IsUntouched :
      (uuid_text : ℕ → String) (session_id now : ℕ)
      → Preserves IsUntouched (fail_session platform.answers uuid_text session_id now)
  unfolding fail_session close_session_row update_row
  fail_session-IsUntouched uuid_text session_id now = search (quiet, row_kept)

  fail_and_deny-IsUntouched {ℓ} :
      {A : Type ℓ} (request : JumpRequest) (target : JumpTarget) (node_name : String)
      (session_id : ℕ) (reason : String) (error : Error)
      → Preserves IsUntouched
          (fail_and_deny platform {A = A} request target node_name session_id reason error)
  unfolding fail_and_deny
  fail_and_deny-IsUntouched request target node_name session_id reason error =
      search (quiet, fail_session-IsUntouched) depth 8

  caught_start-IsUntouched :
      (request : JumpRequest) (target : JumpTarget) (node_name : String) (session_id : ℕ)
      (p : Result ReplayRecorder × World)
      → IsUntouched p.1
      → IsUntouched (caught_start platform request target node_name session_id p).1
  caught_start-IsUntouched request target node_name session_id (ok r, w) h = h
  caught_start-IsUntouched request target node_name session_id (failed (replay_error m), w) h =
      (fail_and_deny-IsUntouched request target node_name session_id "replay start failed"
          (jump_error "replay capture is required")).from
        w h
  caught_start-IsUntouched request target node_name session_id (failed e, w) h = h

  start_replay-IsUntouched :
      (request : JumpRequest) (target : JumpTarget) (node_name : String) (session : JumpSession)
      → Preserves IsUntouched (start_replay platform request target node_name session)
  unfolding start_replay on_replay_disk
  start_replay-IsUntouched request target node_name session = record {
    from = λ w h. caught_start-IsUntouched request target node_name session.session_id _ h;
  }

  issued-IsUntouched :
      (certificate : Option IssuedUserCertificate)
      → Preserves IsUntouched (issued platform certificate)
  issued-IsUntouched none = search quiet
  issued-IsUntouched (some certificate) = search quiet

  insert_session-IsUntouched :
      (id agent_id : ℕ) (username path : String) (now : ℕ)
      → Preserves IsUntouched (insert_session id agent_id username path now)
  unfolding insert_session
  insert_session-IsUntouched id agent_id username path now = record { from = λ w h. h }

  pub prepare_jump-IsUntouched :
      (request : JumpRequest) (fresh : Fresh)
      → Preserves IsUntouched (prepare_jump platform request fresh)
  unfolding prepare_jump create_session insert_session require_principal
  prepare_jump-IsUntouched request fresh =
      search
        (
          quiet, admitted_target-IsUntouched, insert_session-IsUntouched, start_replay-IsUntouched,
          issued-IsUntouched, fail_session-IsUntouched,
        )
        depth 16
