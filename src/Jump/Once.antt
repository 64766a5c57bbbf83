-- ===== src/Jump/Once.antt =====
-- JumpPtyBridge.close runs once.
use vibe_connect.Base.{
  ℕ, ◌≡◌, String, Bool, true, Option, none, some, List, refl, ok, raise as failed, jump_error, inl,
  inr, Bool-cases, if◌then◌else◌, string_eq, ◌==◌,
}
use vibe_connect.Base.Action.{Action, bind_raise, pure, gets, modify, raise_if, ◌>>=◌}
use vibe_connect.Base.Action.Invariants.{Preserves, invariants}
use vibe_connect.Value.{Value}
use vibe_connect.Replay.Recorder.{Recording}
use vibe_connect.Jump.World.{
  World, SessionStatus, status_open, status_closed, status_failed, status_terminated,
}
use vibe_connect.Jump.Opener.{JumpPlatform}
use vibe_connect.Jump.Bridge.{
  Bridge, on_world, on_recording, bridge_ensure_open, send_user_input, receive_node_output,
  resize_bridge_pty, end_recording, finish_bridge, close_open_bridge, close_bridge, connection_lost,
  terminate,
}

abbrev IsShut : Bridge → Type 0
IsShut b = b.bridge_closed ≡ true

on_world-IsShut {ℓ} : {A : Type ℓ} (m : Action World A) → Preserves IsShut (on_world m)
unfolding on_world
on_world-IsShut m = record { from = λ b h. h }

on_recording-IsShut {ℓ} : {A : Type ℓ} (m : Action Recording A) → Preserves IsShut (on_recording m)
unfolding on_recording
on_recording-IsShut m = record { from = λ b h. h }

refused :
    (b : Bridge)
    → b.bridge_closed ≡ true
    → bridge_ensure_open b ≡ (failed (jump_error "jump channel is closed"), b)
unfolding bridge_ensure_open ◌>>=◌ gets raise_if
refused b h = simp h

module _ (platform : JumpPlatform) (decode : List ℕ → String) (stores : Bool) where
  end_recording-IsShut :
      (status : SessionStatus) (now : ℕ) (error : Option String)
      → Preserves IsShut (end_recording platform decode stores status now error)
  unfolding end_recording
  end_recording-IsShut status_closed now error = search (invariants, on_recording-IsShut)
  end_recording-IsShut status_open now error = search invariants
  end_recording-IsShut status_failed now error = search (invariants, on_recording-IsShut)
  end_recording-IsShut status_terminated now error = search (invariants, on_recording-IsShut)

  finish_bridge-IsShut :
      (status : SessionStatus) (now : ℕ) (error : Option String) (request_id : String)
      → Preserves IsShut (finish_bridge platform decode stores status now error request_id)
  unfolding finish_bridge
  finish_bridge-IsShut status now error request_id =
      search (invariants, end_recording-IsShut, on_world-IsShut) depth 12

  close_bridge-IsShut :
      (status : SessionStatus) (now : ℕ) (error : Option String) (request_id : String) (b : Bridge)
      → IsShut (close_bridge platform decode stores status now error request_id b).1
  unfolding close_bridge close_open_bridge ◌>>=◌ gets modify pure
  close_bridge-IsShut status now error request_id b = elim (Bool-cases b.bridge_closed) [
    | inl closed ↦ simp closed
    | inr still ↦ simp still (
        (finish_bridge-IsShut status now error request_id).from (record b { bridge_closed = true })
          refl)
  ]

  close_bridge-again :
      (status : SessionStatus) (now : ℕ) (error : Option String) (request_id : String) (b : Bridge)
      → b.bridge_closed ≡ true
      → close_bridge platform decode stores status now error request_id b ≡ (ok tt, b)
  unfolding close_bridge ◌>>=◌ gets pure
  close_bridge-again status now error request_id b h = simp h

  lost_again :
      (lost : Option (String × String)) (now : ℕ) (request_id : String) (b : Bridge)
      → b.bridge_closed ≡ true
      → connection_lost platform decode stores lost now request_id b ≡ (ok tt, b)
  unfolding connection_lost
  lost_again none now request_id b = close_bridge-again status_closed now none request_id b
  lost_again (some (text, class_name)) now request_id b =
      close_bridge-again status_failed now (some (if text == "" then class_name else text))
        request_id b

  -- After close with any status, whatever it returned or raised, the bridge is closed: user input,
  -- node output and resizing are refused and change nothing, and close with any status, a lost
  -- connection and a termination return and change nothing.
  pub close_bridge-once :
      (status : SessionStatus) (now : ℕ) (error : Option String) (request_id : String) (b : Bridge)
      (seconds : Value) (payload : List ℕ) (width height later : ℕ) (next : SessionStatus)
      (lost : Option (String × String)) (reason : String)
      → let c = (close_bridge platform decode stores status now error request_id b).1 in
        let refusal = jump_error "jump channel is closed" in
        (send_user_input platform decode stores seconds payload request_id c ≡ (failed refusal, c))
        × (receive_node_output platform decode stores seconds payload c ≡ (failed refusal, c))
        × (resize_bridge_pty platform decode stores width height request_id c ≡ (failed refusal, c))
        × (close_bridge platform decode stores next later error request_id c ≡ (ok tt, c))
        × (connection_lost platform decode stores lost later request_id c ≡ (ok tt, c))
        × (terminate platform decode stores reason later request_id c ≡ (ok tt, c))
  unfolding send_user_input receive_node_output resize_bridge_pty terminate
  close_bridge-once status now error request_id b seconds payload width height later next lost
        reason =
      let c = (close_bridge platform decode stores status now error request_id b).1 in
      let shut = close_bridge-IsShut status now error request_id b in
      (
        bind_raise _ _ (refused c shut),
        bind_raise _ _ (refused c shut),
        bind_raise _ _ (refused c shut),
        close_bridge-again next later error request_id c shut,
        lost_again lost later request_id c shut,
        close_bridge-again status_terminated later (some reason) request_id c shut,
      )
