-- ===== src/Jump/Released.antt =====
-- What a close that returned has released.
use vibe_connect.Base.{
  ℕ, ◌≡◌, ◌≢◌, String, Bool, true, false, Option, none, List, refl, ok, ap, sym, ◌∙◌, string_eq,
  nat_eq,
}
use vibe_connect.Base.Action.{Action, bind-eq-ok, raise, gets, modify, ◌>>=◌, ◌>>◌}
use vibe_connect.Base.Action.Invariants.{Preserves, invariants}
use vibe_connect.Base.Dict.{get}
use vibe_connect.Replay.Recorder.{Recording}
use vibe_connect.Broker.Sessions.{close_broker_session}
use vibe_connect.Jump.World.{
  World, SessionStatus, status_open, status_closed, status_failed, status_terminated, on_broker,
}
use vibe_connect.Jump.Opener.{JumpPlatform}
use vibe_connect.Jump.Checks.{audit}
use vibe_connect.Jump.Bridge.{
  Bridge, Terminal, on_world, on_recording, end_recording, store_terminal, finish_bridge,
  close_open_bridge, close_bridge, terminal_event,
}
use vibe_connect.Jump.Coordinator.{StartedJump}
use vibe_connect.Jump.Settled.{
  IsSettled, close_broker_session-releases, close_session_row-IsSettled, audit-keeps, on_world-ok,
  on_broker-ok, gets_value, same-IsSettled,
}

-- The channel and the session of a bridge.
abbrev IsOf : String → ℕ → Bridge → Type 0
IsOf channel_id session_id b =
    (b.jump.channel_id ≡ channel_id) × (b.jump.session.session_id ≡ session_id)

on_recording-IsOf {ℓ} :
    {A : Type ℓ} (channel_id : String) (session_id : ℕ) (m : Action Recording A)
    → Preserves (IsOf channel_id session_id) (on_recording m)
unfolding on_recording
on_recording-IsOf channel_id session_id m = record { from = λ b h. h }

module _ (platform : JumpPlatform) (decode : List ℕ → String) (stores : Bool) where
  end_recording-IsOf :
      (channel_id : String) (session_id : ℕ) (status : SessionStatus) (now : ℕ)
      (error : Option String)
      → Preserves
          (IsOf channel_id session_id)
          (end_recording platform decode stores status now error)
  unfolding end_recording
  end_recording-IsOf c i status_closed now error = search (invariants, on_recording-IsOf)
  end_recording-IsOf c i status_open now error = search invariants
  end_recording-IsOf c i status_failed now error = search (invariants, on_recording-IsOf)
  end_recording-IsOf c i status_terminated now error = search (invariants, on_recording-IsOf)

  end_recording-ends :
      (status : SessionStatus) (now : ℕ) (error : Option String) (b b' : Bridge) {t : Terminal}
      → end_recording platform decode stores status now error b ≡ (ok t, b')
      → status ≢ status_open
  unfolding end_recording raise
  end_recording-ends status_open now error b b' h e = cc (ap (λ p. p.0) h)
  end_recording-ends status_closed now error b b' h e = cc e
  end_recording-ends status_failed now error b b' h e = cc e
  end_recording-ends status_terminated now error b b' h e = cc e

  store_terminal-IsSettled :
      (status : SessionStatus) (now : ℕ) (t : Terminal) (jump : StartedJump) (w w' : World)
      {u : Unit {0}}
      → stores ≡ true
      → status ≢ status_open
      → store_terminal platform decode stores status now t jump w ≡ (ok u, w')
      → IsSettled jump.session.session_id w'
  unfolding store_terminal
  store_terminal-IsSettled status now t jump w w' has ends h =
      close_session_row-IsSettled platform.answers jump.session.session_id status now t.row_path
        t.row_hmac w w' ends (rw has at h)

  abbrev pub IsReleased : String → ℕ → Bridge → Type 0
  IsReleased channel_id session_id b =
      (get channel_id b.world.broker.channel_agents ≡ none)
      × (stores ≡ true → IsSettled session_id b.world)

  calls-IsReleased :
      (status : SessionStatus) (now : ℕ) (request_id : String) (jump : StartedJump)
      (terminal : Terminal) (b b' : Bridge) {u : Unit {0}}
      → status ≢ status_open
      → (on_world (store_terminal platform decode stores status now terminal jump)
            >> (on_world (
                  on_broker (
                    close_broker_session platform.broker platform.max_frame_bytes jump.channel_id
                      request_id))
                >> on_world (audit platform (terminal_event platform decode stores jump terminal))))
          b
        ≡ (ok u, b')
      → IsReleased jump.channel_id jump.session.session_id b'
  calls-IsReleased status now request_id jump terminal b b' {u} ends h =
      let event = terminal_event platform decode stores jump terminal in
      let (u3, b3, e3, h3) = bind-eq-ok _ _ h in
      let (u4, b4, e4, h4) = bind-eq-ok _ _ h3 in
      let (stored, _) = on_world-ok _ b b3 u3 e3 in
      let (closed, _) = on_world-ok _ b3 b4 u4 e4 in
      let (gone, rows) = on_broker-ok _ b3.world b4.world u4 closed in
      let (audited, _) = on_world-ok _ b4 b' u h4 in
      let (same_broker, same_rows) = audit-keeps platform event b4.world in
      (
        ap (λ x. get jump.channel_id x.channel_agents)
              (sym (ap (λ p. p.1.broker) audited) ∙ same_broker)
            ∙ close_broker_session-releases platform.broker platform.max_frame_bytes jump.channel_id
                request_id b3.world.broker b4.world.broker gone,
        λ has.
            same-IsSettled jump.session.session_id b3.world b'.world
              (sym (ap (λ p. p.1.sessions) audited) ∙ same_rows ∙ rows)
              (store_terminal-IsSettled status now terminal jump b.world b3.world has ends stored),
      )

  transported :
      (channel_id : String) (session_id : ℕ) (jump : StartedJump) (b b' : Bridge)
      → IsOf channel_id session_id b
      → b.jump ≡ jump
      → IsReleased jump.channel_id jump.session.session_id b'
      → IsReleased channel_id session_id b'
  transported channel_id session_id jump b b' h e released = rw (← h.0, ← h.1, e) released

  finish_bridge-IsReleased :
      (status : SessionStatus) (now : ℕ) (error : Option String) (request_id : String)
      (b b' : Bridge) {u : Unit {0}}
      → finish_bridge platform decode stores status now error request_id b ≡ (ok u, b')
      → IsReleased b.jump.channel_id b.jump.session.session_id b'
  unfolding finish_bridge
  finish_bridge-IsReleased status now error request_id b b' h =
      let (terminal, b1, e1, h1) = bind-eq-ok _ _ h in
      let (jump, b2, e2, h2) = bind-eq-ok (gets (λ c. c.jump)) _ h1 in
      transported b.jump.channel_id b.jump.session.session_id jump b1 b'
        (rw (ap (λ p. p.1) e1) at (
          (end_recording-IsOf b.jump.channel_id b.jump.session.session_id status now error).from b
            (refl, refl)))
        (gets_value _ b1 b2 jump e2)
        (calls-IsReleased status now request_id jump terminal b2 b'
          (end_recording-ends status now error b b1 e1) h2)

  finish_bridge-ends :
      (status : SessionStatus) (now : ℕ) (error : Option String) (request_id : String)
      (b b' : Bridge) {u : Unit {0}}
      → finish_bridge platform decode stores status now error request_id b ≡ (ok u, b')
      → status ≢ status_open
  unfolding finish_bridge
  finish_bridge-ends status now error request_id b b' h =
      let (_, b1, e1, _) = bind-eq-ok _ _ h in end_recording-ends status now error b b1 e1

  close_bridge-still :
      (status : SessionStatus) (now : ℕ) (error : Option String) (request_id : String) (b : Bridge)
      → b.bridge_closed ≡ false
      → close_bridge platform decode stores status now error request_id b
        ≡ finish_bridge platform decode stores status now error request_id
            (record b { bridge_closed = true })
  unfolding close_bridge close_open_bridge ◌>>=◌ gets modify
  close_bridge-still status now error request_id b still = simp still

  -- When close on a bridge that was not closed returns, the status was not `open`, the broker no
  -- longer knows the jump's channel, and where there is a session store the session's row is no
  -- longer open.
  pub close_bridge-IsReleased :
      (status : SessionStatus) (now : ℕ) (error : Option String) (request_id : String)
      (b b' : Bridge) {u : Unit {0}}
      → b.bridge_closed ≡ false
      → close_bridge platform decode stores status now error request_id b ≡ (ok u, b')
      → (status ≢ status_open) × IsReleased b.jump.channel_id b.jump.session.session_id b'
  close_bridge-IsReleased status now error request_id b b' still h =
      let run = sym (close_bridge-still status now error request_id b still) ∙ h in
      (
        finish_bridge-ends status now error request_id _ b' run,
        finish_bridge-IsReleased status now error request_id _ b' run,
      )
