-- ===== src/Jump/Prepared.antt =====
-- start_jump up to the opening of a channel, where nothing raised.
use vibe_connect.Base.{
  ℕ, ◌≡◌, ◌≢◌, ◌/◌, String, Bool, Option, none, some, List, [], ◌∷◌, refl, Result, ok,
  raise as failed, replay_error, string_eq, nat_eq, eq_self, ◌!=◌, Bool-cases, ap, sym, ◌∙◌,
  eq_of_not_differs, inl, inr,
}
use vibe_connect.Base.Action.{raise, bind-eq-ok, raise-after, bind-ne-ok, ok-injective, pure-eq-ok}
use vibe_connect.Base.Dict.{get, get-put}
use vibe_connect.Tunnel.Heartbeat.{microseconds}
use vibe_connect.Replay.Storage.{Disk}
use vibe_connect.Replay.Recorder.{ReplayRecorder, header_value}
use vibe_connect.Replay.Writer.{start, new_recorder}
use vibe_connect.Replay.Log.{IsOpen}
use vibe_connect.Replay.Starting.{started, start-IsOpen}
use vibe_connect.Jump.World.{AgentRow, SessionRow, status_open, World, on_replay_disk, with_disk}
use vibe_connect.Jump.Store.{JumpTarget, JumpSession, create_session, insert_session, statement}
use vibe_connect.Jump.Opener.{JumpPlatform, Fresh, IssuedUserCertificate}
use vibe_connect.Jump.Checks.{JumpRequest}
use vibe_connect.Jump.Coordinator.{
  StartedJump, caught_start, start_replay, fail_and_deny, issued, require_principal, prepare_jump,
}
use vibe_connect.Jump.Gates.{IsAdmitted, admitted_target-IsAdmitted}

-- What the row and the session have in common.
pub record IsStored (id agent_id : ℕ) (username : String) (now : ℕ) (session : JumpSession)
    (w : World) : Type 0 where
  pub same_id : session.session_id ≡ id
  pub same_start : session.started_at ≡ now
  pub row : SessionRow
  pub stored : get id w.sessions ≡ some row
  pub is_open : row.status ≡ status_open
  pub of_user : row.user_name ≡ username
  pub of_agent : row.agent_id ≡ agent_id

abbrev inserted_row : ℕ → ℕ → String → String → ℕ → SessionRow
inserted_row serial agent_id username replay_path started_at = record {
  agent_id = agent_id;
  user_name = username;
  started_at = started_at;
  replay_path = replay_path;
  status = status_open;
  user_cert_serial = serial;
  ended_at = none;
  replay_hmac = none;
}

insert_session-IsStored :
    (id agent_id : ℕ) (username path : String) (now : ℕ) (w w' : World) (session : JumpSession)
    → insert_session id agent_id username path now w ≡ (ok session, w')
    → IsStored id agent_id username now session w'
unfolding insert_session
insert_session-IsStored id agent_id username path now w w' session h =
    rw (← ok-injective (ap (λ p. p.0) h), ← ap (λ p. p.1) h)
      (record {
        same_id = refl;
        same_start = refl;
        row = inserted_row w.next_serial agent_id username path now;
        stored =
            get-put id id (inserted_row w.next_serial agent_id username path now) w.sessions
            ∙ rw (eq_self id);
        is_open = refl;
        of_user = refl;
        of_agent = refl;
      })

create_session-IsStored :
    (answers : ℕ → Bool) (id agent_id : ℕ) (username node_name path : String) (now : ℕ)
    (w w' : World) (session : JumpSession)
    → create_session answers id agent_id username node_name path now w ≡ (ok session, w')
    → IsStored id agent_id username now session w'
unfolding create_session
create_session-IsStored answers id agent_id username node_name path now w w' session h =
    let (_, w1, _, h1) = bind-eq-ok (statement answers) _ h in
    insert_session-IsStored id agent_id username path now w1 w' session h1

module _ (platform : JumpPlatform) where
  caught_start-ok :
      (request : JumpRequest) (target : JumpTarget) (node_name : String) (session_id : ℕ)
      (w w' : World) (q : Result ReplayRecorder × Disk) (r : ReplayRecorder)
      → caught_start platform request target node_name session_id (with_disk w q) ≡ (ok r, w')
      → (q ≡ (ok r, w'.disk)) × (w'.sessions ≡ w.sessions)
  unfolding fail_and_deny
  caught_start-ok request target node_name session_id w w' (ok q, d) r h = (
    rw (ok-injective (ap (λ p. p.0) h), ap (λ p. p.1.disk) h) refl,
    sym (ap (λ p. p.1.sessions) h),
  )
  caught_start-ok request target node_name session_id w w' (failed (replay_error m), d) r h =
      absurd (bind-ne-ok _ _ w' r (λ u s. raise-after _ _ s w' r) _ h)
  caught_start-ok request target node_name session_id w w' (failed e, d) r h =
      absurd (cc (ap (λ p. p.0) h))

  require_principal-ok :
      (request : JumpRequest) (session : JumpSession) (replay : ReplayRecorder)
      (certificate : IssuedUserCertificate) (w w' : World) {u : Unit {0}}
      → require_principal platform request session replay certificate w ≡ (ok u, w')
      → (certificate.cert_username ≡ request.identity.username) × (w ≡ w')
  unfolding require_principal
  require_principal-ok request session replay certificate w w' {u} h =
      elim (Bool-cases (certificate.cert_username != request.identity.username)) [
        | inl differs ↦
            absurd (bind-ne-ok _ _ w' u (λ v s. raise-after _ _ s w' u) w (rw differs at h))
        | inr same ↦ (eq_of_not_differs _ _ same, (pure-eq-ok tt u w w' (rw same at h)).1)
      ]

  start_replay-ok :
      (request : JumpRequest) (target : JumpTarget) (node_name : String) (session : JumpSession)
      (w w' : World) (r : ReplayRecorder)
      → start_replay platform request target node_name session w ≡ (ok r, w')
      → (start platform.replay platform.writer platform.creation session.session_id node_name
            request.width request.height session.started_at w.disk
          ≡ (ok r, w'.disk))
        × (w'.sessions ≡ w.sessions)
  unfolding start_replay on_replay_disk
  start_replay-ok request target node_name session w w' r =
      caught_start-ok request target node_name session.session_id w w'
        (start platform.replay platform.writer platform.creation session.session_id node_name
          request.width request.height session.started_at w.disk)
        r

-- The recording of a jump is open, with its header as its only line.
abbrev pub IsRecording : JumpPlatform → JumpRequest → StartedJump → Option (List ℕ) → World → Type 0
IsRecording platform request jump before w =
    let r =
      new_recorder platform.replay platform.writer platform.creation jump.session.session_id in
    IsOpen platform.replay r.path platform.creation.temp_path r.integrity_key before
      (header_value jump.target.node_name request.width request.height (request.now / microseconds)
        ∷ [])
      (started jump.replay w.disk)

-- What start_jump checked, stored and started when it comes to open a channel.
pub record IsPrepared (platform : JumpPlatform) (request : JumpRequest) (fresh : Fresh)
    (agents : List AgentRow) (jump : StartedJump) (w : World) : Type 0 where
  pub admitted : IsAdmitted platform request agents jump.target
  pub principal : jump.user_certificate.cert_username ≡ request.identity.username
  pub session_row :
      IsStored fresh.session_id jump.target.agent_id request.identity.username request.now
        jump.session w
  pub before : Option (List ℕ)
  pub recording : IsRecording platform request jump before w

issued-ok :
    (platform : JumpPlatform) (o : Option IssuedUserCertificate) (w w' : World)
    (c : IssuedUserCertificate)
    → issued platform o w ≡ (ok c, w')
    → w ≡ w'
unfolding raise
issued-ok platform none w w' c h = absurd (cc (ap (λ p. p.0) h))
issued-ok platform (some d) w w' c h = (pure-eq-ok d c w w' h).1

IsStored-transport :
    (id agent_id : ℕ) (username : String) (now : ℕ) (session : JumpSession) (w v : World)
    → v.sessions ≡ w.sessions
    → IsStored id agent_id username now session w
    → IsStored id agent_id username now session v
IsStored-transport id agent_id username now session w v e h = record {
  same_id = h.same_id;
  same_start = h.same_start;
  row = h.row;
  stored = rw e h.stored;
  is_open = h.is_open;
  of_user = h.of_user;
  of_agent = h.of_agent;
}

assembled-IsPrepared :
    (platform : JumpPlatform) (request : JumpRequest) (fresh : Fresh) (agents : List AgentRow)
    (jump : StartedJump) (w2 w3 v : World)
    → platform.creation.temp_path
      ≢ (new_recorder platform.replay platform.writer platform.creation fresh.session_id).path
    → IsAdmitted platform request agents jump.target
    → IsStored fresh.session_id jump.target.agent_id request.identity.username request.now
        jump.session w2
    → start platform.replay platform.writer platform.creation jump.session.session_id
        jump.target.node_name request.width request.height jump.session.started_at w2.disk
      ≡ (ok jump.replay, w3.disk)
    → w3.sessions ≡ w2.sessions
    → jump.user_certificate.cert_username ≡ request.identity.username
    → w3 ≡ v
    → IsPrepared platform request fresh agents jump v
assembled-IsPrepared platform request fresh agents jump w2 w3 v distinct admitted stored begun rows
      principal same =
    rw (← same) (record {
      admitted = admitted;
      principal = principal;
      session_row = IsStored-transport _ _ _ _ jump.session w2 w3 rows stored;
      before =
          get
            (new_recorder platform.replay platform.writer platform.creation
              jump.session.session_id).path
            w2.disk.files;
      recording =
          rw (← stored.same_start)
            (start-IsOpen platform.replay platform.writer platform.creation jump.session.session_id
              jump.target.node_name request.width request.height jump.session.started_at w2.disk
              w3.disk (rw stored.same_id distinct) begun).1;
    })

-- The world in which a prepared jump is returned.
same-IsPrepared :
    (platform : JumpPlatform) (request : JumpRequest) (fresh : Fresh) (agents : List AgentRow)
    (jump jump' : StartedJump) (v v' : World)
    → IsPrepared platform request fresh agents jump v
    → jump ≡ jump'
    → v ≡ v'
    → IsPrepared platform request fresh agents jump' v'
same-IsPrepared platform request fresh agents jump jump' v v' h e f = rw (← e, ← f) h

pub prepare_jump-IsPrepared :
    (platform : JumpPlatform) (request : JumpRequest) (fresh : Fresh) (w v : World)
    (jump : StartedJump)
    → platform.creation.temp_path
      ≢ (new_recorder platform.replay platform.writer platform.creation fresh.session_id).path
    → prepare_jump platform request fresh w ≡ (ok jump, v)
    → IsPrepared platform request fresh w.agents jump v
unfolding prepare_jump
prepare_jump-IsPrepared platform request fresh w v jump distinct h =
    let (target, w1, e1, h1) = bind-eq-ok _ _ h in
    let (session, w2, e2, h2) = bind-eq-ok _ _ h1 in
    let (replay, w3, e3, h3) = bind-eq-ok _ _ h2 in
    let (certificate, w4, e4, h4) = bind-eq-ok _ _ h3 in
    let (_, w5, e5, h5) = bind-eq-ok _ _ h4 in
    let stored =
      create_session-IsStored platform.answers fresh.session_id target.agent_id
        request.identity.username target.node_name _ request.now w1 w2 session e2 in
    let (begun, rows) =
      start_replay-ok platform request target target.node_name session w2 w3 replay e3 in
    let (principal, same5) =
      require_principal-ok platform request session replay certificate w4 w5 e5 in
    let same4 = issued-ok platform _ w3 w4 certificate e4 in
    let (same_jump, same_v) = pure-eq-ok _ jump w5 v h5 in
    same-IsPrepared platform request fresh w.agents _ jump w5 v
      (assembled-IsPrepared platform request fresh w.agents _ w2 w3 w5 distinct
        (admitted_target-IsAdmitted platform request w w1 target e1) stored begun rows principal
        (same4 ∙ same5))
      same_jump same_v
