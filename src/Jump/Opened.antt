-- ===== src/Jump/Opened.antt =====
-- start_jump as a whole: no channel is opened before every check passed.
use vibe_connect.Base.{
  ◌≡◌, ◌≢◌, ◌⊎◌, inl, inr, refl, ap, sym, ◌∙◌, Result, ok, raise as failed, Error, String,
  jump_error,
}
use vibe_connect.Base.Action.{
  bind-ne-ok, raise-after, Action, bind_ok, bind_raise, bind-eq-ok, pure-eq-ok,
}
use vibe_connect.Replay.Writer.{new_recorder}
use vibe_connect.Jump.World.{World}
use vibe_connect.Jump.Opener.{JumpPlatform, Fresh, open_node_session}
use vibe_connect.Jump.Checks.{JumpRequest}
use vibe_connect.Jump.Coordinator.{
  StartedJump, prepare_jump, open_jump, caught_open, fail_and_deny, finish_jump, start_jump,
}
use vibe_connect.Jump.Untouched.{prepare_jump-IsUntouched}
use vibe_connect.Jump.Prepared.{IsPrepared, prepare_jump-IsPrepared}

module _ (platform : JumpPlatform) (request : JumpRequest) (fresh : Fresh) (w : World)
    (distinct : platform.creation.temp_path
      ≢ (new_recorder platform.replay platform.writer platform.creation
          fresh.session_id).path) where
  -- start_jump came to the jump and to the world v, in which everything but the channel is ready and
  -- the broker is as it was, and went on from there.
  pub record IsReady (jump : StartedJump) (v : World) : Type 0 where
    pub reached : prepare_jump platform request fresh w ≡ (ok jump, v)
    pub went_on : start_jump platform request fresh w ≡ finish_jump platform request fresh jump v
    pub prepared : IsPrepared platform request fresh w.agents jump v
    pub broker_untouched : v.broker ≡ w.broker

  prepared-IsReady :
      (jump : StartedJump) (v : World)
      → prepare_jump platform request fresh w ≡ (ok jump, v)
      → IsReady jump v
  unfolding start_jump
  prepared-IsReady jump v h = record {
    reached = h;
    went_on = bind_ok (prepare_jump platform request fresh) (finish_jump platform request fresh) h;
    prepared = prepare_jump-IsPrepared platform request fresh w v jump distinct h;
    broker_untouched =
        sym (ap (λ p. p.1.broker) h)
        ∙ (prepare_jump-IsUntouched platform w.broker request fresh).from w refl;
  }

  outcome_of :
      (p : Result StartedJump × World)
      → prepare_jump platform request fresh w ≡ p
      → ((start_jump platform request fresh w).1.broker ≡ w.broker)
        ⊎ ((jump : StartedJump) × (v : World) × IsReady jump v)
  unfolding start_jump
  outcome_of (ok jump, v) h = inr (jump, v, prepared-IsReady jump v h)
  outcome_of (failed e, v) h = inl (
      ap (λ p. p.1.broker)
        (bind_raise (prepare_jump platform request fresh) (finish_jump platform request fresh) h)
      ∙ sym (ap (λ p. p.1.broker) h)
      ∙ (prepare_jump-IsUntouched platform w.broker request fresh).from w refl)

  open_node : StartedJump → Action World (Unit {0})
  open_node jump =
      open_node_session platform fresh jump.target.agent_id jump.target.node_name
        jump.target.node_ssh_host_public_key request.identity.username jump.user_certificate

  fail_and_deny-ne-ok :
      {A : Type 0} (jump : StartedJump) (reason : String) (error : Error) (v v' : World) (a : A)
      → fail_and_deny platform request jump.target jump.target.node_name jump.session.session_id
          reason error v
        ≢ (ok a, v')
  unfolding fail_and_deny
  fail_and_deny-ne-ok jump reason error v v' a =
      bind-ne-ok _ _ v' a (λ u s. raise-after _ _ s v' a) v

  caught_open-ok :
      (jump : StartedJump) (p : Result (Unit {0}) × World) (v' : World) {u : Unit {0}}
      → caught_open platform request jump p ≡ (ok u, v')
      → p ≡ (ok tt, v')
  caught_open-ok jump (ok u, v) v' h = ap (λ q. (ok tt, q.1)) h
  caught_open-ok jump (failed (jump_error m), v) v' {u} h =
      absurd (bind-ne-ok _ _ v' u (λ x s. fail_and_deny-ne-ok jump _ _ s v' u) v h)
  caught_open-ok jump (failed e, v) v' h = absurd (cc (ap (λ q. q.0) h))

  open_jump-ok :
      (jump : StartedJump) (v v' : World) {u : Unit {0}}
      → open_jump platform request fresh jump v ≡ (ok u, v')
      → open_node jump v ≡ (ok tt, v')
  unfolding open_jump open_node
  open_jump-ok jump v v' h = caught_open-ok jump _ v' h

  finished-ok :
      (j jump : StartedJump) (v w' : World)
      → finish_jump platform request fresh j v ≡ (ok jump, w')
      → (j ≡ jump) × ((v' : World) × (open_node j v ≡ (ok tt, v')))
  unfolding finish_jump
  finished-ok j jump v w' h =
      let (_, v1, e2, h2) = bind-eq-ok _ _ h in
      let (_, v2, e3, h3) = bind-eq-ok _ _ h2 in
      ((pure-eq-ok j jump v2 w' h3).0, (v1, open_jump-ok j v v1 e2))

  returned :
      (jump : StartedJump) (w' : World)
      → start_jump platform request fresh w ≡ (ok jump, w')
      → (v : World) × (v' : World) × IsReady jump v × (open_node jump v ≡ (ok tt, v'))
  unfolding start_jump
  returned jump w' h =
      let (j, v, e1, h1) =
        bind-eq-ok (prepare_jump platform request fresh) (finish_jump platform request fresh) h in
      let (same, (v', opened)) = finished-ok j jump v w' h1 in
      rw (← same) (v, v', prepared-IsReady j v e1, opened)

  -- Where the temporary replay file's name is not the final one: whatever start_jump returns or
  -- raises, either the broker was not touched at all, or prepare_jump, its part before the channel,
  -- returned a jump in a world from which start_jump went on with this jump, the broker was
  -- untouched in this world, and the jump was ready there: the command is exactly the name of a
  -- visible node; an agent that is not revoked is registered under this name, and the presented
  -- host key is its pinned one and not empty; its heartbeat is fresh; the session's row is stored as
  -- open for this user and agent; the replay is open with its header; and the certificate's principal
  -- is the user. Where start_jump returns, the jump that it returns was ready in this sense, and the
  -- opening of the node's session returned on the world in which it was.
  pub start_jump-IsReady :
      (((start_jump platform request fresh w).1.broker ≡ w.broker)
        ⊎ ((jump : StartedJump) × (v : World) × IsReady jump v))
      × ((jump : StartedJump) (w' : World)
          → start_jump platform request fresh w ≡ (ok jump, w')
          → (v : World) × (v' : World) × IsReady jump v
            × (open_node_session platform fresh jump.target.agent_id jump.target.node_name
                  jump.target.node_ssh_host_public_key request.identity.username
                  jump.user_certificate v
                ≡ (ok tt, v')))
  unfolding open_node
  start_jump-IsReady = (outcome_of (prepare_jump platform request fresh w) refl, returned)
