-- ===== src/Jump/Gates.antt =====
-- What holds whenever start_jump opens a tunnel channel.
use vibe_connect.Base.{
  ℕ, ◌≡◌, String, Bool, true, false, Option, none, some, List, [], ◌∷◌, map, refl, Result, ok,
  raise as failed, auth_error, string_eq, ◌==◌, inl, inr, arith, Bool-cases, ap, sym, ◌∙◌,
  eq_of_not_differs,
}
use vibe_connect.Base.Action.{
  ok-injective, raise-after, pure-eq-ok, raise_if-false, raise, raise_if, modify, gets, ◌>>=◌,
  bind-eq-ok,
}
use vibe_connect.Access.Shell.{parse_restricted_shell_command}
use vibe_connect.Tunnel.Heartbeat.{allows_new_jump}
use vibe_connect.Jump.World.{AgentRow, World}
use vibe_connect.Jump.Store.{
  target_of, target_option, select_agent, JumpTarget, get_jump_target, statement,
}
use vibe_connect.Jump.Opener.{is_missing, differs_from, JumpPlatform, validate_pinned_host_key}
use vibe_connect.Jump.Checks.{
  JumpRequest, authorized, active_target, require_fresh, admitted_target,
}

module _ (platform : JumpPlatform) where
  authorized-ok :
      (username : String) (r : Result String) (w w' : World) (name : String)
      → authorized platform username r w ≡ (ok name, w')
      → r ≡ ok name
  unfolding authorized raise
  authorized-ok username (ok n) w w' name h = ap ok (pure-eq-ok n name w w' h).0
  authorized-ok username (failed (auth_error m)) w w' name h = absurd (raise-after _ _ w w' name h)
  authorized-ok username (failed e) w w' name h = absurd (cc (ap (λ p. p.0) h))

  active_target-ok :
      (username node_name : String) (found : Option JumpTarget) (w w' : World) (target : JumpTarget)
      → active_target platform username node_name found w ≡ (ok target, w')
      → found ≡ some target
  unfolding active_target
  active_target-ok username node_name none w w' target h = absurd (raise-after _ _ w w' target h)
  active_target-ok username node_name (some t) w w' target h =
      ap some (pure-eq-ok t target w w' h).0

  require_fresh-ok :
      (username node_name : String) (target : JumpTarget) (now : ℕ) (w w' : World) {u : Unit {0}}
      → require_fresh platform username node_name target now w ≡ (ok u, w')
      → allows_new_jump now target.heartbeat ≡ true
  unfolding require_fresh
  require_fresh-ok username node_name target now w w' h =
      elim (Bool-cases (allows_new_jump now target.heartbeat)) [
        | inl ok_now ↦ ok_now
        | inr stale ↦ absurd (raise-after _ _ w w' tt (rw stale at h))
      ]

validate_pinned_host_key-ok :
    (key : String) (presented : Option String) (w w' : World) {u : Unit {0}}
    → validate_pinned_host_key (some key) presented w ≡ (ok u, w')
    → (presented ≡ some key) × ((key == "") ≡ false)
unfolding validate_pinned_host_key
validate_pinned_host_key-ok key presented w w' h =
    let (_, w1, e1, h1) = bind-eq-ok _ _ h in
    let (_, w2, e2, h2) = bind-eq-ok _ _ h1 in
    (
      same presented (raise_if-false _ _ w1 w2 e2) (raise_if-false _ _ w2 w' h2),
      raise_if-false _ _ w w1 e1,
    )
  where
    same :
        (presented : Option String)
        → is_missing presented ≡ false
        → differs_from presented (some key) ≡ false
        → presented ≡ some key
    same none h g = absurd (cc h)
    same (some p) h g = ap some (eq_of_not_differs p key g)

select_agent-ok :
    (name : String) (rows : List AgentRow) (row : AgentRow)
    → select_agent name rows ≡ some row
    → (row.row_node_name ≡ name) × (row.revoked ≡ false)
unfolding select_agent
select_agent-ok name [] row h = absurd (cc h)
select_agent-ok name (r ∷ rows) row h =
    ground (arith, string_eq.beq_iff r.row_node_name name, select_agent-ok name rows row)

statement-agents : (answers : ℕ → Bool) (w : World) → (statement answers w).1.agents ≡ w.agents
unfolding statement ◌>>=◌ gets modify raise_if
statement-agents answers w = ground arith

get_jump_target-ok :
    (answers : ℕ → Bool) (heartbeat_seconds : ℕ) (name : String) (w w' : World)
    (found : Option JumpTarget)
    → get_jump_target answers heartbeat_seconds name w ≡ (ok found, w')
    → target_option heartbeat_seconds (select_agent name w.agents) ≡ found
unfolding get_jump_target gets
get_jump_target-ok answers heartbeat_seconds name w w' found h =
    let (_, w1, e1, h1) = bind-eq-ok _ _ h in
    let kept = sym (statement-agents answers w) ∙ ap (λ p. p.1.agents) e1 in
    ap (λ rows. target_option heartbeat_seconds (select_agent name rows)) kept
    ∙ ok-injective (ap (λ p. p.0) h1)

-- The target of an unrevoked agent under the authorized name, with the presented host key and a
-- fresh heartbeat.
pub record IsAdmitted (platform : JumpPlatform) (request : JumpRequest) (agents : List AgentRow)
    (target : JumpTarget) : Type 0 where
  pub authorized_name :
      parse_restricted_shell_command request.command (map (λ n. n.node_name) request.visible_nodes)
      ≡ ok target.node_name
  pub pinned : request.presented_node_host_key ≡ some target.node_ssh_host_public_key
  pub key_given : (target.node_ssh_host_public_key == "") ≡ false
  pub heartbeat_fresh : allows_new_jump request.now target.heartbeat ≡ true
  pub row : AgentRow
  pub selected : select_agent target.node_name agents ≡ some row
  pub unrevoked : row.revoked ≡ false
  pub of_row : target ≡ target_of platform.heartbeat_seconds row

some_row :
    (heartbeat_seconds : ℕ) (found : Option AgentRow) (target : JumpTarget)
    → target_option heartbeat_seconds found ≡ some target
    → (row : AgentRow) × (found ≡ some row) × (target_of heartbeat_seconds row ≡ target)
some_row heartbeat_seconds none target h = absurd (cc h)
some_row heartbeat_seconds (some row) target h = (row, refl, cc h)

module _ (platform : JumpPlatform) (request : JumpRequest) where
  assembled :
      (agents : List AgentRow) (name : String) (target : JumpTarget)
      → parse_restricted_shell_command request.command
          (map (λ n. n.node_name) request.visible_nodes)
        ≡ ok name
      → target_option platform.heartbeat_seconds (select_agent name agents) ≡ some target
      → (request.presented_node_host_key ≡ some target.node_ssh_host_public_key)
        × ((target.node_ssh_host_public_key == "") ≡ false)
      → allows_new_jump request.now target.heartbeat ≡ true
      → IsAdmitted platform request agents target
  unfolding target_of
  assembled agents name target parsed found key alive =
      let (row, selected, same) =
        some_row platform.heartbeat_seconds (select_agent name agents) target found in
      let (named, unrevoked) = select_agent-ok name agents row selected in
      let its_name = sym named ∙ ap (λ t. t.node_name) same in
      record {
        authorized_name = rw (sym its_name) parsed;
        pinned = key.0;
        key_given = key.1;
        heartbeat_fresh = alive;
        row = row;
        selected = rw (sym its_name) selected;
        unrevoked = unrevoked;
        of_row = sym same;
      }

  authorized-keeps :
      (username : String) (r : Result String) (w w' : World) (name : String)
      → authorized platform username r w ≡ (ok name, w')
      → w ≡ w'
  unfolding authorized raise
  authorized-keeps username (ok n) w w' name h = (pure-eq-ok n name w w' h).1
  authorized-keeps username (failed (auth_error m)) w w' name h =
      absurd (raise-after _ _ w w' name h)
  authorized-keeps username (failed e) w w' name h = absurd (cc (ap (λ p. p.0) h))

  pub admitted_target-IsAdmitted :
      (w w' : World) (target : JumpTarget)
      → admitted_target platform request w ≡ (ok target, w')
      → IsAdmitted platform request w.agents target
  unfolding admitted_target
  admitted_target-IsAdmitted w w' target h =
      let (name, w1, e1, h1) = bind-eq-ok _ _ h in
      let (found, w2, e2, h2) = bind-eq-ok _ _ h1 in
      let (t, w3, e3, h3) = bind-eq-ok _ _ h2 in
      let (_, w4, e4, h4) = bind-eq-ok _ _ h3 in
      let (_, w5, e5, h5) = bind-eq-ok _ _ h4 in
      let kept = authorized-keeps request.identity.username _ w w1 name e1 in
      rw kept (
        rw (pure-eq-ok t target w5 w' h5).0 at (
          assembled w1.agents name t
            (authorized-ok platform request.identity.username _ w w1 name e1)
            (get_jump_target-ok platform.answers platform.heartbeat_seconds name w1 w2 found e2
              ∙ active_target-ok platform request.identity.username name found w2 w3 t e3)
            (validate_pinned_host_key-ok t.node_ssh_host_public_key request.presented_node_host_key
              w3 w4 e4)
            (require_fresh-ok platform request.identity.username name t request.now w4 w5 e5)))
