-- ===== src/Jump/Checks.antt =====
-- start_jump up to the session's row: the command, the target, its host key and its heartbeat.
use vibe_connect.Base.{
  ℕ, String, not, Option, none, some, List, ◌∷◌, map, Result, ok, raise as failed, jump_error,
  auth_error, audit_error, string_eq, if◌then◌else◌,
}
use vibe_connect.Base.Action.{Action, pure, raise, raise_if, modify, gets, ◌>>=◌, ◌>>◌}
use vibe_connect.Value.{str, field, end}
use vibe_connect.Audit.Writer.{node_authorization_denied}
use vibe_connect.Tunnel.Heartbeat.{allows_new_jump}
use vibe_connect.Access.Identity.{ResolvedIdentity}
use vibe_connect.Access.Visible.{NodeInventoryEntry}
use vibe_connect.Access.Shell.{parse_restricted_shell_command}
use vibe_connect.Jump.World.{World, JumpEvent}
use vibe_connect.Jump.Store.{JumpTarget, get_jump_target}
use vibe_connect.Jump.Opener.{JumpPlatform, validate_pinned_host_key}

-- What the user asked for, and the presented key of the node.
pub record JumpRequest : Type 0 where
  pub identity : ResolvedIdentity
  pub command : String
  pub visible_nodes : List NodeInventoryEntry
  pub presented_node_host_key : Option String
  pub width : ℕ
  pub height : ℕ
  pub now : ℕ

module _ (platform : JumpPlatform) where
  -- `write` of the audit sink, where there is one
  unfoldable pub audit : JumpEvent → Action World (Unit {0})
  audit event =
      if platform.audited
      then (do
        accepted ← gets (λ w. platform.accepts w.events event)
        raise_if (not accepted) (audit_error "event rejected")
        modify λ w. record w { events = event ∷ w.events })
      else pure tt

  unfoldable pub audit_denial :
      String → Option ℕ → Option String → String → Option ℕ → Action World (Unit {0})
  unfolding audit
  audit_denial actor agent_id node_name reason session_id = audit (record {
    event_type = node_authorization_denied;
    actor = actor;
    agent_id = agent_id;
    session_id = session_id;
    node_name = node_name;
    metadata = field "reason" (str reason) end;
  })

  -- The first `try` of start_jump; `reason` is `str` of the AuthError.
  unfoldable pub authorized : String → Result String → Action World String
  unfolding audit_denial
  authorized username (ok node_name) = pure node_name
  authorized username (failed (auth_error reason)) = do
    audit_denial username none none reason none
    raise (jump_error "node command is not authorized")
  authorized username (failed e) = raise e

  unfoldable pub active_target : String → String → Option JumpTarget → Action World JumpTarget
  unfolding audit_denial
  active_target username node_name none = do
    audit_denial username none (some node_name) "missing" none
    raise (jump_error "authorized node has no active tunnel")
  active_target username node_name (some target) = pure target

  unfoldable pub require_fresh : String → String → JumpTarget → ℕ → Action World (Unit {0})
  unfolding audit_denial allows_new_jump
  require_fresh username node_name target now =
      if allows_new_jump now target.heartbeat then pure tt else (do
        audit_denial username (some target.agent_id) (some node_name) "stale tunnel" none
        raise (jump_error "agent tunnel is not fresh enough for new jumps"))

  unfoldable pub admitted_target : JumpRequest → Action World JumpTarget
  unfolding authorized get_jump_target active_target validate_pinned_host_key require_fresh
  admitted_target request = do
    let names = map (λ node. node.node_name) request.visible_nodes
    let username = request.identity.username
    node_name ← authorized username (parse_restricted_shell_command request.command names)
    found ← get_jump_target platform.answers platform.heartbeat_seconds node_name
    target ← active_target username node_name found
    validate_pinned_host_key (some target.node_ssh_host_public_key) request.presented_node_host_key
    require_fresh username node_name target request.now
    pure target
