-- ===== src/Access/Shell.antt =====
-- The restricted shell: which commands and which SSH features are accepted.
use vibe_connect.Base.{
  ◌≡◌, ◌↔◌, String, Bool, true, false, ◌||◌, ◌&&◌, not, Option, none, some, List, [], ◌∷◌, Result,
  ok, raise, Error, ◌>>=◌, ◌>>◌, raise_if, auth_error, identifier_error, except, is_none, All,
  contains, ◌==◌, ◌!=◌, string_eq, if◌then◌else◌, refl, arith, ap, sym, ◌∙◌, >>=-eq-ok,
  raise_if-then-eq-ok, Bool-cases, inl, inr, beq_of_ne,
}
use vibe_connect.Identifiers.{validate_node_name, validate_username_principal}
use vibe_connect.Identifiers.Containment.{validate_label-validate_node_name, node_name_nonempty}
use vibe_connect.Text.{strip}

-- `{validate_node_name(node) for node in allowed_nodes}`
unfoldable pub validated_nodes : List String → Result (List String)
validated_nodes [] = ok []
validated_nodes (n ∷ ns) =
    let rest = validated_nodes ns in
    (validate_node_name n >>= λ safe. rest >>= λ names. ok (safe ∷ names))

unfoldable pub exact_node : List String → String → Result String
exact_node names stripped =
    if contains names stripped
    then ok stripped
    else raise (auth_error "restricted shell accepts only an exact node name")

unfoldable pub parse_restricted_shell_command : String → List String → Result String
parse_restricted_shell_command command allowed_nodes = do
  let stripped = strip command
  raise_if (stripped != command && stripped == "") (auth_error "empty command")
  names ← validated_nodes allowed_nodes
  exact_node names stripped

abbrev pub is_identifier_error : Error → Bool
is_identifier_error (identifier_error message) = true
is_identifier_error _ = false

-- `command in {"scp", "sftp"}`
abbrev pub is_copy_command : Option String → Bool
is_copy_command none = false
is_copy_command (some command) = command == "scp" || command == "sftp"

unfoldable pub validate_ssh_request_policy :
    String → Option String → Option String → Bool → Bool → Bool → Result (Unit {0})
validate_ssh_request_policy username command subsystem direct_tcpip agent_forwarding
      x11_forwarding =
    do
      safe ←
          except is_identifier_error (auth_error "username is denied")
            (validate_username_principal username)
      raise_if (not (is_none subsystem)) (auth_error "subsystems are denied")
      raise_if direct_tcpip (auth_error "forwarding is denied")
      raise_if agent_forwarding (auth_error "agent forwarding is denied")
      raise_if x11_forwarding (auth_error "X11 forwarding is denied")
      raise_if (is_copy_command command) (auth_error "SCP and SFTP are denied")

abbrev pub AllValid : List String → Type 0
AllValid = All (λ n. validate_node_name n ≡ ok n)

valid_name : (n safe : String) → validate_node_name n ≡ ok safe → safe ≡ n
valid_name n safe h = (validate_label-validate_node_name n safe h).0

validated_nodes_ok :
    (ns names : List String) → validated_nodes ns ≡ ok names → (names ≡ ns) × AllValid ns
unfolding validated_nodes
validated_nodes_ok [] names h = (cc, tt)
validated_nodes_ok (n ∷ ns) names h =
    let (safe, valid, h1) = >>=-eq-ok (validate_node_name n) _ h in
    let (rest, others, h2) = >>=-eq-ok (validated_nodes ns) _ h1 in
    let (same, all) = validated_nodes_ok ns rest others in
    let e = valid_name n safe valid in (cc (h2, e, same), (valid ∙ ap ok e, all))

validated_nodes_total : (ns : List String) → AllValid ns → validated_nodes ns ≡ ok ns
unfolding validated_nodes
validated_nodes_total [] h = refl
validated_nodes_total (n ∷ ns) h = rw (h.0, validated_nodes_total ns h.1) refl

member_valid :
    (ns : List String) (s : String)
    → AllValid ns
    → contains ns s ≡ true
    → validate_node_name s ≡ ok s
unfolding contains
member_valid [] s h m = cc
member_valid (n ∷ ns) s h m = elim (Bool-cases (s == n)) [
  | inl same ↦ let e = string_eq.beq_iff s n in rw (e.0 same) h.0
  | inr other ↦ member_valid ns s h.1 (rw other at m)
]

exact_node_ok :
    (names : List String) (t s : String)
    → exact_node names t ≡ ok s
    → (s ≡ t) × (contains names t ≡ true)
unfolding exact_node
exact_node_ok names t s h = (ground arith, ground arith)

module _ (command s : String) (nodes : List String) where
  abbrev Accepts : Type 0
  Accepts = (s ≡ strip command) × AllValid nodes × (contains nodes s ≡ true)

  accepts_if_ok : parse_restricted_shell_command command nodes ≡ ok s → Accepts
  unfolding parse_restricted_shell_command
  accepts_if_ok h =
      let (some_text, h1) =
        raise_if-then-eq-ok (strip command != command && strip command == "") _ _ h in
      let (names, v, h2) = >>=-eq-ok (validated_nodes nodes) _ h1 in
      let (same, all) = validated_nodes_ok nodes names v in
      let (exact, listed) = exact_node_ok names (strip command) s h2 in
      (
        exact,
        all,
        ap (λ t. contains nodes t) exact
            ∙ ap (λ ns. contains ns (strip command)) (sym same)
            ∙ listed,
      )

  ok_if_accepts : Accepts → parse_restricted_shell_command command nodes ≡ ok s
  unfolding parse_restricted_shell_command exact_node
  ok_if_accepts (exact, all, listed) =
      let named = node_name_nonempty s s (member_valid nodes s all listed) in
      rw (← exact, beq_of_ne s "" named)
        (let e : (s != command && false) ≡ false = ground arith in
          rw (e, validated_nodes_total nodes all, listed) refl)

  -- The restricted shell accepts a command exactly when all allowed nodes have valid names and the
  -- command without its surrounding whitespace is one of them, which it returns. Whitespace before
  -- the name is stripped too, where SPEC.md allows it after the name only.
  pub parse_restricted_shell_command_iff :
      (parse_restricted_shell_command command nodes ≡ ok s)
      ↔ ((s ≡ strip command) × AllValid nodes × (contains nodes s ≡ true))
  parse_restricted_shell_command_iff = (accepts_if_ok, ok_if_accepts)
