-- ===== src/Tests/Access.antt =====
-- The access rules of server/auth.py at concrete inputs.
use vibe_connect.Base.{◌≡◌, ◌↔◌, String, true, List, [], ◌∷◌, ok, contains, string_eq, refl}
use vibe_connect.Base.Dict.{Dict, get}
use vibe_connect.Base.Sets.{add}
use vibe_connect.Identifiers.{
  validate_label, validate_node_name, codes, all, validate_username_principal,
}
use vibe_connect.Text.{strip}
use vibe_connect.Access.Ldap.{
  escape_ldap_filter_value, unescape, is_inert, unescape-escape_ldap_filter_value,
}
use vibe_connect.Access.Identity.{
  ResolvedIdentity, ProviderPublicKeyRecord, resolve_provider_public_key_identity,
}
use vibe_connect.Access.Identity.Binding.{HasAlone, resolved, resolve_provider_iff}
use vibe_connect.Access.Visible.{
  NodeInventoryEntry, visible_nodes_for_identity, labels_for_groups, roles_for, labels_for_roles,
  entries, add_all, validated, meets, visible_names,
}
use vibe_connect.Access.Visible.Authorized.{In}
use vibe_connect.Access.Visible.Decision.{Authorized, visible_nodes_for_identity_iff}
use vibe_connect.Access.Shell.{
  AllValid, parse_restricted_shell_command, parse_restricted_shell_command_iff,
}

unescape-escape_ldap_filter_value_example :
    (all is_inert (codes (escape_ldap_filter_value "a*(b\\c)")) ≡ true)
    × (unescape (codes (escape_ldap_filter_value "a*(b\\c)")) ≡ codes "a*(b\\c)")
unescape-escape_ldap_filter_value_example = unescape-escape_ldap_filter_value "a*(b\\c)"

abbrev alice_record : ProviderPublicKeyRecord
alice_record = record { username = "alice"; public_keys = "k1" ∷ []; groups = "ops" ∷ [] }

abbrev bob_record : ProviderPublicKeyRecord
bob_record = record { username = "bob"; public_keys = "k2" ∷ []; groups = [] }

resolve_provider_iff_example :
    (resolve_provider_public_key_identity "alice" "k1" (alice_record ∷ bob_record ∷ [])
      ≡ ok (resolved "alice" "k1" alice_record))
    ↔ ((validate_username_principal "alice" ≡ ok "alice")
        × ((r : ProviderPublicKeyRecord) × HasAlone "alice" "k1" (alice_record ∷ bob_record ∷ []) r
            × (r.username ≡ "alice")
            × (resolved "alice" "k1" alice_record ≡ resolved "alice" "k1" r)))
resolve_provider_iff_example =
    resolve_provider_iff "alice" "k1" (alice_record ∷ bob_record ∷ [])
      (resolved "alice" "k1" alice_record)

parse_restricted_shell_command_iff_example :
    (parse_restricted_shell_command " web " ("db" ∷ "web" ∷ []) ≡ ok "web") ↔ (
      (◌≡◌ {A = String} "web" (strip " web "))
      × AllValid ("db" ∷ "web" ∷ [])
      × (contains {A = String} ("db" ∷ "web" ∷ []) "web" ≡ true))
parse_restricted_shell_command_iff_example =
    parse_restricted_shell_command_iff " web " "web" ("db" ∷ "web" ∷ [])

abbrev web_node : NodeInventoryEntry
web_node = record { node_name = "web"; labels = "prod" ∷ [] }

abbrev db_node : NodeInventoryEntry
db_node = record { node_name = "db"; labels = "prod" ∷ "data" ∷ [] }

abbrev ops : ResolvedIdentity
ops = record { username = "alice"; public_key = "k1"; groups = "ops" ∷ [] }

abbrev ops_roles : Dict String (List String)
ops_roles = ("ops", "operator" ∷ []) ∷ []

abbrev operator_labels : Dict String (List String)
operator_labels = ("operator", "prod" ∷ []) ∷ []

ops_visible :
    visible_nodes_for_identity ops (web_node ∷ db_node ∷ []) ops_roles operator_labels
    ≡ ok ("db" ∷ "web" ∷ [])
unfolding visible_nodes_for_identity labels_for_groups labels_for_roles roles_for add_all entries
    get add contains validated validate_label visible_names meets validate_node_name
ops_visible = refl

visible_nodes_for_identity_iff_example :
    (In "web" ("db" ∷ "web" ∷ []))
    ↔ Authorized ("ops" ∷ []) ops_roles operator_labels "web" (web_node ∷ db_node ∷ [])
visible_nodes_for_identity_iff_example =
    visible_nodes_for_identity_iff ("ops" ∷ []) ops_roles operator_labels ops
      (web_node ∷ db_node ∷ []) ("db" ∷ "web" ∷ []) "web" refl ops_visible
