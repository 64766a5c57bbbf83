-- ===== src/Access/Visible/Decision.antt =====
-- visible_nodes_for_identity: exactly the nodes that a group, a role and a label lead to.
use vibe_connect.Base.{
  ◌≡◌, ◌↔◌, ◌⊎◌, String, List, [], ◌∷◌, Result, ok, contains, string_eq, ap, sym, ◌∙◌, >>=-eq-ok,
  inl, inr,
}
use vibe_connect.Base.Dict.{Dict}
use vibe_connect.Access.Identity.{ResolvedIdentity}
use vibe_connect.Access.Visible.{
  NodeInventoryEntry, entries, roles_for, labels_for_roles, labels_for_groups, visible_names,
  sorted, visible_nodes_for_identity,
}
use vibe_connect.Access.Visible.Authorized.{
  In, Allowed, visible_names_iff, contains-sorted, meets_from, from_meets, labels_for_roles_same,
  roles_for-From, From-roles_for,
}

module _ (groups : List String) (group_to_roles role_to_labels : Dict String (List String)) where
  -- One of the groups has a role that has the label.
  abbrev pub Reaches : String → Type 0
  Reaches label =
      (role : String) × ((group : String) × In group groups
        × In role (entries group_to_roles group))
      × In label (entries role_to_labels role)

  -- A node with the name stands in the inventory, with a label that is reached.
  abbrev pub Authorized : String → List NodeInventoryEntry → Type 0
  Authorized n [] = ⊥
  Authorized n (node ∷ nodes) =
      ((node.node_name ≡ n) × ((label : String) × In label node.labels × Reaches label))
      ⊎ Authorized n nodes

  abbrev allowed : List String
  allowed = roles_for role_to_labels (roles_for group_to_roles groups)

  allowed_reached : (label : String) → In label allowed → Reaches label
  allowed_reached label h =
      let (role, a, b) = roles_for-From role_to_labels label (roles_for group_to_roles groups) h in
      (role, roles_for-From group_to_roles role groups a, b)

  reached_allowed : (label : String) → Reaches label → In label allowed
  reached_allowed label (role, a, b) =
      From-roles_for role_to_labels label (roles_for group_to_roles groups)
        (role, From-roles_for group_to_roles role groups a, b)

  allowed_iff :
      (n : String) (nodes : List NodeInventoryEntry) → Allowed n allowed nodes ↔ Authorized n nodes
  allowed_iff n [] = (λ a. a, λ a. a)
  allowed_iff n (node ∷ nodes) =
      let rec = allowed_iff n nodes in
      (
        λ a. elim a [
          | inl (named, m) ↦
              let (label, x, y) = meets_from node.labels allowed m in
              inl (named, (label, x, allowed_reached label y))
          | inr later ↦ inr (rec.0 later)
        ],
        λ a. elim a [
          | inl (named, (label, x, y)) ↦
              inl (named, from_meets node.labels allowed (label, x, reached_allowed label y))
          | inr later ↦ inr (rec.1 later)
        ],
      )

  -- Where it raises nothing for an invalid name or label, the result has exactly the names of the
  -- nodes with a label that one of the identity's groups reaches through one of its roles. No other
  -- role is asked for: SPEC.md also wants the role `ssh-user`, and the function does not look for it.
  pub visible_nodes_for_identity_iff :
      (identity : ResolvedIdentity) (nodes : List NodeInventoryEntry) (names : List String)
      (n : String)
      → identity.groups ≡ groups
      → visible_nodes_for_identity identity nodes group_to_roles role_to_labels ≡ ok names
      → In n names ↔ Authorized n nodes
  unfolding visible_nodes_for_identity labels_for_groups
  visible_nodes_for_identity_iff identity nodes names n same h =
      let (labels, v, h1) =
        >>=-eq-ok (labels_for_roles role_to_labels (roles_for group_to_roles identity.groups)) _
          h in
      let (visible, w, h2) = >>=-eq-ok (visible_names nodes labels) _ h1 in
      finish labels visible
        (labels_for_roles_same role_to_labels (roles_for group_to_roles identity.groups) labels v
          ∙ ap (λ g. roles_for role_to_labels (roles_for group_to_roles g)) same)
        (sorted_of visible h2) (visible_names_iff nodes labels visible n w)
    where
      sorted_of :
          (visible : List String)
          → ◌≡◌ {A = Result (List String)} (ok (sorted visible)) (ok names)
          → names ≡ sorted visible
      sorted_of visible e = cc

      finish :
          (labels visible : List String)
          → labels ≡ allowed
          → names ≡ sorted visible
          → In n visible ↔ Allowed n labels nodes
          → In n names ↔ Authorized n nodes
      finish labels visible e s (a, b) =
          let (c, d) = allowed_iff n nodes in
          let moved : contains names n ≡ contains visible n =
            ap (λ x. contains x n) s ∙ contains-sorted visible n in
          (λ m. c (rw e at (a (sym moved ∙ m))), λ m. moved ∙ b (rw e (d m)))
