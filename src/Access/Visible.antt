-- ===== src/Access/Visible.antt =====
-- labels_for_groups and visible_nodes_for_identity: sets are lists, maps association lists, and
-- `sorted` orders texts by their code points.
pub mod Authorized
pub mod Decision
use vibe_connect.Base.{
  ℕ, String, Bool, true, false, ◌||◌, Option, none, some, List, [], ◌∷◌, Result, ok, raise, ◌>>=◌,
  ltb, nat_beq, contains, string_eq, if◌then◌else◌,
}
use vibe_connect.Base.Dict.{Dict, get}
use vibe_connect.Base.Sets.{add}
use vibe_connect.Identifiers.{codes, validate_label, validate_node_name}
use vibe_connect.Access.Identity.{ResolvedIdentity}

pub record NodeInventoryEntry : Type 0 where
  pub node_name : String
  pub labels : List String

abbrev pub or_empty : Option (List String) → List String
or_empty none = []
or_empty (some xs) = xs

-- `d.get(key, ())`
unfoldable pub entries : Dict String (List String) → String → List String
entries d key = or_empty (get key d)

-- `set.update`
unfoldable pub add_all : List String → List String → List String
add_all [] set = set
add_all (x ∷ xs) set = add x (add_all xs set)

unfoldable pub roles_for : Dict String (List String) → List String → List String
roles_for group_to_roles [] = []
roles_for group_to_roles (g ∷ gs) = add_all (entries group_to_roles g) (roles_for group_to_roles gs)

unfoldable pub validated : List String → Result (List String)
validated [] = ok []
validated (l ∷ ls) =
    let rest = validated ls in (validate_label l >>= λ safe. rest >>= λ labels. ok (safe ∷ labels))

unfoldable pub labels_for_roles : Dict String (List String) → List String → Result (List String)
labels_for_roles role_to_labels [] = ok []
labels_for_roles role_to_labels (r ∷ rs) =
    let rest = labels_for_roles role_to_labels rs in
    (validated (entries role_to_labels r) >>= λ labels.
    rest >>= λ others. ok (add_all labels others))

unfoldable pub labels_for_groups :
    List String → Dict String (List String) → Dict String (List String) → Result (List String)
labels_for_groups groups group_to_roles role_to_labels =
    labels_for_roles role_to_labels (roles_for group_to_roles groups)

-- whether `xs & ys` is not empty
unfoldable pub meets : List String → List String → Bool
meets [] ys = false
meets (x ∷ xs) ys = contains ys x || meets xs ys

unfoldable pub visible_names : List NodeInventoryEntry → List String → Result (List String)
visible_names [] allowed = ok []
visible_names (node ∷ nodes) allowed =
    let rest = visible_names nodes allowed in
    if meets node.labels allowed
    then (validate_node_name node.node_name >>= λ safe. rest >>= λ names. ok (safe ∷ names))
    else rest

-- The order of texts: the first difference decides, and a prefix comes first.
unfoldable pub before : List ℕ → List ℕ → Bool
before [] ys = true
before (x ∷ xs) [] = false
before (x ∷ xs) (y ∷ ys) = let rest = before xs ys in if nat_beq x y then rest else ltb x y

unfoldable pub place : String → List String → List String
unfolding before
place s [] = s ∷ []
place s (t ∷ ts) =
    let rest = place s ts in if before (codes s) (codes t) then s ∷ t ∷ ts else t ∷ rest

unfoldable pub sorted : List String → List String
unfolding place
sorted [] = []
sorted (s ∷ ss) = place s (sorted ss)

unfoldable pub visible_nodes_for_identity :
    ResolvedIdentity
    → List NodeInventoryEntry
    → Dict String (List String)
    → Dict String (List String)
    → Result (List String)
unfolding sorted
visible_nodes_for_identity identity nodes group_to_roles role_to_labels = do
  allowed ← labels_for_groups identity.groups group_to_roles role_to_labels
  visible ← visible_names nodes allowed
  ok (sorted visible)
