-- ===== src/Access/Visible/Authorized.antt =====
-- Which nodes an identity sees, in terms of its groups, their roles and the roles' labels.
use vibe_connect.Base.{
  ◌≡◌, ◌↔◌, ◌⊎◌, String, Bool, true, false, ◌||◌, List, [], ◌∷◌, ok, ◌>>=◌, contains, ◌==◌,
  string_eq, refl, arith, sym, ◌∙◌, >>=-eq-ok, Bool-cases, inl, inr, eq_self, eq_of_beq,
}
use vibe_connect.Base.Dict.{Dict}
use vibe_connect.Base.Sets.{contains-add}
use vibe_connect.Identifiers.{validate_label, validate_node_name}
use vibe_connect.Identifiers.Containment.{validate_label-validate_node_name}
use vibe_connect.Access.Visible.{
  NodeInventoryEntry, entries, add_all, roles_for, validated, labels_for_roles, meets,
  visible_names, place, sorted,
}

abbrev pub In : String → List String → Type 0
In x xs = contains xs x ≡ true

contains-add_all :
    (xs set : List String) (b : String)
    → contains (add_all xs set) b ≡ (contains xs b || contains set b)
unfolding add_all contains
contains-add_all [] set b = refl
contains-add_all (x ∷ xs) set b = rw contains-add (elim (Bool-cases (b == x)) [
  | inl same ↦ rw same refl
  | inr other ↦ rw other (contains-add_all xs set b)
])

either_true : (a b : Bool) → (a || b) ≡ true → (a ≡ true) ⊎ (b ≡ true)
either_true true b h = inl refl
either_true false b h = inr h

or_right : (a : Bool) {b : Bool} → b ≡ true → (a || b) ≡ true
or_right true h = refl
or_right false h = h

In-cons : (x y : String) (xs : List String) → In y xs → In y (x ∷ xs)
unfolding contains
In-cons x y xs h = or_right (y == x) h

In-head : (x : String) (xs : List String) → In x (x ∷ xs)
unfolding contains
In-head x xs = rw (eq_self x) refl

-- A union over a list, member by member; `labels_for_roles` is one too.
module _ (d : Dict String (List String)) (r : String) where
  abbrev pub From : List String → Type 0
  From gs = (g : String) × In g gs × In r (entries d g)

  From-cons : (g : String) (gs : List String) → From gs → From (g ∷ gs)
  From-cons g gs (k, a, b) = (k, In-cons g k gs a, b)

  pub roles_for-From : (gs : List String) → In r (roles_for d gs) → From gs
  unfolding roles_for contains
  roles_for-From [] h = cc
  roles_for-From (g ∷ gs) h =
      elim (either_true (contains (entries d g) r) (contains (roles_for d gs) r)
        (sym (contains-add_all (entries d g) (roles_for d gs) r) ∙ h)) [
          | inl here ↦ (g, In-head g gs, here)
          | inr there ↦ From-cons g gs (roles_for-From gs there)
        ]

  pub From-roles_for : (gs : List String) → From gs → In r (roles_for d gs)
  unfolding roles_for contains
  From-roles_for [] (k, a, b) = cc
  From-roles_for (g ∷ gs) (k, a, b) =
      rw contains-add_all (elim (either_true (k == g) (contains gs k) a) [
        | inl same ↦ rw (rw (eq_of_beq k g same) at b) refl
        | inr later ↦ or_right (contains (entries d g) r) (From-roles_for gs (k, later, b))
      ])

validate_label_same : (s t : String) → validate_label s ≡ ok t → t ≡ s
unfolding validate_label
validate_label_same s t h = ground arith

validated_same : (ls names : List String) → validated ls ≡ ok names → names ≡ ls
unfolding validated
validated_same [] names h = cc
validated_same (l ∷ ls) names h =
    let (safe, valid, h1) = >>=-eq-ok (validate_label l) _ h in
    let (rest, others, h2) = >>=-eq-ok (validated ls) _ h1 in
    cc (h2, validate_label_same l safe valid, validated_same ls rest others)

pub labels_for_roles_same :
    (d : Dict String (List String)) (rs ls : List String)
    → labels_for_roles d rs ≡ ok ls
    → ls ≡ roles_for d rs
unfolding labels_for_roles roles_for
labels_for_roles_same d [] ls h = cc
labels_for_roles_same d (r ∷ rs) ls h =
    let (labels, v, h1) = >>=-eq-ok (validated (entries d r)) _ h in
    let (others, w, h2) = >>=-eq-ok (labels_for_roles d rs) _ h1 in
    cc (h2, validated_same (entries d r) labels v, labels_for_roles_same d rs others w)

pub meets_from : (xs ys : List String) → meets xs ys ≡ true → (x : String) × In x xs × In x ys
unfolding meets
meets_from [] ys h = cc
meets_from (x ∷ xs) ys h = elim (either_true (contains ys x) (meets xs ys) h) [
  | inl here ↦ (x, In-head x xs, here)
  | inr there ↦ let (y, a, b) = meets_from xs ys there in (y, In-cons x y xs a, b)
]

pub from_meets : (xs ys : List String) → (x : String) × In x xs × In x ys → meets xs ys ≡ true
unfolding meets contains
from_meets [] ys (x, a, b) = cc
from_meets (y ∷ xs) ys (x, a, b) = elim (either_true (x == y) (contains xs x) a) [
  | inl same ↦ rw (rw (eq_of_beq x y same) at b) refl
  | inr later ↦ or_right (contains ys y) (from_meets xs ys (x, later, b))
]

-- A node of the list by its name, which has an allowed label.
abbrev pub Allowed : String → List String → List NodeInventoryEntry → Type 0
Allowed n allowed [] = ⊥
Allowed n allowed (node ∷ nodes) =
    ((node.node_name ≡ n) × (meets node.labels allowed ≡ true)) ⊎ Allowed n allowed nodes

valid_name : (n safe : String) → validate_node_name n ≡ ok safe → safe ≡ n
valid_name n safe h = (validate_label-validate_node_name n safe h).0

pub visible_names_iff :
    (nodes : List NodeInventoryEntry) (allowed names : List String) (n : String)
    → visible_names nodes allowed ≡ ok names
    → (In n names) ↔ (Allowed n allowed nodes)
unfolding visible_names contains
visible_names_iff [] allowed names n h = (λ m. cc, λ a. absurd a)
visible_names_iff (node ∷ nodes) allowed names n h = elim (Bool-cases (meets node.labels allowed)) [
  | inl seen ↦
      let h0 = rw seen at h in
      let (safe, valid, h1) =
        >>=-eq-ok (validate_node_name node.node_name)
          (λ safe. visible_names nodes allowed >>= λ names. ok (safe ∷ names)) h0 in
      let (rest, others, h2) =
        >>=-eq-ok (visible_names nodes allowed) (λ names. ok (safe ∷ names)) h1 in
      let rec = visible_names_iff nodes allowed rest n others in
      let e : names ≡ node.node_name ∷ rest = cc (h2, valid_name node.node_name safe valid) in
      rw e (
        λ m. elim (either_true (n == node.node_name) (contains rest n) m) [
          | inl same ↦ inl (sym (eq_of_beq n node.node_name same), seen)
          | inr later ↦ inr (rec.0 later)
        ],
        λ a. elim a [
          | inl (same, s) ↦ rw (← same) (In-head node.node_name rest)
          | inr later ↦ or_right (n == node.node_name) (rec.1 later)
        ],
      )
  | inr unseen ↦
      let rec = visible_names_iff nodes allowed names n (rw unseen at h) in
      (λ m. inr (rec.0 m), λ a. elim a [ inl (same, s) ↦ absurd (cc) | inr later ↦ rec.1 later ])
]

contains-place :
    (s b : String) (ts : List String) → contains (place s ts) b ≡ (b == s || contains ts b)
unfolding place contains
contains-place s b [] = refl
contains-place s b (t ∷ ts) = ground (arith, contains-place s b ts)

pub contains-sorted : (ss : List String) (b : String) → contains (sorted ss) b ≡ contains ss b
unfolding sorted contains
contains-sorted [] b = refl
contains-sorted (s ∷ ss) b = rw (contains-place, contains-sorted ss b) refl
