-- ===== src/Identifiers/Containment.antt =====
-- identifiers.py: how the three languages of identifiers lie in one another.
use vibe_connect.Base.{
  ℕ, ◌≡◌, ◌≢◌, String, Bool, true, false, List, [], ◌∷◌, ok, arith, string_eq, refl, beq_of_ne,
  eq_of_beq, ap, sym, ◌∙◌, all_below, all_below_sound, not, ◌<◌, ◌||◌,
}
use vibe_connect.Identifiers.{
  codes, all, any, matches, is_alnum, is_node_char, is_label_char, is_forbidden, validate_node_name,
  validate_label, validate_username_principal,
}

is_alnum-is_node_char : (c : ℕ) → is_alnum c ≡ true → is_node_char c ≡ true
unfolding is_node_char
is_alnum-is_node_char c h = ground arith

is_node_char-is_label_char : (c : ℕ) → is_node_char c ≡ true → is_label_char c ≡ true
unfolding is_label_char
is_node_char-is_label_char c h = ground arith

-- Either `c` may not stand in a node name, or it may stand in a principal.
harmless : ℕ → Bool
harmless c = not (is_node_char c) || not (is_forbidden c)

harmless_below : all_below 128 harmless ≡ true
unfolding all_below harmless is_node_char is_forbidden
harmless_below = refl

is_node_char_ascii : (c : ℕ) → is_node_char c ≡ true → c < 128
unfolding is_node_char
is_node_char_ascii c h = ground arith

node_char_permitted : (c : ℕ) → is_node_char c ≡ true → is_forbidden c ≡ false
unfolding harmless
node_char_permitted c h =
    ground (arith, all_below_sound 128 harmless c harmless_below (is_node_char_ascii c h))

all_labels : (cs : List ℕ) → all is_node_char cs ≡ true → all is_label_char cs ≡ true
unfolding all
all_labels [] h = refl
all_labels (c ∷ cs) h = ground (arith, is_node_char-is_label_char c, all_labels cs)

none_forbidden : (cs : List ℕ) → all is_node_char cs ≡ true → any is_forbidden cs ≡ false
unfolding all any
none_forbidden [] h = refl
none_forbidden (c ∷ cs) h = ground (arith, node_char_permitted c, none_forbidden cs)

pub all_of_node_name :
    (cs : List ℕ) → matches is_alnum is_node_char 62 cs ≡ true → all is_node_char cs ≡ true
unfolding matches all
all_of_node_name [] h = refl
all_of_node_name (c ∷ cs) h = ground (arith, is_alnum-is_node_char c)

label_of_node_name :
    (cs : List ℕ)
    → matches is_alnum is_node_char 62 cs ≡ true
    → matches is_alnum is_label_char 127 cs ≡ true
unfolding matches
label_of_node_name [] h = h
label_of_node_name (c ∷ cs) h = ground (arith, all_labels cs)

pub pattern_of_validate :
    (s t : String) → validate_node_name s ≡ ok t → matches is_alnum is_node_char 62 (codes s) ≡ true
unfolding validate_node_name
pattern_of_validate s t h = ground arith

-- Every text that is accepted as a node name is returned unchanged and accepted as a label.
pub validate_label-validate_node_name :
    (s t : String) → validate_node_name s ≡ ok t → (t ≡ s) × (validate_label s ≡ ok s)
unfolding validate_node_name validate_label
validate_label-validate_node_name s t h =
    ground (arith, label_of_node_name (codes s), pattern_of_validate s t h)

pub node_name_nonempty : (s t : String) → validate_node_name s ≡ ok t → s ≢ ""
unfolding validate_node_name matches
node_name_nonempty s t h e = cc (ap validate_node_name (sym e) ∙ h)

-- A text that is accepted as a node name is a permitted username principal too, unless it is
-- "root": it has no space, control, path or shell character.
pub validate_username_principal-validate_node_name :
    (s t : String) → validate_node_name s ≡ ok t → s ≢ "root" → validate_username_principal s ≡ ok s
unfolding validate_username_principal
validate_username_principal-validate_node_name s t h ne = ground (
  arith,
  pattern_of_validate s t h,
  all_of_node_name (codes s),
  none_forbidden (codes s),
  beq_of_ne s "root" ne,
  eq_of_beq s "",
  node_name_nonempty s t h,
)
