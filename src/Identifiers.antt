-- ===== src/Identifiers.antt =====
-- vibeconnect_common/identifiers.py: the checks on node names, labels and username principals.
-- A character is its code point. `fullmatch` against a character class, a bounded repetition of a
-- class and the end is a test of each character and of the length.
pub mod Containment
use vibe_connect.Base.{
  ℕ, String, code, Bool, true, false, ◌&&◌, ◌||◌, List, [], ◌∷◌, Result, ok, raise,
  identifier_error, ltb, leb, nat_beq, length, if◌then◌else◌, ◌==◌, string_eq,
}

-- The code points of a text.
abbrev pub codes : String → List ℕ
codes String.[] = []
codes (String.◌∷◌ c s) = code c ∷ codes s

unfoldable pub all : (ℕ → Bool) → List ℕ → Bool
all p [] = true
all p (c ∷ cs) = p c && all p cs

unfoldable pub any : (ℕ → Bool) → List ℕ → Bool
any p [] = false
any p (c ∷ cs) = p c || any p cs

unfoldable pub member : List ℕ → ℕ → Bool
member [] c = false
member (x ∷ xs) c = nat_beq c x || member xs c

-- `[a-zA-Z0-9]`
unfoldable pub is_alnum : ℕ → Bool
is_alnum c = (leb b'a' c && leb c b'z') || (leb b'A' c && leb c b'Z') || (leb b'0' c && leb c b'9')

-- `[a-zA-Z0-9_.-]`
unfoldable pub is_node_char : ℕ → Bool
unfolding is_alnum
is_node_char c = is_alnum c || nat_beq c b'_' || nat_beq c b'.' || nat_beq c b'-'

-- `[a-zA-Z0-9_.:/-]`
unfoldable pub is_label_char : ℕ → Bool
unfolding is_node_char
is_label_char c = is_node_char c || nat_beq c b':' || nat_beq c b'/'

-- `first`, then at most `bound` times `later`, then the end.
unfoldable pub matches : (ℕ → Bool) → (ℕ → Bool) → ℕ → List ℕ → Bool
matches first later bound [] = false
matches first later bound (c ∷ cs) = first c && leb (length cs) bound && all later cs

abbrev pub node_name_pattern : List ℕ → Bool
node_name_pattern = matches is_alnum is_node_char 62

abbrev pub label_pattern : List ℕ → Bool
label_pattern = matches is_alnum is_label_char 127

unfoldable pub validate_node_name : String → Result String
unfolding is_alnum is_node_char all matches
validate_node_name value =
    if node_name_pattern (codes value)
    then ok value
    else raise (identifier_error "invalid node_name")

unfoldable pub validate_label : String → Result String
unfolding is_alnum is_label_char all matches
validate_label value =
    if label_pattern (codes value) then ok value else raise (identifier_error "invalid label")

abbrev pub username_forbidden_chars : List ℕ
username_forbidden_chars = codes "/:"

abbrev pub username_forbidden_shell_chars : List ℕ
username_forbidden_shell_chars = codes "&;|<>$`\\\"'(){}[]*?!"

-- `str.isspace` on one character.
unfoldable pub is_space : ℕ → Bool
is_space c =
    (leb 9 c && leb c 13)
    || (leb 28 c && leb c 32)
    || nat_beq c 133
    || nat_beq c 160
    || nat_beq c 5760
    || (leb 8192 c && leb c 8202)
    || nat_beq c 8232
    || nat_beq c 8233
    || nat_beq c 8239
    || nat_beq c 8287
    || nat_beq c 12288

unfoldable pub is_forbidden : ℕ → Bool
unfolding is_space member
is_forbidden c =
    nat_beq c 0
    || is_space c
    || ltb c 32
    || member username_forbidden_chars c
    || member username_forbidden_shell_chars c

unfoldable pub validate_username_principal : String → Result String
unfolding any is_forbidden
validate_username_principal value =
    if value == "" || value == "root"
    then raise (identifier_error "invalid username principal")
    else if any is_forbidden (codes value)
    then raise (identifier_error "invalid username principal")
    else ok value
