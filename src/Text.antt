-- ===== src/Text.antt =====
-- Python's `str` operations that the program uses: `+`, `join`, `strip` and `split` without
-- arguments.
use vibe_connect.Base.{String, code, ◌&&◌, List, [], ◌∷◌, ◌==◌, string_eq, if◌then◌else◌}
use vibe_connect.Identifiers.{is_space}

unfoldable pub append : String → String → String
append String.[] t = t
append (String.◌∷◌ c s) t = String.◌∷◌ c (append s t)

unfoldable pub join : String → List String → String
unfolding append
join sep [] = ""
join sep (s ∷ []) = s
join sep (s ∷ t ∷ rest) = append s (append sep (join sep (t ∷ rest)))

unfoldable pub lstrip : String → String
unfolding is_space
lstrip String.[] = ""
lstrip (String.◌∷◌ c s) = let rest = lstrip s in if is_space (code c) then rest else String.◌∷◌ c s

unfoldable pub rstrip : String → String
unfolding is_space
rstrip String.[] = ""
rstrip (String.◌∷◌ c s) =
    let rest = rstrip s in if is_space (code c) && rest == "" then "" else String.◌∷◌ c rest

unfoldable pub strip : String → String
unfolding lstrip rstrip
strip s = rstrip (lstrip s)

-- A word before the words that follow, where it is not empty.
abbrev pub cons_word : String → List String → List String
cons_word word rest = if word == "" then rest else word ∷ rest

-- The word that a text begins with, and the words after it.
unfoldable pub first_word : String → String × List String
unfolding is_space
first_word String.[] = ("", [])
first_word (String.◌∷◌ c s) =
    let (word, rest) = first_word s in
    if is_space (code c) then ("", cons_word word rest) else (String.◌∷◌ c word, rest)

unfoldable pub split : String → List String
unfolding first_word
split s = let (word, rest) = first_word s in cons_word word rest
