-- ===== src/Tests/Codec.antt =====
-- A small codec that meets what the program relies on from `json`: an object is written as the
-- number of its members, then each key and value, a text as its length and its code points.
use Prim.Native.Nat.{compare, Ordering}
use Prim.Native.Char.{IsLt, char, nul}
use text.Mathlib.TextEquality.{Char-path}
use mathlib.Core.Path.{ap₂}
use vibe_connect.Base.{
  ℕ, zero, suc, ◌≡◌, Char, code, String, true, Option, none, some, List, [], ◌∷◌, ◌++◌, refl, ap,
  arith, length, take, drop, take-append, drop-append,
}
use vibe_connect.Identifiers.{codes}
use vibe_connect.Value.{
  pos, negsuc, Value, null, real, secret, bool, int, str, list, dict, Fields, end, field, scalar,
  is_flat, Json, IsJson,
}

abbrev Both : Ordering → Ordering → Type 0
Both Ordering.lt o = IsLt o
Both Ordering.eq _ = ⊥
Both Ordering.gt _ = ⊥

-- `IsScalar n` at its three comparisons.
abbrev ScalarAt : Ordering → Ordering → Ordering → Type 0
ScalarAt Ordering.lt _ _ = Unit
ScalarAt Ordering.eq o p = Both o p
ScalarAt Ordering.gt o p = Both o p

dec_lt_type : (o : Ordering) → Dec (IsLt o)
dec_lt_type Ordering.lt = yes tt
dec_lt_type Ordering.eq = no (λ h. h)
dec_lt_type Ordering.gt = no (λ h. h)

dec_both : (o p : Ordering) → Dec (Both o p)
dec_both Ordering.lt p = dec_lt_type p
dec_both Ordering.eq p = no (λ h. h)
dec_both Ordering.gt p = no (λ h. h)

dec_scalar : (o p q : Ordering) → Dec (ScalarAt o p q)
dec_scalar Ordering.lt p q = yes tt
dec_scalar Ordering.eq p q = dec_both p q
dec_scalar Ordering.gt p q = dec_both p q

abbrev char_if :
    (n : ℕ) → Dec (ScalarAt (compare n 55296) (compare 57343 n) (compare n 1114112)) → Char
char_if n (yes h) = char n h
char_if n (no _) = nul

pub char_of : ℕ → Char
char_of n = char_if n (dec_scalar (compare n 55296) (compare 57343 n) (compare n 1114112))

char_of-code : (c : Char) → char_of (code c) ≡ c
unfolding char_of
char_of-code (char n p) = go (dec_scalar (compare n 55296) (compare 57343 n) (compare n 1114112))
  where
    go :
        (d : Dec (ScalarAt (compare n 55296) (compare 57343 n) (compare n 1114112)))
        → char_if n d ≡ char n p
    go (yes h) = Char-path (char n h) (char n p) refl
    go (no h) = absurd (h p)

unfoldable pub of_codes : List ℕ → String
of_codes [] = String.[]
of_codes (n ∷ ns) = String.◌∷◌ (char_of n) (of_codes ns)

of_codes-codes : (s : String) → of_codes (codes s) ≡ s
unfolding of_codes
of_codes-codes String.[] = refl
of_codes-codes (String.◌∷◌ c s) = ap₂ String.◌∷◌ (char_of-code c) (of_codes-codes s)

unfoldable pub write_text : String → List ℕ
write_text s = length (codes s) ∷ codes s

unfoldable pub write_value : Value → List ℕ
write_value (int (pos n)) = 1 ∷ n ∷ []
write_value (int (negsuc n)) = 2 ∷ n ∷ []
write_value (str s) = 3 ∷ write_text s
write_value _ = 0 ∷ []

unfoldable pub count : Fields → ℕ
count end = 0
count (field k v rest) = suc (count rest)

unfoldable pub write_fields : Fields → List ℕ
unfolding write_value
write_fields end = []
write_fields (field k v rest) = write_text k ++ (write_value v ++ write_fields rest)

unfoldable pub read_text : List ℕ → String × List ℕ
read_text [] = ("", [])
read_text (n ∷ bs) = (of_codes (take n bs), drop n bs)

unfoldable pub read_value : List ℕ → Value × List ℕ
read_value (suc zero ∷ n ∷ bs) = (int (pos n), bs)
read_value (suc (suc zero) ∷ n ∷ bs) = (int (negsuc n), bs)
read_value (suc (suc (suc zero)) ∷ bs) = let (s, rest) = read_text bs in (str s, rest)
read_value (zero ∷ bs) = (null, bs)
read_value bs = (null, [])

unfoldable pub read_fields : ℕ → List ℕ → Fields
unfolding read_value
read_fields zero bs = end
read_fields (suc n) bs =
    let (k, after_key) = read_text bs in
    let (v, after_value) = read_value after_key in field k v (read_fields n after_value)

abbrev pub small_dumps : Value → List ℕ
small_dumps (dict fs) = count fs ∷ write_fields fs
small_dumps _ = 0 ∷ []

abbrev pub small_loads : List ℕ → Option Value
small_loads [] = none
small_loads (n ∷ bs) = some (dict (read_fields n bs))

abbrev pub small_json : Json
small_json = record { dumps = small_dumps; loads = small_loads }

read_text-write_text : (s : String) (rest : List ℕ) → read_text (write_text s ++ rest) ≡ (s, rest)
unfolding write_text read_text
read_text-write_text s rest = rw (take-append, drop-append, of_codes-codes)

read_value-write_value :
    (v : Value) (rest : List ℕ) → scalar v ≡ true → read_value (write_value v ++ rest) ≡ (v, rest)
unfolding read_value write_value scalar
read_value-write_value null rest h = refl
read_value-write_value (int (pos n)) rest h = refl
read_value-write_value (int (negsuc n)) rest h = refl
read_value-write_value (str s) rest h = rw (read_text-write_text s rest)
read_value-write_value real rest h = cc
read_value-write_value secret rest h = cc
read_value-write_value (bool b) rest h = cc
read_value-write_value (list xs) rest h = cc
read_value-write_value (dict fs) rest h = cc

scalar_of_flat :
    (k : String) (v : Value) (rest : Fields)
    → is_flat (field k v rest) ≡ true
    → (scalar v ≡ true) × (is_flat rest ≡ true)
unfolding is_flat
scalar_of_flat k v rest h = (ground arith, ground arith)

read_fields-write_fields :
    (fs : Fields) → is_flat fs ≡ true → read_fields (count fs) (write_fields fs) ≡ fs
unfolding read_fields count write_fields
read_fields-write_fields end h = refl
read_fields-write_fields (field k v rest) h =
    let (sv, fr) = scalar_of_flat k v rest h in
    rw (
      read_text-write_text k (write_value v ++ write_fields rest),
      read_value-write_value v (write_fields rest) sv,
      read_fields-write_fields rest fr,
    )

pub small_json-IsJson : IsJson small_json
small_json-IsJson = record {
  nonempty = λ fs. omega arith;
  reads_back = λ fs h. (fs, ap (λ gs. some (dict gs)) (read_fields-write_fields fs h), λ key. refl);
}
