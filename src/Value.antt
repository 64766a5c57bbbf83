-- ===== src/Value.antt =====
-- The values of the dynamic code (JSON documents, metadata), and the codec that the program takes
-- from Python's `json`: `dumps` with sorted keys and compact separators, encoded in UTF-8, and
-- `loads` of decoded bytes, `none` where either step raises.
use vibe_connect.Base.{
  ℕ, ◌≡◌, ◌<◌, String, Bool, true, false, ◌&&◌, Option, none, some, List, ◌==◌, string_eq, is_none,
  if◌then◌else◌, length,
}

-- `negsuc n` is -(n + 1).
pub data ℤ : Type 0 where
  pos negsuc : ℕ → ℤ

mutual
  pub data Value : Type 0 where
    null real secret : Value
    bool : Bool → Value
    int : ℤ → Value
    str : String → Value
    list : Items → Value
    dict : Fields → Value

  pub data Items : Type 0 where
    nil : Items
    item : Value → Items → Items

  pub data Fields : Type 0 where
    end : Fields
    field : String → Value → Fields → Fields

-- `d.get(key)` on a dict.
unfoldable pub get_field : String → Fields → Option Value
get_field key end = none
get_field key (field k v rest) = if k == key then some v else get_field key rest

-- No key stands twice, and every value is `None`, a number or a text.
unfoldable pub scalar : Value → Bool
scalar null = true
scalar (int n) = true
scalar (str s) = true
scalar _ = false

unfoldable pub is_flat : Fields → Bool
unfolding scalar
is_flat end = true
is_flat (field k v rest) = scalar v && is_none (get_field k rest) && is_flat rest

-- Python's `json` is not part of the repository.
pub record Json : Type 0 where
  pub dumps : Value → List ℕ
  pub loads : List ℕ → Option Value

-- What the program relies on: the text of an object is not empty, and it reads back as an object
-- with the same members.
pub record IsJson (json : Json) : Type 0 where
  pub nonempty : (fs : Fields) → 0 < length (json.dumps (dict fs))
  pub reads_back :
      (fs : Fields)
      → is_flat fs ≡ true
      → (gs : Fields) × (json.loads (json.dumps (dict fs)) ≡ some (dict gs))
        × ((key : String) → get_field key gs ≡ get_field key fs)
