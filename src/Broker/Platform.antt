-- ===== src/Broker/Platform.antt =====
-- What the broker takes from Python's library and from the network.
use vibe_connect.Base.{ℕ, String, Bool, Option, List}
use vibe_connect.Value.{Value, Json}

pub record Platform : Type 0 where
  pub json : Json
  -- SHA-256 of a text, in hexadecimal
  pub sha256_hex_text : String → String
  -- `uuid.UUID(text)`, `none` where it raises, and `str` of a UUID
  pub uuid_of : String → Option ℕ
  -- `str(value)` of what is not a text
  pub repr : Value → String
  -- whether `drain` succeeds after the given frames were written, each with its connection
  pub drains : List (String × List ℕ) → Bool
