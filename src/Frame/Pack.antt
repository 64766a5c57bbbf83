-- ===== src/Frame/Pack.antt =====
-- `struct.pack("!I", n)` and `struct.unpack`: four bytes, the highest first.
use vibe_connect.Base.{
  ℕ, ◌≡◌, ◌<◌, ◌+◌, ◌*◌, ◌/◌, ◌%◌, ◌^◌, List, [], ◌∷◌, arith, refl, length, take, drop, ◌++◌, suc,
}

unfoldable pub pack_u32 : ℕ → List ℕ
pack_u32 n = (n / 2 ^ 24 % 256) ∷ (n / 2 ^ 16 % 256) ∷ (n / 2 ^ 8 % 256) ∷ (n % 256) ∷ []

unfoldable pub unpack_u32 : List ℕ → ℕ
unpack_u32 (a ∷ b ∷ c ∷ d ∷ []) = ((a * 256 + b) * 256 + c) * 256 + d
unpack_u32 _ = 0

pub unpack_u32-pack_u32 : (n : ℕ) → n < 2 ^ 32 → unpack_u32 (pack_u32 n) ≡ n
unfolding pack_u32 unpack_u32
unpack_u32-pack_u32 n h = omega arith

pub length-pack_u32 : (n : ℕ) → length (pack_u32 n) ≡ 4
unfolding pack_u32
length-pack_u32 n = refl

pub take-pack_u32 : (n : ℕ) (rest : List ℕ) → take 4 (pack_u32 n ++ rest) ≡ pack_u32 n
unfolding pack_u32
take-pack_u32 n rest = refl

pub drop-pack_u32 : (n k : ℕ) (rest : List ℕ) → drop (4 + k) (pack_u32 n ++ rest) ≡ drop k rest
unfolding pack_u32
drop-pack_u32 n k rest = let e : 4 + k ≡ suc (suc (suc (suc k))) = omega arith in rw e refl

pub drop-pack_u32_whole : (n : ℕ) (rest : List ℕ) → drop 4 (pack_u32 n ++ rest) ≡ rest
unfolding pack_u32
drop-pack_u32_whole n rest = refl
