-- ===== src/Base/Words.antt =====
-- Fixed-width words: ranges, and encoding/binary's little-endian layouts.
use waveguide.Base.Panics.{Outcome, returns, panic}
use Prim.Native.Nat.{ℕ, ◌+◌, ◌*◌, ◌/◌, ◌%◌, ◌^◌, ◌<◌}
use mathlib.Core.List.{List, [], ◌∷◌}

abbrev pub IsU8 : ℕ → Type 0
IsU8 n = n < 2 ^ 8

abbrev pub IsU16 : ℕ → Type 0
IsU16 n = n < 2 ^ 16

abbrev pub IsU32 : ℕ → Type 0
IsU32 n = n < 2 ^ 32

-- The two bytes that `PutUint16` writes.
abbrev pub le16 : ℕ → List ℕ
le16 n = n % 256 ∷ n / 256 % 256 ∷ []

-- The four bytes that `PutUint32` writes.
abbrev pub le32 : ℕ → List ℕ
le32 n = n % 256 ∷ n / 256 % 256 ∷ n / 65536 % 256 ∷ n / 16777216 % 256 ∷ []

-- `Uint16` reads two bytes and panics on a shorter slice.
abbrev pub uint16 : List ℕ → Outcome ℕ
uint16 [] = panic
uint16 (a ∷ []) = panic
uint16 (a ∷ b ∷ _) = returns (a + b * 256)

-- `Uint32` reads four bytes and panics on a shorter slice.
abbrev pub uint32 : List ℕ → Outcome ℕ
uint32 (a ∷ b ∷ c ∷ d ∷ _) = returns (a + b * 256 + c * 65536 + d * 16777216)
uint32 _ = panic

-- `PutUint32(b, n)` writes in place: the slice after it, or a panic where it has no four bytes.
abbrev pub put_uint32 : List ℕ → ℕ → Outcome (List ℕ)
put_uint32 (_ ∷ _ ∷ _ ∷ _ ∷ rest) n =
    returns (n % 256 ∷ n / 256 % 256 ∷ n / 65536 % 256 ∷ n / 16777216 % 256 ∷ rest)
put_uint32 _ n = panic
