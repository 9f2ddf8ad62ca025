-- ===== src/Base/Bytes.antt =====
-- Bytes, and the integers of the machine as little-endian and big-endian strings of them.
use Prim.Native.Nat.{ℕ, zero, suc, ◌+◌, ◌*◌, ◌/◌, ◌%◌, ◌^◌, ◌<◌}
use mathlib.Core.Path.{◌≡◌, refl, ap, ap₂, ◌∙◌}
use mathlib.Core.List.{List, [], ◌∷◌, ◌++◌, reverse, reverse-reverse}
use mathlib.Core.Bool.{Bool, true, false, ◌&&◌}
use mac_solo_miner.Base.Tests.{◌==◌}
use native.Mathlib.Omega.{arith}
use native.Mathlib.Nat.{pow-suc}
use mac_solo_miner.Base.Lists.{length, All, replicate, length-reverse, All-reverse}

abbrev pub IsByte : ℕ → Type 0
IsByte b = b < 256

-- A byte slice; `IsArray n` is `[u8; n]`.
abbrev pub IsBytes : List ℕ → Type 0
IsBytes bs = All IsByte bs

abbrev pub IsArray : ℕ → List ℕ → Type 0
IsArray n bs = (length bs ≡ n) × All IsByte bs

-- `to_le_bytes` at a width of `n` bytes, and its inverse.
unfoldable pub to_le_bytes : ℕ → ℕ → List ℕ
to_le_bytes zero v = []
to_le_bytes (suc n) v = (v % 256) ∷ to_le_bytes n (v / 256)

unfoldable pub from_le_bytes : List ℕ → ℕ
from_le_bytes [] = 0
from_le_bytes (b ∷ bs) = b + 256 * from_le_bytes bs

unfoldable pub to_be_bytes : ℕ → ℕ → List ℕ
to_be_bytes n v = reverse (to_le_bytes n v)

unfoldable pub from_be_bytes : List ℕ → ℕ
from_be_bytes bs = from_le_bytes (reverse bs)

pub length-to_le_bytes : (n v : ℕ) → length (to_le_bytes n v) ≡ n
unfolding to_le_bytes
length-to_le_bytes zero v = refl
length-to_le_bytes (suc n) v = ap suc (length-to_le_bytes n (v / 256))

pub to_le_bytes-IsBytes : (n v : ℕ) → All IsByte (to_le_bytes n v)
unfolding to_le_bytes
to_le_bytes-IsBytes zero v = tt
to_le_bytes-IsBytes (suc n) v = (omega arith, to_le_bytes-IsBytes n (v / 256))

pub from_le_bytes-to_le_bytes : (n v : ℕ) → v < 256 ^ n → from_le_bytes (to_le_bytes n v) ≡ v
unfolding to_le_bytes from_le_bytes
from_le_bytes-to_le_bytes zero v h = omega arith
from_le_bytes-to_le_bytes (suc n) v h =
    ground
      (arith, pow-suc 256 n, from_le_bytes-to_le_bytes n (v / 256) (omega (arith, pow-suc 256 n)))

pub from_le_bytes-lt : (bs : List ℕ) → All IsByte bs → from_le_bytes bs < 256 ^ length bs
unfolding from_le_bytes
from_le_bytes-lt [] h = omega arith
from_le_bytes-lt (b ∷ bs) h = omega (arith, pow-suc 256 (length bs), from_le_bytes-lt bs h.1)

pub to_le_bytes-from_le_bytes :
    (bs : List ℕ) → All IsByte bs → to_le_bytes (length bs) (from_le_bytes bs) ≡ bs
unfolding to_le_bytes from_le_bytes
to_le_bytes-from_le_bytes [] h = refl
to_le_bytes-from_le_bytes (b ∷ bs) h =
    ap₂ ◌∷◌ (omega arith)
      (ap (to_le_bytes (length bs)) (omega arith) ∙ to_le_bytes-from_le_bytes bs h.1)

pub length-to_be_bytes : (n v : ℕ) → length (to_be_bytes n v) ≡ n
unfolding to_be_bytes
length-to_be_bytes n v = length-reverse (to_le_bytes n v) ∙ length-to_le_bytes n v

pub to_be_bytes-IsBytes : (n v : ℕ) → All IsByte (to_be_bytes n v)
unfolding to_be_bytes
to_be_bytes-IsBytes n v = All-reverse IsByte (to_le_bytes n v) (to_le_bytes-IsBytes n v)

pub from_be_bytes-to_be_bytes : (n v : ℕ) → v < 256 ^ n → from_be_bytes (to_be_bytes n v) ≡ v
unfolding to_be_bytes from_be_bytes
from_be_bytes-to_be_bytes n v h =
    ap from_le_bytes (reverse-reverse (to_le_bytes n v)) ∙ from_le_bytes-to_le_bytes n v h

-- Zero bytes at the top change nothing.
pub from_le_bytes-append_zeros :
    (bs : List ℕ) (n : ℕ) → from_le_bytes (bs ++ replicate n 0) ≡ from_le_bytes bs
unfolding from_le_bytes
from_le_bytes-append_zeros [] zero = refl
from_le_bytes-append_zeros [] (suc n) = omega (arith, from_le_bytes-append_zeros [] n)
from_le_bytes-append_zeros (b ∷ bs) n = omega (arith, from_le_bytes-append_zeros bs n)

-- Whether two byte strings, or two texts, are equal.
abbrev pub bytes_eq : List ℕ → List ℕ → Bool
bytes_eq [] [] = true
bytes_eq [] (y ∷ ys) = false
bytes_eq (x ∷ xs) [] = false
bytes_eq (x ∷ xs) (y ∷ ys) = x == y && bytes_eq xs ys
