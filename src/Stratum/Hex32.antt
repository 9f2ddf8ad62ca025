-- ===== src/Stratum/Hex32.antt =====
-- Numbers of 32 bits as text: `format!("{:08x}", v)` and `u32::from_str_radix(s, 16)`, as the
-- standard library documents them.
pub mod RoundTrip
use mac_solo_miner.Base.{
  ℕ, zero, suc, ◌+◌, ◌*◌, ◌/◌, ◌%◌, ◌^◌, if◌then◌else◌, ltb, ◌==◌, List, [], ◌∷◌, Option, none,
  some,
}
use mac_solo_miner.BtcPrimitives.Hex.{digit, to_digit}

-- The last `n` digits.
unfoldable pub digits : ℕ → ℕ → List ℕ
digits zero v = []
digits (suc n) v = digit (v / 16 ^ n % 16) ∷ digits n v

-- A number of 32 bits has no more than eight.
unfoldable pub to_hex32 : ℕ → List ℕ
to_hex32 v = digits 8 v

-- Without the zeros in front, but for the last digit.
unfoldable pub without_zeros : List ℕ → List ℕ
without_zeros [] = []
without_zeros (c ∷ []) = c ∷ []
without_zeros (c ∷ d ∷ rest) =
    let shorter = without_zeros (d ∷ rest) in if c == 48 then shorter else c ∷ d ∷ rest

-- `format!("{:x}", v)` of a u64.
unfoldable pub to_lower_hex : ℕ → List ℕ
to_lower_hex v = without_zeros (digits 16 v)

abbrev pub with_digit : Option ℕ → (ℕ → Option ℕ) → Option ℕ
with_digit none next = none
with_digit (some d) next = next d

-- The digits behind those that stand for `acc`.
unfoldable pub parse_digits : ℕ → List ℕ → Option ℕ
parse_digits acc [] = some acc
parse_digits acc (c ∷ rest) = with_digit (to_digit c) (λ d.
    let more = parse_digits (16 * acc + d) rest in
    if ltb (16 * acc + d) (2 ^ 32) then more else none)

abbrev unsigned_digits : List ℕ → Option ℕ
unsigned_digits [] = none
unsigned_digits (c ∷ rest) = parse_digits 0 (c ∷ rest)

-- A sign may stand in front; no digits at all are an error.
unfoldable pub from_hex32 : List ℕ → Option ℕ
from_hex32 [] = none
from_hex32 (c ∷ rest) = if c == 43 then unsigned_digits rest else unsigned_digits (c ∷ rest)
