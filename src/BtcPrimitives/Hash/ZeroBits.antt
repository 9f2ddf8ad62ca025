-- ===== src/BtcPrimitives/Hash/ZeroBits.antt =====
-- What the count of leading zero bits says of the number.
use mac_solo_miner.Base.{
  ℕ, zero, suc, ◌+◌, ◌*◌, ◌^◌, ◌≤◌, ◌<◌, ◌≡◌, refl, sym, ap, ◌∙◌, arith, ltb, ltb→lt, lt→ltb,
  ltb→ge, ==→eq, subst₂, ◌==◌, Bool-cases, inl, inr, List, [], ◌∷◌, reverse, length, length-reverse,
  IsArray, IsByte, IsBytes, All-reverse, from_le_bytes, be_value, be_value-lt,
}
use mac_solo_miner.BtcPrimitives.Hash.{Sha256dHash, leading_zeros, count_leading, leading_zero_bits}
use mac_solo_miner.BtcPrimitives.Hash.Order.{le_of_reverse}
use native.Mathlib.Nat.{zero-add, pow-suc, one-le-pow, mul-le-mul_right}
use native.Mathlib.Numerals.{towards_suc}

-- `v` stays below `m` when it is doubled `z` times, and once more is too often; of 0 all bits are
-- zero bits.
abbrev pub HasZeroBits : ℕ → ℕ → ℕ → Type 0
HasZeroBits m v z = ((v + 1) * 2 ^ z ≤ m) × (0 < v → m ≤ 2 * (v * 2 ^ z)) × (v ≡ 0 → m ≤ 2 ^ z)

double_pow : (z : ℕ) → 2 ^ suc z ≡ 2 * 2 ^ z
double_pow z = omega (arith, pow-suc 2 z)

leading_zeros-HasZeroBits : (w v : ℕ) → v < 2 ^ w → HasZeroBits (2 ^ w) v (leading_zeros w v)
unfolding leading_zeros
leading_zeros-HasZeroBits zero v h = (omega arith, λ n. absurd (omega arith), λ e. omega arith)
leading_zeros-HasZeroBits (suc w) v h = elim (Bool-cases (ltb v (2 ^ w))) [
  | inl small ↦
      let (lo, hi, all) = leading_zeros-HasZeroBits w v (ltb→lt v (2 ^ w) small) in
      let z : ℕ = leading_zeros w v in
      rw small (
        omega (arith, ap (λ p. (v + 1) * p) (double_pow z), double_pow w),
        λ pos. omega (arith, hi pos, ap (λ p. v * p) (double_pow z), double_pow w),
        λ e. omega (arith, all e, double_pow z, double_pow w),
      )
  | inr large ↦ rw large (
    omega arith,
    λ pos. omega (arith, ltb→ge v (2 ^ w) large, double_pow w),
    λ e. absurd (omega (arith, ltb→ge v (2 ^ w) large, one-le-pow w 2)),
  )
]

leading_zeros-zero : (w : ℕ) → leading_zeros w 0 ≡ w
unfolding leading_zeros
leading_zeros-zero zero = refl
leading_zeros-zero (suc w) =
    rw (lt→ltb 0 (2 ^ w) (one-le-pow w 2 (omega arith))) (ap suc (leading_zeros-zero w))

-- The loop adds to what it was given.
count_leading-add : (c : ℕ) (bs : List ℕ) → count_leading c bs ≡ c + count_leading 0 bs
unfolding count_leading
count_leading-add c [] = omega arith
count_leading-add c (b ∷ bs) =
    ground (
      arith,
      count_leading-add (c + leading_zeros 8 b) bs,
      count_leading-add (leading_zeros 8 b) bs,
    )

eight_more : (z : ℕ) → 2 ^ (z + 8) ≡ 256 * 2 ^ z
eight_more z = simp towards_suc (omega arith)

-- A zero byte at the top adds eight bits.
zero_byte : (p r z : ℕ) → HasZeroBits p r z → HasZeroBits (p * 256) r (z + 8)
zero_byte p r z (lo, hi, all) = (
  omega (arith, lo, ap (λ q. (r + 1) * q) (eight_more z)),
  λ pos. omega (arith, hi pos, ap (λ q. r * q) (eight_more z)),
  λ e. omega (arith, all e, eight_more z),
)

-- Another byte at the top decides alone.
top_byte : (p b r z : ℕ) → 0 < b → r < p → HasZeroBits 256 b z → HasZeroBits (p * 256) (b * p + r) z
top_byte p b r z pos below (lo, hi, all) = (
  omega (
    arith,
    mul-le-mul_right {m = b * p + r + 1} {n = (b + 1) * p} (2 ^ z) (omega arith),
    mul-le-mul_right p lo,
  ),
  λ _. omega (arith, mul-le-mul_right p (hi pos)),
  λ e. absurd (grind (arith, e)),
)

pub count_leading-HasZeroBits :
    (bs : List ℕ) → IsBytes bs → HasZeroBits (256 ^ length bs) (be_value bs) (count_leading 0 bs)
unfolding count_leading be_value
count_leading-HasZeroBits [] h = (omega arith, λ pos. absurd (omega arith), λ e. omega arith)
count_leading-HasZeroBits (b ∷ bs) h = elim (Bool-cases (b == 0)) [
  | inl none_set ↦
      let b0 : b ≡ 0 = ==→eq b 0 none_set in
      let added : count_leading (0 + leading_zeros 8 b) bs ≡ count_leading 0 bs + 8 =
        count_leading-add (0 + leading_zeros 8 b) bs
        ∙ omega (arith, ap (leading_zeros 8) b0, leading_zeros-zero 8) in
      let number : b * 256 ^ length bs + be_value bs ≡ be_value bs =
        omega (arith, ap (λ x. x * 256 ^ length bs) b0) in
      rw (none_set, added, number, pow-suc 256 (length bs))
        (zero_byte (256 ^ length bs) (be_value bs) (count_leading 0 bs)
          (count_leading-HasZeroBits bs h.1))
  | inr some_set ↦
      rw (some_set, zero-add (leading_zeros 8 b), pow-suc 256 (length bs))
        (top_byte (256 ^ length bs) b (be_value bs) (leading_zeros 8 b) (ground arith)
          (be_value-lt bs h.1) (leading_zeros-HasZeroBits 8 b h.0))
]

-- The count of leading zero bits is that of the 256-bit number: it doubles that often below
-- 2^256, and once more is too often; of the number 0 they are all 256.
pub leading_zero_bits-HasZeroBits :
    (a : Sha256dHash) → IsArray 32 a → HasZeroBits (2 ^ 256) (from_le_bytes a) (leading_zero_bits a)
unfolding leading_zero_bits
leading_zero_bits-HasZeroBits a h =
    subst₂ (λ n v. HasZeroBits (256 ^ n) v (count_leading 0 (reverse a))) (length-reverse a ∙ h.0)
      (sym (le_of_reverse a)) (count_leading-HasZeroBits (reverse a) (All-reverse IsByte a h.1))

-- A hash that is not zero, doubled as many times as it has leading zero bits, is still below
-- 2^256, and once more is too often.
pub leading_zero_bits_bounds :
    (a : Sha256dHash)
    → IsArray 32 a
    → 0 < from_le_bytes a
    → (from_le_bytes a * 2 ^ leading_zero_bits a < 2 ^ 256)
      × (2 ^ 256 ≤ 2 * (from_le_bytes a * 2 ^ leading_zero_bits a))
leading_zero_bits_bounds a h pos =
    let (lo, hi, all) = leading_zero_bits-HasZeroBits a h in
    (omega (arith, lo, one-le-pow (leading_zero_bits a) 2 (omega arith)), hi pos)
