-- ===== src/Stratum/Hex32/RoundTrip.antt =====
-- A number of 32 bits is read back from its text.
use native.Mathlib.Nat.{div-div-eq-div-mul, div-add-mod, pow-suc, one-le-pow, mul-le-mul_left}
use mac_solo_miner.Base.{
  ℕ, zero, suc, ◌+◌, ◌*◌, ◌/◌, ◌%◌, ◌^◌, ◌<◌, ◌≡◌, ap, ◌∙◌, arith, false, ltb, lt→ltb,
  if◌then◌else◌, ◌==◌, some, none,
}
use mac_solo_miner.BtcPrimitives.Hex.{digit, to_digit}
use mac_solo_miner.Stratum.Hex32.{digits, to_hex32, with_digit, parse_digits, from_hex32}

to_digit-digit : (d : ℕ) → d < 16 → to_digit (digit d) ≡ some d
to_digit-digit d h = ground arith

split_mod : (v p : ℕ) → 0 < p → v % (p * 16) ≡ (v / p % 16) * p + v % p
split_mod v p h =
    let whole : p * 16 * (v / p / 16) + v % (p * 16) ≡ v =
      ap (λ q. p * 16 * q + v % (p * 16)) (div-div-eq-div-mul v p 16) ∙ div-add-mod v (p * 16) in
    let digit_of : v / p ≡ 16 * (v / p / 16) + v / p % 16 = omega arith in
    omega (arith, whole, div-add-mod v p, ap (λ q. p * q) digit_of)

parse_digits-digits :
    (n acc v : ℕ)
    → acc * 16 ^ n + v % 16 ^ n < 2 ^ 32
    → parse_digits acc (digits n v) ≡ some (acc * 16 ^ n + v % 16 ^ n)
unfolding parse_digits digits
parse_digits-digits zero acc v h =
    let none_left : acc ≡ acc * 16 ^ 0 + v % 16 ^ 0 = omega arith in ap some none_left
parse_digits-digits (suc n) acc v h =
    let d : ℕ = v / 16 ^ n % 16 in
    let next : (16 * acc + d) * 16 ^ n + v % 16 ^ n ≡ acc * 16 ^ suc n + v % 16 ^ suc n = omega (
      arith,
      split_mod v (16 ^ n) (one-le-pow n 16 (omega arith)),
      ap (λ p. v % p) (pow-suc 16 n),
      ap (λ p. acc * p) (pow-suc 16 n),
    ) in
    let fits : 16 * acc + d < 2 ^ 32 =
      omega (arith, next, h, mul-le-mul_left (16 * acc + d) (one-le-pow n 16 (omega arith))) in
    ap
      (λ o. with_digit o (λ e.
        if ltb (16 * acc + e) (2 ^ 32) then parse_digits (16 * acc + e) (digits n v) else none))
      (to_digit-digit d (omega arith))
    ∙ rw (lt→ltb (16 * acc + d) (2 ^ 32) fits)
        (parse_digits-digits n (16 * acc + d) v (omega (arith, next, h)) ∙ ap some next)

-- A number of 32 bits is read back from its eight digits.
pub from_hex32-to_hex32 : (v : ℕ) → v < 2 ^ 32 → from_hex32 (to_hex32 v) ≡ some v
unfolding to_hex32 from_hex32 digits
from_hex32-to_hex32 v h =
    let whole : 0 * 16 ^ 8 + v % 16 ^ 8 ≡ v = omega arith in
    rw no_sign (parse_digits-digits 8 0 v (omega arith) ∙ ap some whole)
  where
    no_sign : (digit (v / 16 ^ 7 % 16) == 43) ≡ false
    no_sign = ground arith
