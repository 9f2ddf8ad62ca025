-- ===== src/Base/Xor.antt =====
-- Exclusive or: it is its own inverse, and keeps to the width of its operands.
use Prim.Native.Nat.{ℕ, zero, suc, ◌+◌, ◌*◌, ◌/◌, ◌%◌, ◌^◌, ◌≤◌, ◌<◌, digits, differ}
use Prim.Native.Nat.{bit_xor, bit_xor-bitwise}
use mathlib.Core.Path.{◌≡◌, refl, sym, ap, ap₂, ◌∙◌}
use native.Mathlib.Omega.{arith}
use native.Mathlib.Nat.{pow-suc}

-- What the native operation stands for, on its count of rounds.
abbrev rounds_xor : ℕ → ℕ → ℕ → ℕ
rounds_xor count a b = digits (λ rest. rest) differ count a b

rounds_xor-zero : (count b : ℕ) → rounds_xor count 0 b ≡ b
rounds_xor-zero zero b = refl
rounds_xor-zero (suc count) b = refl

-- More rounds than the number has digits change nothing.
rounds_enough :
    (a b less more : ℕ) → a ≤ less → less ≤ more → rounds_xor more a b ≡ rounds_xor less a b
rounds_enough zero b less more h k = rounds_xor-zero more b ∙ sym (rounds_xor-zero less b)
rounds_enough (suc a) b zero more h k = absurd (omega arith)
rounds_enough (suc a) b (suc less) zero h k = absurd (omega arith)
rounds_enough (suc a) b (suc less) (suc more) h k =
    let halves : rounds_xor more (suc a / 2) (b / 2) ≡ rounds_xor less (suc a / 2) (b / 2) =
      rounds_enough (suc a / 2) (b / 2) less more (omega arith) (omega arith) in
    ap (λ high. high * 2 + differ (suc a % 2) (b % 2)) halves

bit_xor_halves : (a b : ℕ) → bit_xor a b ≡ bit_xor (a / 2) (b / 2) * 2 + differ (a % 2) (b % 2)
bit_xor_halves zero b = omega (arith, bit_xor-bitwise 0 b, bit_xor-bitwise 0 (b / 2))
bit_xor_halves (suc a) b = omega (
  arith,
  bit_xor-bitwise (suc a) b,
  bit_xor-bitwise (suc a / 2) (b / 2),
  rounds_enough (suc a / 2) (b / 2) (suc a / 2) a (omega arith) (omega arith),
)

differ-lt : (x y : ℕ) → x < 2 → y < 2 → differ x y < 2
differ-lt zero y h k = k
differ-lt (suc x) zero h k = h
differ-lt (suc x) (suc y) h k = differ-lt x y (omega arith) (omega arith)

differ_twice : (x y : ℕ) → x < 2 → y < 2 → differ (differ x y) y ≡ x
differ_twice zero zero h k = refl
differ_twice zero (suc zero) h k = refl
differ_twice zero (suc (suc y)) h k = absurd (omega arith)
differ_twice (suc zero) zero h k = refl
differ_twice (suc zero) (suc zero) h k = refl
differ_twice (suc zero) (suc (suc y)) h k = absurd (omega arith)
differ_twice (suc (suc x)) y h k = absurd (omega arith)

twice_within : (n a b : ℕ) → a + b ≤ n → bit_xor (bit_xor a b) b ≡ a
twice_within zero a b h =
    let none_a : a ≡ 0 = omega arith in
    let none_b : b ≡ 0 = omega arith in
    ap₂ (λ x y. bit_xor (bit_xor x y) y) none_a none_b ∙ sym none_a
twice_within (suc n) a b h =
    let once : bit_xor a b ≡ bit_xor (a / 2) (b / 2) * 2 + differ (a % 2) (b % 2) =
      bit_xor_halves a b in
    let digit : differ (a % 2) (b % 2) < 2 =
      differ-lt (a % 2) (b % 2) (omega arith) (omega arith) in
    let high : bit_xor a b / 2 ≡ bit_xor (a / 2) (b / 2) = omega arith in
    let low : bit_xor a b % 2 ≡ differ (a % 2) (b % 2) = omega arith in
    bit_xor_halves (bit_xor a b) b
    ∙ ap₂ (λ x y. bit_xor x (b / 2) * 2 + differ y (b % 2)) high low
    ∙ ap₂ (λ x y. x * 2 + y) (twice_within n (a / 2) (b / 2) (omega arith))
        (differ_twice (a % 2) (b % 2) (omega arith) (omega arith))
    ∙ omega arith

pub bit_xor_twice : (a b : ℕ) → bit_xor (bit_xor a b) b ≡ a
bit_xor_twice a b = twice_within (a + b) a b (omega arith)

pub bit_xor-lt : (w a b : ℕ) → a < 2 ^ w → b < 2 ^ w → bit_xor a b < 2 ^ w
bit_xor-lt zero a b h k =
    let none_a : a ≡ 0 = omega arith in
    let none_b : b ≡ 0 = omega arith in
    let same : bit_xor a b ≡ 0 = ap₂ bit_xor none_a none_b in omega (arith, same)
bit_xor-lt (suc w) a b h k =
    let double : 2 ^ suc w ≡ 2 * 2 ^ w = omega (arith, pow-suc 2 w) in
    omega (
      arith,
      double,
      bit_xor_halves a b,
      differ-lt (a % 2) (b % 2) (omega arith) (omega arith),
      bit_xor-lt w (a / 2) (b / 2) (omega (arith, double)) (omega (arith, double)),
    )
