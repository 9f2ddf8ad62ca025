-- ===== src/Base/BigEndian.antt =====
-- Big-endian numbers: their value, and their order as the order of their digits.
use Prim.Native.Nat.{ℕ, suc, ◌+◌, ◌*◌, ◌^◌, ◌≤◌, ◌<◌, compare, Ordering}
use mathlib.Core.Path.{◌≡◌, refl, ap, subst, ◌∙◌}
use mathlib.Core.List.{List, [], ◌∷◌, ◌++◌, reverse, reverse-cons}
use native.Mathlib.Omega.{arith}
use native.Mathlib.Nat.{pow-suc}
use mac_solo_miner.Base.Lists.{length, length-reverse}
use mac_solo_miner.Base.Bytes.{IsBytes, from_le_bytes, from_be_bytes}

-- The digits to the base 256, most significant first.
unfoldable pub be_value : List ℕ → ℕ
be_value [] = 0
be_value (b ∷ bs) = b * 256 ^ length bs + be_value bs

pub be_value-lt : (bs : List ℕ) → IsBytes bs → be_value bs < 256 ^ length bs
unfolding be_value
be_value-lt [] h = omega arith
be_value-lt (b ∷ bs) h = grind (arith, pow-suc 256 (length bs), be_value-lt bs h.1)

from_le_bytes-snoc :
    (xs : List ℕ) (x : ℕ) → from_le_bytes (xs ++ x ∷ []) ≡ x * 256 ^ length xs + from_le_bytes xs
unfolding from_le_bytes
from_le_bytes-snoc [] x = omega arith
from_le_bytes-snoc (y ∷ xs) x =
    omega (arith, from_le_bytes-snoc xs x, ap (λ p. x * p) (pow-suc 256 (length xs)))

pub from_le_bytes-reverse : (bs : List ℕ) → from_le_bytes (reverse bs) ≡ be_value bs
unfolding be_value from_le_bytes
from_le_bytes-reverse [] = refl
from_le_bytes-reverse (b ∷ bs) =
    ap from_le_bytes (reverse-cons b bs)
    ∙ from_le_bytes-snoc (reverse bs) b
    ∙ omega (arith, from_le_bytes-reverse bs, ap (λ n. b * 256 ^ n) (length-reverse bs))

pub from_be_bytes-be_value : (bs : List ℕ) → from_be_bytes bs ≡ be_value bs
unfolding from_be_bytes
from_be_bytes-be_value bs = from_le_bytes-reverse bs

-- The first comparison, and the second one where the first finds no difference.
abbrev pub then_cmp : Ordering → Ordering → Ordering
then_cmp Ordering.lt r = Ordering.lt
then_cmp Ordering.eq r = r
then_cmp Ordering.gt r = Ordering.gt

-- The first digits that differ decide.
unfoldable pub lex_cmp : List ℕ → List ℕ → Ordering
lex_cmp [] ys = Ordering.eq
lex_cmp (x ∷ xs) [] = Ordering.eq
lex_cmp (x ∷ xs) (y ∷ ys) = then_cmp (compare x y) (lex_cmp xs ys)

digit_lt : (x y p a b : ℕ) → a < p → x < y → x * p + a < y * p + b
digit_lt x y p a b h lt = grind (arith, times (suc x) y p lt)
  where
    times : (m n k : ℕ) → m ≤ n → m * k ≤ n * k
    times m n k h = grind arith

compare_digits :
    (x y p a b : ℕ) (r : Ordering)
    → a < p
    → b < p
    → r ≡ compare a b
    → then_cmp (compare x y) r ≡ compare (x * p + a) (y * p + b)
compare_digits x y p a b r ha hb e = ground (arith, digit_lt x y p a b, digit_lt y x p b a)

pub lex_cmp-compare :
    (xs ys : List ℕ)
    → length xs ≡ length ys
    → IsBytes xs
    → IsBytes ys
    → lex_cmp xs ys ≡ compare (be_value xs) (be_value ys)
unfolding lex_cmp be_value
lex_cmp-compare [] [] e hx hy = refl
lex_cmp-compare [] (y ∷ ys) e hx hy = absurd (omega arith)
lex_cmp-compare (x ∷ xs) [] e hx hy = absurd (omega arith)
lex_cmp-compare (x ∷ xs) (y ∷ ys) e hx hy =
    let same : length xs ≡ length ys = omega arith in
    rw same (
      compare_digits x y (256 ^ length ys) (be_value xs) (be_value ys) (lex_cmp xs ys)
        (subst (λ n. be_value xs < 256 ^ n) same (be_value-lt xs hx.1)) (be_value-lt ys hy.1)
        (lex_cmp-compare xs ys same hx.1 hy.1))
