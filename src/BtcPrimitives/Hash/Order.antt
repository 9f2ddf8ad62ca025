-- ===== src/BtcPrimitives/Hash/Order.antt =====
-- The order of hashes is that of the 256-bit numbers, least significant byte first.
use Prim.Native.Nat.{compare}
use mac_solo_miner.Base.{
  ℕ, zero, suc, ◌≤◌, ◌≡◌, refl, sym, ap, ap₂, ◌∙◌, arith, ltb, List, [], ◌∷◌, ◌++◌, reverse, length,
  length-reverse, get_or, get_or-append_at, get_or-append_left, IsArray, IsByte, All-reverse,
  from_le_bytes, from_le_bytes-reverse, be_value, then_cmp, lex_cmp, lex_cmp-compare,
}
use mac_solo_miner.BtcPrimitives.Hash.{Sha256dHash, cmp_down, numeric_cmp, is_below}
use mathlib.Core.List.{reverse-cons, reverse-reverse}

-- Bytes past the index do not matter.
cmp_down-append :
    (n : ℕ) (a b c d : List ℕ)
    → n ≤ length a
    → n ≤ length b
    → cmp_down n (a ++ c) (b ++ d) ≡ cmp_down n a b
unfolding cmp_down
cmp_down-append zero a b c d ha hb = refl
cmp_down-append (suc n) a b c d ha hb =
    ap₂ then_cmp (ap₂ compare (get_or-append_left a c n 0 ha) (get_or-append_left b d n 0 hb))
      (cmp_down-append n a b c d (omega arith) (omega arith))

cmp_down-lex_cmp :
    (xs ys : List ℕ)
    → length xs ≡ length ys
    → cmp_down (length xs) (reverse xs) (reverse ys) ≡ lex_cmp xs ys
unfolding cmp_down lex_cmp
cmp_down-lex_cmp [] ys e = refl
cmp_down-lex_cmp (x ∷ xs) [] e = absurd (omega arith)
cmp_down-lex_cmp (x ∷ xs) (y ∷ ys) e =
    rw (reverse-cons x xs, reverse-cons y ys)
      (ap₂ then_cmp
        (ap₂ compare (last_of x xs (length xs) refl) (last_of y ys (length xs) (omega arith)))
        (cmp_down-append (length xs) (reverse xs) (reverse ys) (x ∷ []) (y ∷ [])
            (omega (arith, length-reverse xs)) (omega (arith, length-reverse ys))
          ∙ cmp_down-lex_cmp xs ys (omega arith)))
  where
    last_of : (z : ℕ) (zs : List ℕ) (n : ℕ) → n ≡ length zs → get_or (reverse zs ++ z ∷ []) n 0 ≡ z
    last_of z zs n h =
        ap (λ i. get_or (reverse zs ++ z ∷ []) i 0) (h ∙ sym (length-reverse zs))
        ∙ get_or-append_at (reverse zs) [] z 0

pub le_of_reverse : (a : List ℕ) → from_le_bytes a ≡ be_value (reverse a)
le_of_reverse a = ap from_le_bytes (sym (reverse-reverse a)) ∙ from_le_bytes-reverse (reverse a)

-- Comparing two hashes compares the numbers that their bytes stand for.
pub numeric_cmp-compare :
    (a b : Sha256dHash)
    → IsArray 32 a
    → IsArray 32 b
    → numeric_cmp a b ≡ compare (from_le_bytes a) (from_le_bytes b)
unfolding numeric_cmp
numeric_cmp-compare a b ha hb =
    ap₂ (cmp_down 32) (sym (reverse-reverse a)) (sym (reverse-reverse b))
    ∙ ap (λ n. cmp_down n (reverse (reverse a)) (reverse (reverse b))) (sym size)
    ∙ cmp_down-lex_cmp (reverse a) (reverse b) same
    ∙ lex_cmp-compare (reverse a) (reverse b) same (All-reverse IsByte a ha.1)
        (All-reverse IsByte b hb.1)
    ∙ ap₂ compare (sym (le_of_reverse a)) (sym (le_of_reverse b))
  where
    size : length (reverse a) ≡ 32
    size = length-reverse a ∙ ha.0

    same : length (reverse a) ≡ length (reverse b)
    same = size ∙ sym (length-reverse b ∙ hb.0)

pub is_below-ltb :
    (a b : Sha256dHash)
    → IsArray 32 a
    → IsArray 32 b
    → is_below a b ≡ ltb (from_le_bytes a) (from_le_bytes b)
unfolding is_below
is_below-ltb a b ha hb = rw (numeric_cmp-compare a b ha hb, is_below)
