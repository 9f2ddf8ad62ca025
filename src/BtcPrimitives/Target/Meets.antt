-- ===== src/BtcPrimitives/Target/Meets.antt =====
-- The win condition of mining: the hash, as a 256-bit number, is at most the target.
use Prim.Native.Nat.{compare, Ordering}
use mac_solo_miner.Base.{
  ℕ, suc, ◌+◌, ◌-◌, ◌*◌, ◌^◌, ◌≤◌, ◌≡◌, refl, sym, ap, ap₂, ◌∙◌, arith, Bool, true, false, leb,
  leb→le, subst₂, List, [], ◌∷◌, ◌++◌, reverse, append-nil, append_assoc, length, length-append,
  length-reverse, get_or, get_or-append_at, IsArray, IsByte, All-reverse, from_le_bytes, be_value,
  from_be_bytes, from_be_bytes-be_value, lex_cmp, lex_cmp-compare,
}
use mac_solo_miner.BtcPrimitives.Hash.{Sha256dHash, count_leading}
use mac_solo_miner.BtcPrimitives.Hash
use mac_solo_miner.BtcPrimitives.Hash.Order.{le_of_reverse}
use mac_solo_miner.BtcPrimitives.Hash.ZeroBits.{
  HasZeroBits, leading_zero_bits-HasZeroBits, count_leading-HasZeroBits,
}
use mac_solo_miner.BtcPrimitives.Target.{Target, meets_from, is_met_by, leading_zero_bits}
use native.Mathlib.Decide.{dec_le, dec_lt}
use native.Mathlib.Nat.{pow-suc, one-le-pow, pow-le-pow_right, mul-le-mul_left, mul-le-mul_right}
use mathlib.Core.List.{reverse-cons, reverse-reverse}

abbrev not_above : Ordering → Bool
not_above Ordering.gt = false
not_above _ = true

-- The loop where `ts` and `hs` are what it has not compared, most significant byte first.
meets_from-lex_cmp :
    (hs ts target bytes before after : List ℕ) (i : ℕ)
    → length hs ≡ length ts
    → i + length ts ≡ 32
    → length before ≡ i
    → target ≡ before ++ ts
    → bytes ≡ reverse hs ++ after
    → meets_from (length ts) i target bytes ≡ not_above (lex_cmp hs ts)
unfolding meets_from lex_cmp
meets_from-lex_cmp [] [] target bytes before after i e n b et eb = refl
meets_from-lex_cmp [] (t ∷ ts) target bytes before after i e n b et eb = absurd (omega arith)
meets_from-lex_cmp (h ∷ hs) [] target bytes before after i e n b et eb = absurd (omega arith)
meets_from-lex_cmp (h ∷ hs) (t ∷ ts) target bytes before after i e n b et eb = ground (
  arith,
  hash_at,
  target_at,
  meets_from-lex_cmp hs ts target bytes (before ++ t ∷ []) (h ∷ after) (suc i) (omega arith)
      (omega arith) (omega (arith, length-append before (t ∷ [])))
      (et ∙ sym (append_assoc before (t ∷ []) ts)) bytes_eq,
)
  where
    bytes_eq : bytes ≡ reverse hs ++ h ∷ after
    bytes_eq =
        eb ∙ ap (λ l. l ++ after) (reverse-cons h hs) ∙ append_assoc (reverse hs) (h ∷ []) after

    hash_at : get_or bytes (31 - i) 0 ≡ h
    hash_at =
        ap₂ (λ l k. get_or l k 0) bytes_eq (omega (arith, length-reverse hs))
        ∙ get_or-append_at (reverse hs) after h 0

    target_at : get_or target i 0 ≡ t
    target_at = ap₂ (λ l k. get_or l k 0) et (sym b) ∙ get_or-append_at before ts t 0

-- A hash meets a target exactly when its number is at most the target's.
pub is_met_by-leb :
    (target : Target) (hash : Sha256dHash)
    → IsArray 32 target
    → IsArray 32 hash
    → is_met_by target hash ≡ leb (from_le_bytes hash) (from_be_bytes target)
unfolding is_met_by
is_met_by-leb target hash ht hh =
    ap (λ n. meets_from n 0 target hash) (sym ht.0)
    ∙ meets_from-lex_cmp (reverse hash) target target hash [] [] 0 same (omega (arith, ht.0)) refl
        refl (sym (append-nil (reverse (reverse hash)) ∙ reverse-reverse hash))
    ∙ ap not_above (lex_cmp-compare (reverse hash) target same (All-reverse IsByte hash hh.1) ht.1)
    ∙ rw (le_of_reverse hash, from_be_bytes-be_value target)
        (flip (be_value (reverse hash)) (be_value target))
  where
    same : length (reverse hash) ≡ length target
    same = length-reverse hash ∙ hh.0 ∙ sym ht.0

    flip : (a b : ℕ) → not_above (compare a b) ≡ leb a b
    flip a b = ground arith

target_bits :
    (target : Target)
    → IsArray 32 target
    → HasZeroBits (2 ^ 256) (from_be_bytes target) (leading_zero_bits target)
unfolding leading_zero_bits
target_bits target h =
    subst₂ (λ n v. HasZeroBits (256 ^ n) v (count_leading 0 target)) h.0
      (sym (from_be_bytes-be_value target)) (count_leading-HasZeroBits target h.1)

more_zero_bits : (m t h zt zh : ℕ) → HasZeroBits m t zt → HasZeroBits m h zh → h ≤ t → zt ≤ zh
more_zero_bits m t h zt zh bt bh le = elim (dec_le zt zh) [
  | yes p ↦ p
  | no q ↦ absurd (too_large q)
]
  where
    -- Between `2 ^ zh` and `2 ^ zt` there is a factor of two at least.
    grows : ¬ (zt ≤ zh) → 2 * 2 ^ zh ≤ 2 ^ zt
    grows q = omega (
      arith,
      pow-suc 2 zh,
      pow-le-pow_right {n = 2} (omega arith) {i = suc zh} {j = zt} (omega arith),
    )

    too_large : ¬ (zt ≤ zh) → ⊥
    too_large q = elim (dec_lt 0 h) [
      | yes pos ↦ omega (
        arith,
        bt.0,
        bh.1 pos,
        mul-le-mul_left h (grows q),
        mul-le-mul_right (2 ^ zt) le,
        one-le-pow zt 2 (omega arith),
      )
      | no none_set ↦
          omega (arith, bt.0, bh.2 (omega arith), grows q, one-le-pow zh 2 (omega arith))
    ]

-- A hash that meets a target has at least as many leading zero bits as the target.
pub leading_zero_bits-le :
    (target : Target) (hash : Sha256dHash)
    → IsArray 32 target
    → IsArray 32 hash
    → is_met_by target hash ≡ true
    → leading_zero_bits target ≤ Hash.leading_zero_bits hash
leading_zero_bits-le target hash ht hh met =
    more_zero_bits (2 ^ 256) (from_be_bytes target) (from_le_bytes hash) (leading_zero_bits target)
      (Hash.leading_zero_bits hash) (target_bits target ht) (leading_zero_bits-HasZeroBits hash hh)
      (leb→le _ _ (sym (is_met_by-leb target hash ht hh) ∙ met))
