-- ===== src/MacMiner/Stats/Records.antt =====
-- What the counters say after any sequence of batches.
use native.Mathlib.Nat.{
  pow-le-pow_right, le_of_mul-le-mul_right, mul-le-mul_left, mul-le-mul_right, one-le-pow, pow-suc,
}
use mac_solo_miner.Base.{
  ℕ, suc, ◌+◌, ◌*◌, ◌%◌, ◌^◌, ◌≤◌, ◌<◌, ◌≡◌, refl, sym, ap, ◌∙◌, arith, true, Bool-cases,
  if◌then◌else◌, lt→ltb, leb, leb→gt, inl, inr, List, [], ◌∷◌, ◌==◌, ==→eq, eq_refl, replicate, All,
  IsArray, IsByte, All-replicate, from_le_bytes,
}
use mac_solo_miner.BtcPrimitives.Hash.{
  Sha256dHash, is_below, leading_zero_bits, count_leading, leading_zeros,
}
use mac_solo_miner.BtcPrimitives.Hash.Order.{is_below-ltb}
use mac_solo_miner.BtcPrimitives.Hash.ZeroBits.{HasZeroBits, leading_zero_bits-HasZeroBits}
use mac_solo_miner.MacMiner.Worker.{Report}
use mac_solo_miner.MacMiner.Stats.{Stats, new, replace_best, add_hashes, record_batch, best}

fewer-lt : (a b y z : ℕ) → HasZeroBits (2 ^ 256) a y → HasZeroBits (2 ^ 256) b z → z < y → a < b
fewer-lt a b y z (lo, _, _) (_, hi, all) h = elim (Bool-cases (b == 0)) [
  | inl none_set ↦
      absurd
        (omega (arith, twice, lo, all (==→eq b 0 none_set), one-le-pow z 2 (omega arith), least))
  | inr some_set ↦ strict (
      le_of_mul-le-mul_right {m = a + 1} {n = b} {k = 2 * 2 ^ z}
        (omega (arith, lo, mul-le-mul_left (a + 1) twice, hi (ground (arith, eq_refl b))))
        (omega (arith, one-le-pow z 2 (omega arith))))
]
  where
    strict : a + 1 ≤ b → a < b
    strict le = omega arith

    twice : 2 * 2 ^ z ≤ 2 ^ y
    twice = omega (arith, pow-suc 2 z, pow-le-pow_right {n = 2} (omega arith) {i = suc z} {j = y} h)

    least : 1 * 2 ^ y ≤ (a + 1) * 2 ^ y
    least = mul-le-mul_right (2 ^ y) (omega arith)

-- A hash with more zero bits is lower.
is_below_more :
    (a b : Sha256dHash)
    → IsArray 32 a
    → IsArray 32 b
    → leading_zero_bits b < leading_zero_bits a
    → is_below a b ≡ true
is_below_more a b ha hb h =
    is_below-ltb a b ha hb
    ∙ lt→ltb _ _ (
        fewer-lt (from_le_bytes a) (from_le_bytes b) (leading_zero_bits a) (leading_zero_bits b)
          (leading_zero_bits-HasZeroBits a ha) (leading_zero_bits-HasZeroBits b hb) h)

unfoldable pub record_each : List Report → Stats → Stats
record_each [] self = self
record_each (report ∷ reports) self =
    record_each reports (record_batch report.hashes report.best self)

-- The hashes of the batches, and the most zero bits that one of them had or `most`.
abbrev pub sum : List Report → ℕ
sum [] = 0
sum (report ∷ reports) = report.hashes + sum reports

abbrev pub most_bits : List Report → ℕ → ℕ
most_bits [] most = most
most_bits (report ∷ reports) most =
    let bits = leading_zero_bits report.best in
    most_bits reports (if leb bits most then most else bits)

IsKept : Stats → Type 0
IsKept s = IsArray 32 s.best_hash × (s.best_zero_bits ≡ leading_zero_bits s.best_hash)

abbrev IsBatch : Report → Type 0
IsBatch report = IsArray 32 report.best

Recorded : ℕ → ℕ → Stats → Type 0
Recorded hashes bits s = (s.hashes ≡ hashes % 2 ^ 64) × (s.best_zero_bits ≡ bits) × IsKept s

record_batch-Recorded :
    (count : ℕ) (h : Sha256dHash) (s : Stats) (hashes : ℕ)
    → IsArray 32 h
    → s.hashes ≡ hashes % 2 ^ 64
    → IsKept s
    → Recorded
        (hashes + count)
        (if leb (leading_zero_bits h) s.best_zero_bits
          then s.best_zero_bits
          else leading_zero_bits h)
        (record_batch count h s)
unfolding Recorded IsKept record_batch add_hashes replace_best
record_batch-Recorded count h s hashes valid total (array, same) =
    elim (Bool-cases (leb (leading_zero_bits h) s.best_zero_bits)) [
      | inl few ↦ rw few (omega arith, refl, (array, same))
      | inr more ↦
          let below : is_below h s.best_hash ≡ true =
            is_below_more h s.best_hash valid array
              (omega (arith, same, leb→gt (leading_zero_bits h) s.best_zero_bits more)) in
          rw (more, below) (omega arith, refl, (valid, refl))
    ]

record_each-Recorded :
    (reports : List Report) (s : Stats) (hashes : ℕ)
    → All IsBatch reports
    → s.hashes ≡ hashes % 2 ^ 64
    → IsKept s
    → Recorded (hashes + sum reports) (most_bits reports s.best_zero_bits) (record_each reports s)
unfolding record_each Recorded
record_each-Recorded [] s hashes valid total kept = (omega arith, refl, kept)
record_each-Recorded (report ∷ reports) s hashes valid total kept =
    let (counted, bits, still) =
      record_batch-Recorded report.hashes report.best s hashes valid.0 total kept in
    let after : Stats = record_batch report.hashes report.best s in
    let (sums, most, last) =
      record_each-Recorded reports after (hashes + report.hashes) valid.1 counted still in
    (sums ∙ omega arith, most ∙ ap (most_bits reports) bits, last)

-- After any sequence of batches from the start, the counter is the sum of their hashes modulo
-- 2^64; the zero bits kept are the most that the best hash of a batch had; and the hash that is
-- kept has that many.
pub record_each-best :
    (reports : List Report)
    → All (λ r. IsArray 32 r.best) reports
    → ((record_each reports new).hashes ≡ sum reports % 2 ^ 64)
      × ((record_each reports new).best_zero_bits ≡ most_bits reports 0)
      × ((best (record_each reports new)).1 ≡ most_bits reports 0)
unfolding new best Recorded IsKept
record_each-best reports valid =
    let r : Recorded (0 + sum reports) (most_bits reports 0) (record_each reports new) =
      record_each-Recorded reports new 0 valid refl
        ((refl, All-replicate IsByte 32 0xFF (omega arith)), sym no_bits) in
    let none_before : (0 + sum reports) % 2 ^ 64 ≡ sum reports % 2 ^ 64 = omega arith in
    (r.0 ∙ none_before, r.1, sym r.2.1 ∙ r.1)
  where
    no_bits : leading_zero_bits (replicate 32 0xFF) ≡ 0
    no_bits = unfold leading_zero_bits count_leading leading_zeros in refl
