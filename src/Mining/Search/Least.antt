-- ===== src/Mining/Search/Least.antt =====
-- What a search finds: the first nonce of the range whose hash meets the target, if there is one,
-- and the least hash that it saw.
use mac_solo_miner.Base.{
  ℕ, zero, suc, ◌+◌, ◌-◌, ◌^◌, ◌≤◌, ◌<◌, ◌≡◌, refl, ap, ◌∙◌, subst, arith, Bool, true, false,
  Bool-cases, if◌then◌else◌, ltb, ltb→lt, ltb→ge, inl, inr, replicate, none, some,
}
use mac_solo_miner.Sha256d.Midstate.{HeaderHasher}
use mac_solo_miner.Sha256d.Midstate
use mac_solo_miner.BtcPrimitives.Hash.{Sha256dHash, is_below}
use mac_solo_miner.BtcPrimitives.Header.{BlockHeader, IsHeader}
use mac_solo_miner.BtcPrimitives.Header
use mac_solo_miner.BtcPrimitives.Header.Nonce.{hash_of_nonce}
use mac_solo_miner.BtcPrimitives.Target.{Target, is_met_by}
use mac_solo_miner.Mining.Search.{SearchResult, try_from, search}

-- The two ways that a search over `count` nonces from `first` on can end, where `f` gives the hash
-- of a nonce: nothing meets the target, or the first nonce that does is the solution.
pub data Outcome (f : ℕ → Sha256dHash) (target : Target) (first count : ℕ) (r : SearchResult)
    : Type 0 where
  exhausted :
      r.solution ≡ none
      → r.hashes ≡ count
      → ((k : ℕ) → first ≤ k → k < first + count → is_met_by target (f k) ≡ false)
      → Outcome f target first count r
  found :
      (n : ℕ)
      → first ≤ n
      → n < first + count
      → r.solution ≡ some (record { nonce = n; hash = f n })
      → is_met_by target (f n) ≡ true
      → r.hashes ≡ suc n - first
      → ((k : ℕ) → first ≤ k → k < n → is_met_by target (f k) ≡ false)
      → Outcome f target first count r

module _ (hasher : HeaderHasher) (target : Target) where
  -- The hash of a nonce, as the loop takes it.
  abbrev f : ℕ → Sha256dHash
  f nonce = Midstate.hash hasher nonce

  -- All nonces from `first` up to `nonce` were tried, and none was a solution.
  Refused : ℕ → ℕ → Type 0
  Refused first nonce = (k : ℕ) → first ≤ k → k < nonce → is_met_by target (f k) ≡ false

  Refused-suc :
      (first nonce : ℕ)
      → Refused first nonce
      → is_met_by target (f nonce) ≡ false
      → Refused first (suc nonce)
  unfolding Refused
  Refused-suc first nonce before this k low high = elim (Bool-cases (ltb k nonce)) [
    | inl less ↦ before k low (ltb→lt k nonce less)
    | inr same ↦
        let e : nonce ≡ k = omega (arith, ltb→ge k nonce same) in
        subst (λ m. is_met_by target (f m) ≡ false) e this
  ]

  try_from-Outcome :
      (first left nonce hashes best_nonce : ℕ) (best : Sha256dHash)
      → first ≤ nonce
      → hashes ≡ nonce - first
      → Refused first nonce
      → Outcome f target first
          (left + hashes)
          (try_from hasher target left nonce hashes best best_nonce)
  unfolding try_from Refused
  try_from-Outcome first zero nonce hashes best_nonce best h e before =
      exhausted refl (omega arith) (λ k low high. before k low (omega arith))
  try_from-Outcome first (suc left) nonce hashes best_nonce best h e before =
      elim (Bool-cases (is_met_by target (f nonce))) [
        | inl met ↦
            rw met
              (found nonce h (omega arith) refl met (omega arith) (λ k low high. before k low high))
        | inr missed ↦
            let count : left + (hashes + 1) ≡ suc left + hashes = omega arith in
            let closer : Bool = is_below (f nonce) best in
            rw missed (
              subst
                (λ n. Outcome f target first n (
                  try_from hasher target left (suc nonce) (hashes + 1)
                    (if closer then f nonce else best) (if closer then nonce else best_nonce)))
                count
                (try_from-Outcome first left (suc nonce) (hashes + 1)
                  (if closer then nonce else best_nonce) (if closer then f nonce else best)
                  (omega arith) (omega arith) (Refused-suc first nonce before missed)))
      ]

-- What holds of the hashes holds of those that agree with them on the range.
Outcome-agree :
    (f g : ℕ → Sha256dHash) (target : Target) (first count : ℕ) (r : SearchResult)
    → ((k : ℕ) → k < first + count → f k ≡ g k)
    → Outcome f target first count r
    → Outcome g target first count r
Outcome-agree f g target first count r same (exhausted s c all) =
    exhausted s c
      (λ k low high. subst (λ h. is_met_by target h ≡ false) (same k high) (all k low high))
Outcome-agree f g target first count r same (found n low high s met c all) =
    found n low high (s ∙ ap (λ h. some (record { nonce = n; hash = h })) (same n high))
      (subst (λ h. is_met_by target h ≡ true) (same n high) met) c
      (λ k l u.
        let inside : k < first + count = omega arith in
        subst (λ h. is_met_by target h ≡ false) (same k inside) (all k l u))

-- A search over the nonces from `first` to `last` ends with the first of them whose header meets
-- the target as the solution, or with none where no header does; the hashes are counted.
pub search-Outcome :
    (header : BlockHeader) (target : Target) (first last : ℕ)
    → IsHeader header
    → first ≤ last
    → last < 2 ^ 32
    → Outcome
        (λ k. Header.hash (record header { nonce = k }))
        target
        first
        (suc last - first)
        (search header target first last)
unfolding search Refused
search-Outcome header target first last valid order fits =
    let size : (suc last - first) + 0 ≡ suc last - first = omega arith in
    Outcome-agree _ _ target first (suc last - first) (search header target first last)
      (λ k h. hash_of_nonce header k valid (omega arith))
      (subst
        (λ n.
          Outcome (f (Midstate.new (Header.serialize header)) target) target first n
            (search header target first last))
        size
        (try_from-Outcome (Midstate.new (Header.serialize header)) target first (suc last - first)
          first 0 0 (replicate 32 0xFF) (omega arith) (omega arith)
          (λ k low high. absurd (omega arith))))
