-- ===== src/Mining/Search/Attained.antt =====
-- Where the best hash of a search comes from.
use mac_solo_miner.Base.{
  ℕ, zero, suc, ◌+◌, ◌-◌, ◌^◌, ◌≤◌, ◌<◌, ◌≡◌, ◌⊎◌, refl, ◌∙◌, subst, arith, Bool-cases,
  if◌then◌else◌, inl, inr, replicate,
}
use mac_solo_miner.Sha256d.Midstate.{HeaderHasher}
use mac_solo_miner.Sha256d.Midstate
use mac_solo_miner.BtcPrimitives.Hash.{Sha256dHash, is_below}
use mac_solo_miner.BtcPrimitives.Header.{BlockHeader, IsHeader}
use mac_solo_miner.BtcPrimitives.Header
use mac_solo_miner.BtcPrimitives.Header.Nonce.{hash_of_nonce}
use mac_solo_miner.BtcPrimitives.Target.{Target, is_met_by}
use mac_solo_miner.Mining.Search.{try_from, search}

module _ (hasher : HeaderHasher) (target : Target) where
  abbrev f : ℕ → Sha256dHash
  f nonce = Midstate.hash hasher nonce

  -- The best hash is that of the best nonce, one of those from `first` up to `nonce`, or still the
  -- greatest hash of all.
  Attained : ℕ → ℕ → Sha256dHash → ℕ → Type 0
  Attained first nonce best best_nonce =
      (best ≡ replicate 32 0xFF)
      ⊎ ((first ≤ best_nonce) × (best_nonce < nonce) × (best ≡ f best_nonce))

  Attained-suc :
      (first nonce best_nonce : ℕ) (best : Sha256dHash)
      → first ≤ nonce
      → Attained first nonce best best_nonce
      → Attained first
          (suc nonce)
          (if is_below (f nonce) best then f nonce else best)
          (if is_below (f nonce) best then nonce else best_nonce)
  unfolding Attained
  Attained-suc first nonce best_nonce best h before = elim (Bool-cases (is_below (f nonce) best)) [
    | inl closer ↦ rw closer (inr (h, omega arith, refl))
    | inr farther ↦ rw farther (elim before [
      | inl greatest ↦ inl greatest
      | inr (low, high, same) ↦ inr (low, omega (arith, high), same)
    ])
  ]

  try_from-Attained :
      (first left nonce hashes best_nonce : ℕ) (best : Sha256dHash)
      → first ≤ nonce
      → hashes ≡ nonce - first
      → Attained first nonce best best_nonce
      → Attained first
          (first + (try_from hasher target left nonce hashes best best_nonce).hashes)
          (try_from hasher target left nonce hashes best best_nonce).best
          (try_from hasher target left nonce hashes best best_nonce).best_nonce
  unfolding try_from Attained
  try_from-Attained first zero nonce hashes best_nonce best h e before =
      let tried : nonce ≡ first + hashes = omega arith in
      subst (λ n. Attained first n best best_nonce) tried before
  try_from-Attained first (suc left) nonce hashes best_nonce best h e before =
      elim (Bool-cases (is_met_by target (f nonce))) [
        | inl met ↦ rw met (inr (h, omega arith, refl))
        | inr missed ↦ rw missed (
            try_from-Attained first left (suc nonce) (hashes + 1)
              (if is_below (f nonce) best then nonce else best_nonce)
              (if is_below (f nonce) best then f nonce else best) (omega arith) (omega arith)
              (Attained-suc first nonce best_nonce best h before))
      ]

  try_from_bound :
      (left nonce hashes best_nonce : ℕ) (best : Sha256dHash)
      → (try_from hasher target left nonce hashes best best_nonce).hashes ≤ left + hashes
  unfolding try_from
  try_from_bound zero nonce hashes best_nonce best = omega arith
  try_from_bound (suc left) nonce hashes best_nonce best =
      elim (Bool-cases (is_met_by target (f nonce))) [
        | inl met ↦ rw met (omega arith)
        | inr missed ↦ rw missed (
            omega (
              arith,
              try_from_bound left (suc nonce) (hashes + 1)
                  (if is_below (f nonce) best then nonce else best_nonce)
                  (if is_below (f nonce) best then f nonce else best),
            ))
      ]

pub search_attained :
    (header : BlockHeader) (target : Target) (first last : ℕ)
    → IsHeader header
    → first ≤ last
    → last < 2 ^ 32
    → ((search header target first last).best ≡ replicate 32 0xFF)
      ⊎ ((first ≤ (search header target first last).best_nonce)
          × ((search header target first last).best_nonce
              < first + (search header target first last).hashes)
          × ((search header target first last).best
              ≡ Header.hash
                  (record header { nonce = (search header target first last).best_nonce })))
unfolding search Attained
search_attained header target first last valid order fits =
    let hasher = Midstate.new (Header.serialize header) in
    elim (try_from-Attained hasher target first (suc last - first) first 0 0 (replicate 32 0xFF)
      (omega arith) (omega arith) (inl refl)) [
        | inl greatest ↦ inl greatest
        | inr (low, high, same) ↦ inr (
          low,
          high,
          same
              ∙ hash_of_nonce header (search header target first last).best_nonce valid (
                  omega (
                    arith,
                    high,
                    try_from_bound hasher target (suc last - first) first 0 0 (replicate 32 0xFF),
                  )),
        )
      ]
