-- ===== src/Mining/Search/Best.antt =====
-- The best hash of a search: none that was tried is less, and it is the one of the best nonce.
use mac_solo_miner.Base.{
  ℕ, zero, suc, ◌+◌, ◌-◌, ◌^◌, ◌≤◌, ◌<◌, ◌≡◌, ◌⊎◌, refl, sym, ◌∙◌, subst, arith, true, false,
  Bool-cases, if◌then◌else◌, leb→le, leb→gt, ltb, ltb→lt, ltb→ge, inl, inr, replicate, IsArray,
  IsByte, All-replicate, from_le_bytes, from_be_bytes,
}
use mac_solo_miner.Sha256d.Midstate.{HeaderHasher}
use mac_solo_miner.Sha256d.Midstate
use mac_solo_miner.Sha256d.Midstate.Laws
use mac_solo_miner.BtcPrimitives.Hash.{Sha256dHash, is_below}
use mac_solo_miner.BtcPrimitives.Hash.Order.{is_below-ltb}
use mac_solo_miner.BtcPrimitives.Header.{BlockHeader, IsHeader}
use mac_solo_miner.BtcPrimitives.Header
use mac_solo_miner.BtcPrimitives.Header.Nonce.{hash_of_nonce}
use mac_solo_miner.BtcPrimitives.Target.{Target, is_met_by}
use mac_solo_miner.BtcPrimitives.Target.Meets.{is_met_by-leb}
use mac_solo_miner.Mining.Search.{try_from, search}
use mac_solo_miner.Mining.Search.Attained.{search_attained}

module _ (hasher : HeaderHasher) (target : Target) (valid : IsArray 32 target) where
  abbrev f : ℕ → Sha256dHash
  f nonce = Midstate.hash hasher nonce

  met-le : (k : ℕ) → is_met_by target (f k) ≡ true → from_le_bytes (f k) ≤ from_be_bytes target
  met-le k h = leb→le _ _ (sym (is_met_by-leb target (f k) valid (Laws.hash-IsArray hasher k)) ∙ h)

  missed-lt : (k : ℕ) → is_met_by target (f k) ≡ false → from_be_bytes target < from_le_bytes (f k)
  missed-lt k h =
      leb→gt _ _ (sym (is_met_by-leb target (f k) valid (Laws.hash-IsArray hasher k)) ∙ h)

  -- What is known of the nonces from `first` up to `nonce`.
  record Tried (first nonce : ℕ) (best : Sha256dHash) : Type 0 where
    pub best_fits : IsArray 32 best
    pub best_least : (k : ℕ) → first ≤ k → k < nonce → from_le_bytes best ≤ from_le_bytes (f k)
    pub all_above : (k : ℕ) → first ≤ k → k < nonce → from_be_bytes target < from_le_bytes (f k)

  Tried-suc :
      (first nonce : ℕ) (best : Sha256dHash)
      → Tried first nonce best
      → is_met_by target (f nonce) ≡ false
      → Tried first (suc nonce) (if is_below (f nonce) best then f nonce else best)
  Tried-suc first nonce best tried missed = elim (Bool-cases (is_below (f nonce) best)) [
    | inl closer ↦
        let less : from_le_bytes (f nonce) < from_le_bytes best = ltb→lt _ _ (sym order ∙ closer) in
        rw closer (record {
          best_fits = Laws.hash-IsArray hasher nonce;
          best_least =
              up_to (λ v. from_le_bytes (f nonce) ≤ v)
                (λ k low high. omega (arith, less, tried.best_least k low high)) (omega arith);
          all_above = above;
        })
    | inr farther ↦
        let more : from_le_bytes best ≤ from_le_bytes (f nonce) =
          ltb→ge _ _ (sym order ∙ farther) in
        rw farther (record {
          best_fits = tried.best_fits;
          best_least = up_to (λ v. from_le_bytes best ≤ v) tried.best_least more;
          all_above = above;
        })
  ]
    where
      order : is_below (f nonce) best ≡ ltb (from_le_bytes (f nonce)) (from_le_bytes best)
      order = is_below-ltb (f nonce) best (Laws.hash-IsArray hasher nonce) tried.best_fits

      -- One more nonce.
      up_to :
          (P : ℕ → Type 0)
          → ((k : ℕ) → first ≤ k → k < nonce → P (from_le_bytes (f k)))
          → P (from_le_bytes (f nonce))
          → (k : ℕ) → first ≤ k
          → k < suc nonce
          → P (from_le_bytes (f k))
      up_to P before now k low high = elim (Bool-cases (ltb k nonce)) [
        | inl less ↦ before k low (ltb→lt k nonce less)
        | inr same ↦
            let e : nonce ≡ k = omega (arith, ltb→ge k nonce same) in
            subst (λ m. P (from_le_bytes (f m))) e now
      ]

      above : (k : ℕ) → first ≤ k → k < suc nonce → from_be_bytes target < from_le_bytes (f k)
      above = up_to (λ v. from_be_bytes target < v) tried.all_above (missed-lt nonce missed)

  -- A solution is the least hash: those before it were above the target.
  met_least :
      (first nonce hashes k : ℕ) (best : Sha256dHash)
      → Tried first nonce best
      → is_met_by target (f nonce) ≡ true
      → first ≤ k
      → k ≤ nonce
      → from_le_bytes (f nonce) ≤ from_le_bytes (f k)
  met_least first nonce hashes k best tried met low high = elim (Bool-cases (ltb k nonce)) [
    | inl less ↦ omega (arith, met-le nonce met, tried.all_above k low (ltb→lt k nonce less))
    | inr same ↦
        let e : nonce ≡ k = omega (arith, ltb→ge k nonce same) in
        subst (λ m. from_le_bytes (f nonce) ≤ from_le_bytes (f m)) e (omega arith)
  ]

  try_from-best :
      (first left nonce hashes best_nonce k : ℕ) (best : Sha256dHash)
      → first ≤ nonce
      → hashes ≡ nonce - first
      → Tried first nonce best
      → first ≤ k
      → k < first + (try_from hasher target left nonce hashes best best_nonce).hashes
      → from_le_bytes (try_from hasher target left nonce hashes best best_nonce).best
        ≤ from_le_bytes (f k)
  unfolding try_from
  try_from-best first zero nonce hashes best_nonce k best h e tried low =
      λ high. tried.best_least k low (omega arith)
  try_from-best first (suc left) nonce hashes best_nonce k best h e tried low =
      elim (Bool-cases (is_met_by target (f nonce))) [
        | inl met ↦ rw met (λ high. met_least first nonce hashes k best tried met low (omega arith))
        | inr missed ↦ rw missed (
            try_from-best first left (suc nonce) (hashes + 1)
              (if is_below (f nonce) best then nonce else best_nonce) k
              (if is_below (f nonce) best then f nonce else best) (omega arith) (omega arith)
              (Tried-suc first nonce best tried missed) low)
      ]

no_less :
    (header : BlockHeader) (target : Target) (first last k : ℕ)
    → IsHeader header
    → IsArray 32 target
    → first ≤ last
    → last < 2 ^ 32
    → first ≤ k
    → k ≤ last
    → k < first + (search header target first last).hashes
    → from_le_bytes (search header target first last).best
      ≤ from_le_bytes (Header.hash (record header { nonce = k }))
unfolding search
no_less header target first last k valid array order fits low high tried =
    subst (λ h. from_le_bytes (search header target first last).best ≤ from_le_bytes h)
      (hash_of_nonce header k valid (omega arith))
      (try_from-best (Midstate.new (Header.serialize header)) target array first (suc last - first)
        first 0 0 k (replicate 32 0xFF) (omega arith) (omega arith)
        (record {
          best_fits = (refl, All-replicate IsByte 32 0xFF (omega arith));
          best_least = λ j l u. absurd (omega arith);
          all_above = λ j l u. absurd (omega arith);
        })
        low tried)

-- No hash that the search tried is below the best one that it reports; and that one is the hash of
-- the best nonce that it reports, which is one that was tried, or it is the greatest of all hashes.
pub search-best :
    (header : BlockHeader) (target : Target) (first last k : ℕ)
    → IsHeader header
    → IsArray 32 target
    → first ≤ last
    → last < 2 ^ 32
    → first ≤ k
    → k ≤ last
    → k < first + (search header target first last).hashes
    → (from_le_bytes (search header target first last).best
        ≤ from_le_bytes (Header.hash (record header { nonce = k })))
      × (((search header target first last).best ≡ replicate 32 0xFF)
          ⊎ ((first ≤ (search header target first last).best_nonce)
              × ((search header target first last).best_nonce
                  < first + (search header target first last).hashes)
              × ((search header target first last).best
                  ≡ Header.hash
                      (record header { nonce = (search header target first last).best_nonce }))))
search-best header target first last k valid array order fits low high tried = (
  no_less header target first last k valid array order fits low high tried,
  search_attained header target first last valid order fits,
)
