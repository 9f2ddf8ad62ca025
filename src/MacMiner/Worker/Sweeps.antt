-- ===== src/MacMiner/Worker/Sweeps.antt =====
-- What a sweep of the nonces by batches finds.
use mac_solo_miner.Base.{
  ℕ, zero, suc, ◌+◌, ◌-◌, ◌*◌, ◌^◌, ◌≤◌, ◌<◌, ◌≡◌, refl, sym, ap, subst, ◌∙◌, arith, Bool, true,
  false, Bool-cases, ltb, ltb→lt, ltb→ge, ge→ltb, ◌==◌, ==→eq, eq_refl, inl, inr, List, [], ◌∷◌,
}
use mac_solo_miner.BtcPrimitives.Hash.{Sha256dHash}
use mac_solo_miner.BtcPrimitives.Header.{BlockHeader, IsHeader}
use mac_solo_miner.BtcPrimitives.Header
use mac_solo_miner.BtcPrimitives.Target.{Target, is_met_by}
use mac_solo_miner.Mining.Search.{SearchResult, search}
use mac_solo_miner.Mining.Search.Least.{Outcome, search-Outcome}
use mac_solo_miner.MacMiner.Worker.{
  Report, Sweep, superseded, candidate, space_exhausted, batch, batch_end, max_u32, saturating_add,
  after_batch, sweep, rounds,
}

-- The hashes that the reports add up to.
abbrev pub total : List Report → ℕ
total [] = 0
total (report ∷ reports) = report.hashes + total reports

-- How a sweep can end that starts at the nonce `start` with the check numbered `check`, where
-- `f` gives the hash of a nonce: no nonce up to the last meets the target; the first that does
-- is the candidate; or a check says no after `j` batches without a solution.
pub data Swept (f : ℕ → Sha256dHash) (target : Target) (current : ℕ → Bool) (check start : ℕ)
    (s : Sweep) : Type 0 where
  exhausted :
      s.ended ≡ space_exhausted
      → total s.reports + start ≡ 2 ^ 32
      → ((k : ℕ) → start ≤ k → k < 2 ^ 32 → is_met_by target (f k) ≡ false)
      → Swept f target current check start s
  solved :
      (n : ℕ)
      → start ≤ n
      → n < 2 ^ 32
      → s.ended ≡ candidate (record { nonce = n; hash = f n })
      → is_met_by target (f n) ≡ true
      → total s.reports + start ≡ suc n
      → ((k : ℕ) → start ≤ k → k < n → is_met_by target (f k) ≡ false)
      → Swept f target current check start s
  stopped :
      (j : ℕ)
      → current (check + j) ≡ false
      → s.ended ≡ superseded
      → total s.reports ≡ j * batch
      → ((k : ℕ) → start ≤ k → k < start + j * batch → is_met_by target (f k) ≡ false)
      → Swept f target current check start s

batch_end-add : (start : ℕ) → start + batch ≤ 2 ^ 32 → batch_end start ≡ start + (batch - 1)
unfolding batch_end saturating_add
batch_end-add start h = rw (ge→ltb max_u32 (start + (batch - 1)) (omega arith)) refl

module _ (f : ℕ → Sha256dHash) (target : Target) (current : ℕ → Bool) where
  -- What is refused up to `middle` and from there on is refused.
  refused_join :
      (start middle last : ℕ)
      → ((k : ℕ) → start ≤ k → k < middle → is_met_by target (f k) ≡ false)
      → ((k : ℕ) → middle ≤ k → k < last → is_met_by target (f k) ≡ false)
      → (k : ℕ) → start ≤ k
      → k < last
      → is_met_by target (f k) ≡ false
  refused_join start middle last before after k low high = elim (Bool-cases (ltb k middle)) [
    | inl less ↦ before k low (ltb→lt k middle less)
    | inr more ↦ after k (ltb→ge k middle more) high
  ]

  -- A batch without a solution in front of a sweep.
  Swept-batch :
      (check start : ℕ) (report : Report) (s : Sweep)
      → report.hashes ≡ batch
      → ((k : ℕ) → start ≤ k → k < start + batch → is_met_by target (f k) ≡ false)
      → Swept f target current (suc check) (start + batch) s
      → Swept f target current check start
          (record { ended = s.ended; reports = report ∷ s.reports })
  Swept-batch check start report s size before (exhausted e t all) =
      exhausted e (omega arith) (refused_join start (start + batch) (2 ^ 32) before all)
  Swept-batch check start report s size before (solved n low high e met t all) =
      solved n (omega arith) high e met (omega arith)
        (refused_join start (start + batch) n before all)
  Swept-batch check start report s size before (stopped j answer e t all) =
      let at : suc check + j ≡ check + suc j = omega arith in
      stopped (suc j) (ap current (sym at) ∙ answer) e (omega arith) (λ k low high.
        refused_join start (start + batch) ((start + batch) + j * batch) before all k low
          (omega arith))

  -- One round of the loop.
  Swept-after_batch :
      (check start : ℕ) (r : SearchResult) (last : Bool) (rest : Sweep)
      → start + batch ≤ 2 ^ 32
      → (last ≡ true → start + batch ≡ 2 ^ 32)
      → (last ≡ false → Swept f target current (suc check) (start + batch) rest)
      → Outcome f target start batch r
      → Swept f target current check start
          (after_batch (record { hashes = r.hashes; best = r.best }) r.solution last rest)
  unfolding after_batch
  Swept-after_batch check start r last rest h through next (Outcome.exhausted s c all) =
      elim (Bool-cases last) [
        | inl is_last ↦
            rw (s, is_last)
              (exhausted refl (omega (arith, through is_last))
                (λ k low high. all k low (omega (arith, through is_last))))
        | inr more ↦
            rw (s, more)
              (Swept-batch check start (record { hashes = r.hashes; best = r.best }) rest c all
                (next more))
      ]
  Swept-after_batch check start r last rest h through next (Outcome.found n low high s met c all) =
      rw s (solved n low (omega arith) refl met (omega arith) all)

module _ (header : BlockHeader) (target : Target) (current : ℕ → Bool)
    (valid : IsHeader header) where
  -- The hash of the header with a nonce.
  abbrev of_nonce : ℕ → Sha256dHash
  of_nonce k = Header.hash (record header { nonce = k })

  -- The first batch, and what follows it.
  sweep_next :
      (fuel check start : ℕ)
      → start + batch ≤ 2 ^ 32
      → (batch_end start ≡ max_u32 → start + batch ≡ 2 ^ 32)
      → ((batch_end start == max_u32) ≡ false
          → Swept of_nonce target current
              (suc check)
              (start + batch)
              (sweep current header target fuel (suc check) (start + batch)))
      → Swept of_nonce target current check start
          (sweep current header target (suc fuel) check start)
  unfolding sweep
  sweep_next fuel check start h through next = elim (Bool-cases (current check)) [
    | inl still ↦
        let end : batch_end start ≡ start + (batch - 1) = batch_end-add start h in
        let size : suc (batch_end start) - start ≡ batch = omega (arith, end) in
        let after : start + batch ≡ batch_end start + 1 = omega (arith, end) in
        rw still (
          Swept-after_batch of_nonce target current check start
            (search header target start (batch_end start)) (batch_end start == max_u32)
            (sweep current header target fuel (suc check) (batch_end start + 1)) h
            (λ last. through (==→eq _ _ last))
            (λ more.
              subst
                (λ s.
                  Swept of_nonce target current (suc check) (start + batch)
                    (sweep current header target fuel (suc check) s))
                after (next more))
            (subst
              (λ n. Outcome of_nonce target start n (search header target start (batch_end start)))
              size
              (search-Outcome header target start (batch_end start) valid (omega (arith, end))
                (omega (arith, end)))))
    | inr answer ↦
        let here : check ≡ check + 0 = omega arith in
        rw answer (
          stopped 0 (ap current (sym here) ∙ answer) refl refl (λ k low high. absurd (omega arith)))
  ]

  sweep_from :
      (fuel check start : ℕ)
      → start + suc fuel * batch ≡ 2 ^ 32
      → Swept of_nonce target current check start
          (sweep current header target (suc fuel) check start)
  sweep_from zero check start h =
      let end : batch_end start ≡ max_u32 = batch_end-add start (omega arith) ∙ omega arith in
      sweep_next zero check start (omega arith) (λ e. omega arith)
        (λ more. cc (more, ap (λ e. e == max_u32) end, eq_refl max_u32))
  sweep_from (suc fuel) check start h =
      sweep_next (suc fuel) check start (omega arith)
        (λ e. omega (arith, e, batch_end-add start (omega arith)))
        (λ more. sweep_from fuel (suc check) (start + batch) (omega arith))

-- A sweep, whatever its checks answer, ends in one of three ways: every nonce of 32 bits was
-- tried and none meets the target; the first nonce that does is the candidate, and none behind it
-- was tried; or a check has said no, behind whole batches without a solution. The reports add up
-- to the nonces that were tried, and the rounds are enough.
pub sweep-Swept :
    (header : BlockHeader) (target : Target) (current : ℕ → Bool)
    → IsHeader header
    → Swept
        (λ k. Header.hash (record header { nonce = k }))
        target
        current
        0
        0
        (sweep current header target rounds 0 0)
sweep-Swept header target current valid =
    sweep_from header target current valid 4095 0 0 (omega arith)
