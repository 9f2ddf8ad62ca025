-- ===== src/SoloPool/State/History.antt =====
-- Which jobs the pool remembers.
use mac_solo_miner.Base.{
  ℕ, zero, suc, ◌≡◌, refl, sym, ap, ◌∙◌, List, [], ◌∷◌, ◌++◌, append_assoc, reverse, take,
}
use mathlib.Core.List.{reverse-cons}
use mac_solo_miner.SoloPool.JobBuilder.{ActiveJob}
use mac_solo_miner.SoloPool.State.{PoolState, new, job_history, set_current_job}

-- The state after the jobs of a list, the first of them first.
abbrev pub set_each : List ActiveJob → PoolState → PoolState
set_each [] self = self
set_each (job ∷ jobs) self = set_each jobs (set_current_job job self)

take-take_cons :
    {A : Type 0}
    → (n : ℕ) (x : A) (xs : List A) → take (suc n) (x ∷ take (suc n) xs) ≡ take (suc n) (x ∷ xs)
take-take_cons n x xs = ap (◌∷◌ x) (take_less n xs)
  where
    take_less : {A : Type 0} → (n : ℕ) (xs : List A) → take n (take (suc n) xs) ≡ take n xs
    take_less zero xs = refl
    take_less (suc n) [] = refl
    take_less (suc n) (x ∷ xs) = ap (◌∷◌ x) (take_less n xs)

history :
    (jobs before : List ActiveJob) (self : PoolState)
    → self.jobs ≡ take job_history before
    → (set_each jobs self).jobs ≡ take job_history (reverse jobs ++ before)
unfolding set_current_job
history [] before self h = h
history (job ∷ jobs) before self h =
    history jobs (job ∷ before) (set_current_job job self)
      (ap (λ l. take 8 (job ∷ l)) h ∙ take-take_cons 7 job before)
    ∙ ap (take 8) (
        sym (append_assoc (reverse jobs) (job ∷ []) before)
        ∙ ap (λ l. l ++ before) (sym (reverse-cons job jobs)))

-- After any sequence of jobs the pool remembers the last eight of them, the newest first.
pub set_each-history :
    (jobs : List ActiveJob) → (set_each jobs new).jobs ≡ take job_history (reverse jobs ++ [])
unfolding new
set_each-history jobs = history jobs [] new refl
