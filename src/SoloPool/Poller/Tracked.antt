-- ===== src/SoloPool/Poller/Tracked.antt =====
-- What the rounds of the poller keep: the job that is served.
use mac_solo_miner.Base.{
  ℕ, ◌-◌, ◌≡◌, refl, sym, subst, Bool, true, false, ◌||◌, Bool-cases, inl, inr, if◌then◌else◌, leb,
  List, Option, none, some, Result, ok, err,
}
use mac_solo_miner.BitcoindRpc.Network.{Network, regtest, testnet4, mainnet}
use mac_solo_miner.BitcoindRpc.Template.{BlockTemplate, compact_bits}
use mac_solo_miner.BtcPrimitives.Hash.Text.{from_str}
use mac_solo_miner.BtcPrimitives.Target.{Target, TargetError, from_compact}
use mac_solo_miner.SoloPool.JobBuilder.{ActiveJob, BuildError, build}
use mac_solo_miner.SoloPool.JobBuilder.Retimed.{retimed-IsBuilt}
use mac_solo_miner.SoloPool.JobBuilder.Splice.{IsBuilt, build-IsBuilt}
use mac_solo_miner.SoloPool.JobBuilder.Targets.{build-target}
use mac_solo_miner.SoloPool.MinDifficulty.{plan, min_difficulty_bits}
use mac_solo_miner.SoloPool.State.{PoolState, allocate_job_id, set_current_job, broadcast, front}
use mac_solo_miner.SoloPool.Poller.{
  Poller, start_poller, Answers, continues, Polled, tip_changed, bits_changed, ok_of, moment, warp,
  warp_with, adjust, install_job, on_build, on_template, check_health, poll_round, refresh_interval,
  max_template_outage, readiness_interval,
}

-- A job to serve on a tip: `build` made it, perhaps with a time and a target of the pool's own; its
-- target is what its compact form decodes to; and it stands on the tip.
abbrev pub IsServable : List ℕ → ActiveJob → Type 0
IsServable tip active =
    IsBuilt active
    × (from_compact active.job.bits ≡ ok active.network_target)
    × (from_str tip ≡ ok active.job.prev_hash)

-- The current job is one on the poller's last_tip, if that is a tip: install_job sets both, and a
-- template of a newer tip whose build fails changes neither.
abbrev pub HasJob : Option (List ℕ) → List ActiveJob → Type 0
HasJob none jobs = Unit
HasJob (some tip) jobs = (active : ActiveJob) × (front jobs ≡ some active) × IsServable tip active

warp_with-IsServable :
    (tip : List ℕ) (parent_time : Result (List ℕ) ℕ) (r : Result TargetError Target)
    (active : ActiveJob)
    → from_compact min_difficulty_bits ≡ r
    → IsServable tip active
    → IsServable tip (warp_with parent_time r active)
unfolding warp_with warp
warp_with-IsServable tip (err e) r active h servable = servable
warp_with-IsServable tip (ok parent_time) (err e) active h servable = servable
warp_with-IsServable tip (ok parent_time) (ok target) active h (built, same, stands) = (
  retimed-IsBuilt (plan parent_time).ntime min_difficulty_bits target
      (some (moment (plan parent_time).legal_at)) active built,
  h,
  stands,
)

adjust-IsServable :
    (network : Network) (tip : List ℕ) (parent_time : Result (List ℕ) ℕ) (active : ActiveJob)
    → IsServable tip active
    → IsServable tip (adjust network parent_time active)
unfolding adjust
adjust-IsServable regtest tip parent_time active servable = servable
adjust-IsServable mainnet tip parent_time active servable = servable
adjust-IsServable testnet4 tip parent_time active servable =
    warp_with-IsServable tip parent_time (from_compact min_difficulty_bits) active refl servable

abbrev Tracks : Polled → Type 0
Tracks polled = HasJob polled.poller.last_tip polled.pool.jobs

on_build-Tracks :
    (network : Network) (payout_script job_id : List ℕ) (clean : Bool) (answers : Answers)
    (template : BlockTemplate) (poller : Poller) (pool : PoolState)
    (built : Result BuildError ActiveJob)
    → build job_id template payout_script clean ≡ built
    → HasJob poller.last_tip pool.jobs
    → Tracks (on_build network answers template poller pool built)
unfolding on_build install_job broadcast set_current_job
on_build-Tracks network payout_script job_id clean answers template poller pool (err e) h kept =
    kept
on_build-Tracks network payout_script job_id clean answers template poller pool (ok active) h kept =
    let (same, stands, paired) = build-target job_id payout_script template clean active h in
    (
      adjust network answers.parent_time active,
      refl,
      adjust-IsServable network template.previous_block_hash answers.parent_time active
          (build-IsBuilt job_id payout_script template clean active h, same, stands),
    )

either-Tracks : (b : Bool) (x y : Polled) → Tracks x → Tracks y → Tracks (if b then x else y)
either-Tracks true x y hx hy = hx
either-Tracks false x y hx hy = hy

on_template-Tracks :
    (network : Network) (payout_script : List ℕ) (answers : Answers)
    (template : Result (List ℕ) BlockTemplate) (poller : Poller) (pool : PoolState)
    → HasJob poller.last_tip pool.jobs
    → Tracks (on_template network payout_script answers template poller pool)
unfolding on_template allocate_job_id
on_template-Tracks network payout_script answers (err e) poller pool kept = kept
on_template-Tracks network payout_script answers (ok template) poller pool kept =
    either-Tracks due
      (on_build network answers template poller (allocate_job_id pool).1
        (build (allocate_job_id pool).0 template payout_script clean))
      (record { poller = poller; pool = pool; notified = none })
      (on_build-Tracks network payout_script (allocate_job_id pool).0 clean answers template poller
        (allocate_job_id pool).1 (build (allocate_job_id pool).0 template payout_script clean) refl
        kept)
      kept
  where
    clean : Bool
    clean =
        tip_changed poller.last_tip template.previous_block_hash
        || bits_changed poller.last_bits (ok_of (compact_bits template))

    due : Bool
    due = clean || leb refresh_interval (answers.now - poller.last_built)

check_health-tip :
    (network : Network) (answers : Answers) (poller : Poller)
    → (check_health network answers poller).1.last_tip ≡ poller.last_tip
unfolding check_health
check_health-tip network answers poller =
    elim (Bool-cases (leb max_template_outage (answers.now - poller.last_job_installed))) [
      | inl out ↦ rw out refl
      | inr in_time ↦
          elim (Bool-cases (leb readiness_interval (answers.now - poller.last_readiness_check))) [
            | inl due ↦ rw (in_time, due) refl
            | inr early ↦ rw (in_time, early) refl
          ]
    ]

-- The states that the rounds lead to, from the start of the poller on, with any number of steps of
-- the sessions between them, which leave the jobs alone.
pub data Reached (network : Network) (payout_script : List ℕ) : Poller → PoolState → Type 0 where
  started : (now : ℕ) (pool : PoolState) → Reached network payout_script (start_poller now) pool
  polled :
      (poller : Poller) (pool : PoolState) (answers : Answers)
      → Reached network payout_script poller pool
      → (poll_round network payout_script answers poller pool).0 ≡ continues
      → Reached network payout_script
          (poll_round network payout_script answers poller pool).1.poller
          (poll_round network payout_script answers poller pool).1.pool
  served :
      (poller : Poller) (pool later : PoolState)
      → Reached network payout_script poller pool
      → later.jobs ≡ pool.jobs
      → Reached network payout_script poller later

-- In every state that is reached, where the poller's last_tip is a tip, there is a current job and it
-- is on that tip; `build` made it, if with a time and a target of the pool's own; and its target is
-- the one that its compact form decodes to.
pub Reached-HasJob :
    {network : Network} {payout_script : List ℕ} {poller : Poller} {pool : PoolState}
    → Reached network payout_script poller pool
    → HasJob poller.last_tip pool.jobs
unfolding start_poller poll_round
Reached-HasJob (started now pool) = tt
Reached-HasJob {network} {payout_script} (polled poller pool answers before verdict) =
    let after : Polled = on_template network payout_script answers answers.template poller pool in
    subst (λ tip. HasJob tip after.pool.jobs) (sym (check_health-tip network answers after.poller))
      (on_template-Tracks network payout_script answers answers.template poller pool
        (Reached-HasJob before))
Reached-HasJob (served poller pool later before same) =
    subst (HasJob poller.last_tip) (sym same) (Reached-HasJob before)
