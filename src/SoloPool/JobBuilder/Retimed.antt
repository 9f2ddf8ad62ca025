-- ===== src/SoloPool/JobBuilder/Retimed.antt =====
-- A job stays one that was built when its time and its target are chosen anew.
use mac_solo_miner.Base.{ℕ, ◌≡◌, refl, ap, ◌∙◌, Option}
use mac_solo_miner.BtcPrimitives.Target.{Target}
use mac_solo_miner.SoloPool.JobBuilder.{ActiveJob, builder, coinbase, split_coinbase}
use mac_solo_miner.SoloPool.JobBuilder.Splice.{IsBuilt}

-- With another time, compact target, target, and moment of submission.
abbrev pub retimed : ℕ → ℕ → Target → Option ℕ → ActiveJob → ActiveJob
retimed time bits target not_before active = record active {
  job = record active.job { time = time; bits = bits };
  network_target = target;
  submit_not_before = not_before;
}

split_coinbase-retimed :
    (time bits : ℕ) (target : Target) (not_before : Option ℕ) (base : ActiveJob)
    → split_coinbase (retimed time bits target not_before base) ≡ split_coinbase base
unfolding split_coinbase coinbase builder
split_coinbase-retimed time bits target not_before base = refl

pub retimed-IsBuilt :
    (time bits : ℕ) (target : Target) (not_before : Option ℕ) (active : ActiveJob)
    → IsBuilt active
    → IsBuilt (retimed time bits target not_before active)
unfolding IsBuilt
retimed-IsBuilt time bits target not_before active (base, halves, found, same, branch) = (
  retimed time bits target not_before base,
  halves,
  split_coinbase-retimed time bits target not_before base ∙ found,
  ap (retimed time bits target not_before) same,
  branch,
)
