-- ===== src/MacMiner/Tests.antt =====
-- Concrete runs of the miner.
use mac_solo_miner.MacMiner.Work.Race.{snapshot_stale}
use mac_solo_miner.Base.{
  ℕ, ◌-◌, sym, subst, All, IsArray, ◌%◌, ◌^◌, ◌≡◌, refl, arith, Bool, true, false, List, [], ◌∷◌,
  length, get_elem?, replicate, IsByte, All-replicate, to_be_bytes, some,
}
use mac_solo_miner.BtcPrimitives.Header
use mac_solo_miner.BtcPrimitives.Header.Tests.{sample, sample-IsHeader}
use mac_solo_miner.BtcPrimitives.Target.Tests.{from_compact_easiest}
use mac_solo_miner.Stratum.Job.RoundTrip.{IsJob}
use mac_solo_miner.SoloPool.JobBuilder.{extranonce2_size}
use mac_solo_miner.SoloPool.JobBuilder.Tests.{halves-IsBytes, base_branch}
use mac_solo_miner.SoloPool.Session.{extranonce1_of}
use mac_solo_miner.SoloPool.Tests.{active, active-IsBuilt, accept}
use mac_solo_miner.MacMiner.Accepted.{RoundEnd, current_of, mine_round-RoundEnd}
use mac_solo_miner.MacMiner.Install.{install}
use mac_solo_miner.MacMiner.Stats
use mac_solo_miner.MacMiner.Stats.Records.{record_each, sum, most_bits, record_each-best}
use mac_solo_miner.MacMiner.Work.{Work}
use mac_solo_miner.MacMiner.Work
use mac_solo_miner.MacMiner.Work.Steps.{
  System, holds, start, Reach, here, next, stores, bumps, finished, IsRead,
}
use mac_solo_miner.MacMiner.Work.Kept.{Reach-generation}
use mac_solo_miner.MacMiner.Worker.{Report, rounds, sweep, mine_round, encode_extranonce2}
use mac_solo_miner.MacMiner.Worker.Extranonce.{encode_extranonce2-to_be_bytes}
use mac_solo_miner.MacMiner.Worker.Sweeps.{Swept, sweep-Swept}

encode_extranonce2-to_be_bytes_example : encode_extranonce2 258 4 ≡ to_be_bytes 4 258
encode_extranonce2-to_be_bytes_example = encode_extranonce2-to_be_bytes 258 4 (omega arith)

abbrev target : List ℕ
target = replicate 32 0x55

abbrev always : ℕ → Bool
always check = true

sweep-Swept_example :
    Swept
      (λ k. Header.hash (record sample { nonce = k }))
      target
      always
      0
      0
      (sweep always sample target rounds 0 0)
sweep-Swept_example = sweep-Swept sample target always sample-IsHeader

abbrev job_of : Work
job_of = record {
  job = active.job;
  extranonce1 = extranonce1_of 1;
  extranonce2_size = extranonce2_size;
  target = active.network_target;
}

abbrev later_work : Work
later_work = record job_of { extranonce1 = extranonce1_of 2 }

abbrev work_set : System
work_set = record start { shared = Work.set_work job_of Work.new; stored = job_of ∷ [] }

work_set-Reach : Reach start work_set
unfolding start Work.set_work
work_set-Reach = next (next here (stores start job_of refl)) (
    bumps
      (record start {
        shared = Work.store_work job_of Work.new;
        setting = true;
        stored = job_of ∷ [];
      })
      refl)

Reach-generation_example :
    (work_set.shared.sets ≡ finished work_set % 2 ^ 64)
    × (work_set.shared.current ≡ get_elem? work_set.stored (length work_set.stored - 1))
    × IsRead work_set.reader work_set.stored (finished work_set)
Reach-generation_example = Reach-generation work_set work_set-Reach

abbrev reports : List Report
reports =
    record { hashes = 1048576; best = replicate 32 3 }
    ∷ record { hashes = 1048576; best = replicate 32 1 }
    ∷ []

record_each-best_example :
    ((record_each reports Stats.new).hashes ≡ sum reports % 2 ^ 64)
    × ((record_each reports Stats.new).best_zero_bits ≡ most_bits reports 0)
    × ((Stats.best (record_each reports Stats.new)).1 ≡ most_bits reports 0)
record_each-best_example = record_each-best reports (
  (refl, All-replicate IsByte 32 3 (omega arith)),
  ((refl, All-replicate IsByte 32 1 (omega arith)), tt),
)

active-IsJob : IsJob active.job
active-IsJob = record {
  prev_fits = (refl, All-replicate IsByte 32 0 (omega arith));
  prefix_fits = halves-IsBytes.0;
  suffix_fits = halves-IsBytes.1;
  branch_fits = subst (All (IsArray 32)) (sym base_branch) tt;
  version_fits = omega arith;
  bits_fit = omega arith;
  time_fits = omega arith;
}

mine_round-RoundEnd_example :
    (work : Work) × (current_of (install active.job (extranonce1_of 7) extranonce2_size Work.new)
      ≡ some work)
    × RoundEnd accept active
        (extranonce1_of 7)
        (encode_extranonce2 3 extranonce2_size)
        always
        (mine_round always [] work 3).share
mine_round-RoundEnd_example =
    mine_round-RoundEnd accept active Work.new [] always 7 3 active-IsBuilt (omega arith) refl
      active-IsJob from_compact_easiest (omega arith)

snapshot_stale_example :
    (s : System) × Reach start s
    × (s.reader ≡ holds job_of 2)
    × (s.shared.current ≡ some later_work)
    × (s.setting ≡ false)
    × (Work.is_current 2 s.shared s.shared ≡ true)
snapshot_stale_example = snapshot_stale job_of later_work
