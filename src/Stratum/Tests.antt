-- ===== src/Stratum/Tests.antt =====
-- A job and a share as parameters, and back.
use mac_solo_miner.Base.{◌≡◌, refl, arith, true, [], ◌∷◌, replicate, IsByte, All-replicate, ok}
use mac_solo_miner.Stratum.Job.{Job, to_notify_params, from_notify_params}
use mac_solo_miner.Stratum.Job.RoundTrip.{IsJob, from_notify_params-to_notify_params}
use mac_solo_miner.Stratum.Share.{Share, to_submit_params, from_submit_params}
use mac_solo_miner.Stratum.Share.RoundTrip.{from_submit_params-to_submit_params}

abbrev job : Job
job = record {
  job_id = 49 ∷ [];
  prev_hash = replicate 32 7;
  coinbase_prefix = 1 ∷ 2 ∷ [];
  coinbase_suffix = 3 ∷ [];
  merkle_branch = replicate 32 8 ∷ [];
  version = 0x20000000;
  bits = 0x207fffff;
  time = 1700000000;
  clean_jobs = true;
}

job-IsJob : IsJob job
job-IsJob = record {
  prev_fits = (refl, All-replicate IsByte 32 7 (omega arith));
  prefix_fits = (omega arith, (omega arith, tt));
  suffix_fits = (omega arith, tt);
  branch_fits = ((refl, All-replicate IsByte 32 8 (omega arith)), tt);
  version_fits = omega arith;
  bits_fit = omega arith;
  time_fits = omega arith;
}

from_notify_params-to_notify_params_example : from_notify_params (to_notify_params job) ≡ ok job
from_notify_params-to_notify_params_example = from_notify_params-to_notify_params job job-IsJob

abbrev share : Share
share = record {
  worker = 109 ∷ [];
  job_id = 49 ∷ [];
  extranonce2 = 5 ∷ 6 ∷ 7 ∷ 8 ∷ [];
  time = 1700000001;
  nonce = 42;
}

from_submit_params-to_submit_params_example : from_submit_params (to_submit_params share) ≡ ok share
from_submit_params-to_submit_params_example = from_submit_params-to_submit_params share (record {
  extranonce_fits = (omega arith, (omega arith, (omega arith, (omega arith, tt))));
  time_fits = omega arith;
  nonce_fits = omega arith;
})
