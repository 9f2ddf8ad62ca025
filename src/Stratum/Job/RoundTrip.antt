-- ===== src/Stratum/Job/RoundTrip.antt =====
-- A job is read back from its parameters.
use mac_solo_miner.Base.{
  ℕ, ◌^◌, ◌<◌, ◌≡◌, refl, subst, IsBytes, IsArray, All, List, [], ◌∷◌, map, ok,
}
use mac_solo_miner.BtcPrimitives.Hash.{Sha256dHash}
use mac_solo_miner.BtcPrimitives.Hex
use mac_solo_miner.BtcPrimitives.Hex.RoundTrip.{decode_array-encode}
use mac_solo_miner.Stratum.ByteOrder.{hash_to_stratum}
use mac_solo_miner.Stratum.ByteOrder.Involution.{
  hash_to_stratum-IsArray, hash_from_stratum-to_stratum,
}
use mac_solo_miner.Stratum.Hex32.RoundTrip.{from_hex32-to_hex32}
use mac_solo_miner.Stratum.Params.{string_at}
use mac_solo_miner.Stratum.Value.{items-values}
use mac_solo_miner.Stratum.Job.{
  Job, branch_text, to_notify_params, string_param, u32_from_hex, read_branch, read_job,
  from_notify_params,
}

-- What the field types of Rust give.
pub record IsJob (job : Job) : Type 0 where
  pub prev_fits : IsArray 32 job.prev_hash
  pub prefix_fits : IsBytes job.coinbase_prefix
  pub suffix_fits : IsBytes job.coinbase_suffix
  pub branch_fits : All (IsArray 32) job.merkle_branch
  pub version_fits : job.version < 2 ^ 32
  pub bits_fit : job.bits < 2 ^ 32
  pub time_fits : job.time < 2 ^ 32

decode_array_32 :
    (bytes : List ℕ) → IsArray 32 bytes → Hex.decode_array 32 (Hex.encode bytes) ≡ Hex.ok bytes
decode_array_32 bytes h =
    subst (λ n. Hex.decode_array n (Hex.encode bytes) ≡ Hex.ok bytes) h.0
      (decode_array-encode bytes h.1).1

read_branch-map :
    (branch : List Sha256dHash)
    → All (IsArray 32) branch
    → read_branch (map branch_text branch) ≡ ok branch
unfolding read_branch
read_branch-map [] fits = refl
read_branch-map (h ∷ branch) fits =
    rw (decode_array_32 h fits.0, read_branch-map branch fits.1) refl

-- A job is read back from the parameters that it is announced with.
pub from_notify_params-to_notify_params :
    (job : Job) → IsJob job → from_notify_params (to_notify_params job) ≡ ok job
unfolding from_notify_params to_notify_params read_job string_param string_at u32_from_hex
from_notify_params-to_notify_params job fits =
    rw
      (
        decode_array_32 (hash_to_stratum job.prev_hash)
            (hash_to_stratum-IsArray job.prev_hash fits.prev_fits),
        items-values (map branch_text job.merkle_branch),
        read_branch-map job.merkle_branch fits.branch_fits,
        (decode_array-encode job.coinbase_prefix fits.prefix_fits).0,
        (decode_array-encode job.coinbase_suffix fits.suffix_fits).0,
        from_hex32-to_hex32 job.version fits.version_fits,
        from_hex32-to_hex32 job.bits fits.bits_fit,
        from_hex32-to_hex32 job.time fits.time_fits,
        (hash_from_stratum-to_stratum job.prev_hash fits.prev_fits.0).0,
      )
      refl
