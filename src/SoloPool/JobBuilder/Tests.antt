-- ===== src/SoloPool/JobBuilder/Tests.antt =====
-- A concrete job, and its halves.
use mac_solo_miner.Base.{
  sym, ap, ◌∙◌, Bool, ◌&&◌, ltb, ltb→lt, Bool-cases, inl, inr, IsBytes, ℕ, ◌≡◌, refl, arith, true,
  List, [], ◌∷◌, replicate, none, ok, to_le_bytes,
}
use mac_solo_miner.BtcPrimitives.Hash.{zero_hash}
use mac_solo_miner.BtcPrimitives.Merkle.Arrays.{coinbase_branch_alone}
use mac_solo_miner.BtcPrimitives.Transaction.{
  Transaction, serialize_legacy, write_inputs, write_each_input, write_input, write_outputs,
  write_each_output, write_output,
}
use mac_solo_miner.BtcPrimitives.Varint.{encode}
use mac_solo_miner.Mining.Coinbase.{
  build, build_with, script_sig, assemble, witness_of, outputs_of, new, extranonce, tag,
  witness_commitment,
}
use mac_solo_miner.Mining.Script.{
  encode_block_height, push_data, push_length, encode_script_number, value_bytes, last_is_negative,
}
use mac_solo_miner.Stratum.Job
use mac_solo_miner.SoloPool.JobBuilder.{
  ActiveJob, builder, coinbase, coinbase_branch, matches_from, split_serialised, split_coinbase,
  with_halves,
}
use mac_solo_miner.SoloPool.JobBuilder.Splice.{split_coinbase-splice}

abbrev all_bytes : List ℕ → Bool
all_bytes [] = true
all_bytes (b ∷ bs) = ltb b 256 && all_bytes bs

all_bytes-IsBytes : (bs : List ℕ) → all_bytes bs ≡ true → IsBytes bs
all_bytes-IsBytes [] h = tt
all_bytes-IsBytes (b ∷ bs) h = elim (Bool-cases (ltb b 256)) [
  | inl fits ↦
      (ltb→lt b 256 fits, all_bytes-IsBytes bs (sym (ap (λ x. x && all_bytes bs) fits) ∙ h))
  | inr more ↦ absurd (cc (sym (ap (λ x. x && all_bytes bs) more) ∙ h))
]

abbrev pub base : ActiveJob
base = record {
  job = record {
    job_id = 49 ∷ [];
    prev_hash = zero_hash;
    coinbase_prefix = [];
    coinbase_suffix = [];
    merkle_branch = coinbase_branch [];
    version = 2;
    bits = 0x207fffff;
    time = 1700000000;
    clean_jobs = true;
  };
  height = 1;
  coinbase_value = 5000000000;
  payout_script = 0x51 ∷ [];
  witness_commitment = 0x6A ∷ [];
  transactions = [];
  txids = [];
  network_target = 0x7F ∷ 0xFF ∷ 0xFF ∷ replicate 29 0;
  submit_not_before = none;
}

-- The split succeeds: the sentinel stands in the serialised coinbase exactly once.
pub base_halves :
    (halves : List ℕ × List ℕ) × (split_coinbase base ≡ ok halves)
    × (all_bytes halves.0 ≡ true)
    × (all_bytes halves.1 ≡ true)
unfolding split_coinbase split_serialised matches_from coinbase builder build build_with script_sig
    assemble witness_of outputs_of new extranonce tag witness_commitment encode_block_height
    push_data push_length encode_script_number value_bytes last_is_negative serialize_legacy
    write_inputs write_each_input write_input write_outputs write_each_output write_output encode
    to_le_bytes
base_halves = (_, refl, refl, refl)

pub halves-IsBytes : IsBytes base_halves.0.0 × IsBytes base_halves.0.1
halves-IsBytes = (
  all_bytes-IsBytes base_halves.0.0 base_halves.2,
  all_bytes-IsBytes base_halves.0.1 base_halves.3,
)

pub base_branch : base.job.merkle_branch ≡ []
unfolding coinbase_branch
base_branch = coinbase_branch_alone zero_hash

split_coinbase-splice_example :
    (tx : Transaction) × (coinbase base (1 ∷ 2 ∷ 3 ∷ 4 ∷ 5 ∷ 6 ∷ 7 ∷ 8 ∷ []) ≡ ok tx)
    × (serialize_legacy tx
        ≡ Job.coinbase
            (with_halves base base_halves.0).job
            (1 ∷ 2 ∷ 3 ∷ 4 ∷ [])
            (5 ∷ 6 ∷ 7 ∷ 8 ∷ []))
split_coinbase-splice_example =
    split_coinbase-splice base base_halves.0 (1 ∷ 2 ∷ 3 ∷ 4 ∷ []) (5 ∷ 6 ∷ 7 ∷ 8 ∷ []) (omega arith)
      base_halves.1 refl
