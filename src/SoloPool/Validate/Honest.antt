-- ===== src/SoloPool/Validate/Honest.antt =====
-- The pool judges the very header that a miner of its job has hashed.
use mac_solo_miner.Base.{
  bytes_eq, ℕ, ◌^◌, ◌<◌, ◌≡◌, sym, ap, ap₂, ◌∙◌, subst, true, List, ◌∷◌, ◌++◌, length, Option,
  Result, ok,
}
use mac_solo_miner.BtcPrimitives.Hash.{Sha256dHash, zero_hash}
use mac_solo_miner.BtcPrimitives.Hash
use mac_solo_miner.BtcPrimitives.Header.{BlockHeader}
use mac_solo_miner.BtcPrimitives.Merkle.{merkle_root, root_from_coinbase_branch}
use mac_solo_miner.BtcPrimitives.Merkle.Branch.{root_from_coinbase_branch-merkle_root}
use mac_solo_miner.BtcPrimitives.Transaction.{Transaction, serialize_legacy, txid}
use mac_solo_miner.Mining.Witness.{expect}
use mac_solo_miner.Stratum.Job
use mac_solo_miner.Stratum.Share.{Share}
use mac_solo_miner.SoloPool.JobBuilder.{
  ActiveJob, extranonce_size, coinbase, coinbase_branch, with_halves, split_coinbase,
}
use mac_solo_miner.SoloPool.JobBuilder.Sentinel.{bytes_eq_refl}
use mac_solo_miner.SoloPool.JobBuilder.Splice.{IsBuilt, split_coinbase-splice}
use mac_solo_miner.SoloPool.Validate.{header_of, judge, check}

-- The header that a miner of the job hashes, with its share's choices.
abbrev pub mined : ActiveJob → Share → List ℕ → BlockHeader
mined active submitted extranonce1 =
    Job.header active.job extranonce1 submitted.extranonce2 submitted.time submitted.nonce

module _ (base : ActiveJob) (halves : List ℕ × List ℕ) (submitted : Share)
    (extranonce1 : List ℕ) where
  -- The pool's header, with the coinbase it rebuilt, is the miner's.
  header_of-mined :
      (transaction : Transaction)
      → serialize_legacy transaction
        ≡ Job.coinbase (with_halves base halves).job extranonce1 submitted.extranonce2
      → base.job.merkle_branch ≡ coinbase_branch base.txids
      → header_of (with_halves base halves) submitted transaction
        ≡ mined (with_halves base halves) submitted extranonce1
  unfolding Job.header Job.merkle_root txid coinbase_branch
  header_of-mined transaction same branch = λ i. record {
    version = base.job.version;
    prev_block = base.job.prev_hash;
    merkle_root = roots i;
    time = submitted.time;
    bits = base.job.bits;
    nonce = submitted.nonce;
  }
    where
      roots :
          expect (merkle_root (txid transaction ∷ base.txids))
          ≡ Job.merkle_root (with_halves base halves).job extranonce1 submitted.extranonce2
      roots =
          ap expect (
            root_from_coinbase_branch-merkle_root (Hash.hash (serialize_legacy transaction))
              zero_hash base.txids)
          ∙ ap₂ root_from_coinbase_branch (ap Hash.hash same) (sym branch)

  check-split :
      (submit_block : List ℕ → Result (List ℕ) (Option (List ℕ)))
      → base.height < 2 ^ 32
      → split_coinbase base ≡ ok halves
      → base.job.merkle_branch ≡ coinbase_branch base.txids
      → length (extranonce1 ++ submitted.extranonce2) ≡ extranonce_size
      → (transaction : Transaction) × (coinbase
            (with_halves base halves)
            (extranonce1 ++ submitted.extranonce2)
          ≡ ok transaction)
        × (check submit_block (with_halves base halves) submitted extranonce1
            ≡ judge submit_block
                (with_halves base halves)
                transaction
                (mined (with_halves base halves) submitted extranonce1))
  unfolding check coinbase
  check-split submit_block h split branch size =
      let x = split_coinbase-splice base halves extranonce1 submitted.extranonce2 h split size in
      let agreed : bytes_eq
            (Job.coinbase (with_halves base halves).job extranonce1 submitted.extranonce2)
            (serialize_legacy x.0)
          ≡ true =
        ap (bytes_eq (Job.coinbase (with_halves base halves).job extranonce1 submitted.extranonce2))
          x.2
        ∙ bytes_eq_refl
            (Job.coinbase (with_halves base halves).job extranonce1 submitted.extranonce2) in
      (
        x.0,
        x.1,
        rw (x.1, agreed)
            (ap (judge submit_block (with_halves base halves) x.0)
              (header_of-mined x.0 x.2 branch)),
      )

Judged : (List ℕ → Result (List ℕ) (Option (List ℕ))) → Share → List ℕ → ActiveJob → Type 0
Judged submit_block submitted extranonce1 active =
    (transaction : Transaction) × (coinbase active (extranonce1 ++ submitted.extranonce2)
      ≡ ok transaction)
    × (check submit_block active submitted extranonce1
        ≡ judge submit_block active transaction (mined active submitted extranonce1))

-- A share of a job that `build` returned is judged by the header that its miner hashed: the
-- coinbase is rebuilt, it agrees with the halves that were sent, and the target is tested on the
-- hash of that header.
pub check-mined :
    (submit_block : List ℕ → Result (List ℕ) (Option (List ℕ))) (active : ActiveJob)
    (submitted : Share) (extranonce1 : List ℕ)
    → IsBuilt active
    → active.height < 2 ^ 32
    → length (extranonce1 ++ submitted.extranonce2) ≡ extranonce_size
    → (transaction : Transaction) × (coinbase active (extranonce1 ++ submitted.extranonce2)
        ≡ ok transaction)
      × (check submit_block active submitted extranonce1
          ≡ judge submit_block active transaction (mined active submitted extranonce1))
unfolding IsBuilt Judged
check-mined submit_block active submitted extranonce1 built h size =
    subst (Judged submit_block submitted extranonce1) (sym built.3) (
      check-split built.0 built.1 submitted extranonce1 submit_block
        (subst (λ a. a.height < 2 ^ 32) built.3 h) built.2 built.4 size)
