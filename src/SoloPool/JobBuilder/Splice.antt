-- ===== src/SoloPool/JobBuilder/Splice.antt =====
-- The halves of the coinbase that a job carries join, around any extranonce, to the coinbase that
-- the pool itself builds with it.
use mac_solo_miner.Base.{
  ℕ, ◌+◌, ◌^◌, ◌<◌, ◌≡◌, refl, sym, ap, ap₂, ◌∙◌, arith, Bool, List, [], ◌∷◌, ◌++◌, append_assoc,
  length, length-append, some, ok, ◌>>=◌, >>=-eq-ok,
}
use mac_solo_miner.BtcPrimitives.Transaction.{Transaction, serialize_legacy}
use mac_solo_miner.Mining.Coinbase.{assemble, outputs_of, new, extranonce, tag, witness_commitment}
use mac_solo_miner.Mining.Coinbase.Built.{
  before, behind, short_script, serialize_legacy-assemble, build-short,
}
use mac_solo_miner.Mining.Script.Heights.{encode_block_height-read}
use mac_solo_miner.BitcoindRpc.Template.{BlockTemplate}
use mac_solo_miner.Stratum.Job
use mac_solo_miner.SoloPool.JobBuilder.{
  ActiveJob, extranonce_size, pool_tag, builder, built, coinbase, coinbase_branch, sentinel,
  split_serialised, split_coinbase, with_halves, build, read_template, activate, split,
}
use mac_solo_miner.SoloPool.JobBuilder.Sentinel.{split_serialised-eq-ok}

-- For every extranonce of eight bytes a coinbase is built, and around the extranonce its bytes
-- are the same.
coinbase-layout :
    (active : ActiveJob)
    → active.height < 2 ^ 32
    → (p s : List ℕ) × ((x : List ℕ)
        → length x ≡ extranonce_size
        → (tx : Transaction) × (coinbase active x ≡ ok tx) × (serialize_legacy tx ≡ p ++ (x ++ s)))
unfolding coinbase builder new extranonce tag witness_commitment outputs_of
coinbase-layout active h =
    let encoded = encode_block_height-read active.height h in
    let a = encoded.0 ++ 8 ∷ [] in
    (
      before (length encoded.0 + 24) a,
      behind (outputs_of (builder active []) (some active.witness_commitment)) (14 ∷ pool_tag),
      λ x e.
          let size : length (short_script encoded.0 x pool_tag) ≡ length encoded.0 + 24 = omega (
            arith,
            length-append (encoded.0 ++ length x ∷ []) (x ++ (14 ∷ pool_tag)),
            length-append encoded.0 (length x ∷ []),
            length-append x (14 ∷ pool_tag),
          ) in
          (
            assemble (builder active x) (short_script encoded.0 x pool_tag),
            ap built (
                build-short (builder active x) encoded.0 encoded.1 encoded.3 (omega arith)
                  (omega arith) (omega arith) (omega arith)),
            serialize_legacy-assemble (builder active x) (encoded.0 ++ length x ∷ []) x
                  (14 ∷ pool_tag)
                ∙ ap₂
                    (λ n m.
                      before n (encoded.0 ++ m ∷ [])
                      ++ (x
                          ++ behind
                              (outputs_of (builder active []) (some active.witness_commitment))
                              (14 ∷ pool_tag)))
                    size e,
          ),
    )

-- If the split succeeds, every extranonce spliced into the halves gives the coinbase built with it.
pub split_coinbase-splice :
    (active : ActiveJob) (halves : List ℕ × List ℕ) (e1 e2 : List ℕ)
    → active.height < 2 ^ 32
    → split_coinbase active ≡ ok halves
    → length (e1 ++ e2) ≡ extranonce_size
    → (tx : Transaction) × (coinbase active (e1 ++ e2) ≡ ok tx)
      × (serialize_legacy tx ≡ Job.coinbase (with_halves active halves).job e1 e2)
unfolding split_coinbase Job.coinbase
split_coinbase-splice active halves e1 e2 h split size =
    let l = coinbase-layout active h in
    let s = l.2 sentinel refl in
    let x = l.2 (e1 ++ e2) size in
    let parts : split_serialised (l.0 ++ (sentinel ++ l.1)) ≡ ok (halves.0, halves.1) =
      ap split_serialised (sym s.2)
      ∙ ap (λ r. r >>= λ t. split_serialised (serialize_legacy t)) (sym s.1)
      ∙ split in
    let same = split_serialised-eq-ok l.0 l.1 halves.0 halves.1 parts in
    (
      x.0,
      x.1,
      x.2 ∙ ap₂ (λ a b. a ++ ((e1 ++ e2) ++ b)) (sym same.0) (sym same.1) ∙ simp append_assoc,
    )

-- What is true of every job that `build` returns.
unfoldable pub IsBuilt : ActiveJob → Type 0
IsBuilt active =
    (base : ActiveJob) × (halves : List ℕ × List ℕ) × (split_coinbase base ≡ ok halves)
    × (active ≡ with_halves base halves)
    × (base.job.merkle_branch ≡ coinbase_branch base.txids)

split-IsBuilt :
    (base active : ActiveJob)
    → base.job.merkle_branch ≡ coinbase_branch base.txids
    → split base ≡ ok active
    → IsBuilt active
unfolding split IsBuilt
split-IsBuilt base active branch e =
    let found = >>=-eq-ok (split_coinbase base) (λ halves. ok (with_halves base halves)) e in
    (base, found.0, found.1, sym (cc found.2), branch)

pub build-IsBuilt :
    (job_id payout_script : List ℕ) (given : BlockTemplate) (clean_jobs : Bool) (active : ActiveJob)
    → build job_id given payout_script clean_jobs ≡ ok active
    → IsBuilt active
unfolding build
build-IsBuilt job_id payout_script given clean_jobs active e =
    let read =
      >>=-eq-ok (read_template given)
        (λ inputs. split (activate job_id given payout_script clean_jobs inputs)) e in
    split-IsBuilt (activate job_id given payout_script clean_jobs read.0) active
      (unfold activate in refl) read.2
