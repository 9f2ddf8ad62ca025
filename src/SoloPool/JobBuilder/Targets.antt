-- ===== src/SoloPool/JobBuilder/Targets.antt =====
-- The target of a job that was built is the one that its compact form stands for.
use mac_solo_miner.Base.{
  ℕ, ◌⊎◌, inl, inr, ◌≡◌, refl, sym, ap, subst, ◌∙◌, Bool, List, [], ◌∷◌, suc, length, Result, ok,
  err, map_err, >>=-eq-ok, ◌>>=◌,
}
use mac_solo_miner.BtcPrimitives.Hash.{Sha256dHash}
use mac_solo_miner.BtcPrimitives.Hash.Text.{ParseHashError, from_str}
use mac_solo_miner.BitcoindRpc.Template.{
  TemplateTransaction, of_parse_error, parse_hash, BlockTemplate, TemplateError, compact_bits,
  bad_target, txid, wtxid, raw, previous_block,
}
use mac_solo_miner.BitcoindRpc.Template
use mac_solo_miner.BtcPrimitives.Target.{Target, TargetError, from_compact}
use mac_solo_miner.SoloPool.JobBuilder.{
  ActiveJob, BuildError, Inputs, parsed, read_template, build, activate, split, split_coinbase,
  with_halves, collect, check_commitment, commitment_script, to_u32,
}

parsed-ok : {A : Type 0} → (r : Result TemplateError A) (a : A) → parsed r ≡ ok a → r ≡ ok a
parsed-ok (err e) a h = cc
parsed-ok (ok b) a h = cc

bad_target-ok :
    (r : Result TargetError Target) (a : Target) → map_err bad_target r ≡ ok a → r ≡ ok a
bad_target-ok (err e) a h = cc
bad_target-ok (ok b) a h = cc

-- What holds of the value, if there is one.
abbrev IfOk : {A : Type 0} → (A → Type 0) → Result BuildError A → Type 0
IfOk P (err e) = Unit
IfOk P (ok a) = P a

Result-cases :
    {A : Type 0}
    → (r : Result BuildError A) → ((e : BuildError) × (r ≡ err e)) ⊎ ((a : A) × (r ≡ ok a))
Result-cases (err e) = inl (e, refl)
Result-cases (ok a) = inr (a, refl)

-- What is read of the tip and of the target.
abbrev IsRead : BlockTemplate → Inputs → Type 0
IsRead given inputs =
    (from_compact inputs.bits ≡ ok inputs.target)
    × (from_str given.previous_block_hash ≡ ok inputs.prev_hash)
    × (length inputs.transactions ≡ length inputs.txids)

bad_hash-ok :
    (text : List ℕ) (r : Result ParseHashError Sha256dHash) (a : Sha256dHash)
    → map_err (of_parse_error text) r ≡ ok a
    → r ≡ ok a
bad_hash-ok text (err e) a h = cc
bad_hash-ok text (ok b) a h = cc

tip-of_hash :
    (given : BlockTemplate) (prev_hash : Sha256dHash)
    → parsed (previous_block given) ≡ ok prev_hash
    → from_str given.previous_block_hash ≡ ok prev_hash
unfolding previous_block parse_hash
tip-of_hash given prev_hash h =
    bad_hash-ok given.previous_block_hash (from_str given.previous_block_hash) prev_hash
      (parsed-ok (previous_block given) prev_hash h)

target-of_bits :
    (given : BlockTemplate) (bits : ℕ) (target : Target)
    → parsed (compact_bits given) ≡ ok bits
    → parsed (Template.target given) ≡ ok target
    → from_compact bits ≡ ok target
unfolding Template.target
target-of_bits given bits target h t = bad_target-ok (from_compact bits) target (
    sym (
      ap (λ r. r >>= (λ b. map_err bad_target (from_compact b)))
        (parsed-ok (compact_bits given) bits h))
    ∙ parsed-ok (Template.target given) target t)

length-collect :
    {A : Type 0}
    → (f : TemplateTransaction → Result TemplateError A) (txs : List TemplateTransaction)
      (l : List A)
    → collect f txs ≡ ok l
    → length l ≡ length txs
unfolding collect
length-collect f [] [] h = refl
length-collect f [] (a ∷ l) h = cc
length-collect f (tx ∷ txs) l h =
    let (first, read, rest) =
      >>=-eq-ok (parsed (f tx)) (λ first. collect f txs >>= (λ others. ok (first ∷ others))) h in
    let (others, collected, same) =
      >>=-eq-ok (collect f txs) (λ others. ok (first ∷ others)) rest in
    let whole : l ≡ first ∷ others = cc same in
    ap length whole ∙ ap suc (length-collect f txs others collected)

abbrev IsOn : BlockTemplate → ActiveJob → Type 0
IsOn given active =
    (from_compact active.job.bits ≡ ok active.network_target)
    × (from_str given.previous_block_hash ≡ ok active.job.prev_hash)
    × (length active.transactions ≡ length active.txids)

ok_target :
    (given : BlockTemplate) (r : Result BuildError ActiveJob) (a b : ActiveJob)
    → r ≡ ok a
    → r ≡ ok b
    → IsOn given a
    → IsOn given b
ok_target given r a b first second h = let e : a ≡ b = cc in subst (IsOn given) e h

read_template-target : (given : BlockTemplate) → IfOk (IsRead given) (read_template given)
unfolding read_template
read_template-target given = elim (Result-cases (collect wtxid given.transactions)) [
  | inl (e, h) ↦ rw (h) tt
  | inr (a₁, h₁) ↦
      elim (Result-cases
        (check_commitment (commitment_script a₁) given.default_witness_commitment)) [
          | inl (e, h) ↦ rw (h₁, h) tt
          | inr (a₂, h₂) ↦ elim (Result-cases (collect txid given.transactions)) [
            | inl (e, h) ↦ rw (h₁, h₂, h) tt
            | inr (a₃, h₃) ↦ elim (Result-cases (collect raw given.transactions)) [
              | inl (e, h) ↦ rw (h₁, h₂, h₃, h) tt
              | inr (a₄, h₄) ↦ elim (Result-cases (parsed (previous_block given))) [
                | inl (e, h) ↦ rw (h₁, h₂, h₃, h₄, h) tt
                | inr (a₅, h₅) ↦ elim (Result-cases (parsed (compact_bits given))) [
                  | inl (e, h) ↦ rw (h₁, h₂, h₃, h₄, h₅, h) tt
                  | inr (a₆, h₆) ↦ elim (Result-cases (to_u32 given.current_time)) [
                    | inl (e, h) ↦ rw (h₁, h₂, h₃, h₄, h₅, h₆, h) tt
                    | inr (a₇, h₇) ↦ elim (Result-cases (parsed (Template.target given))) [
                      | inl (e, h) ↦ rw (h₁, h₂, h₃, h₄, h₅, h₆, h₇, h) tt
                      | inr (a₈, h₈) ↦
                          rw (h₁, h₂, h₃, h₄, h₅, h₆, h₇, h₈)
                            (
                              target-of_bits given a₆ a₈ h₆ h₈,
                              tip-of_hash given a₅ h₅,
                              length-collect raw given.transactions a₄ h₄
                                  ∙ sym (length-collect txid given.transactions a₃ h₃),
                            )
                    ]
                  ]
                ]
              ]
            ]
          ]
        ]
]

IsRead-ok :
    (given : BlockTemplate) (r : Result BuildError Inputs) (inputs : Inputs)
    → IfOk (IsRead given) r
    → r ≡ ok inputs
    → IsRead given inputs
IsRead-ok given (err e) inputs h same = cc
IsRead-ok given (ok other) inputs h same = subst (IfOk (IsRead given)) same h

-- The target of a job that `build` returned is the one that its compact form decodes to, so that
-- a miner that decodes it works towards the target that the pool tests; the job stands on the
-- template's tip; and it has an id for each transaction.
pub build-target :
    (job_id payout_script : List ℕ) (given : BlockTemplate) (clean_jobs : Bool) (active : ActiveJob)
    → build job_id given payout_script clean_jobs ≡ ok active
    → (from_compact active.job.bits ≡ ok active.network_target)
      × (from_str given.previous_block_hash ≡ ok active.job.prev_hash)
      × (length active.transactions ≡ length active.txids)
unfolding build split activate
build-target job_id payout_script given clean_jobs active h =
    let (inputs, r, rest) =
      >>=-eq-ok (read_template given)
        (λ inputs. split (activate job_id given payout_script clean_jobs inputs)) h in
    let (halves, s, same) =
      >>=-eq-ok (split_coinbase (activate job_id given payout_script clean_jobs inputs))
        (λ halves. ok (with_halves (activate job_id given payout_script clean_jobs inputs) halves))
        rest in
    ok_target given
      (ok (with_halves (activate job_id given payout_script clean_jobs inputs) halves))
      (with_halves (activate job_id given payout_script clean_jobs inputs) halves) active refl same
      (IsRead-ok given (read_template given) inputs (read_template-target given) r)
