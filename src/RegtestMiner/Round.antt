-- ===== src/RegtestMiner/Round.antt =====
-- crates/regtest-miner/src/round.rs: one attempt at a block. What the node answers to the block's
-- text is a parameter.
pub mod Ended
use mac_solo_miner.Base.{
  ℕ, suc, ◌+◌, ◌-◌, ◌^◌, not, if◌then◌else◌, ltb, List, [], ◌∷◌, Option, none, some, Result, ok,
  err, ◌>>=◌, map_err, bytes_eq, to_le_bytes,
}
use mac_solo_miner.BtcPrimitives.Hash.{Sha256dHash, leading_zero_bits}
use mac_solo_miner.BtcPrimitives.Header.{BlockHeader}
use mac_solo_miner.BtcPrimitives.Hex
use mac_solo_miner.BtcPrimitives.Target.{Target}
use mac_solo_miner.BtcPrimitives.Transaction.{Transaction}
use mac_solo_miner.BitcoindRpc.Template.{
  BlockTemplate, TemplateTransaction, TemplateError, raw, txid, wtxid, previous_block, compact_bits,
}
use mac_solo_miner.BitcoindRpc.Template
use mac_solo_miner.Mining.Coinbase.{CoinbaseError}
use mac_solo_miner.Mining.Coinbase
use mac_solo_miner.Mining.Witness.{commitment_script}
use mac_solo_miner.Mining.Block.{BlockBuilder, BlockError}
use mac_solo_miner.Mining.Block
use mac_solo_miner.Mining.Search.{Solution, SearchResult, search}

pub data Outcome : Type 0 where
  accepted : Sha256dHash → ℕ → ℕ → ℕ → Outcome
  rejected : List ℕ → Outcome
  exhausted : Sha256dHash → ℕ → Outcome

-- What is boxed as an error; `panicked` is the panic of the builder of the coinbase.
pub data RoundError : Type 0 where
  bad_template : TemplateError → RoundError
  commitment_mismatch : RoundError
  bad_coinbase : CoinbaseError → RoundError
  panicked : RoundError
  bad_block : BlockError → RoundError
  time_overflow : RoundError
  rpc : List ℕ → RoundError

-- `map(..).collect::<Result<_, _>>()?`
pub collect :
    {A : Type 0}
    → (TemplateTransaction → Result TemplateError A)
    → List TemplateTransaction
    → Result RoundError (List A)
collect f [] = ok []
collect f (tx ∷ rest) = do
  first ← map_err bad_template (f tx)
  others ← collect f rest
  ok (first ∷ others)

pub check_commitment : List ℕ → Option (List ℕ) → Result RoundError (List ℕ)
check_commitment ours none = ok ours
check_commitment ours (some expected) =
    if not (bytes_eq (Hex.encode ours) expected) then err commitment_mismatch else ok ours

-- "solo-mac-miner"
abbrev pub tag : List ℕ
tag = 115 ∷ 111 ∷ 108 ∷ 111 ∷ 45 ∷ 109 ∷ 97 ∷ 99 ∷ 45 ∷ 109 ∷ 105 ∷ 110 ∷ 101 ∷ 114 ∷ []

abbrev pub built : Option (Result CoinbaseError Transaction) → Result RoundError Transaction
built none = err panicked
built (some made) = map_err bad_coinbase made

pub coinbase_of : BlockTemplate → List ℕ → ℕ → List ℕ → Result RoundError Transaction
coinbase_of given payout_script extranonce commitment = built (
    Coinbase.build (
      Coinbase.witness_commitment commitment (
        Coinbase.tag tag (
          Coinbase.extranonce (to_le_bytes 8 extranonce)
            (Coinbase.new given.height given.coinbase_value payout_script)))))

-- `u32::try_from`
abbrev pub to_u32 : ℕ → Result RoundError ℕ
to_u32 v = if ltb v (2 ^ 32) then ok v else err time_overflow

-- The block without its nonce, and its target.
pub record Prepared : Type 0 where
  pub builder : BlockBuilder
  pub header : BlockHeader
  pub target : Target

-- The steps 1 to 3, and the target of step 4.
pub prepare : BlockTemplate → List ℕ → ℕ → Result RoundError Prepared
prepare given payout_script extranonce = do
  wtxids ← collect wtxid given.transactions
  commitment ← check_commitment (commitment_script wtxids) given.default_witness_commitment
  coinbase ← coinbase_of given payout_script extranonce commitment
  raw_transactions ← collect raw given.transactions
  txids ← collect txid given.transactions
  builder ← map_err bad_block (Block.new coinbase raw_transactions txids)
  prev_block ← map_err bad_template (previous_block given)
  time ← to_u32 given.current_time
  bits ← map_err bad_template (compact_bits given)
  target ← map_err bad_template (Template.target given)
  ok (record {
    builder = builder;
    header = record {
      version = given.version;
      prev_block = prev_block;
      merkle_root = Block.merkle_root builder;
      time = time;
      bits = bits;
      nonce = 0;
    };
    target = target;
  })

abbrev pub on_answer : ℕ → Solution → ℕ → Option (List ℕ) → Outcome
on_answer height solution hashes none = accepted solution.hash height solution.nonce hashes
on_answer height solution hashes (some reason) = rejected reason

module _ (submit_block : List ℕ → Result (List ℕ) (Option (List ℕ))) where
  -- The step 5, where a solution was found.
  unfoldable pub on_result :
      ℕ → Prepared → SearchResult → Option Solution → Result RoundError Outcome
  on_result height given result none = ok (exhausted result.best (leading_zero_bits result.best))
  on_result height given result (some solution) =
      let solved = record given.header { nonce = solution.nonce } in
      map_err rpc (submit_block (Hex.encode (Block.serialize given.builder solved)))
      >>= (λ answer. ok (on_answer height solution result.hashes answer))

  -- The steps 4 and 5.
  unfoldable pub attempt : ℕ → Prepared → Result RoundError Outcome
  attempt height given =
      let result = search given.header given.target 0 (2 ^ 32 - 1) in
      on_result height given result result.solution

  pub mine : BlockTemplate → List ℕ → ℕ → Result RoundError Outcome
  mine given payout_script extranonce = do
    prepared ← prepare given payout_script extranonce
    attempt given.height prepared
