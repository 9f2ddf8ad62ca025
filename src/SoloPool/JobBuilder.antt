-- ===== src/SoloPool/JobBuilder.antt =====
-- crates/solo-pool/src/job_builder.rs: from a block template to a job. A string is its bytes in
-- UTF-8; where the source keeps the text of an error, the model keeps the error.
pub mod Sentinel
pub mod Splice
pub mod Targets
pub mod Retimed
pub mod Tests
use mac_solo_miner.Base.{
  bytes_eq, ℕ, zero, suc, ◌+◌, ◌^◌, Bool, true, false, not, ◌&&◌, if◌then◌else◌, ltb, leb, ◌==◌,
  List, [], ◌∷◌, ◌++◌, length, take, drop, Option, none, some, Result, ok, err, ◌>>=◌, map_err,
}
use mac_solo_miner.BtcPrimitives.Hash.{Sha256dHash, zero_hash}
use mac_solo_miner.BtcPrimitives.Target.{Target}
use mac_solo_miner.BtcPrimitives.Transaction.{Transaction, serialize_legacy}
use mac_solo_miner.BtcPrimitives.Merkle
use mac_solo_miner.BtcPrimitives.Hex
use mac_solo_miner.Mining.Coinbase.{CoinbaseBuilder, CoinbaseError}
use mac_solo_miner.Mining.Coinbase
use mac_solo_miner.BitcoindRpc.Template.{
  BlockTemplate, TemplateTransaction, TemplateError, wtxid, txid, raw, previous_block, compact_bits,
}
use mac_solo_miner.BitcoindRpc.Template
use mac_solo_miner.Mining.Witness.{commitment_script}
use mac_solo_miner.Stratum.Job.{Job}

abbrev pub extranonce1_size : ℕ
extranonce1_size = 4

abbrev pub extranonce2_size : ℕ
extranonce2_size = 4

abbrev pub extranonce_size : ℕ
extranonce_size = extranonce1_size + extranonce2_size

pub record ActiveJob : Type 0 where
  pub job : Job
  pub height : ℕ
  pub coinbase_value : ℕ
  pub payout_script : List ℕ
  pub witness_commitment : List ℕ
  pub transactions : List (List ℕ)
  pub txids : List Sha256dHash
  pub network_target : Target
  pub submit_not_before : Option ℕ

-- `panicked` stands for the panic of a push that is too long.
pub data BuildError : Type 0 where
  bad_template : TemplateError → BuildError
  coinbase_error : CoinbaseError → BuildError
  witness_commitment_mismatch : BuildError
  time_overflow : BuildError
  sentinel_not_unique : ℕ → BuildError
  panicked : BuildError

-- b"solo-mac-miner"
abbrev pub pool_tag : List ℕ
pool_tag = 115 ∷ 111 ∷ 108 ∷ 111 ∷ 45 ∷ 109 ∷ 97 ∷ 99 ∷ 45 ∷ 109 ∷ 105 ∷ 110 ∷ 101 ∷ 114 ∷ []

pub builder : ActiveJob → List ℕ → CoinbaseBuilder
builder self extranonce = Coinbase.witness_commitment self.witness_commitment (
    Coinbase.tag pool_tag (
      Coinbase.extranonce extranonce
        (Coinbase.new self.height self.coinbase_value self.payout_script)))

abbrev pub built : Option (Result CoinbaseError Transaction) → Result BuildError Transaction
built none = err panicked
built (some r) = map_err coinbase_error r

unfoldable pub coinbase : ActiveJob → List ℕ → Result BuildError Transaction
unfolding builder
coinbase self extranonce = built (Coinbase.build (builder self extranonce))

unfoldable pub coinbase_branch : List Sha256dHash → List Sha256dHash
coinbase_branch txids = Merkle.coinbase_branch (zero_hash ∷ txids)

abbrev pub sentinel : List ℕ
sentinel = 0xDE ∷ 0xAD ∷ 0xBE ∷ 0xEF ∷ 0xCA ∷ 0xFE ∷ 0xF0 ∷ 0x0D ∷ []

-- The offsets, from `offset` on, of the windows that are the sentinel.
pub matches_from : ℕ → List ℕ → List ℕ
matches_from offset [] = []
matches_from offset (x ∷ xs) =
    let rest = matches_from (suc offset) xs in
    if leb extranonce_size (length (x ∷ xs)) && bytes_eq (take extranonce_size (x ∷ xs)) sentinel
    then offset ∷ rest
    else rest

abbrev pub split_at_only : List ℕ → List ℕ → Result BuildError (List ℕ × List ℕ)
split_at_only serialised (offset ∷ []) =
    ok (take offset serialised, drop (offset + extranonce_size) serialised)
split_at_only serialised [] = err (sentinel_not_unique 0)
split_at_only serialised (a ∷ b ∷ rest) = err (sentinel_not_unique (length (a ∷ b ∷ rest)))

pub split_serialised : List ℕ → Result BuildError (List ℕ × List ℕ)
split_serialised serialised = split_at_only serialised (matches_from 0 serialised)

pub split_coinbase : ActiveJob → Result BuildError (List ℕ × List ℕ)
split_coinbase active = do
  transaction ← coinbase active sentinel
  split_serialised (serialize_legacy transaction)

-- `map_err(|error| BuildError::Template(..))?`
abbrev pub parsed : {A : Type 0} → Result TemplateError A → Result BuildError A
parsed r = map_err bad_template r

-- `map(..).collect::<Result<_, _>>()`
pub collect :
    {A : Type 0}
    → (TemplateTransaction → Result TemplateError A)
    → List TemplateTransaction
    → Result BuildError (List A)
collect f [] = ok []
collect f (tx ∷ rest) = do first ← parsed (f tx); others ← collect f rest; ok (first ∷ others)

-- The node's own commitment, a string of hex, against ours.
pub check_commitment : List ℕ → Option (List ℕ) → Result BuildError (List ℕ)
check_commitment ours none = ok ours
check_commitment ours (some expected) =
    if not (bytes_eq (Hex.encode ours) expected) then err witness_commitment_mismatch else ok ours

-- `u32::try_from`
abbrev pub to_u32 : ℕ → Result BuildError ℕ
to_u32 v = if ltb v (2 ^ 32) then ok v else err time_overflow

-- With the halves of the coinbase that were found.
abbrev pub with_halves : ActiveJob → List ℕ × List ℕ → ActiveJob
with_halves active halves = record active {
  job = record active.job { coinbase_prefix = halves.0; coinbase_suffix = halves.1 };
}

-- What `build` reads of the template, in its order.
pub record Inputs : Type 0 where
  pub witness_commitment : List ℕ
  pub txids : List Sha256dHash
  pub transactions : List (List ℕ)
  pub prev_hash : Sha256dHash
  pub bits : ℕ
  pub time : ℕ
  pub target : Target

pub read_template : BlockTemplate → Result BuildError Inputs
unfolding check_commitment collect
read_template given = do
  wtxids ← collect wtxid given.transactions
  witness_commitment ← check_commitment (commitment_script wtxids) given.default_witness_commitment
  txids ← collect txid given.transactions
  transactions ← collect raw given.transactions
  prev_hash ← parsed (previous_block given)
  bits ← parsed (compact_bits given)
  time ← to_u32 given.current_time
  target ← parsed (Template.target given)
  ok (record {
    witness_commitment = witness_commitment;
    txids = txids;
    transactions = transactions;
    prev_hash = prev_hash;
    bits = bits;
    time = time;
    target = target;
  })

-- The job, with no halves yet.
pub activate : List ℕ → BlockTemplate → List ℕ → Bool → Inputs → ActiveJob
activate job_id given payout_script clean_jobs inputs = record {
  job = record {
    job_id = job_id;
    prev_hash = inputs.prev_hash;
    coinbase_prefix = [];
    coinbase_suffix = [];
    merkle_branch = coinbase_branch inputs.txids;
    version = given.version;
    bits = inputs.bits;
    time = inputs.time;
    clean_jobs = clean_jobs;
  };
  height = given.height;
  coinbase_value = given.coinbase_value;
  payout_script = payout_script;
  witness_commitment = inputs.witness_commitment;
  transactions = inputs.transactions;
  txids = inputs.txids;
  network_target = inputs.target;
  submit_not_before = none;
}

pub split : ActiveJob → Result BuildError ActiveJob
split active = do halves ← split_coinbase active; ok (with_halves active halves)

pub build : List ℕ → BlockTemplate → List ℕ → Bool → Result BuildError ActiveJob
build job_id given payout_script clean_jobs = do
  inputs ← read_template given
  split (activate job_id given payout_script clean_jobs inputs)
