-- ===== src/BtcPrimitives/Transaction.antt =====
-- crates/btc-primitives/src/transaction.rs: transactions, in both serialisations, with the reader
-- of both. The i32 `version` is the number below 2^32 with its bit pattern.
pub mod Bytes
pub mod RoundTrip
mod Tests
use mac_solo_miner.Base.{
  ℕ, ◌^◌, ◌-◌, Bool, true, false, not, ◌||◌, if◌then◌else◌, ◌==◌, List, [], ◌∷◌, ◌++◌, length,
  replicate, Result, to_le_bytes,
}
use mac_solo_miner.BtcPrimitives.Hash.{Sha256dHash, zero_hash, as_internal_bytes}
use mac_solo_miner.BtcPrimitives.Hash
use mac_solo_miner.BtcPrimitives.Reader.{
  Reader, Read, ReadError, pure, ◌>>=◌, new, read_i32, read_u32, read_u64, read_hash, read_bytes,
  read_varint, read_var_bytes, read_times,
}
use mac_solo_miner.BtcPrimitives.Varint

pub record OutPoint : Type 0 where
  pub txid : Sha256dHash
  pub vout : ℕ

-- `OutPoint::NULL`
abbrev pub null_outpoint : OutPoint
null_outpoint = record { txid = zero_hash; vout = 0xFFFF_FFFF }

pub record TxIn : Type 0 where
  pub previous_output : OutPoint
  pub script_sig : List ℕ
  pub sequence : ℕ
  pub witness : List (List ℕ)

pub record TxOut : Type 0 where
  pub value : ℕ
  pub script_pubkey : List ℕ

pub record Transaction : Type 0 where
  pub version : ℕ
  pub inputs : List TxIn
  pub outputs : List TxOut
  pub lock_time : ℕ

abbrev pub is_empty {ℓ} : {A : Type ℓ} → List A → Bool
is_empty [] = true
is_empty (x ∷ xs) = false

-- `any(|input| !input.witness.is_empty())`
pub any_witness : List TxIn → Bool
any_witness [] = false
any_witness (input ∷ rest) = not (is_empty input.witness) || any_witness rest

pub has_witness : Transaction → Bool
unfolding any_witness
has_witness self = any_witness self.inputs

unfoldable pub write_input : TxIn → List ℕ → List ℕ
write_input input out =
    let out1 = out ++ as_internal_bytes input.previous_output.txid in
    let out2 = out1 ++ to_le_bytes 4 input.previous_output.vout in
    let out3 = Varint.encode (length input.script_sig) out2 in
    let out4 = out3 ++ input.script_sig in out4 ++ to_le_bytes 4 input.sequence

unfoldable pub write_each_input : List TxIn → List ℕ → List ℕ
write_each_input [] out = out
write_each_input (input ∷ rest) out = write_each_input rest (write_input input out)

unfoldable pub write_inputs : Transaction → List ℕ → List ℕ
write_inputs self out = write_each_input self.inputs (Varint.encode (length self.inputs) out)

unfoldable pub write_output : TxOut → List ℕ → List ℕ
write_output output out =
    let out1 = out ++ to_le_bytes 8 output.value in
    let out2 = Varint.encode (length output.script_pubkey) out1 in out2 ++ output.script_pubkey

unfoldable pub write_each_output : List TxOut → List ℕ → List ℕ
write_each_output [] out = out
write_each_output (output ∷ rest) out = write_each_output rest (write_output output out)

unfoldable pub write_outputs : Transaction → List ℕ → List ℕ
write_outputs self out = write_each_output self.outputs (Varint.encode (length self.outputs) out)

unfoldable pub serialize_legacy : Transaction → List ℕ
serialize_legacy self =
    let out1 : List ℕ = to_le_bytes 4 self.version in
    let out2 = write_inputs self out1 in
    let out3 = write_outputs self out2 in out3 ++ to_le_bytes 4 self.lock_time

pub write_items : List (List ℕ) → List ℕ → List ℕ
write_items [] out = out
write_items (item ∷ rest) out = write_items rest (Varint.encode (length item) out ++ item)

-- `for input in &self.inputs`, one witness stack for each.
pub write_witnesses : List TxIn → List ℕ → List ℕ
write_witnesses [] out = out
write_witnesses (input ∷ rest) out =
    write_witnesses rest (write_items input.witness (Varint.encode (length input.witness) out))

pub serialize_segwit : Transaction → List ℕ
serialize_segwit self =
    let out1 : List ℕ = to_le_bytes 4 self.version in
    let out2 = (out1 ++ 0x00 ∷ []) ++ 0x01 ∷ [] in
    let out3 = write_inputs self out2 in
    let out4 = write_outputs self out3 in
    let out5 = write_witnesses self.inputs out4 in out5 ++ to_le_bytes 4 self.lock_time

pub serialize : Transaction → List ℕ
serialize self = if not (has_witness self) then serialize_legacy self else serialize_segwit self

unfoldable pub txid : Transaction → Sha256dHash
txid self = Hash.hash (serialize_legacy self)

pub wtxid : Transaction → Sha256dHash
wtxid self = Hash.hash (serialize self)

pub read_input : Read TxIn
read_input = do
  txid ← read_hash
  vout ← read_u32
  script_sig ← read_var_bytes
  sequence ← read_u32
  pure (record {
    previous_output = record { txid = txid; vout = vout };
    script_sig = script_sig;
    sequence = sequence;
    witness = [];
  })

pub read_output : Read TxOut
read_output = do
  value ← read_u64
  script_pubkey ← read_var_bytes
  pure (record { value = value; script_pubkey = script_pubkey })

pub read_stack : Read (List (List ℕ))
read_stack = do items ← read_varint; read_times items read_var_bytes

-- `for input in &mut inputs`
pub read_witnesses : List TxIn → Read (List TxIn)
read_witnesses [] = pure []
read_witnesses (input ∷ rest) = do
  stack ← read_stack
  others ← read_witnesses rest
  pure ((record input { witness = stack }) ∷ others)

-- A count of zero is the marker: the flag and the count follow.
pub read_count : ℕ → Read (Bool × ℕ)
read_count input_count =
    if input_count == 0
    then (do _flag ← read_bytes 1; real_count ← read_varint; pure (true, real_count))
    else pure (false, input_count)

pub read_stacks : Bool → List TxIn → Read (List TxIn)
read_stacks segwit inputs = if segwit then read_witnesses inputs else pure inputs

pub read_transaction : Read Transaction
read_transaction = do
  version ← read_i32
  marker ← read_varint
  count ← read_count marker
  bare ← read_times count.1 read_input
  output_count ← read_varint
  outputs ← read_times output_count read_output
  inputs ← read_stacks count.0 bare
  lock_time ← read_u32
  pure (record { version = version; inputs = inputs; outputs = outputs; lock_time = lock_time })

abbrev pub value_of : {A : Type 0} → Result ReadError (A × Reader) → Result ReadError A
value_of (Result.ok p) = Result.ok p.0
value_of (Result.err e) = Result.err e

-- What stands behind the lock time is not looked at.
pub deserialize : List ℕ → Result ReadError Transaction
unfolding read_transaction
deserialize bytes = value_of (read_transaction (new bytes))
