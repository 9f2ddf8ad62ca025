-- ===== src/BitcoindRpc/Template.antt =====
-- crates/bitcoind-rpc/src/template.rs: a block template, whose hashes and bytes are text in hex. A
-- string is its bytes in UTF-8.
use mac_solo_miner.Base.{
  ℕ, ◌+◌, ◌%◌, ◌^◌, ℤ, List, [], ◌∷◌, Option, Result, ok, err, ◌>>=◌, map_err, from_be_bytes,
}
use mac_solo_miner.BtcPrimitives.Hash.{Sha256dHash}
use mac_solo_miner.BtcPrimitives.Hash.Text.{ParseHashError, wrong_length, not_hex, from_str}
use mac_solo_miner.BtcPrimitives.Hex.{HexError, Decoded, decode, decode_array}
use mac_solo_miner.BtcPrimitives.Target.{Target, TargetError, from_compact}

pub record TemplateTransaction : Type 0 where
  pub data_hex : List ℕ
  pub txid_hex : List ℕ
  pub hash_hex : List ℕ
  pub fee : ℤ
  pub weight : ℕ

pub record BlockTemplate : Type 0 where
  pub version : ℕ
  pub previous_block_hash : List ℕ
  pub transactions : List TemplateTransaction
  pub coinbase_value : ℕ
  pub bits : List ℕ
  pub height : ℕ
  pub current_time : ℕ
  pub min_time : ℕ
  pub default_witness_commitment : Option (List ℕ)
  pub mutable_parts : List (List ℕ)

pub data TemplateError : Type 0 where
  bad_hash : List ℕ → TemplateError
  bad_hex : HexError → TemplateError
  bad_target : TargetError → TemplateError
  panicked : TemplateError

-- Any error of the hash is the text; its panic stays one.
abbrev pub of_parse_error : List ℕ → ParseHashError → TemplateError
of_parse_error text (wrong_length n) = bad_hash text
of_parse_error text not_hex = bad_hash text
of_parse_error text ParseHashError.panicked = TemplateError.panicked

-- A hash, or the text that is none.
unfoldable pub parse_hash : List ℕ → Result TemplateError Sha256dHash
parse_hash text = map_err (of_parse_error text) (from_str text)

abbrev pub of_hex : Decoded → Result TemplateError (List ℕ)
of_hex (Decoded.ok bytes) = ok bytes
of_hex (Decoded.err e) = err (bad_hex e)

unfoldable pub previous_block : BlockTemplate → Result TemplateError Sha256dHash
unfolding parse_hash
previous_block self = parse_hash self.previous_block_hash

unfoldable pub compact_bits : BlockTemplate → Result TemplateError ℕ
compact_bits self = do bytes ← of_hex (decode_array 4 self.bits); ok (from_be_bytes bytes)

unfoldable pub target : BlockTemplate → Result TemplateError Target
unfolding compact_bits
target self = do bits ← compact_bits self; map_err bad_target (from_compact bits)

pub sum_weights : List TemplateTransaction → ℕ
sum_weights [] = 0
sum_weights (tx ∷ rest) = (tx.weight + sum_weights rest) % 2 ^ 64

-- The sum of u64 numbers, which wraps around in a release build.
pub transactions_weight : BlockTemplate → ℕ
unfolding sum_weights
transactions_weight self = sum_weights self.transactions

pub raw : TemplateTransaction → Result TemplateError (List ℕ)
raw self = of_hex (decode self.data_hex)

pub txid : TemplateTransaction → Result TemplateError Sha256dHash
unfolding parse_hash
txid self = parse_hash self.txid_hex

pub wtxid : TemplateTransaction → Result TemplateError Sha256dHash
unfolding parse_hash
wtxid self = parse_hash self.hash_hex
