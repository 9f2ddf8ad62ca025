-- ===== src/Mining/Block.antt =====
-- crates/mining/src/block.rs: a complete block.
pub mod Layout
mod Tests
use mac_solo_miner.Base.{
  ℕ, ◌+◌, not, if◌then◌else◌, ◌==◌, List, [], ◌∷◌, ◌++◌, length, Result, ok, err,
}
use mac_solo_miner.BtcPrimitives.Hash.{Sha256dHash}
use mac_solo_miner.BtcPrimitives.Header.{BlockHeader}
use mac_solo_miner.BtcPrimitives.Header
use mac_solo_miner.BtcPrimitives.Transaction.{Transaction, txid}
use mac_solo_miner.BtcPrimitives.Transaction
use mac_solo_miner.BtcPrimitives.Varint
use mac_solo_miner.BtcPrimitives.Merkle
use mac_solo_miner.Mining.Witness.{expect}

pub record BlockBuilder : Type 0 where
  pub coinbase : Transaction
  pub transactions : List (List ℕ)
  pub txids : List Sha256dHash

pub data BlockError : Type 0 where
  count_mismatch : ℕ → ℕ → BlockError

unfoldable pub new : Transaction → List (List ℕ) → List Sha256dHash → Result BlockError BlockBuilder
new coinbase transactions txids =
    if not (length transactions == length txids)
    then err (count_mismatch (length transactions) (length txids))
    else ok (record { coinbase = coinbase; transactions = transactions; txids = txids })

pub merkle_root : BlockBuilder → Sha256dHash
merkle_root self = expect (Merkle.merkle_root (txid self.coinbase ∷ self.txids))

pub transaction_count : BlockBuilder → ℕ
transaction_count self = length self.transactions + 1

pub append_each : List (List ℕ) → List ℕ → List ℕ
append_each [] block = block
append_each (transaction ∷ rest) block = append_each rest (block ++ transaction)

pub serialize : BlockBuilder → BlockHeader → List ℕ
serialize self header =
    let block1 = Header.serialize header in
    let block2 = Varint.encode (transaction_count self) block1 in
    let block3 = block2 ++ Transaction.serialize self.coinbase in
    append_each self.transactions block3
