-- ===== src/Mining/Block/Tests.antt =====
-- A concrete block of two transactions.
use mac_solo_miner.Base.{◌≡◌, arith, [], ◌∷◌, ◌++◌, take, drop, ok}
use mac_solo_miner.BtcPrimitives.Header.{header_size, deserialize}
use mac_solo_miner.BtcPrimitives.Header.Tests
use mac_solo_miner.BtcPrimitives.Hash.{zero_hash}
use mac_solo_miner.BtcPrimitives.Transaction.{null_outpoint}
use mac_solo_miner.BtcPrimitives.Transaction
use mac_solo_miner.BtcPrimitives.Varint.{encoded_len, decode}
use mac_solo_miner.Mining.Block.{BlockBuilder, serialize}
use mac_solo_miner.Mining.Block.Layout.{joined, block-deserialize}

abbrev sample : BlockBuilder
sample = record {
  coinbase = record {
    version = 2;
    inputs =
        (record {
          previous_output = null_outpoint;
          script_sig = 0x51 ∷ 0x01 ∷ [];
          sequence = 0xFFFF_FFFF;
          witness = [];
        })
        ∷ [];
    outputs = [];
    lock_time = 0;
  };
  transactions = (1 ∷ 2 ∷ []) ∷ [];
  txids = zero_hash ∷ [];
}

block-deserialize_example :
    (deserialize (take header_size (serialize sample Tests.sample)) ≡ Tests.sample)
    × (decode (drop header_size (serialize sample Tests.sample)) ≡ ok (2, encoded_len 2))
    × (drop (encoded_len 2) (drop header_size (serialize sample Tests.sample))
        ≡ Transaction.serialize sample.coinbase ++ joined sample.transactions)
block-deserialize_example =
    block-deserialize sample Tests.sample Tests.sample-IsHeader (omega arith)
