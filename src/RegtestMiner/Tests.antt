-- ===== src/RegtestMiner/Tests.antt =====
-- A round on a concrete block.
use mac_solo_miner.Base.{◌-◌, ◌^◌, [], ◌∷◌, replicate, none, ok}
use mac_solo_miner.BtcPrimitives.Header.Tests
use mac_solo_miner.BtcPrimitives.Transaction.{null_outpoint}
use mac_solo_miner.Mining.Search.{search}
use mac_solo_miner.RegtestMiner.Round.{Prepared, attempt}
use mac_solo_miner.RegtestMiner.Round.Ended.{IsEnd, attempt-IsEnd}

abbrev first_block : Prepared
first_block = record {
  builder = record {
    coinbase = record {
      version = 2;
      inputs =
          (record {
            previous_output = null_outpoint;
            script_sig = 0x51 ∷ 0x01 ∷ [];
            sequence = 0xFFFF_FFFF;
            witness = [];
          })
          ∷ [];
      outputs = [];
      lock_time = 0;
    };
    transactions = [];
    txids = [];
  };
  header = Tests.sample;
  target = 0x7F ∷ replicate 31 0xFF;
}

attempt-IsEnd_example :
    IsEnd
      (λ text. ok none)
      1
      first_block
      (search Tests.sample (0x7F ∷ replicate 31 0xFF) 0 (2 ^ 32 - 1)).best
      (attempt (λ text. ok none) 1 first_block)
attempt-IsEnd_example = attempt-IsEnd (λ text. ok none) 1 first_block Tests.sample-IsHeader
