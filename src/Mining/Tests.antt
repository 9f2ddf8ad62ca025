-- ===== src/Mining/Tests.antt =====
-- Concrete runs of the scripts and of the coinbase.
use mac_solo_miner.Base.{
  ℕ, false, ◌≤◌, ◌<◌, ◌≡◌, refl, arith, List, [], ◌∷◌, ◌++◌, length, some, ok, from_le_bytes,
}
use mac_solo_miner.Mining.Coinbase.{CoinbaseBuilder, build, assemble}
use mac_solo_miner.Mining.Coinbase.Built.{short_script, build-short}
use mac_solo_miner.Mining.Script.{encode_script_number, encode_block_height}
use mac_solo_miner.Mining.Script.Numbers.{is_negative, encode_script_number-IsShortest}
use mac_solo_miner.Mining.Script.Heights.{read_height, encode_block_height-read}

-- 128 with one zero byte more than it needs.
encode_script_number-IsShortest_example :
    (from_le_bytes (encode_script_number 128) ≡ 128)
    × (is_negative (encode_script_number 128) ≡ false)
    × (length (encode_script_number 128) ≤ 3)
unfolding from_le_bytes is_negative
encode_script_number-IsShortest_example =
    encode_script_number-IsShortest 128 (0x80 ∷ 0 ∷ 0 ∷ []) (omega arith)
      (omega arith, (omega arith, (omega arith, tt))) refl refl

encode_block_height-read_example :
    (script : List ℕ) × (encode_block_height 17 ≡ some script)
    × (0 < length script)
    × (length script ≤ 6)
    × ((rest : List ℕ) → read_height (script ++ rest) ≡ some 17)
encode_block_height-read_example = encode_block_height-read 17 (omega arith)

abbrev sample : CoinbaseBuilder
sample = record {
  height = 1;
  value = 5000000000;
  payout_script = 0x51 ∷ [];
  extra = 1 ∷ 2 ∷ [];
  tag_bytes = 3 ∷ [];
  commitment = some (0x6A ∷ []);
}

build-short_example :
    build sample ≡ some (ok (assemble sample (short_script (0x51 ∷ []) (1 ∷ 2 ∷ []) (3 ∷ []))))
unfolding encode_block_height
build-short_example =
    build-short sample (0x51 ∷ []) refl (omega arith) (omega arith) (omega arith) (omega arith)
      (omega arith)
