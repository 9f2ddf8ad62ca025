-- ===== src/BlkScan/Tests.antt =====
-- A concrete file of one block.
use mac_solo_miner.Base.{ℕ, ◌≡◌, arith, if◌then◌else◌, ltb, List, [], ◌∷◌, replicate}
use mac_solo_miner.BlkScan.Obfuscation.{ObfuscationKey, apply}
use mac_solo_miner.BlkScan.Scan.{scan_file, end_of_file, padding}
use mac_solo_miner.BlkScan.Scan.Files.{file_of, records_of, end_of}
use mac_solo_miner.BlkScan.Scan.Found.{scan_file-apply}

abbrev key : ObfuscationKey
key = 0xC6 ∷ 0x82 ∷ 0xA2 ∷ 0xDE ∷ 0xB4 ∷ 0x15 ∷ 0xE9 ∷ 0xA7 ∷ []

abbrev blocks : List (List ℕ)
blocks = replicate 81 7 ∷ []

scan_file-apply_example : scan_file (apply key (file_of blocks (replicate 100 0)) 0) key ≡ record {
  records = records_of 0 blocks;
  stopped_at = end_of 0 blocks;
  reason = if ltb 100 88 then end_of_file else padding;
}
scan_file-apply_example = scan_file-apply key blocks 100 ((omega arith, omega arith), tt)
