-- ===== src/BlkScan/Scan.antt =====
-- crates/blk-scan/src/scan.rs: the records of a block file. A file is the list of its bytes, which
-- no read fails inside of; the summary of the records is not modelled.
pub mod Files
pub mod Found
use mac_solo_miner.Base.{
  ℕ, zero, suc, ◌+◌, ◌-◌, if◌then◌else◌, ltb, not, List, [], ◌∷◌, length, take, drop, slice,
  replicate, bytes_eq, from_le_bytes,
}
use mac_solo_miner.BtcPrimitives.Hash.{Sha256dHash}
use mac_solo_miner.BtcPrimitives.Header.{BlockHeader}
use mac_solo_miner.BtcPrimitives.Header
use mac_solo_miner.BtcPrimitives.Hex
use mac_solo_miner.BlkScan.Obfuscation.{ObfuscationKey, apply}

abbrev pub mainnet_magic : List ℕ
mainnet_magic = 0xF9 ∷ 0xBE ∷ 0xB4 ∷ 0xD9 ∷ []

pub record BlockRecord : Type 0 where
  pub offset : ℕ
  pub size : ℕ
  pub hash : Sha256dHash
  pub previous : Sha256dHash

pub data StopReason : Type 0 where
  end_of_file : StopReason
  padding : StopReason
  corrupt : List ℕ → StopReason
  out_of_fuel : StopReason

pub record FileScan : Type 0 where
  pub records : List BlockRecord
  pub stopped_at : ℕ
  pub reason : StopReason

abbrev pub stop : ℕ → StopReason → FileScan
stop offset reason = record { records = []; stopped_at = offset; reason = reason }

abbrev pub with_record : BlockRecord → FileScan → FileScan
with_record found scan = record scan { records = found ∷ scan.records }

-- The record at an offset whose size was read.
unfoldable pub record_at : ObfuscationKey → List ℕ → ℕ → ℕ → BlockRecord
record_at key file offset size =
    let header_bytes = apply key (slice (offset + 8) (offset + 88) file) (offset + 8) in
    let header = Header.deserialize header_bytes in
    record { offset = offset; size = size; hash = Header.hash header; previous = header.prev_block }

-- The loop, on fuel, from `offset` on; the sum of offset and size stays a u64.
unfoldable pub scan_from : ObfuscationKey → List ℕ → ℕ → ℕ → FileScan
scan_from key file zero offset = stop offset out_of_fuel
scan_from key file (suc fuel) offset =
    let prefix = apply key (slice offset (offset + 8) file) offset in
    let magic = take 4 prefix in
    let size = from_le_bytes (drop 4 prefix) in
    let rest = scan_from key file fuel (offset + (8 + size)) in
    if ltb (length file) (offset + 88)
    then stop offset end_of_file
    else if bytes_eq magic (replicate 4 0)
    then stop offset padding
    else if not (bytes_eq magic mainnet_magic)
    then stop offset (corrupt (Hex.encode magic))
    else with_record (record_at key file offset size) rest

-- Each round is eight bytes further at least.
pub scan_file : List ℕ → ObfuscationKey → FileScan
scan_file file key = scan_from key file (suc (length file)) 0
