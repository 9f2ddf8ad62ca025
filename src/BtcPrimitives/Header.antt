-- ===== src/BtcPrimitives/Header.antt =====
-- crates/btc-primitives/src/header.rs: the block header of 80 bytes. The i32 `version` is the
-- number below 2^32 with its bit pattern, so `as i32` and `as u32` change nothing.
pub mod Layout
pub mod RoundTrip
pub mod Nonce
pub mod Tests
use mac_solo_miner.Base.{
  ℕ, ◌^◌, ◌<◌, Bool, List, slice, replicate, copy_from_slice, Result, ok, ◌>>=◌, to_le_bytes,
  from_le_bytes, IsArray,
}
use mac_solo_miner.BtcPrimitives.Hash.{Sha256dHash, as_internal_bytes, from_internal_bytes}
use mac_solo_miner.BtcPrimitives.Hash
use mac_solo_miner.BtcPrimitives.Target.{Target, TargetError, from_compact, is_met_by}

abbrev pub header_size : ℕ
header_size = 80

abbrev pub nonce_offset : ℕ
nonce_offset = 76

pub record BlockHeader : Type 0 where
  pub version : ℕ
  pub prev_block : Sha256dHash
  pub merkle_root : Sha256dHash
  pub time : ℕ
  pub bits : ℕ
  pub nonce : ℕ

-- What the field types of Rust give: 32-bit integers and hashes of 32 bytes.
pub record IsHeader (h : BlockHeader) : Type 0 where
  pub version_fits : h.version < 2 ^ 32
  pub prev_fits : IsArray 32 h.prev_block
  pub root_fits : IsArray 32 h.merkle_root
  pub time_fits : h.time < 2 ^ 32
  pub bits_fit : h.bits < 2 ^ 32
  pub nonce_fits : h.nonce < 2 ^ 32

pub serialize : BlockHeader → List ℕ
serialize self =
    let out0 : List ℕ = replicate header_size 0 in
    let out1 = copy_from_slice 0 (to_le_bytes 4 self.version) out0 in
    let out2 = copy_from_slice 4 (as_internal_bytes self.prev_block) out1 in
    let out3 = copy_from_slice 36 (as_internal_bytes self.merkle_root) out2 in
    let out4 = copy_from_slice 68 (to_le_bytes 4 self.time) out3 in
    let out5 = copy_from_slice 72 (to_le_bytes 4 self.bits) out4 in
    copy_from_slice nonce_offset (to_le_bytes 4 self.nonce) out5

pub deserialize : List ℕ → BlockHeader
deserialize bytes = record {
  version = from_le_bytes (slice 0 4 bytes);
  prev_block = from_internal_bytes (slice 4 36 bytes);
  merkle_root = from_internal_bytes (slice 36 68 bytes);
  time = from_le_bytes (slice 68 72 bytes);
  bits = from_le_bytes (slice 72 76 bytes);
  nonce = from_le_bytes (slice nonce_offset 80 bytes);
}

pub hash : BlockHeader → Sha256dHash
hash self = Hash.hash (serialize self)

pub target : BlockHeader → Result TargetError Target
target self = from_compact self.bits

pub is_valid_proof_of_work : BlockHeader → Result TargetError Bool
unfolding hash target
is_valid_proof_of_work self = do t ← target self; ok (is_met_by t (hash self))
