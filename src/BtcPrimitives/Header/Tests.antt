-- ===== src/BtcPrimitives/Header/Tests.antt =====
-- A concrete header.
use mac_solo_miner.Base.{refl, arith, IsByte, All-replicate}
use mac_solo_miner.BtcPrimitives.Hash.{zero_hash}
use mac_solo_miner.BtcPrimitives.Header.{BlockHeader, IsHeader}

-- A first block, with no transactions to commit to.
abbrev pub sample : BlockHeader
sample = record {
  version = 1;
  prev_block = zero_hash;
  merkle_root = zero_hash;
  time = 1231006505;
  bits = 0x1d00ffff;
  nonce = 0;
}

pub sample-IsHeader : IsHeader sample
sample-IsHeader = record {
  version_fits = omega arith;
  prev_fits = (refl, All-replicate IsByte 32 0 (omega arith));
  root_fits = (refl, All-replicate IsByte 32 0 (omega arith));
  time_fits = omega arith;
  bits_fit = omega arith;
  nonce_fits = omega arith;
}
