-- ===== src/Sha256d/Tests.antt =====
-- Concrete runs of the padding and of the midstate.
use mac_solo_miner.Base.{
  ℕ, ◌*◌, ◌%◌, ◌<◌, ◌++◌, length, from_be_bytes, ◌≡◌, refl, arith, List, [], ◌∷◌, replicate,
  copy_from_slice, to_le_bytes,
}
use mac_solo_miner.Sha256d.Midstate.{new, hash}
use mac_solo_miner.Sha256d.Midstate.Laws.{hash-new}
use mac_solo_miner.Sha256d.Padding.Laws.{pad-IsPadded}
use mac_solo_miner.Sha256d.Padding.{pad}
use mac_solo_miner.Sha256d.Reference.{sha256d}

abbrev abc : List ℕ
abc = 0x61 ∷ 0x62 ∷ 0x63 ∷ []

hash-new_example :
    hash (new (replicate 80 7)) 5 ≡ sha256d (copy_from_slice 76 (to_le_bytes 4 5) (replicate 80 7))
hash-new_example = hash-new (replicate 80 7) 5 refl

pad-IsPadded_example :
    (k : ℕ) × (bits : List ℕ) × (pad abc ≡ abc ++ 0x80 ∷ (replicate k 0 ++ bits))
    × (k < 64)
    × (length bits ≡ 8)
    × (from_be_bytes bits ≡ 8 * length abc)
    × (length (pad abc) % 64 ≡ 0)
pad-IsPadded_example = pad-IsPadded abc (omega arith)
