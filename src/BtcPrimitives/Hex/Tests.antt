-- ===== src/BtcPrimitives/Hex/Tests.antt =====
-- Concrete runs of hex.
use mac_solo_miner.Base.{◌≡◌, refl, [], ◌∷◌}
use mac_solo_miner.BtcPrimitives.Hex.{ok, decode, decode_pairs, from_str_radix}

-- The string "+f" is taken for the byte 15.
plus_f : decode (43 ∷ 102 ∷ []) ≡ ok (15 ∷ [])
unfolding decode decode_pairs from_str_radix
plus_f = refl
