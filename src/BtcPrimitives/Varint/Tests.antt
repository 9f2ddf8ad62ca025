-- ===== src/BtcPrimitives/Varint/Tests.antt =====
-- Concrete runs of the CompactSize encoding.
use mac_solo_miner.Base.{
  ℕ, ◌^◌, ◌<◌, ◌≡◌, refl, arith, List, [], ◌∷◌, ◌++◌, take, ok, err, to_le_bytes, from_le_bytes,
}
use mac_solo_miner.BtcPrimitives.Varint.{
  unexpected_end, non_canonical, encode, encoded_len, decode, decode_first, read_le,
}
use mac_solo_miner.BtcPrimitives.Varint.RoundTrip.{decode-encode, encode-decode, decode_truncated}

decode-encode_example : decode (encode 100000 [] ++ 9 ∷ []) ≡ ok (100000, encoded_len 100000)
decode-encode_example = decode-encode 100000 (9 ∷ []) (omega arith)

-- 515 in three bytes, and a byte behind it.
abbrev three : List ℕ
three = 0xFD ∷ 0x03 ∷ 0x02 ∷ 0xAA ∷ []

encode-decode_example : (515 < 2 ^ 64) × (3 ≡ encoded_len 515) × (encode 515 [] ≡ take 3 three)
unfolding decode decode_first read_le from_le_bytes
encode-decode_example =
    encode-decode three 515 3 (omega arith, (omega arith, (omega arith, (omega arith, tt)))) refl

decode_truncated_example : decode (0xFD ∷ 0x03 ∷ []) ≡ err unexpected_end
unfolding encode to_le_bytes
decode_truncated_example = decode_truncated 515 2 (0xFD ∷ 0x03 ∷ []) [] (omega arith) refl

-- 5 in three bytes is not canonical.
long_five : decode (0xFD ∷ 0x05 ∷ 0x00 ∷ []) ≡ err non_canonical
unfolding decode decode_first read_le from_le_bytes
long_five = refl
