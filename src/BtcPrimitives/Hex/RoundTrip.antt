-- ===== src/BtcPrimitives/Hex/RoundTrip.antt =====
-- Hex is read back.
use mac_solo_miner.Base.{
  ℕ, ◌+◌, ◌*◌, ◌/◌, ◌%◌, ◌≡◌, ◌<◌, refl, ap, ◌∙◌, arith, true, ◌||◌, ltb, leb, ◌==◌, eq_refl, List,
  [], ◌∷◌, length, some, IsBytes,
}
use mac_solo_miner.BtcPrimitives.Hex.{
  digit, encode, from_str_radix, is_boundary, ok, decode_pairs, decode, sized_as, decode_array,
}

pub length-encode_hex : (bytes : List ℕ) → length (encode bytes) ≡ 2 * length bytes
unfolding encode
length-encode_hex [] = refl
length-encode_hex (b ∷ bytes) = omega (arith, length-encode_hex bytes)

pub digits_back : (b : ℕ) → b < 256 → from_str_radix (digit (b / 16)) (digit (b % 16)) ≡ some b
unfolding from_str_radix
digits_back b h = ground arith

pub digit_ascii : (d : ℕ) → d < 16 → (ltb (digit d) 128 || leb 192 (digit d)) ≡ true
digit_ascii d h = ground arith

pub boundary : (bytes : List ℕ) → IsBytes bytes → is_boundary (encode bytes) ≡ true
unfolding encode
boundary [] h = refl
boundary (b ∷ bytes) h = digit_ascii (b / 16) (omega (arith, h.0))

decode_pairs-encode :
    (offset : ℕ) (bytes : List ℕ) → IsBytes bytes → decode_pairs offset (encode bytes) ≡ ok bytes
unfolding encode decode_pairs
decode_pairs-encode offset [] h = refl
decode_pairs-encode offset (b ∷ bytes) h =
    rw
      (
        digit_ascii (b / 16) (omega (arith, h.0)),
        boundary bytes h.1,
        digits_back b h.0,
        decode_pairs-encode (offset + 2) bytes h.1,
      )
      refl

-- Decoding reads back the bytes that were encoded, also where their number is asked for.
pub decode_array-encode :
    (bytes : List ℕ)
    → IsBytes bytes
    → (decode (encode bytes) ≡ ok bytes) × (decode_array (length bytes) (encode bytes) ≡ ok bytes)
unfolding decode decode_array
decode_array-encode bytes h =
    (whole, ap (sized_as (length bytes)) whole ∙ rw (eq_refl (length bytes)) refl)
  where
    even : (length (encode bytes) % 2 == 0) ≡ true
    even = ground (arith, length-encode_hex bytes)

    whole : decode (encode bytes) ≡ ok bytes
    whole = rw even (decode_pairs-encode 0 bytes h)
