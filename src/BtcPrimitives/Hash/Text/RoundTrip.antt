-- ===== src/BtcPrimitives/Hash/Text/RoundTrip.antt =====
-- The text of a hash is read back.
use mac_solo_miner.Base.{
  ℕ, ◌/◌, ◌≡◌, refl, arith, List, [], ◌∷◌, length, length-reverse, reverse, All-reverse, IsArray,
  IsByte, IsBytes, ok,
}
use mathlib.Core.List.{reverse-reverse}
use mac_solo_miner.BtcPrimitives.Hash.{Sha256dHash, from_display_bytes, to_display_bytes}
use mac_solo_miner.BtcPrimitives.Hash.Text.{from_str, read_pair, read_pairs, to_string}
use mac_solo_miner.BtcPrimitives.Hex.{encode}
use mac_solo_miner.BtcPrimitives.Hex.RoundTrip.{
  length-encode_hex, digits_back, digit_ascii, boundary,
}

read_pairs-encode : (bytes : List ℕ) → IsBytes bytes → read_pairs (encode bytes) ≡ ok bytes
unfolding read_pairs read_pair encode
read_pairs-encode [] h = refl
read_pairs-encode (b ∷ bytes) h =
    rw
      (
        digit_ascii (b / 16) (omega (arith, h.0)),
        boundary bytes h.1,
        digits_back b h.0,
        read_pairs-encode bytes h.1,
      )
      refl

-- Every hash of 32 bytes is read back from its text.
pub from_str-to_string :
    (hash : Sha256dHash) → IsArray 32 hash → from_str (to_string hash) ≡ ok hash
unfolding from_str to_string to_display_bytes from_display_bytes
from_str-to_string hash h =
    let size : length (encode (reverse hash)) ≡ 64 =
      omega (arith, length-encode_hex (reverse hash), length-reverse hash, h.0) in
    rw (size, read_pairs-encode (reverse hash) (All-reverse IsByte hash h.1), reverse-reverse hash)
      refl
