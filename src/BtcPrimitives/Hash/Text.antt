-- ===== src/BtcPrimitives/Hash/Text.antt =====
-- crates/btc-primitives/src/hash.rs: a hash as text, 64 digits of hex in display order.
pub mod RoundTrip
use mac_solo_miner.Base.{
  ℕ, ◌+◌, Bool, not, ◌&&◌, if◌then◌else◌, ◌==◌, List, [], ◌∷◌, length, Option, none, some, Result,
  ok, err, ◌>>=◌, ok_or,
}
use mac_solo_miner.BtcPrimitives.Hash.{Sha256dHash, from_display_bytes, to_display_bytes}
use mac_solo_miner.BtcPrimitives.Hex.{from_str_radix, is_boundary}
use mac_solo_miner.BtcPrimitives.Hex

-- `panicked` stands for the panic of a slice that does not end where a character does.
pub data ParseHashError : Type 0 where
  wrong_length : ℕ → ParseHashError
  not_hex : ParseHashError
  panicked : ParseHashError

-- `&s[i * 2..i * 2 + 2]`, the pair and what is behind it.
pub read_pair : ℕ → ℕ → List ℕ → Result ParseHashError ℕ
read_pair a b s =
    if is_boundary (a ∷ b ∷ s) && is_boundary s
    then ok_or (from_str_radix a b) not_hex
    else err panicked

-- The loop over the bytes; the length was checked to be even.
pub read_pairs : List ℕ → Result ParseHashError (List ℕ)
read_pairs [] = ok []
read_pairs (a ∷ []) = err panicked
read_pairs (a ∷ b ∷ s) = do byte ← read_pair a b s; bytes ← read_pairs s; ok (byte ∷ bytes)

pub from_str : List ℕ → Result ParseHashError Sha256dHash
from_str s =
    if not (length s == 64)
    then err (wrong_length (length s))
    else (do bytes ← read_pairs s; ok (from_display_bytes bytes))

-- `Display`
pub to_string : Sha256dHash → List ℕ
to_string self = Hex.encode (to_display_bytes self)
