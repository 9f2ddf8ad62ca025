-- ===== src/BtcPrimitives/Hex.antt =====
-- crates/btc-primitives/src/hex.rs: hex, over the bytes of a string in UTF-8.
pub mod RoundTrip
mod Tests
use mac_solo_miner.Base.{
  ℕ, zero, suc, ◌+◌, ◌-◌, ◌*◌, ◌/◌, ◌%◌, Bool, true, false, not, ◌&&◌, ◌||◌, if◌then◌else◌, ltb,
  leb, ◌==◌, List, [], ◌∷◌, length, Option, none, some,
}

-- A digit of `{:x}`.
abbrev pub digit : ℕ → ℕ
digit d = if ltb d 10 then 48 + d else 87 + d

unfoldable pub encode : List ℕ → List ℕ
encode [] = []
encode (byte ∷ bytes) = digit (byte / 16) ∷ digit (byte % 16) ∷ encode bytes

-- `char::to_digit(16)`
abbrev pub to_digit : ℕ → Option ℕ
to_digit c =
    if leb 48 c && leb c 57
    then some (c - 48)
    else if leb 97 c && leb c 102
    then some (c - 87)
    else if leb 65 c && leb c 70
    then some (c - 55)
    else none

abbrev pub two_digits : Option ℕ → Option ℕ → Option ℕ
two_digits none low = none
two_digits (some high) none = none
two_digits (some high) (some low) = some (16 * high + low)

-- `u8::from_str_radix(pair, 16)`, which takes a sign `+` in front of a digit.
pub from_str_radix : ℕ → ℕ → Option ℕ
from_str_radix a b = if a == 43 then to_digit b else two_digits (to_digit a) (to_digit b)

-- `panicked` stands for the panic of a slice that does not end where a character does.
pub data HexError : Type 0 where
  odd_length : ℕ → HexError
  not_hex : ℕ → HexError
  wrong_length : ℕ → ℕ → HexError
  panicked : HexError

-- Whether a character begins here.
abbrev pub is_boundary : List ℕ → Bool
is_boundary [] = true
is_boundary (c ∷ rest) = ltb c 128 || leb 192 c

pub data Decoded : Type 0 where
  ok : List ℕ → Decoded
  err : HexError → Decoded

abbrev pub push_front : ℕ → Option ℕ → Decoded → Decoded
push_front offset none rest = err (not_hex offset)
push_front offset (some byte) (ok bytes) = ok (byte ∷ bytes)
push_front offset (some byte) (err e) = err e

-- The pairs from `offset` on.
pub decode_pairs : ℕ → List ℕ → Decoded
decode_pairs offset [] = ok []
decode_pairs offset (a ∷ []) = err panicked
decode_pairs offset (a ∷ b ∷ s) =
    let rest = decode_pairs (offset + 2) s in
    if is_boundary (a ∷ b ∷ s) && is_boundary s
    then push_front offset (from_str_radix a b) rest
    else err panicked

pub decode : List ℕ → Decoded
decode s = if not (length s % 2 == 0) then err (odd_length (length s)) else decode_pairs 0 s

abbrev pub sized_as : ℕ → Decoded → Decoded
sized_as n (err e) = err e
sized_as n (ok bytes) = if length bytes == n then ok bytes else err (wrong_length n (length bytes))

pub decode_array : ℕ → List ℕ → Decoded
decode_array n s = sized_as n (decode s)
