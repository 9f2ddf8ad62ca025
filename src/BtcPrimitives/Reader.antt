-- ===== src/BtcPrimitives/Reader.antt =====
-- crates/btc-primitives/src/reader.rs: a bounds-checked cursor over bytes. A method that takes
-- `&mut self` and returns a `Result` is a `Read`; usize has 64 bits.
pub mod Reads
use mac_solo_miner.Base.{
  ℕ, zero, suc, ◌+◌, ◌-◌, ◌^◌, Bool, if◌then◌else◌, ltb, leb, ◌==◌, List, [], ◌∷◌, take, drop,
  length, slice, Option, none, some, Result, ok, err, ok_or, map_err, from_le_bytes,
}
use mac_solo_miner.BtcPrimitives.Hash.{Sha256dHash, from_internal_bytes}
use mac_solo_miner.BtcPrimitives.Varint.{VarIntError, decode}

pub data ReadError : Type 0 where
  unexpected_end : ReadError
  bad_var_int : VarIntError → ReadError

pub record Reader : Type 0 where
  pub bytes : List ℕ
  pub position : ℕ

-- What a method does: it fails, or returns a value and the cursor as it leaves it.
abbrev pub Read : Type 0 → Type 0
Read A = Reader → Result ReadError (A × Reader)

abbrev pub pure : {A : Type 0} → A → Read A
pure a = λ self. ok (a, self)

abbrev pub and_then :
    {A B : Type 0} → (A → Read B) → Result ReadError (A × Reader) → Result ReadError (B × Reader)
and_then f (ok p) = f p.0 p.1
and_then f (err e) = err e

infixl 5 ◌>>=◌
-- The chain `?`.
unfoldable pub ◌>>=◌ : {A B : Type 0} → Read A → (A → Read B) → Read B
m >>= f = λ self. and_then f (m self)

abbrev pub new : List ℕ → Reader
new bytes = record { bytes = bytes; position = 0 }

pub remaining : Reader → ℕ
remaining self = length self.bytes - self.position

pub is_empty : Reader → Bool
unfolding remaining
is_empty self = remaining self == 0

-- `checked_add` of usize.
abbrev pub checked_add : ℕ → ℕ → Option ℕ
checked_add a b = if ltb (a + b) (2 ^ 64) then some (a + b) else none

-- `bytes.get(from..to)`
abbrev pub get_range : ℕ → ℕ → List ℕ → Option (List ℕ)
get_range from to bytes =
    if leb from to
    then (if leb to (length bytes) then some (slice from to bytes) else none)
    else none

-- The move to `end`, with the slice that was found.
abbrev pub advance : ℕ → Reader → Option (List ℕ) → Result ReadError (List ℕ × Reader)
advance end self none = err unexpected_end
advance end self (some found) = ok (found, record self { position = end })

abbrev pub read_to : Reader → Option ℕ → Result ReadError (List ℕ × Reader)
read_to self none = err unexpected_end
read_to self (some end) = advance end self (get_range self.position end self.bytes)

pub read_bytes : ℕ → Read (List ℕ)
read_bytes count = λ self. read_to self (checked_add self.position count)

pub read_u32 : Read ℕ
read_u32 = do array ← read_bytes 4; pure (from_le_bytes array)

-- The bit pattern of the i32.
pub read_i32 : Read ℕ
read_i32 = do array ← read_bytes 4; pure (from_le_bytes array)

pub read_u64 : Read ℕ
read_u64 = do array ← read_bytes 8; pure (from_le_bytes array)

pub read_hash : Read Sha256dHash
read_hash = do array ← read_bytes 32; pure (from_internal_bytes array)

abbrev pub consume : Reader → Result VarIntError (ℕ × ℕ) → Result ReadError (ℕ × Reader)
consume self (err e) = err (bad_var_int e)
consume self (ok decoded) = ok (decoded.0, record self { position = self.position + decoded.1 })

pub read_varint : Read ℕ
read_varint = λ self. consume self (decode (drop self.position self.bytes))

pub read_var_bytes : Read (List ℕ)
read_var_bytes = do size ← read_varint; read_bytes size

-- `for _ in 0..count { out.push(m()?) }`
pub read_times : {A : Type 0} → ℕ → Read A → Read (List A)
read_times zero m = pure []
read_times (suc count) m = do first ← m; rest ← read_times count m; pure (first ∷ rest)
