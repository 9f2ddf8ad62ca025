-- ===== src/Stratum/Params.antt =====
-- Positional parameters: what `Job::from_notify_params` and `Share::from_submit_params` have in
-- common, the closures `string` and `u32_from_hex` and the calls of hex with its error mapped.
use mac_solo_miner.Base.{ℕ, List, Option, none, some, get_elem?, Result, ok, err, ◌>>=◌, ok_or}
use mac_solo_miner.BtcPrimitives.Hex.{Decoded, HexError}
use mac_solo_miner.Stratum.Value.{Value, as_str}
use mac_solo_miner.Stratum.Hex32.{from_hex32}

module _ {Fault : Type 0} where
  -- `array[index]`, whose bounds were checked.
  abbrev pub at_index : Fault → Option Value → Result Fault Value
  at_index panicked none = err panicked
  at_index panicked (some value) = ok value

  unfoldable pub string_at : Fault → Fault → List Value → ℕ → Result Fault (List ℕ)
  string_at panicked not_a_string array index = do
    value ← at_index panicked (get_elem? array index)
    ok_or (as_str value) not_a_string

  abbrev pub hex32_or : Fault → List ℕ → Result Fault ℕ
  hex32_or not_hex text = ok_or (from_hex32 text) not_hex

  -- A panic of `hex` is no error.
  abbrev pub decoded_or : Fault → Fault → Decoded → Result Fault (List ℕ)
  decoded_or panicked not_hex (Decoded.ok bytes) = ok bytes
  decoded_or panicked not_hex (Decoded.err HexError.panicked) = err panicked
  decoded_or panicked not_hex (Decoded.err (HexError.odd_length n)) = err not_hex
  decoded_or panicked not_hex (Decoded.err (HexError.not_hex n)) = err not_hex
  decoded_or panicked not_hex (Decoded.err (HexError.wrong_length m n)) = err not_hex
