-- ===== src/Stratum/Share.antt =====
-- crates/stratum/src/share.rs: what a miner submits, and its form as parameters.
pub mod RoundTrip
use mac_solo_miner.Base.{
  ℕ, if◌then◌else◌, ltb, List, [], ◌∷◌, length, Result, ok, err, ◌>>=◌, ok_or,
}
use mac_solo_miner.BtcPrimitives.Hex
use mac_solo_miner.Stratum.Value.{Value, json_array, string, as_array}
use mac_solo_miner.Stratum.Hex32.{to_hex32}
use mac_solo_miner.Stratum.Params.{string_at, hex32_or, decoded_or}

pub record Share : Type 0 where
  pub worker : List ℕ
  pub job_id : List ℕ
  pub extranonce2 : List ℕ
  pub time : ℕ
  pub nonce : ℕ

unfoldable pub to_submit_params : Share → Value
to_submit_params self = json_array (
    string self.worker
    ∷ string self.job_id
    ∷ string (Hex.encode self.extranonce2)
    ∷ string (to_hex32 self.time)
    ∷ string (to_hex32 self.nonce)
    ∷ [])

-- `panicked` stands for a panic of `hex`.
pub data ShareError : Type 0 where
  not_an_array : ShareError
  wrong_parameter_count : ℕ → ShareError
  not_a_string : ℕ → ShareError
  not_hex : ℕ → ShareError
  panicked : ShareError

unfoldable pub string_param : List Value → ℕ → Result ShareError (List ℕ)
string_param array index = string_at panicked (not_a_string index) array index

unfoldable pub u32_from_hex : List Value → ℕ → Result ShareError ℕ
u32_from_hex array index = do text ← string_param array index; hex32_or (not_hex index) text

-- From the check of the length on.
unfoldable pub read_share : List Value → Result ShareError Share
read_share array = do
  worker ← string_param array 0
  job_id ← string_param array 1
  text ← string_param array 2
  extranonce2 ← decoded_or panicked (not_hex 2) (Hex.decode text)
  time ← u32_from_hex array 3
  nonce ← u32_from_hex array 4
  ok (record {
    worker = worker;
    job_id = job_id;
    extranonce2 = extranonce2;
    time = time;
    nonce = nonce;
  })

unfoldable pub from_submit_params : Value → Result ShareError Share
from_submit_params params = do
  array ← ok_or (as_array params) not_an_array
  let share = read_share array in
      if ltb (length array) 5 then err (wrong_parameter_count (length array)) else share
