-- ===== src/Stratum/Job.antt =====
-- crates/stratum/src/job.rs: a unit of work, the header that a miner makes of it, and its form as
-- parameters.
pub mod RoundTrip
use mac_solo_miner.Base.{
  ℕ, Bool, true, false, if◌then◌else◌, ltb, List, [], ◌∷◌, ◌++◌, map, length, Option, none, some,
  get_elem?, Result, ok, err, ◌>>=◌, ok_or,
}
use mac_solo_miner.BtcPrimitives.Hash.{Sha256dHash, hash, from_internal_bytes, as_internal_bytes}
use mac_solo_miner.BtcPrimitives.Header.{BlockHeader}
use mac_solo_miner.BtcPrimitives.Hex
use mac_solo_miner.BtcPrimitives.Merkle.{root_from_coinbase_branch}
use mac_solo_miner.Stratum.ByteOrder.{hash_to_stratum, hash_from_stratum}
use mac_solo_miner.Stratum.Value.{Value, json_array, string, boolean, as_array, as_str, as_bool}
use mac_solo_miner.Stratum.Hex32.{to_hex32}
use mac_solo_miner.Stratum.Params.{at_index, string_at, hex32_or, decoded_or}

pub record Job : Type 0 where
  pub job_id : List ℕ
  pub prev_hash : Sha256dHash
  pub coinbase_prefix : List ℕ
  pub coinbase_suffix : List ℕ
  pub merkle_branch : List Sha256dHash
  pub version : ℕ
  pub bits : ℕ
  pub time : ℕ
  pub clean_jobs : Bool

unfoldable pub coinbase : Job → List ℕ → List ℕ → List ℕ
coinbase self extranonce1 extranonce2 =
    ((([] ++ self.coinbase_prefix) ++ extranonce1) ++ extranonce2) ++ self.coinbase_suffix

unfoldable pub merkle_root : Job → List ℕ → List ℕ → Sha256dHash
merkle_root self extranonce1 extranonce2 =
    root_from_coinbase_branch (hash (coinbase self extranonce1 extranonce2)) self.merkle_branch

unfoldable pub header : Job → List ℕ → List ℕ → ℕ → ℕ → BlockHeader
header self extranonce1 extranonce2 time nonce = record {
  version = self.version;
  prev_block = self.prev_hash;
  merkle_root = merkle_root self extranonce1 extranonce2;
  time = time;
  bits = self.bits;
  nonce = nonce;
}

-- An entry of the branch, as text.
abbrev pub branch_text : Sha256dHash → Value
branch_text branch_hash = string (Hex.encode (as_internal_bytes branch_hash))

unfoldable pub to_notify_params : Job → Value
to_notify_params self = json_array (
    string self.job_id
    ∷ string (Hex.encode (hash_to_stratum self.prev_hash))
    ∷ string (Hex.encode self.coinbase_prefix)
    ∷ string (Hex.encode self.coinbase_suffix)
    ∷ json_array (map branch_text self.merkle_branch)
    ∷ string (to_hex32 self.version)
    ∷ string (to_hex32 self.bits)
    ∷ string (to_hex32 self.time)
    ∷ boolean self.clean_jobs
    ∷ [])

-- `panicked` stands for a panic of `hex`.
pub data JobError : Type 0 where
  not_an_array : JobError
  wrong_parameter_count : ℕ → JobError
  not_a_string : ℕ → JobError
  not_hex : ℕ → JobError
  panicked : JobError

unfoldable pub string_param : List Value → ℕ → Result JobError (List ℕ)
string_param array index = string_at panicked (not_a_string index) array index

unfoldable pub u32_from_hex : List Value → ℕ → Result JobError ℕ
u32_from_hex array index = do text ← string_param array index; hex32_or (not_hex index) text

-- The entries are in internal order.
unfoldable pub read_branch : List Value → Result JobError (List Sha256dHash)
read_branch [] = ok []
read_branch (entry ∷ entries) = do
  text ← ok_or (as_str entry) (not_a_string 4)
  bytes ← decoded_or panicked (not_hex 4) (Hex.decode_array 32 text)
  rest ← read_branch entries
  ok (from_internal_bytes bytes ∷ rest)

abbrev pub bool_or : Bool → Option Bool → Bool
bool_or default none = default
bool_or default (some b) = b

-- From the check of the length on.
unfoldable pub read_job : List Value → Result JobError Job
read_job array = do
  prev_text ← string_param array 1
  prev_bytes ← decoded_or panicked (not_hex 1) (Hex.decode_array 32 prev_text)
  branch_value ← at_index panicked (get_elem? array 4)
  entries ← ok_or (as_array branch_value) not_an_array
  merkle_branch ← read_branch entries
  job_id ← string_param array 0
  prefix_text ← string_param array 2
  coinbase_prefix ← decoded_or panicked (not_hex 2) (Hex.decode prefix_text)
  suffix_text ← string_param array 3
  coinbase_suffix ← decoded_or panicked (not_hex 3) (Hex.decode suffix_text)
  version ← u32_from_hex array 5
  bits ← u32_from_hex array 6
  time ← u32_from_hex array 7
  clean ← at_index panicked (get_elem? array 8)
  ok (record {
    job_id = job_id;
    prev_hash = hash_from_stratum prev_bytes;
    coinbase_prefix = coinbase_prefix;
    coinbase_suffix = coinbase_suffix;
    merkle_branch = merkle_branch;
    version = version;
    bits = bits;
    time = time;
    clean_jobs = bool_or false (as_bool clean);
  })

unfoldable pub from_notify_params : Value → Result JobError Job
from_notify_params params = do
  array ← ok_or (as_array params) not_an_array
  let job = read_job array in
      if ltb (length array) 9 then err (wrong_parameter_count (length array)) else job
