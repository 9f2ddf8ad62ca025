-- ===== src/MacMiner/Install.antt =====
-- crates/mac-miner/src/main.rs: the parts of the miner's network thread that decide: the job that
-- is installed, the reply to the subscription that is read, and the wait for a response.
use mac_solo_miner.Base.{
  ℕ, ◌==◌, Bool, false, if◌then◌else◌, ltb, List, [], ◌∷◌, length, get_elem?, Option, none, some,
  Result, ok, err, ◌>>=◌, ok_or,
}
use mac_solo_miner.BtcPrimitives.Target.{Target, TargetError, from_compact}
use mac_solo_miner.BtcPrimitives.Hex
use mac_solo_miner.Stratum.Value.{Value, as_array, as_str, as_u64}
use mac_solo_miner.Stratum.Job.{Job}
use mac_solo_miner.Stratum.Params.{at_index, decoded_or}
use mac_solo_miner.Stratum.Message.{Response, StratumError, Incoming}
use mac_solo_miner.MacMiner.Work.{WorkState, set_work}

abbrev pub install_target : Result TargetError Target → Job → List ℕ → ℕ → WorkState → WorkState
install_target (err undecodable) job extranonce1 extranonce2_size state = state
install_target (ok target) job extranonce1 extranonce2_size state =
    set_work
      (record {
        job = job;
        extranonce1 = extranonce1;
        extranonce2_size = extranonce2_size;
        target = target;
      })
      state

-- A job whose target does not decode is ignored.
unfoldable pub install : Job → List ℕ → ℕ → WorkState → WorkState
install job extranonce1 extranonce2_size state =
    install_target (from_compact job.bits) job extranonce1 extranonce2_size state

-- The texts of the errors are told apart by what they complain of.
pub data SubscriptionError : Type 0 where
  not_an_array : SubscriptionError
  too_few : ℕ → SubscriptionError
  not_a_string : SubscriptionError
  not_hex : SubscriptionError
  not_a_number : SubscriptionError
  panicked : SubscriptionError

-- From the check of the length on; a `usize` has 64 bits.
unfoldable pub read_subscription : List Value → Result SubscriptionError (List ℕ × ℕ)
read_subscription array = do
  second ← at_index panicked (get_elem? array 1)
  text ← ok_or (as_str second) not_a_string
  extranonce1 ← decoded_or panicked not_hex (Hex.decode text)
  third ← at_index panicked (get_elem? array 2)
  extranonce2_size ← ok_or (as_u64 third) not_a_number
  ok (extranonce1, extranonce2_size)

unfoldable pub parse_subscription : Value → Result SubscriptionError (List ℕ × ℕ)
parse_subscription result = do
  array ← ok_or (as_array result) not_an_array
  let read = read_subscription array in
      if ltb (length array) 3 then err (too_few (length array)) else read

-- Why the handshake fails: no answer in time, or the pool's error.
pub data HandshakeError : Type 0 where
  timed_out : HandshakeError
  refused : StratumError → HandshakeError

abbrev pub is_answer : ℕ → Option ℕ → Bool
is_answer id none = false
is_answer id (some other) = other == id

abbrev pub answer_of : Response → Option StratumError → Result HandshakeError Value
answer_of response none = ok response.result
answer_of response (some error) = err (refused error)

-- The messages that arrive in time, in order.
unfoldable pub wait_for_response : ℕ → List Incoming → Result HandshakeError Value
wait_for_response id [] = err timed_out
wait_for_response id (Incoming.request request ∷ messages) = wait_for_response id messages
wait_for_response id (Incoming.response response ∷ messages) =
    let later = wait_for_response id messages in
    if is_answer id response.id then answer_of response response.error else later
