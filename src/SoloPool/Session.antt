-- ===== src/SoloPool/Session.antt =====
-- crates/solo-pool/src/session.rs: a connected miner. What is sent is a list of messages, before
-- they are printed; what is logged is left out. The library that parses lines, the texts of
-- errors, the number for the difficulty, the node, and what makes a line blank are parameters.
pub mod Answers
pub mod Kept
pub mod Authorization
pub mod Distinct
mod Tests
use mac_solo_miner.Base.{
  bytes_eq, ℕ, ◌+◌, ◌%◌, ◌^◌, Bool, true, false, not, if◌then◌else◌, List, [], ◌∷◌, ◌++◌, Option,
  none, some, Result, ok, err, to_be_bytes,
}
use mac_solo_miner.BtcPrimitives.Hex
use mac_solo_miner.Stratum.Value.{Value, json_array, string, boolean, unsigned}
use mac_solo_miner.Stratum.Hex32.{digits}
use mac_solo_miner.Stratum.Text
use mac_solo_miner.Stratum.Message.{
  Request, Response, StratumError, Incoming, ParseError, Library, parse, notification, reply_ok,
  reply_error, unauthorized, other, job_not_found,
}
use mac_solo_miner.Stratum.Share.{Share, ShareError, from_submit_params}
use mac_solo_miner.Stratum.Job.{to_notify_params}
use mac_solo_miner.SoloPool.JobBuilder.{ActiveJob, extranonce2_size}
use mac_solo_miner.SoloPool.State.{
  PoolState, current_job, job_by_id, subscribe, unsubscribe, allocate_connection_id,
}
use mac_solo_miner.SoloPool.Validate.{Verdict, ValidationError, check}

-- What goes through the channel to the writer.
pub data Message : Type 0 where
  response : Response → Message
  push : Request → Message

pub record Session : Type 0 where
  pub connection_id : ℕ
  pub extranonce1 : List ℕ
  pub authorized : Bool
  pub outbound : ℕ

-- What is outside.
pub record Outside : Type 0 where
  pub library : Library
  pub share_error_text : ShareError → List ℕ
  pub validation_error_text : ValidationError → List ℕ
  pub difficulty : ℕ → Value
  pub submit_block : List ℕ → Result (List ℕ) (Option (List ℕ))
  pub is_blank : List ℕ → Bool

-- What a line leads to: the session and the pool behind it, what was sent, and whether fresh work
-- was asked for.
pub record Handled : Type 0 where
  pub session : Session
  pub pool : PoolState
  pub sent : List Message
  pub refresh : Bool

-- `as u32` keeps the low 32 bits.
unfoldable pub extranonce1_of : ℕ → List ℕ
extranonce1_of connection_id = to_be_bytes 4 (connection_id % 2 ^ 32)

unfoldable pub session_of : ℕ → ℕ → Session
session_of connection_id outbound = record {
  connection_id = connection_id;
  extranonce1 = extranonce1_of connection_id;
  authorized = false;
  outbound = outbound;
}

unfoldable pub reply : Response → Bool → Session → PoolState → Handled
reply answer refresh self pool = record {
  session = self;
  pool = pool;
  sent = response answer ∷ [];
  refresh = refresh;
}

-- The reply to a subscription, with its id twice.
pub subscription : Session → Value
subscription self =
    let subscription_id = string (digits 16 self.connection_id) in
    json_array (
      json_array (
        json_array (string Text.set_difficulty ∷ subscription_id ∷ [])
        ∷ json_array (string Text.notify ∷ subscription_id ∷ [])
        ∷ [])
      ∷ string (Hex.encode self.extranonce1)
      ∷ unsigned extranonce2_size
      ∷ [])

unfoldable pub on_subscribe : Request → Session → PoolState → Handled
on_subscribe request self pool =
    reply (reply_ok request.id (subscription self)) false self
      (subscribe self.connection_id self.outbound pool)

unfoldable pub work_messages : (ℕ → Value) → Option ActiveJob → List Message
work_messages difficulty none = []
work_messages difficulty (some active) =
    push (notification Text.set_difficulty (json_array (difficulty active.job.bits ∷ [])))
    ∷ push (notification Text.notify (to_notify_params active.job))
    ∷ []

unfoldable pub send_current_work : Outside → PoolState → List Message
send_current_work outside pool = work_messages outside.difficulty (current_job pool)

-- The worker's name is only logged.
unfoldable pub on_authorize : Outside → Request → Session → PoolState → Handled
on_authorize outside request self pool = record {
  session = record self { authorized = true };
  pool = pool;
  sent = response (reply_ok request.id (boolean true)) ∷ send_current_work outside pool;
  refresh = false;
}

-- The answer to a share that was checked, and whether fresh work is asked for.
unfoldable pub verdict_reply : Outside → Option ℕ → Result ValidationError Verdict → Response × Bool
verdict_reply outside id (ok (Verdict.block_accepted hash height)) =
    (reply_ok id (boolean true), true)
verdict_reply outside id (ok (Verdict.block_stale reason hash)) = (reply_ok id (boolean true), true)
verdict_reply outside id (ok (Verdict.block_rejected reason hash)) =
    (reply_error id (other (Text.node_rejected_block ++ reason)), false)
verdict_reply outside id (ok (Verdict.share hash zero_bits)) = (reply_ok id (boolean true), false)
verdict_reply outside id (err error) =
    (reply_error id (other (outside.validation_error_text error)), false)

unfoldable pub on_job : Outside → Option ℕ → Share → List ℕ → Option ActiveJob → Response × Bool
on_job outside id share extranonce1 none = (reply_error id job_not_found, false)
on_job outside id share extranonce1 (some active) =
    verdict_reply outside id (check outside.submit_block active share extranonce1)

unfoldable pub on_share :
    Outside → Option ℕ → Session → PoolState → Result ShareError Share → Response × Bool
on_share outside id self pool (err error) =
    (reply_error id (other (outside.share_error_text error)), false)
on_share outside id self pool (ok share) =
    on_job outside id share self.extranonce1 (job_by_id share.job_id pool)

unfoldable pub on_submit : Outside → Request → Session → PoolState → Handled
on_submit outside request self pool =
    let (answer, refresh) =
      on_share outside request.id self pool (from_submit_params request.params) in
    if not self.authorized
    then reply (reply_error request.id unauthorized) false self pool
    else reply answer refresh self pool

unfoldable pub on_request : Outside → Request → Session → PoolState → Handled
on_request outside request self pool =
    let declined = reply_error request.id (other (Text.unsupported_method ++ request.method)) in
    if bytes_eq request.method Text.subscribe
    then on_subscribe request self pool
    else if bytes_eq request.method Text.authorize
    then on_authorize outside request self pool
    else if bytes_eq request.method Text.submit
    then on_submit outside request self pool
    else reply declined false self pool

unfoldable pub on_incoming : Outside → Result ParseError Incoming → Session → PoolState → Handled
on_incoming outside (ok (Incoming.request request)) self pool = on_request outside request self pool
on_incoming outside (ok (Incoming.response answer)) self pool = record {
  session = self;
  pool = pool;
  sent = [];
  refresh = false;
}
on_incoming outside (err error) self pool = record {
  session = self;
  pool = pool;
  sent = [];
  refresh = false;
}

-- The connection stays open whatever the line is, so that the result `true` is left out.
unfoldable pub dispatch : Outside → List ℕ → Session → PoolState → Handled
dispatch outside line self pool = on_incoming outside (parse outside.library line) self pool

-- The loop over the lines, up to the end of the stream or an error of it.
unfoldable pub read_lines : Outside → List (List ℕ) → Session → PoolState → Session × PoolState
read_lines outside [] self pool = (self, pool)
read_lines outside (line ∷ lines) self pool =
    let handled = dispatch outside line self pool in
    let after = read_lines outside lines handled.session handled.pool in
    let skipped = read_lines outside lines self pool in
    if outside.is_blank line then skipped else after

-- A whole connection, where no other thread changes the pool meanwhile.
unfoldable pub handle : Outside → List (List ℕ) → ℕ → PoolState → PoolState
handle outside lines outbound pool =
    let (connection_id, allocated) = allocate_connection_id pool in
    let (session, after) = read_lines outside lines (session_of connection_id outbound) allocated in
    unsubscribe connection_id after
