-- ===== src/Stratum/Message.antt =====
-- crates/stratum/src/message.rs: requests, responses and errors. Text is parsed and printed by a
-- library: `Incoming.parse` takes its functions as parameters.
use mac_solo_miner.Base.{
  ℤ, pos, bytes_eq, ℕ, Bool, true, false, List, Option, none, some, Result, ok, err, ◌>>=◌, map_err,
  if◌then◌else◌,
}
use mac_solo_miner.Stratum.Value.{Value, Fields, null, object}
use mac_solo_miner.Stratum.Text

pub record Request : Type 0 where
  pub id : Option ℕ
  pub method : List ℕ
  pub params : Value

pub call : ℕ → List ℕ → Value → Request
call id method params = record { id = some id; method = method; params = params }

unfoldable pub notification : List ℕ → Value → Request
notification method params = record { id = none; method = method; params = params }

pub is_notification : Request → Bool
is_notification self = elim self.id [ none ↦ true | some id ↦ false ]

-- The code, the message and the trace.
pub record StratumError : Type 0 where
  pub code : ℤ
  pub message : List ℕ
  pub traceback : Option (List ℕ)

pub job_not_found : StratumError
job_not_found = record { code = pos 21; message = Text.job_not_found; traceback = none }

pub low_difficulty_share : StratumError
low_difficulty_share = record {
  code = pos 23;
  message = Text.low_difficulty_share;
  traceback = none;
}

pub duplicate_share : StratumError
duplicate_share = record { code = pos 22; message = Text.duplicate_share; traceback = none }

unfoldable pub unauthorized : StratumError
unauthorized = record { code = pos 24; message = Text.unauthorized_worker; traceback = none }

pub other : List ℕ → StratumError
other message = record { code = pos 20; message = message; traceback = none }

pub record Response : Type 0 where
  pub id : Option ℕ
  pub result : Value
  pub error : Option StratumError

unfoldable pub reply_ok : Option ℕ → Value → Response
reply_ok id result = record { id = id; result = result; error = none }

unfoldable pub reply_error : Option ℕ → StratumError → Response
reply_error id error = record { id = id; result = null; error = some error }

pub is_ok : Response → Bool
is_ok self = elim self.error [ none ↦ true | some error ↦ false ]

pub data Incoming : Type 0 where
  request : Request → Incoming
  response : Response → Incoming

-- The text of the library's error.
pub data ParseError : Type 0 where
  json : List ℕ → ParseError

-- `Value::get` with a name: the member of an object.
abbrev pub member : List ℕ → Fields → Option Value
member name Fields.no_more = none
member name (Fields.field key value rest) =
    let others = member name rest in if bytes_eq key name then some value else others

abbrev pub get_member : List ℕ → Value → Option Value
get_member name (object fields) = member name fields
get_member name (Value.null) = none
get_member name (Value.boolean b) = none
get_member name (Value.unsigned n) = none
get_member name (Value.number text) = none
get_member name (Value.string text) = none
get_member name (Value.array list) = none

-- What the library does: text to a value, and a value to each of the two records.
pub record Library : Type 0 where
  pub from_str : List ℕ → Result (List ℕ) Value
  pub request_from_value : Value → Result (List ℕ) Request
  pub response_from_value : Value → Result (List ℕ) Response

abbrev pub as_request : Result (List ℕ) Request → Result ParseError Incoming
as_request (err e) = err (json e)
as_request (ok r) = ok (request r)

abbrev pub as_response : Result (List ℕ) Response → Result ParseError Incoming
as_response (err e) = err (json e)
as_response (ok r) = ok (response r)

abbrev pub by_method :
    Option Value
    → Result ParseError Incoming
    → Result ParseError Incoming
    → Result ParseError Incoming
by_method (some method) with_method without = with_method
by_method none with_method without = without

-- The presence of a method tells a request from a response.
unfoldable pub parse : Library → List ℕ → Result ParseError Incoming
parse library line = do
  value ← map_err json (library.from_str line)
  by_method (get_member Text.method_key value) (as_request (library.request_from_value value))
      (as_response (library.response_from_value value))
