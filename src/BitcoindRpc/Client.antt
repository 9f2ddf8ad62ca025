-- ===== src/BitcoindRpc/Client.antt =====
-- crates/bitcoind-rpc/src/client.rs: a call of the node. The exchange over HTTP, the cookie's file,
-- the printer and the parser of JSON, and the text of a number are parameters.
pub mod Refused
use mac_solo_miner.Base.{
  ℕ, suc, ◌+◌, ◌%◌, ◌^◌, Bool, true, false, not, ◌&&◌, ◌||◌, if◌then◌else◌, ltb, leb, ◌==◌, List,
  [], ◌∷◌, ◌++◌, length, take, get_or, Option, none, some, Result, ok, err, ◌>>=◌, map_err,
}
use mac_solo_miner.Stratum.Message.{get_member}
use mac_solo_miner.Stratum.Value.{
  Value, null, unsigned, number, string, boolean, array, object, field, no_more, as_str,
}
use mac_solo_miner.BitcoindRpc.Text.{
  jsonrpc_key, jsonrpc_version, id_key, method_key, params_key, error_key, code_key, message_key,
  no_message, result_key, wallet_path, root_path,
}
use mac_solo_miner.BitcoindRpc.Auth.{Credentials, AuthError, authorization_header}

pub record Response : Type 0 where
  pub status : ℕ
  pub body : List ℕ

-- The text of what failed.
abbrev pub HttpError : Type 0
HttpError = List ℕ

-- A code is the number of the JSON, or 0. A malformed response keeps what `truncate` gives.
pub data RpcError : Type 0 where
  auth : AuthError → RpcError
  http : HttpError → RpcError
  unauthorized : RpcError
  bad_wallet_name : List ℕ → RpcError
  rpc : List ℕ → Value → List ℕ → RpcError
  malformed_response : List ℕ → ℕ → Option (List ℕ) → List ℕ → RpcError
  missing_result : List ℕ → RpcError
  unexpected_shape : List ℕ → List ℕ → RpcError

pub record RpcClient : Type 0 where
  pub credentials : Credentials
  pub next_id : ℕ

-- What is outside: the exchanges of a call by their number, with the header, the path and the
-- request; the cookie that is read again; the library of JSON; and the number in decimal.
pub record Outside : Type 0 where
  pub exchange : ℕ → List ℕ → List ℕ → List ℕ → Result HttpError Response
  pub cookie : Result AuthError Credentials
  pub to_text : Value → List ℕ
  pub from_str : List ℕ → Result (List ℕ) Value
  pub decimal : ℕ → List ℕ
  pub is_i64 : Value → Bool

unfoldable pub request_of : Outside → ℕ → List ℕ → Value → List ℕ
request_of outside id method params = outside.to_text (
    object (
      field jsonrpc_key (string jsonrpc_version) (
        field id_key (string (outside.decimal id))
          (field method_key (string method) (field params_key params no_more)))))

-- "… (" and " bytes total)"
abbrev pub ellipsis : List ℕ
ellipsis = 226 ∷ 128 ∷ 166 ∷ 32 ∷ 40 ∷ []

abbrev pub bytes_total : List ℕ
bytes_total = 32 ∷ 98 ∷ 121 ∷ 116 ∷ 101 ∷ 115 ∷ 32 ∷ 116 ∷ 111 ∷ 116 ∷ 97 ∷ 108 ∷ 41 ∷ []

-- A byte that continues a character of UTF-8, where a slice of a `str` cannot begin or end.
abbrev pub is_continuation : ℕ → Bool
is_continuation b = leb 128 b && leb b 191

-- At most 200 bytes of the body; `none` is the panic of the slice inside of a character.
unfoldable pub truncate : Outside → List ℕ → Option (List ℕ)
truncate outside body =
    if leb (length body) 200
    then some body
    else if is_continuation (get_or body 200 0)
    then none
    else some (take 200 body ++ ellipsis ++ outside.decimal (length body) ++ bytes_total)

unfoldable pub is_null : Value → Bool
is_null null = true
is_null (boolean b) = false
is_null (unsigned n) = false
is_null (number text) = false
is_null (string text) = false
is_null (array list) = false
is_null (object fields) = false

abbrev pub code_or : Outside → Option Value → Value
code_or outside none = unsigned 0
code_or outside (some code) = if outside.is_i64 code then code else unsigned 0

abbrev pub text_or : Option Value → List ℕ
text_or none = no_message
text_or (some value) = elim (as_str value) [ none ↦ no_message | some text ↦ text ]

-- The error of the node, if the answer has one.
unfoldable pub rpc_error : Outside → List ℕ → Option Value → Option RpcError
rpc_error outside method none = none
rpc_error outside method (some error) =
    if is_null error
    then none
    else some (
        rpc method (code_or outside (get_member code_key error))
          (text_or (get_member message_key error)))

module _ {T : Type 0} (from_value : Value → Result (List ℕ) T) where
  unfoldable pub result_of : List ℕ → Option Value → Result RpcError T
  result_of method none = err (missing_result method)
  result_of method (some value) = map_err (unexpected_shape method) (from_value value)

  unfoldable pub unless_error : Option RpcError → Result RpcError T → Result RpcError T
  unless_error (some error) result = err error
  unless_error none result = result

  -- From the body on.
  unfoldable pub read_body :
      Outside → List ℕ → ℕ → List ℕ → Result (List ℕ) Value → Result RpcError T
  read_body outside method status body (err source) =
      err (malformed_response method status (truncate outside body) source)
  read_body outside method status body (ok parsed) =
      unless_error (rpc_error outside method (get_member error_key parsed))
        (result_of method (get_member result_key parsed))

  -- A second refusal is final.
  unfoldable pub finish : Outside → List ℕ → Result HttpError Response → Result RpcError T
  finish outside method (err source) = err (http source)
  finish outside method (ok response) =
      let read =
        read_body outside method response.status response.body (outside.from_str response.body) in
      if response.status == 401 then err unauthorized else read

  -- The call again, with the cookie that was read anew.
  unfoldable pub on_reload :
      Outside
      → RpcClient
      → List ℕ
      → List ℕ
      → List ℕ
      → Result AuthError Credentials
      → Result RpcError T × RpcClient
  on_reload outside self path method request (err source) = (err (auth source), self)
  on_reload outside self path method request (ok fresh) = (
    finish outside method (outside.exchange 1 (authorization_header fresh) path request),
    record self { credentials = fresh },
  )

  unfoldable pub on_first :
      Outside
      → RpcClient
      → List ℕ
      → List ℕ
      → List ℕ
      → Result HttpError Response
      → Result RpcError T × RpcClient
  on_first outside self path method request (err source) = (err (http source), self)
  on_first outside self path method request (ok response) =
      let again = on_reload outside self path method request outside.cookie in
      if response.status == 401 then again else (finish outside method (ok response), self)

  unfoldable pub call_at :
      Outside → RpcClient → List ℕ → List ℕ → Value → Result RpcError T × RpcClient
  call_at outside self path method params =
      let request = request_of outside self.next_id method params in
      on_first outside (record self { next_id = (self.next_id + 1) % 2 ^ 64 }) path method request
        (outside.exchange 0 (authorization_header self.credentials) path request)

  unfoldable pub call : Outside → RpcClient → List ℕ → Value → Result RpcError T × RpcClient
  call outside self method params = call_at outside self root_path method params

  -- Letters, digits, `-`, `_` and `.`
  abbrev pub is_wallet_byte : ℕ → Bool
  is_wallet_byte b =
      (leb 48 b && leb b 57)
      || (leb 65 b && leb b 90)
      || (leb 97 b && leb b 122)
      || b == 45
      || b == 95
      || b == 46

  abbrev pub are_wallet_bytes : List ℕ → Bool
  are_wallet_bytes [] = true
  are_wallet_bytes (b ∷ rest) = is_wallet_byte b && are_wallet_bytes rest

  unfoldable pub call_wallet :
      Outside → RpcClient → List ℕ → List ℕ → Value → Result RpcError T × RpcClient
  call_wallet outside self wallet method params =
      let called = call_at outside self (wallet_path ++ wallet) method params in
      if not (are_wallet_bytes wallet) then (err (bad_wallet_name wallet), self) else called
