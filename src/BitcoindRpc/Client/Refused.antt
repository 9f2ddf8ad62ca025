-- ===== src/BitcoindRpc/Client/Refused.antt =====
-- When a call of the node is refused: two exchanges that end in 401.
use mac_solo_miner.Base.{
  ℕ, Bool, true, false, ◌&&◌, ◌==◌, Bool-cases, Option, none, some, List, Result, ok, err, map_err,
  ◌≡◌, refl, ◌∙◌, inl, inr, ◌+◌, ◌%◌, ◌^◌,
}
use mac_solo_miner.Stratum.Value.{Value}
use mac_solo_miner.Stratum.Message.{get_member}
use mac_solo_miner.BitcoindRpc.Auth.{Credentials, AuthError, authorization_header}
use mac_solo_miner.BitcoindRpc.Text.{error_key, result_key}
use mac_solo_miner.BitcoindRpc.Client.{
  Response, HttpError, RpcError, RpcClient, Outside, auth, http, unauthorized, bad_wallet_name, rpc,
  malformed_response, missing_result, unexpected_shape, is_null, request_of, rpc_error, result_of,
  unless_error, read_body, finish, on_reload, on_first, call_at,
}

-- The answer of an exchange is a refusal.
abbrev pub is_refusal : Result HttpError Response → Bool
is_refusal (err source) = false
is_refusal (ok response) = response.status == 401

-- The cookie could be read, and the exchange made with it is refused.
abbrev pub is_refused_again : Outside → List ℕ → List ℕ → Result AuthError Credentials → Bool
is_refused_again outside path request (err source) = false
is_refused_again outside path request (ok fresh) =
    is_refusal (outside.exchange 1 (authorization_header fresh) path request)

abbrev pub is_unauthorized : {T : Type 0} → Result RpcError T → Bool
is_unauthorized (ok value) = false
is_unauthorized (err (auth source)) = false
is_unauthorized (err (http source)) = false
is_unauthorized (err unauthorized) = true
is_unauthorized (err (bad_wallet_name wallet)) = false
is_unauthorized (err (rpc method code message)) = false
is_unauthorized (err (malformed_response method status body source)) = false
is_unauthorized (err (missing_result method)) = false
is_unauthorized (err (unexpected_shape method source)) = false

module _ {T : Type 0} (from_value : Value → Result (List ℕ) T) where
  shape_lem :
      (method : List ℕ) (result : Result (List ℕ) T)
      → is_unauthorized (map_err (unexpected_shape method) result) ≡ false
  shape_lem method (ok value) = refl
  shape_lem method (err source) = refl

  result_of_lem :
      (method : List ℕ) (value : Option Value)
      → is_unauthorized (result_of from_value method value) ≡ false
  unfolding result_of
  result_of_lem method none = refl
  result_of_lem method (some value) = shape_lem method (from_value value)

  unless_error_lem :
      (outside : Outside) (method : List ℕ) (error value : Option Value)
      → is_unauthorized (
          unless_error from_value
            (rpc_error outside method error)
            (result_of from_value method value))
        ≡ false
  unfolding unless_error rpc_error
  unless_error_lem outside method none value = result_of_lem method value
  unless_error_lem outside method (some error) value = elim (Bool-cases (is_null error)) [
    | inl nothing ↦ rw nothing (result_of_lem method value)
    | inr stated ↦ rw stated refl
  ]

  read_body_lem :
      (outside : Outside) (method : List ℕ) (status : ℕ) (body : List ℕ)
      (parsed : Result (List ℕ) Value)
      → is_unauthorized (read_body from_value outside method status body parsed) ≡ false
  unfolding read_body
  read_body_lem outside method status body (err source) = refl
  read_body_lem outside method status body (ok parsed) =
      unless_error_lem outside method (get_member error_key parsed) (get_member result_key parsed)

  finish_lem :
      (outside : Outside) (method : List ℕ) (response : Result HttpError Response)
      → is_unauthorized (finish from_value outside method response) ≡ is_refusal response
  unfolding finish
  finish_lem outside method (err source) = refl
  finish_lem outside method (ok response) =
      let read =
        read_body_lem outside method response.status response.body
          (outside.from_str response.body) in
      elim (Bool-cases (response.status == 401)) [
        | inl refused ↦ rw refused refl
        | inr taken ↦ rw taken read
      ]

  on_reload_lem :
      (outside : Outside) (self : RpcClient) (path method request : List ℕ)
      (cookie : Result AuthError Credentials)
      → is_unauthorized (on_reload from_value outside self path method request cookie).0
        ≡ is_refused_again outside path request cookie
  unfolding on_reload
  on_reload_lem outside self path method request (err source) = refl
  on_reload_lem outside self path method request (ok fresh) =
      finish_lem outside method (outside.exchange 1 (authorization_header fresh) path request)

  on_first_lem :
      (outside : Outside) (self : RpcClient) (path method request : List ℕ)
      (first : Result HttpError Response)
      → is_unauthorized (on_first from_value outside self path method request first).0
        ≡ (is_refusal first && is_refused_again outside path request outside.cookie)
  unfolding on_first
  on_first_lem outside self path method request (err source) = refl
  on_first_lem outside self path method request (ok response) =
      elim (Bool-cases (response.status == 401)) [
        | inl refused ↦ rw refused (on_reload_lem outside self path method request outside.cookie)
        | inr taken ↦ rw taken (finish_lem outside method (ok response) ∙ taken)
      ]

  -- A call is unauthorized exactly if the first exchange is refused, the cookie can be read again,
  -- and the exchange made with the new cookie is refused too.
  pub call_at-unauthorized :
      (outside : Outside) (self : RpcClient) (path method : List ℕ) (params : Value)
      → let request = request_of outside self.next_id method params in
        is_unauthorized (call_at from_value outside self path method params).0 ≡ (
          is_refusal (outside.exchange 0 (authorization_header self.credentials) path request)
          && is_refused_again outside path request outside.cookie)
  unfolding call_at
  call_at-unauthorized outside self path method params =
      let request : List ℕ = request_of outside self.next_id method params in
      on_first_lem outside (record self { next_id = (self.next_id + 1) % 2 ^ 64 }) path method
        request (outside.exchange 0 (authorization_header self.credentials) path request)
