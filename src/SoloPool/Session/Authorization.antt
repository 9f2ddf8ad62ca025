-- ===== src/SoloPool/Session/Authorization.antt =====
-- Who may submit.
use mac_solo_miner.Base.{
  not, if◌then◌else◌, bytes_eq, ℕ, ◌≡◌, refl, ap, ◌∙◌, Bool, true, false, Bool-cases, inl, inr,
  List, [], ◌∷◌, All, Result, ok, err,
}
use mac_solo_miner.Stratum.Text
use mac_solo_miner.Stratum.Message.{Request, Incoming, ParseError, parse, reply_error, unauthorized}
use mac_solo_miner.Stratum.Share.{from_submit_params}
use mac_solo_miner.SoloPool.State.{PoolState}
use mac_solo_miner.SoloPool.Session.{
  response, Session, Outside, Handled, reply, on_subscribe, on_submit, on_share, on_request,
  on_incoming, dispatch, session_of, read_lines,
}
use mac_solo_miner.SoloPool.Session.Kept.{on_submit-pool}

-- Whether a line asks for the authorization.
abbrev pub asks : Result ParseError Incoming → Bool
asks (ok (Incoming.request request)) = bytes_eq request.method Text.authorize
asks (ok (Incoming.response answer)) = false
asks (err error) = false

on_request-authorized :
    (outside : Outside) (request : Request) (self : Session) (pool : PoolState)
    → bytes_eq request.method Text.authorize ≡ false
    → (on_request outside request self pool).session.authorized ≡ self.authorized
unfolding on_request on_subscribe reply
on_request-authorized outside request self pool h =
    elim (Bool-cases (bytes_eq request.method Text.subscribe)) [
      | inl subscribes ↦ rw subscribes refl
      | inr other₁ ↦ elim (Bool-cases (bytes_eq request.method Text.submit)) [
        | inl submits ↦
            rw (other₁, h, submits)
              (ap (λ s. s.authorized) (on_submit-pool outside request self pool).0)
        | inr other₂ ↦ rw (other₁, h, other₂) refl
      ]
    ]

on_incoming-authorized :
    (outside : Outside) (incoming : Result ParseError Incoming) (self : Session) (pool : PoolState)
    → asks incoming ≡ false
    → (on_incoming outside incoming self pool).session.authorized ≡ self.authorized
unfolding on_incoming
on_incoming-authorized outside (ok (Incoming.request request)) self pool h =
    on_request-authorized outside request self pool h
on_incoming-authorized outside (ok (Incoming.response answer)) self pool h = refl
on_incoming-authorized outside (err error) self pool h = refl

read_lines-authorized :
    (outside : Outside) (lines : List (List ℕ)) (self : Session) (pool : PoolState)
    → All (λ line. asks (parse outside.library line) ≡ false) lines
    → (read_lines outside lines self pool).0.authorized ≡ self.authorized
unfolding read_lines dispatch
read_lines-authorized outside [] self pool h = refl
read_lines-authorized outside (line ∷ lines) self pool h =
    elim (Bool-cases (outside.is_blank line)) [
      | inl blank ↦ rw blank (read_lines-authorized outside lines self pool h.1)
      | inr said ↦
          let handled : Handled = on_incoming outside (parse outside.library line) self pool in
          rw said (
            read_lines-authorized outside lines handled.session handled.pool h.1
            ∙ on_incoming-authorized outside (parse outside.library line) self pool h.0)
    ]

on_submit-refused :
    (outside : Outside) (request : Request) (self : Session) (pool : PoolState)
    → self.authorized ≡ false
    → on_submit outside request self pool
      ≡ reply (reply_error request.id unauthorized) false self pool
unfolding on_submit
on_submit-refused outside request self pool h =
    ap
      (λ trusted.
        if not trusted
        then reply (reply_error request.id unauthorized) false self pool
        else reply (on_share outside request.id self pool (from_submit_params request.params)).0
            (on_share outside request.id self pool (from_submit_params request.params)).1 self pool)
      h

on_request-submit :
    (outside : Outside) (request : Request) (self : Session) (pool : PoolState)
    → request.method ≡ Text.submit
    → on_request outside request self pool ≡ on_submit outside request self pool
unfolding on_request
on_request-submit outside request self pool h =
    let subscribes : bytes_eq request.method Text.subscribe ≡ false =
      ap (λ m. bytes_eq m Text.subscribe) h in
    let authorizes : bytes_eq request.method Text.authorize ≡ false =
      ap (λ m. bytes_eq m Text.authorize) h in
    let submits : bytes_eq request.method Text.submit ≡ true = ap (λ m. bytes_eq m Text.submit) h in
    rw (subscribes, authorizes, submits) refl

-- After any lines of a connection none of which asks for the authorization, a share is refused
-- with error 24 under its id, the pool stays as it is, and no fresh work is asked for.
pub submit-unauthorized :
    (outside : Outside) (lines : List (List ℕ)) (connection_id outbound : ℕ) (pool now : PoolState)
    (line : List ℕ) (request : Request)
    → All (λ l. asks (parse outside.library l) ≡ false) lines
    → parse outside.library line ≡ ok (Incoming.request request)
    → request.method ≡ Text.submit
    → dispatch outside line
        (read_lines outside lines (session_of connection_id outbound) pool).0
        now
      ≡ record {
        session = (read_lines outside lines (session_of connection_id outbound) pool).0;
        pool = now;
        sent = response (reply_error request.id unauthorized) ∷ [];
        refresh = false;
      }
unfolding dispatch on_incoming reply session_of
submit-unauthorized outside lines connection_id outbound pool now line request h parsed submits =
    let self : Session = (read_lines outside lines (session_of connection_id outbound) pool).0 in
    ap (λ incoming. on_incoming outside incoming self now) parsed
    ∙ on_request-submit outside request self now submits
    ∙ on_submit-refused outside request self now
        (read_lines-authorized outside lines (session_of connection_id outbound) pool h)
