-- ===== src/SoloPool/Session/Answers.antt =====
-- What a session answers.
use mac_solo_miner.Base.{
  bytes_eq, ℕ, ◌≡◌, refl, ap, true, Bool-cases, inl, inr, List, [], ◌∷◌, Option, none, some, Result,
  ok, err,
}
use mac_solo_miner.Stratum.Text
use mac_solo_miner.Stratum.Value.{Value}
use mac_solo_miner.Stratum.Message.{
  Request, Response, Incoming, ParseError, parse, reply_ok, reply_error,
}
use mac_solo_miner.Stratum.Share.{Share, ShareError, from_submit_params}
use mac_solo_miner.SoloPool.JobBuilder.{ActiveJob}
use mac_solo_miner.SoloPool.State.{PoolState}
use mac_solo_miner.SoloPool.Validate.{Verdict, ValidationError}
use mac_solo_miner.SoloPool.Session.{
  Message, response, push, Session, Outside, reply, on_subscribe, work_messages, send_current_work,
  on_authorize, verdict_reply, on_job, on_share, on_submit, on_request, on_incoming, dispatch,
}

-- The responses among the messages.
abbrev pub responses : List Message → List Response
responses [] = []
responses (response answer ∷ messages) = answer ∷ responses messages
responses (push request ∷ messages) = responses messages

-- The id of a request, which is none where the line says null. message.rs calls such a request a
-- notification, of which no reply is wanted; the session does not tell it from any other.
abbrev pub asked : Result ParseError Incoming → List (Option ℕ)
asked (ok (Incoming.request request)) = request.id ∷ []
asked (ok (Incoming.response answer)) = []
asked (err error) = []

abbrev pub ids : List Response → List (Option ℕ)
ids [] = []
ids (answer ∷ answers) = answer.id ∷ ids answers

module _ (outside : Outside) where
  verdict_reply-id :
      (id : Option ℕ) (verdict : Result ValidationError Verdict)
      → (verdict_reply outside id verdict).0.id ≡ id
  unfolding verdict_reply reply_ok reply_error
  verdict_reply-id id (ok (Verdict.block_accepted hash height)) = refl
  verdict_reply-id id (ok (Verdict.block_stale reason hash)) = refl
  verdict_reply-id id (ok (Verdict.block_rejected reason hash)) = refl
  verdict_reply-id id (ok (Verdict.share hash zero_bits)) = refl
  verdict_reply-id id (err error) = refl

  on_job-id :
      (id : Option ℕ) (share : Share) (extranonce1 : List ℕ) (active : Option ActiveJob)
      → (on_job outside id share extranonce1 active).0.id ≡ id
  unfolding on_job reply_error
  on_job-id id share extranonce1 none = refl
  on_job-id id share extranonce1 (some active) = verdict_reply-id id _

  on_share-id :
      (id : Option ℕ) (self : Session) (pool : PoolState) (read : Result ShareError Share)
      → (on_share outside id self pool read).0.id ≡ id
  unfolding on_share reply_error
  on_share-id id self pool (err error) = refl
  on_share-id id self pool (ok share) = on_job-id id share self.extranonce1 _

  on_submit-ids :
      (request : Request) (self : Session) (pool : PoolState)
      → ids (responses (on_submit outside request self pool).sent) ≡ request.id ∷ []
  unfolding on_submit reply reply_error
  on_submit-ids request self pool = elim (Bool-cases self.authorized) [
    | inl trusted ↦ rw trusted (
        ap (λ id. id ∷ [])
          (on_share-id request.id (record self { authorized = true }) pool
            (from_submit_params request.params)))
    | inr untrusted ↦ rw untrusted refl
  ]

  work-ids :
      (difficulty : ℕ → Value) (active : Option ActiveJob)
      → responses (work_messages difficulty active) ≡ []
  unfolding work_messages
  work-ids difficulty none = refl
  work-ids difficulty (some active) = refl

  on_request-ids :
      (request : Request) (self : Session) (pool : PoolState)
      → ids (responses (on_request outside request self pool).sent) ≡ request.id ∷ []
  unfolding on_request on_subscribe on_authorize reply reply_ok reply_error send_current_work
  on_request-ids request self pool = elim (Bool-cases (bytes_eq request.method Text.subscribe)) [
    | inl subscribes ↦ rw subscribes refl
    | inr other₁ ↦ elim (Bool-cases (bytes_eq request.method Text.authorize)) [
      | inl authorizes ↦
          rw (other₁, authorizes) (ap (λ rs. request.id ∷ ids rs) (work-ids outside.difficulty _))
      | inr other₂ ↦ elim (Bool-cases (bytes_eq request.method Text.submit)) [
        | inl submits ↦ rw (other₁, other₂, submits) (on_submit-ids request self pool)
        | inr other₃ ↦ rw (other₁, other₂, other₃) refl
      ]
    ]
  ]

  on_incoming-ids :
      (incoming : Result ParseError Incoming) (self : Session) (pool : PoolState)
      → ids (responses (on_incoming outside incoming self pool).sent) ≡ asked incoming
  unfolding on_incoming
  on_incoming-ids (ok (Incoming.request request)) self pool = on_request-ids request self pool
  on_incoming-ids (ok (Incoming.response answer)) self pool = refl
  on_incoming-ids (err error) self pool = refl

-- Whatever the line and the state, a request is answered by exactly one response, which has its id;
-- a notification is a request without an id, and is answered too, by a response without an id; and
-- a response or a line that cannot be read is not answered.
pub dispatch-answers :
    (outside : Outside) (line : List ℕ) (self : Session) (pool : PoolState)
    → ids (responses (dispatch outside line self pool).sent) ≡ asked (parse outside.library line)
unfolding dispatch
dispatch-answers outside line self pool =
    on_incoming-ids outside (parse outside.library line) self pool
