-- ===== src/SoloPool/Session/Kept.antt =====
-- What a session keeps of itself and of the pool.
use mac_solo_miner.Base.{
  bytes_eq, ℕ, ◌+◌, ◌%◌, ◌^◌, ◌<◌, ◌≡◌, refl, sym, ap, ◌∙◌, arith, Bool, true, false, Bool-cases,
  inl, inr, not, ◌==◌, eq_refl, List, [], ◌∷◌, ◌++◌, All, Result, ok, err,
}
use mac_solo_miner.Stratum.Text
use mac_solo_miner.Stratum.Message.{Request, Incoming, ParseError, parse}
use mac_solo_miner.SoloPool.State.{
  PoolState, Subscriber, retain, subscribe, unsubscribe, allocate_connection_id,
}
use mac_solo_miner.SoloPool.Session.{
  Session, Outside, Handled, reply, on_subscribe, on_authorize, on_submit, on_request, on_incoming,
  dispatch, session_of, read_lines, handle,
}

retain-append :
    (keep : Subscriber → Bool) (xs : List Subscriber) (s : Subscriber)
    → keep s ≡ false
    → retain keep (xs ++ s ∷ []) ≡ retain keep xs
unfolding retain
retain-append keep [] s h = rw h refl
retain-append keep (x ∷ xs) s h = rw (retain-append keep xs s h) refl

retain-All :
    (keep : Subscriber → Bool) (xs : List Subscriber)
    → All (λ s. keep s ≡ true) xs
    → retain keep xs ≡ xs
unfolding retain
retain-All keep [] h = refl
retain-All keep (x ∷ xs) h = rw (h.0) (ap (◌∷◌ x) (retain-All keep xs h.1))

unsubscribe-subscribe :
    (id outbound : ℕ) (pool : PoolState)
    → unsubscribe id (subscribe id outbound pool) ≡ unsubscribe id pool
unfolding unsubscribe subscribe
unsubscribe-subscribe id outbound pool =
    ap (λ subs. record pool { subscribers = subs })
      (retain-append (λ s. not (s.id == id)) pool.subscribers
        (record { id = id; outbound = outbound }) (rw (eq_refl id) refl))

-- What a line leaves as it was: the session but for the authorization, and the pool but for the
-- session's own subscriptions.
record Keeps (self : Session) (pool : PoolState) (after : Session) (later : PoolState)
    : Type 0 where
  pub id_kept : after.connection_id ≡ self.connection_id
  pub pool_kept : unsubscribe self.connection_id later ≡ unsubscribe self.connection_id pool

pub on_submit-pool :
    (outside : Outside) (request : Request) (self : Session) (pool : PoolState)
    → ((on_submit outside request self pool).session ≡ self)
      × ((on_submit outside request self pool).pool ≡ pool)
unfolding on_submit reply
on_submit-pool outside request self pool = elim (Bool-cases self.authorized) [
  | inl trusted ↦ rw trusted (refl, refl)
  | inr untrusted ↦ rw untrusted (refl, refl)
]

on_request-Keeps :
    (outside : Outside) (request : Request) (self : Session) (pool : PoolState)
    → Keeps self pool
        (on_request outside request self pool).session
        (on_request outside request self pool).pool
unfolding on_request on_subscribe on_authorize reply
on_request-Keeps outside request self pool =
    elim (Bool-cases (bytes_eq request.method Text.subscribe)) [
      | inl subscribes ↦ rw subscribes (record {
        id_kept = refl;
        pool_kept = unsubscribe-subscribe self.connection_id self.outbound pool;
      })
      | inr other₁ ↦ elim (Bool-cases (bytes_eq request.method Text.authorize)) [
        | inl authorizes ↦ rw (other₁, authorizes) (record { id_kept = refl; pool_kept = refl })
        | inr other₂ ↦ elim (Bool-cases (bytes_eq request.method Text.submit)) [
          | inl submits ↦
              rw (other₁, other₂, submits)
                (record {
                  id_kept = ap (λ s. s.connection_id) (on_submit-pool outside request self pool).0;
                  pool_kept =
                      ap (unsubscribe self.connection_id)
                        (on_submit-pool outside request self pool).1;
                })
          | inr other₃ ↦ rw (other₁, other₂, other₃) (record { id_kept = refl; pool_kept = refl })
        ]
      ]
    ]

on_incoming-Keeps :
    (outside : Outside) (incoming : Result ParseError Incoming) (self : Session) (pool : PoolState)
    → Keeps self pool
        (on_incoming outside incoming self pool).session
        (on_incoming outside incoming self pool).pool
unfolding on_incoming
on_incoming-Keeps outside (ok (Incoming.request request)) self pool =
    on_request-Keeps outside request self pool
on_incoming-Keeps outside (ok (Incoming.response answer)) self pool = record {
  id_kept = refl;
  pool_kept = refl;
}
on_incoming-Keeps outside (err error) self pool = record { id_kept = refl; pool_kept = refl }

read_lines-pool :
    (outside : Outside) (lines : List (List ℕ)) (self : Session) (pool : PoolState)
    → unsubscribe self.connection_id (read_lines outside lines self pool).1
      ≡ unsubscribe self.connection_id pool
unfolding read_lines dispatch
read_lines-pool outside [] self pool = refl
read_lines-pool outside (line ∷ lines) self pool = elim (Bool-cases (outside.is_blank line)) [
  | inl blank ↦ rw blank (read_lines-pool outside lines self pool)
  | inr said ↦ rw said (
      let handled : Handled = on_incoming outside (parse outside.library line) self pool in
      let kept : Keeps self pool handled.session handled.pool =
        on_incoming-Keeps outside (parse outside.library line) self pool in
      ap (λ id. unsubscribe id (read_lines outside lines handled.session handled.pool).1)
        (sym kept.id_kept)
      ∙ read_lines-pool outside lines handled.session handled.pool
      ∙ ap (λ id. unsubscribe id handled.pool) kept.id_kept
      ∙ kept.pool_kept)
]

kept_others :
    (id : ℕ) (subscribers : List Subscriber)
    → All (λ s. s.id < id) subscribers
    → All (λ s. not (s.id == id) ≡ true) subscribers
kept_others id [] h = tt
kept_others id (s ∷ subscribers) h =
    let before : s.id < id = h.0 in
    let differs : not (s.id == id) ≡ true = ground arith in
    (differs, kept_others id subscribers h.1)

-- A connection, whatever its lines, leaves the pool as it was but for the number of the next
-- connection, where that number is new.
pub handle-pool :
    (outside : Outside) (lines : List (List ℕ)) (outbound : ℕ) (pool : PoolState)
    → All (λ s. s.id < pool.next_connection_id) pool.subscribers
    → handle outside lines outbound pool
      ≡ record pool { next_connection_id = (pool.next_connection_id + 1) % 2 ^ 64 }
unfolding handle allocate_connection_id session_of unsubscribe
handle-pool outside lines outbound pool fresh =
    let allocated : PoolState = record pool {
      next_connection_id = (pool.next_connection_id + 1) % 2 ^ 64;
    } in
    read_lines-pool outside lines (session_of pool.next_connection_id outbound) allocated
    ∙ ap (λ subs. record allocated { subscribers = subs })
        (retain-All (λ s. not (s.id == pool.next_connection_id)) pool.subscribers
          (kept_others pool.next_connection_id pool.subscribers fresh))
