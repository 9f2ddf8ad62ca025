-- ===== src/SoloPool/Session/Tests.antt =====
-- Concrete runs of a session.
use mac_solo_miner.Base.{ℕ, ◌+◌, ◌%◌, ◌^◌, ◌≡◌, refl, arith, false, List, [], ◌∷◌, none, some, ok}
use mac_solo_miner.Stratum.Message.{Request, Incoming, parse, reply_error, unauthorized}
use mac_solo_miner.Stratum.Text
use mac_solo_miner.Stratum.Value.{null, object, string, field, no_more, unsigned}
use mac_solo_miner.SoloPool.JobBuilder.Tests.{base}
use mac_solo_miner.SoloPool.State.{PoolState}
use mac_solo_miner.SoloPool.Session.{Outside, response, session_of, dispatch, read_lines, handle}
use mac_solo_miner.SoloPool.Session.Answers.{asked, ids, responses, dispatch-answers}
use mac_solo_miner.SoloPool.Session.Authorization.{submit-unauthorized}
use mac_solo_miner.SoloPool.Session.Distinct.{coinbase-connections}
use mac_solo_miner.SoloPool.Session.Kept.{handle-pool}

abbrev request : Request
request = record { id = some 4; method = Text.submit; params = null }

-- Every line is a share without parameters.
abbrev outside : Outside
outside = record {
  library = record {
    from_str = λ line. ok (object (field Text.method_key (string Text.submit) no_more));
    request_from_value = λ value. ok request;
    response_from_value = λ value. ok (record { id = none; result = null; error = none });
  };
  share_error_text = λ error. [];
  validation_error_text = λ error. [];
  difficulty = λ bits. unsigned 1;
  submit_block = λ block. ok none;
  is_blank = λ line. false;
}

-- Two connections are open.
abbrev pool : PoolState
pool = record {
  jobs = base ∷ [];
  subscribers = record { id = 1; outbound = 10 } ∷ record { id = 2; outbound = 20 } ∷ [];
  next_connection_id = 3;
  next_job_id = 2;
}

abbrev lines : List (List ℕ)
lines = (1 ∷ []) ∷ (2 ∷ []) ∷ []

dispatch-answers_example :
    ids (responses (dispatch outside (3 ∷ []) (session_of 3 30) pool).sent)
    ≡ asked (parse outside.library (3 ∷ []))
dispatch-answers_example = dispatch-answers outside (3 ∷ []) (session_of 3 30) pool

is_share : parse outside.library (3 ∷ []) ≡ ok (Incoming.request request)
unfolding parse
is_share = refl

submit-unauthorized_example :
    dispatch outside (3 ∷ []) (read_lines outside lines (session_of 3 30) pool).0 pool ≡ record {
      session = (read_lines outside lines (session_of 3 30) pool).0;
      pool = pool;
      sent = response (reply_error (some 4) unauthorized) ∷ [];
      refresh = false;
    }
unfolding parse
submit-unauthorized_example =
    submit-unauthorized outside lines 3 30 pool pool (3 ∷ []) request (refl, (refl, tt)) is_share
      refl

handle-pool_example :
    handle outside lines 30 pool
    ≡ record pool { next_connection_id = (pool.next_connection_id + 1) % 2 ^ 64 }
handle-pool_example = handle-pool outside lines 30 pool (omega arith, (omega arith, tt))

abbrev connection : ℕ
connection = 3

coinbase-connections_example : connection ≡ connection
coinbase-connections_example =
    coinbase-connections base.job connection connection (1 ∷ []) (1 ∷ []) (omega arith)
      (omega arith) refl
