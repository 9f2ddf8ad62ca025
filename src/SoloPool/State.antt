-- ===== src/SoloPool/State.antt =====
-- crates/solo-pool/src/state.rs: the state that the pool's threads share. The mutex makes each
-- operation a step of its own; `refresh`, the channel that wakes the poller, holds no state.
pub mod History
use mac_solo_miner.Base.{
  bytes_eq, ℕ, zero, suc, ◌+◌, ◌-◌, ◌%◌, ◌/◌, ◌^◌, Bool, not, ◌&&◌, if◌then◌else◌, ltb, ◌==◌, List,
  [], ◌∷◌, ◌++◌, length, take, Option, none, some,
}
use mac_solo_miner.Stratum.Hex32.{to_lower_hex}
use mac_solo_miner.SoloPool.JobBuilder.{ActiveJob}

abbrev pub job_history : ℕ
job_history = 8

-- A sender of lines is known by a number.
pub record Subscriber : Type 0 where
  pub id : ℕ
  pub outbound : ℕ

-- `Inner`, with the two counters beside it.
pub record PoolState : Type 0 where
  pub jobs : List ActiveJob
  pub subscribers : List Subscriber
  pub next_connection_id : ℕ
  pub next_job_id : ℕ

unfoldable pub new : PoolState
new = record { jobs = []; subscribers = []; next_connection_id = 1; next_job_id = 1 }

-- `fetch_add`, which wraps around.
unfoldable pub allocate_connection_id : PoolState → ℕ × PoolState
allocate_connection_id self = (
  self.next_connection_id,
  record self { next_connection_id = (self.next_connection_id + 1) % 2 ^ 64 },
)

unfoldable pub allocate_job_id : PoolState → List ℕ × PoolState
allocate_job_id self =
    (to_lower_hex self.next_job_id, record self { next_job_id = (self.next_job_id + 1) % 2 ^ 64 })

unfoldable pub set_current_job : ActiveJob → PoolState → PoolState
set_current_job job self = record self { jobs = take job_history (job ∷ self.jobs) }

abbrev pub front : List ActiveJob → Option ActiveJob
front [] = none
front (job ∷ jobs) = some job

unfoldable pub current_job : PoolState → Option ActiveJob
current_job self = front self.jobs

pub find_job : List ℕ → List ActiveJob → Option ActiveJob
find_job job_id [] = none
find_job job_id (job ∷ jobs) =
    let rest = find_job job_id jobs in if bytes_eq job.job.job_id job_id then some job else rest

pub job_by_id : List ℕ → PoolState → Option ActiveJob
unfolding find_job
job_by_id job_id self = find_job job_id self.jobs

unfoldable pub subscribe : ℕ → ℕ → PoolState → PoolState
subscribe id outbound self = record self {
  subscribers = self.subscribers ++ (record { id = id; outbound = outbound }) ∷ [];
}

-- `retain`
unfoldable pub retain : (Subscriber → Bool) → List Subscriber → List Subscriber
retain keep [] = []
retain keep (s ∷ rest) = let others = retain keep rest in if keep s then s ∷ others else others

unfoldable pub unsubscribe : ℕ → PoolState → PoolState
unfolding retain
unsubscribe id self = record self { subscribers = retain (λ s. not (s.id == id)) self.subscribers }

-- `is_sent` says of a sender whether it takes a line.
unfoldable pub broadcast : (ℕ → Bool) → PoolState → PoolState
unfolding retain
broadcast is_sent self = record self {
  subscribers = retain (λ s. is_sent s.outbound) self.subscribers;
}

unfoldable pub subscriber_count : PoolState → ℕ
subscriber_count self = length self.subscribers
