-- ===== src/MacMiner/Work.antt =====
-- crates/mac-miner/src/work.rs: the work that the threads share. The mutex and each atomic are
-- read and written in a step of their own: `set` and `snapshot` have two steps each.
pub mod Steps
pub mod Kept
pub mod Race
use mac_solo_miner.Base.{ℕ, ◌+◌, ◌-◌, ◌%◌, ◌^◌, Bool, not, ◌&&◌, ◌==◌, List, Option, none, some}
use mac_solo_miner.BtcPrimitives.Target.{Target}
use mac_solo_miner.Stratum.Job.{Job}

pub record Work : Type 0 where
  pub job : Job
  pub extranonce1 : List ℕ
  pub extranonce2_size : ℕ
  pub target : Target

-- The field of `generation` is named for what it counts, as the method has the name.
pub record WorkState : Type 0 where
  pub current : Option Work
  pub sets : ℕ
  pub solved : ℕ

unfoldable pub new : WorkState
new = record { current = none; sets = 0; solved = 2 ^ 64 - 1 }

-- The first step of `set`.
unfoldable pub store_work : Work → WorkState → WorkState
store_work work self = record self { current = some work }

-- The second step of `set`: `fetch_add`, which wraps around.
unfoldable pub bump : WorkState → WorkState
bump self = record self { sets = (self.sets + 1) % 2 ^ 64 }

unfoldable pub set_work : Work → WorkState → WorkState
set_work work self = bump (store_work work self)

unfoldable pub generation : WorkState → ℕ
generation self = self.sets

abbrev pub with_generation : ℕ → Option Work → Option (Work × ℕ)
with_generation g none = none
with_generation g (some work) = some (work, g)

-- The shared state is `first` when the work is read, and `second` when the generation is.
unfoldable pub snapshot : WorkState → WorkState → Option (Work × ℕ)
snapshot first second = with_generation (generation second) first.current

unfoldable pub mark_solved : ℕ → WorkState → WorkState
mark_solved g self = record self { solved = g }

-- The two atomics are read one after the other; `&&` reads the second only if the first agrees.
unfoldable pub is_current : ℕ → WorkState → WorkState → Bool
is_current g first second = generation first == g && not (second.solved == g)
