-- ===== src/SoloPool/MinDifficulty/Earliest.antt =====
-- The window that is planned is the earliest.
use mac_solo_miner.Base.{
  ℕ, ◌+◌, ◌^◌, ◌≤◌, ◌<◌, ◌≡◌, ap, ◌∙◌, ◌%◌, arith, leb, ℤ, pos, negsuc, difference, minus, at_most,
}
use mac_solo_miner.SoloPool.MinDifficulty.{
  Window, seconds_until_open, is_open, plan, min_difficulty_gap, max_future_block_time,
}

-- The difference to `a` is at most `c`.
difference-at_most : (a b c : ℕ) → at_most (difference a b) (pos c) ≡ leb a (c + b)
difference-at_most a b c = ground arith

-- A number is at most another exactly if their difference is not positive.
minus-at_most : (a b : ℤ) → at_most a b ≡ at_most (minus a b) (pos 0)
minus-at_most (pos a) (pos b) = ground arith
minus-at_most (pos a) (negsuc b) = ground arith
minus-at_most (negsuc a) (pos b) = ground arith
minus-at_most (negsuc a) (negsuc b) = ground arith

-- A window is open exactly when no seconds are left.
is_open-seconds :
    (self : Window) (now : ℤ) → is_open self now ≡ at_most (seconds_until_open self now) (pos 0)
unfolding is_open seconds_until_open
is_open-seconds self now = minus-at_most self.legal_at now

-- Of a parent whose time leaves room in 32 bits: the time that is planned qualifies, it is the
-- least that does, and the window is open exactly while a block with that time is at most two
-- hours ahead, which is when no seconds are left until it opens.
pub plan-least :
    (parent_time t now : ℕ)
    → parent_time + 1201 < 2 ^ 32
    → parent_time + min_difficulty_gap < t
    → (parent_time + min_difficulty_gap < (plan parent_time).ntime)
      × ((plan parent_time).ntime ≤ t)
      × (is_open (plan parent_time) (pos now)
          ≡ leb (plan parent_time).ntime (now + max_future_block_time))
      × (is_open (plan parent_time) (pos now)
          ≡ at_most (seconds_until_open (plan parent_time) (pos now)) (pos 0))
unfolding plan is_open
plan-least parent_time t now room later = (
  omega arith,
  omega arith,
  difference-at_most (parent_time + min_difficulty_gap + 1) max_future_block_time now
      ∙ ap (λ n. leb n (now + max_future_block_time)) fits,
  is_open-seconds (plan parent_time) (pos now),
)
  where
    fits : parent_time + min_difficulty_gap + 1 ≡ (parent_time + min_difficulty_gap + 1) % 2 ^ 32
    fits = omega arith
