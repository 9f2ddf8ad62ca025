-- ===== src/MacMiner/Lifetime.antt =====
-- crates/mac-miner/src/lifetime.rs: the totals over all sessions. The file, its JSON and the clock
-- are outside: what the file held is an argument, and so is the time.
use mac_solo_miner.Base.{
  ℕ, ◌+◌, ◌-◌, ◌%◌, ◌^◌, if◌then◌else◌, ltb, List, Option, none, some, replicate,
}
use mac_solo_miner.BtcPrimitives.Hash.{Sha256dHash, from_internal_bytes}
use mac_solo_miner.BtcPrimitives.Hash.Text.{to_string}

-- The path is left out.
pub record Lifetime : Type 0 where
  pub total_hashes : ℕ
  pub best_hash : List ℕ
  pub best_zero_bits : ℕ
  pub sessions : ℕ
  pub first_run : ℕ
  pub last_run : ℕ

unfoldable pub fresh : ℕ → Lifetime
fresh now = record {
  total_hashes = 0;
  best_hash = to_string (from_internal_bytes (replicate 32 0xFF));
  best_zero_bits = 0;
  sessions = 0;
  first_run = now;
  last_run = now;
}

-- The totals that were read, if any, and the session that begins; the count wraps around, as it
-- does where overflow is not checked.
unfoldable pub begin : ℕ → Lifetime → Lifetime
begin now lifetime = record lifetime { sessions = (lifetime.sessions + 1) % 2 ^ 64; last_run = now }

unfoldable pub load : Option Lifetime → ℕ → Lifetime
load (some lifetime) now = begin now lifetime
load none now = begin now (fresh now)

unfoldable pub saturating_add_u64 : ℕ → ℕ → ℕ
saturating_add_u64 a b = if ltb (2 ^ 64 - 1) (a + b) then 2 ^ 64 - 1 else a + b

unfoldable pub replace_best : Sha256dHash → ℕ → Lifetime → Lifetime
replace_best best zero_bits self = record self {
  best_zero_bits = zero_bits;
  best_hash = to_string best;
}

unfoldable pub record_session : ℕ → Sha256dHash → ℕ → ℕ → Lifetime → Lifetime
record_session new_hashes best zero_bits now self =
    let added = record self {
      total_hashes = saturating_add_u64 self.total_hashes new_hashes;
      last_run = now;
    } in
    let replaced = replace_best best zero_bits added in
    if ltb self.best_zero_bits zero_bits then replaced else added
