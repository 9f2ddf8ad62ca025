-- ===== src/SoloPool/Session/Distinct.antt =====
-- Two connections never have their miners build the same coinbase.
use mathlib.Core.List.{append_assoc}
use mac_solo_miner.Base.{
  ℕ, ◌%◌, ◌^◌, ◌<◌, ◌≡◌, refl, sym, ap, ◌∙◌, arith, List, ◌++◌, length, take, drop, take-append,
  drop-append, to_be_bytes, from_be_bytes, from_be_bytes-to_be_bytes, length-to_be_bytes,
}
use mac_solo_miner.Stratum.Job.{Job, coinbase}
use mac_solo_miner.SoloPool.Session.{extranonce1_of}

-- Below 2^32 the extranonce of a connection tells it from the others.
extranonce1_of-injective :
    (a b : ℕ) → a < 2 ^ 32 → b < 2 ^ 32 → extranonce1_of a ≡ extranonce1_of b → a ≡ b
unfolding extranonce1_of
extranonce1_of-injective a b ha hb same = sym (value a ha) ∙ ap from_be_bytes same ∙ value b hb
  where
    value : (n : ℕ) → n < 2 ^ 32 → from_be_bytes (to_be_bytes 4 (n % 2 ^ 32)) ≡ n
    value n h =
        let low : n % 2 ^ 32 ≡ n = omega arith in
        from_be_bytes-to_be_bytes 4 (n % 2 ^ 32) (omega arith) ∙ low

-- The bytes of a coinbase behind the first half, as many as an extranonce has.
coinbase-extranonce1 :
    (job : Job) (id : ℕ) (extranonce2 : List ℕ)
    → take 4 (drop (length job.coinbase_prefix) (coinbase job (extranonce1_of id) extranonce2))
      ≡ extranonce1_of id
unfolding coinbase extranonce1_of
coinbase-extranonce1 job id extranonce2 =
    ap (λ bs. take 4 (drop (length job.coinbase_prefix) bs))
      (append_assoc (job.coinbase_prefix ++ extranonce1_of id) extranonce2 job.coinbase_suffix
        ∙ append_assoc job.coinbase_prefix (extranonce1_of id) (extranonce2 ++ job.coinbase_suffix))
    ∙ ap (take 4) (
        drop-append (length job.coinbase_prefix) job.coinbase_prefix
          (extranonce1_of id ++ (extranonce2 ++ job.coinbase_suffix)) refl)
    ∙ take-append 4 (extranonce1_of id) (extranonce2 ++ job.coinbase_suffix)
        (length-to_be_bytes 4 (id % 2 ^ 32))

-- Two connections with different numbers below 2^32 have different coinbases of one job, whatever
-- extranonces their miners choose.
pub coinbase-connections :
    (job : Job) (a b : ℕ) (extranonce2 others : List ℕ)
    → a < 2 ^ 32
    → b < 2 ^ 32
    → coinbase job (extranonce1_of a) extranonce2 ≡ coinbase job (extranonce1_of b) others
    → a ≡ b
coinbase-connections job a b extranonce2 others ha hb same = extranonce1_of-injective a b ha hb (
    sym (coinbase-extranonce1 job a extranonce2)
    ∙ ap (λ bs. take 4 (drop (length job.coinbase_prefix) bs)) same
    ∙ coinbase-extranonce1 job b others)
