-- ===== src/SoloPool/Readiness/Fit.antt =====
-- Which nodes are fit to mine on.
use mac_solo_miner.Base.{
  ℕ, ◌+◌, ◌^◌, ◌≤◌, ◌<◌, ◌≡◌, ◌↔◌, ◌⊎◌, refl, ap, ◌∙◌, arith, true, false, Bool-cases, inl, inr,
  ltb, lt→ltb, ltb→lt, ltb→ge, leb, leb→le, leb→gt, ==→eq, ◌==◌, ok, pos, minus, at_most, bytes_eq,
}
use mac_solo_miner.BitcoindRpc.Network.{Network, as_str, BlockchainInfo}
use mac_solo_miner.SoloPool.Readiness.{as_i64, is_regtest, check_tip, check_node, max_tip_age}

-- What is asked of the tip where the network is public.
abbrev pub IsFresh : BlockchainInfo → ℕ → ℕ → Type 0
IsFresh info peers now = (0 < peers) × (now ≤ info.time + max_tip_age)

age-at_most : (now time c : ℕ) → at_most (minus (pos now) (pos time)) (pos c) ≡ leb now (c + time)
age-at_most now time c = ground arith

as_i64-pos : (n : ℕ) → n < 2 ^ 63 → as_i64 n ≡ pos n
unfolding as_i64
as_i64-pos n h = rw (lt→ltb n (2 ^ 63) h) refl

age_test :
    (info : BlockchainInfo) (now : ℕ)
    → info.time < 2 ^ 63
    → at_most (minus (pos now) (as_i64 info.time)) (pos max_tip_age)
      ≡ leb now (max_tip_age + info.time)
age_test info now h =
    ap (λ t. at_most (minus (pos now) t) (pos max_tip_age)) (as_i64-pos info.time h)
    ∙ age-at_most now info.time max_tip_age

check_tip-ok :
    (info : BlockchainInfo) (peers now : ℕ)
    → info.time < 2 ^ 63
    → (check_tip info peers (pos now) ≡ ok tt) ↔ IsFresh info peers now
unfolding check_tip
check_tip-ok info peers now h = elim (Bool-cases (peers == 0)) [
  | inl alone ↦
      let none_there : peers ≡ 0 = ==→eq peers 0 alone in
      rw alone ((λ e. cc), (λ fresh. absurd (omega (arith, none_there, fresh.0))))
  | inr known ↦
      let some_there : 0 < peers = ground arith in
      elim (Bool-cases (leb now (max_tip_age + info.time))) [
        | inl young ↦
            let passes : at_most (minus (pos now) (as_i64 info.time)) (pos max_tip_age) ≡ true =
              age_test info now h ∙ young in
            rw (known, passes)
              ((λ e. (some_there, omega (arith, leb→le _ _ young))), (λ fresh. refl))
        | inr old ↦
            let fails : at_most (minus (pos now) (as_i64 info.time)) (pos max_tip_age) ≡ false =
              age_test info now h ∙ old in
            rw (known, fails)
              ((λ e. cc), (λ fresh. absurd (omega (arith, leb→gt _ _ old, fresh.1))))
      ]
]

-- A node is passed exactly if it runs the network that was asked for, is not syncing and has every
-- block whose header it knows, and, unless the network is the private one, has a peer and a tip
-- that is at most three hours old.
pub check_node-ok :
    (network : Network) (info : BlockchainInfo) (peers now : ℕ)
    → info.time < 2 ^ 63
    → (check_node network info peers (pos now) ≡ ok tt) ↔ (
        (bytes_eq info.chain (as_str network) ≡ true)
        × (info.initial_block_download ≡ false)
        × (info.headers ≤ info.blocks)
        × ((is_regtest network ≡ true) ⊎ IsFresh info peers now))
unfolding check_node
check_node-ok network info peers now h = elim (Bool-cases (bytes_eq info.chain (as_str network))) [
  | inr other ↦ rw other ((λ e. cc), (λ fit. cc fit.0))
  | inl named ↦ elim (Bool-cases info.initial_block_download) [
    | inl loading ↦ rw (named, loading) ((λ e. cc), (λ fit. cc fit.1))
    | inr loaded ↦ elim (Bool-cases (ltb info.blocks info.headers)) [
      | inl behind ↦
          rw (named, loaded, behind)
            ((λ e. cc), (λ fit. absurd (omega (arith, ltb→lt _ _ behind, fit.2))))
      | inr level ↦ elim (Bool-cases (is_regtest network)) [
        | inl private ↦
            rw (named, loaded, level, private)
              ((λ e. (refl, refl, ltb→ge _ _ level, inl refl)), (λ fit. refl))
        | inr public ↦
            let fresh = check_tip-ok info peers now h in
            simp (named, loaded, level, public)
              (
                (λ e. (refl, refl, ltb→ge _ _ level, inr (fresh.0 e))),
                (λ fit. fresh.1 (only_right fit.3)),
              )
      ]
    ]
  ]
]
  where
    only_right : (false ≡ true) ⊎ IsFresh info peers now → IsFresh info peers now
    only_right (inl e) = cc
    only_right (inr fresh) = fresh
