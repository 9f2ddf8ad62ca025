-- ===== src/MacMiner/Work/Race.antt =====
-- The interleaving of `set` and `snapshot` that pairs old work with the new generation.
use mac_solo_miner.Base.{◌≡◌, refl, true, false, [], ◌∷◌, some}
use mac_solo_miner.MacMiner.Work.{Work, new, store_work, bump, generation, is_current}
use mac_solo_miner.MacMiner.Work.Steps.{
  took, holds, System, start, stores, bumps, takes, reads, Reach, here, next,
}

-- There is an interleaving in which a snapshot holds work that has been replaced, with a
-- generation that passes for current although no set is under way: for every two pieces of work.
pub snapshot_stale :
    (old replacement : Work)
    → (s : System) × Reach start s
      × (s.reader ≡ holds old 2)
      × (s.shared.current ≡ some replacement)
      × (s.setting ≡ false)
      × (is_current 2 s.shared s.shared ≡ true)
unfolding store_work bump generation is_current new start
snapshot_stale old replacement =
    let s₁ : System = record start {
      shared = store_work old new;
      setting = true;
      stored = old ∷ [];
    } in
    let s₂ : System = record s₁ { shared = bump s₁.shared; setting = false } in
    let s₃ : System = record s₂ { reader = took old } in
    let s₄ : System = record s₃ {
      shared = store_work replacement s₃.shared;
      setting = true;
      stored = old ∷ replacement ∷ [];
    } in
    let s₅ : System = record s₄ { shared = bump s₄.shared; setting = false } in
    (
      record s₅ { reader = holds old (generation s₅.shared) },
      next
          (next
            (next
              (next (next (next here (stores start old refl)) (bumps s₁ refl)) (takes s₂ old refl))
              (stores s₃ replacement refl))
            (bumps s₄ refl))
          (reads s₅ old refl),
      refl,
      refl,
      refl,
      refl,
    )
