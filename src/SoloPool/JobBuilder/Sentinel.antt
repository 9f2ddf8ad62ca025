-- ===== src/SoloPool/JobBuilder/Sentinel.antt =====
-- Where the sentinel stands exactly once, the split is before and behind it.
use mac_solo_miner.Base.{
  bytes_eq, ℕ, suc, ◌+◌, ◌≡◌, ◌≢◌, refl, sym, ap, ◌∙◌, arith, inl, inr, ◌⊎◌, true, Bool-cases, ◌&&◌,
  leb, le→leb, eq_refl, List, [], ◌∷◌, ◌++◌, append_assoc, length, length-append, take, drop,
  take-append, drop-append, ok,
}
use mac_solo_miner.SoloPool.JobBuilder.{
  extranonce_size, sentinel, matches_from, split_at_only, split_serialised,
}

pub bytes_eq_refl : (xs : List ℕ) → bytes_eq xs xs ≡ true
bytes_eq_refl [] = refl
bytes_eq_refl (x ∷ xs) = rw (eq_refl x, bytes_eq_refl xs) refl

-- The window at the sentinel is found.
hit :
    (offset : ℕ) (s : List ℕ)
    → (rest : List ℕ) × (matches_from offset (sentinel ++ s) ≡ offset ∷ rest)
unfolding matches_from
hit offset s = rw (le→leb 8 (length (sentinel ++ s)) (omega arith)) (_, refl)

matches-cons :
    (offset x : ℕ) (xs : List ℕ)
    → (matches_from offset (x ∷ xs) ≡ offset ∷ matches_from (suc offset) xs)
      ⊎ (matches_from offset (x ∷ xs) ≡ matches_from (suc offset) xs)
unfolding matches_from
matches-cons offset x xs =
    elim (Bool-cases (leb 8 (length (x ∷ xs)) && bytes_eq (take 8 (x ∷ xs)) sentinel)) [
      | inl same ↦ inl (rw same refl)
      | inr other ↦ inr (rw other refl)
    ]

found_somewhere : (offset : ℕ) (p s : List ℕ) → matches_from offset (p ++ (sentinel ++ s)) ≢ []
found_somewhere offset [] s e = cc ((hit offset s).1, e)
found_somewhere offset (x ∷ p) s e = elim (matches-cons offset x (p ++ (sentinel ++ s))) [
  | inl here ↦ cc
  | inr later ↦ found_somewhere (suc offset) p s (sym later ∙ e)
]

only_offset :
    (offset d : ℕ) (p s : List ℕ)
    → matches_from offset (p ++ (sentinel ++ s)) ≡ d ∷ []
    → d ≡ offset + length p
only_offset offset d [] s e =
    let first : offset ≡ d = cc ((hit offset s).1, e) in omega (arith, first)
only_offset offset d (x ∷ p) s e = elim (matches-cons offset x (p ++ (sentinel ++ s))) [
  | inl here ↦
      let last : matches_from (suc offset) (p ++ (sentinel ++ s)) ≡ [] = cc in
      absurd (found_somewhere (suc offset) p s last)
  | inr later ↦ omega (arith, only_offset (suc offset) d p s (sym later ∙ e))
]

split_at_only-eq-ok :
    (serialised matches a b : List ℕ)
    → split_at_only serialised matches ≡ ok (a, b)
    → (d : ℕ) × (matches ≡ d ∷ [])
      × (take d serialised ≡ a)
      × (drop (d + extranonce_size) serialised ≡ b)
split_at_only-eq-ok serialised [] a b e = cc
split_at_only-eq-ok serialised (d ∷ []) a b e = (d, refl, cc, cc)
split_at_only-eq-ok serialised (d ∷ e ∷ more) a b h = cc

-- A split that succeeds is where the sentinel was put.
pub split_serialised-eq-ok :
    (p s a b : List ℕ) → split_serialised (p ++ (sentinel ++ s)) ≡ ok (a, b) → (a ≡ p) × (b ≡ s)
unfolding split_serialised
split_serialised-eq-ok p s a b h =
    let r =
      split_at_only-eq-ok (p ++ (sentinel ++ s)) (matches_from 0 (p ++ (sentinel ++ s))) a b h in
    let at : length p ≡ r.0 = omega (arith, only_offset 0 r.0 p s r.1) in
    (
      sym r.2 ∙ take-append r.0 p (sentinel ++ s) at,
      sym r.3
          ∙ ap (drop (r.0 + 8)) (sym (append_assoc p sentinel s))
          ∙ drop-append (r.0 + 8) (p ++ sentinel) s (omega (arith, length-append p sentinel, at)),
    )
