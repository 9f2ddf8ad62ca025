-- ===== src/BtcPrimitives/Merkle/Levels.antt =====
-- One level of the tree, and the climb to the root.
use mac_solo_miner.Base.{
  ℕ, zero, suc, ◌+◌, ◌/◌, ◌%◌, ◌≤◌, ◌<◌, ◌≡◌, refl, sym, ap, ◌∙◌, arith, Bool-cases, ltb, ltb→lt,
  lt→ltb, ge→ltb, ltb→ge, inl, inr, List, [], ◌∷◌, ◌++◌, map, length, get_or, chunks_exact,
  chunks_exact-append, chunks_exact-nil, some,
}
use mac_solo_miner.BtcPrimitives.Hash.{Sha256dHash, zero_hash}
use mac_solo_miner.BtcPrimitives.Merkle.{
  combine, even_out, combine_pair, next_level, climb, merkle_root,
}

-- The level above: neighbours combined, and a last node without one combined with itself.
unfoldable pub pair_up : List Sha256dHash → List Sha256dHash
pair_up [] = []
pair_up (a ∷ []) = combine a a ∷ []
pair_up (a ∷ b ∷ rest) = combine a b ∷ pair_up rest

pub even_out-cons :
    (a b : Sha256dHash) (rest : List Sha256dHash) → even_out (a ∷ b ∷ rest) ≡ a ∷ b ∷ even_out rest
unfolding even_out
even_out-cons a b [] = refl
even_out-cons a b (c ∷ rest) = ground arith

pub next_level-even_out : (level : List Sha256dHash) → next_level (even_out level) ≡ pair_up level
unfolding next_level combine_pair pair_up
next_level-even_out [] = unfold even_out in ap (map combine_pair) (chunks_exact-nil 2)
next_level-even_out (a ∷ []) =
    unfold even_out in
    ap (map combine_pair) (
      chunks_exact-append 2 (a ∷ a ∷ []) [] (omega arith) refl
      ∙ ap (◌∷◌ (a ∷ a ∷ [])) (chunks_exact-nil 2))
next_level-even_out (a ∷ b ∷ rest) =
    ap (λ l. map combine_pair (chunks_exact 2 l)) (even_out-cons a b rest)
    ∙ ap (map combine_pair) (chunks_exact-append 2 (a ∷ b ∷ []) (even_out rest) (omega arith) refl)
    ∙ ap (◌∷◌ (combine a b)) (next_level-even_out rest)

pub length-pair_up : (l : List Sha256dHash) → length (pair_up l) ≡ (length l + 1) / 2
unfolding pair_up
length-pair_up [] = omega arith
length-pair_up (a ∷ []) = omega arith
length-pair_up (a ∷ b ∷ rest) = omega (arith, length-pair_up rest)

pub climb_more :
    (fuel : ℕ) (level : List Sha256dHash)
    → 1 < length level
    → climb (suc fuel) level ≡ climb fuel (pair_up level)
unfolding climb
climb_more fuel level h =
    rw (lt→ltb 1 (length level) h) (ap (climb fuel) (next_level-even_out level))

pub climb_done : (fuel : ℕ) (level : List Sha256dHash) → length level ≤ 1 → climb fuel level ≡ level
unfolding climb
climb_done zero level h = refl
climb_done (suc fuel) level h = rw (ge→ltb 1 (length level) h)

-- The loop ends in a level of one node.
pub length-climb :
    (fuel : ℕ) (level : List Sha256dHash)
    → 0 < length level
    → length level ≤ fuel
    → length (climb fuel level) ≡ 1
length-climb zero level pos h = absurd (omega arith)
length-climb (suc fuel) level pos h = elim (Bool-cases (ltb 1 (length level))) [
  | inl more ↦
      ap length (climb_more fuel level (ltb→lt 1 (length level) more))
      ∙ length-climb fuel (pair_up level) (omega (arith, length-pair_up level))
          (omega (arith, length-pair_up level, ltb→lt 1 (length level) more))
  | inr done ↦
      let one : length level ≤ 1 = ltb→ge 1 (length level) done in
      ap length (climb_done (suc fuel) level one) ∙ omega arith
]

-- More fuel than the level has nodes changes nothing.
pub climb_fuel :
    (f g : ℕ) (level : List Sha256dHash)
    → length level ≤ f
    → length level ≤ g
    → climb f level ≡ climb g level
climb_fuel zero g level hf hg =
    climb_done zero level (omega arith) ∙ sym (climb_done g level (omega arith))
climb_fuel (suc f) zero level hf hg =
    climb_done (suc f) level (omega arith) ∙ sym (climb_done zero level (omega arith))
climb_fuel (suc f) (suc g) level hf hg = elim (Bool-cases (ltb 1 (length level))) [
  | inl more ↦
      let two : 1 < length level = ltb→lt 1 (length level) more in
      climb_more f level two
      ∙ climb_fuel f g (pair_up level) (omega (arith, length-pair_up level))
          (omega (arith, length-pair_up level))
      ∙ sym (climb_more g level two)
  | inr done ↦
      let one : length level ≤ 1 = ltb→ge 1 (length level) done in
      climb_done (suc f) level one ∙ sym (climb_done (suc g) level one)
]

-- The root of a level is that of the level above it.
pub merkle_root-pair_up :
    (a b : Sha256dHash) (rest : List Sha256dHash)
    → merkle_root (a ∷ b ∷ rest) ≡ merkle_root (pair_up (a ∷ b ∷ rest))
unfolding merkle_root pair_up
merkle_root-pair_up a b rest =
    ap (λ l. some (get_or l 0 zero_hash))
      (climb_more (suc (length rest)) (a ∷ b ∷ rest) (omega arith)
        ∙ climb_fuel (suc (length rest)) (suc (length (pair_up rest))) (combine a b ∷ pair_up rest)
            (omega (arith, length-pair_up rest)) (omega (arith, length-pair_up rest)))

pair_up_repeated :
    (xs : List Sha256dHash) (x : Sha256dHash)
    → length xs % 2 ≡ 0
    → pair_up (xs ++ x ∷ []) ≡ pair_up (xs ++ x ∷ x ∷ [])
unfolding pair_up
pair_up_repeated [] x even = refl
pair_up_repeated (a ∷ []) x even = absurd (omega arith)
pair_up_repeated (a ∷ b ∷ rest) x even =
    ap (◌∷◌ (combine a b)) (pair_up_repeated rest x (omega arith))

-- A transaction repeated at the end of an odd list of more than one leaves the root as it was
-- (CVE-2012-2459).
pub merkle_root_collision :
    (xs : List Sha256dHash) (x : Sha256dHash)
    → length xs % 2 ≡ 0
    → 0 < length xs
    → merkle_root (xs ++ x ∷ []) ≡ merkle_root (xs ++ x ∷ x ∷ [])
merkle_root_collision [] x even pos = absurd (omega arith)
merkle_root_collision (a ∷ []) x even pos = absurd (omega arith)
merkle_root_collision (a ∷ b ∷ rest) x even pos =
    merkle_root-pair_up a b (rest ++ x ∷ [])
    ∙ ap merkle_root (pair_up_repeated (a ∷ b ∷ rest) x even)
    ∙ sym (merkle_root-pair_up a b (rest ++ x ∷ x ∷ []))
