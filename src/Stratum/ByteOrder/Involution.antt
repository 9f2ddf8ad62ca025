-- ===== src/Stratum/ByteOrder/Involution.antt =====
-- Swapping the words twice changes nothing.
use mac_solo_miner.Base.{
  ℕ, zero, suc, ◌*◌, ◌≡◌, refl, sym, ap, subst, ◌∙◌, IsArray, arith, List, [], ◌∷◌, length,
  chunks_exact, chunks_exact-append,
}
use mac_solo_miner.BtcPrimitives.Hash.{Sha256dHash}
use mac_solo_miner.Stratum.ByteOrder.{swap_each, swap_words, hash_to_stratum, hash_from_stratum}

swap_words-cons :
    (a b c d : ℕ) (rest : List ℕ)
    → swap_words (a ∷ b ∷ c ∷ d ∷ rest) ≡ d ∷ c ∷ b ∷ a ∷ swap_words rest
unfolding swap_words swap_each
swap_words-cons a b c d rest =
    ap swap_each (chunks_exact-append 4 (a ∷ b ∷ c ∷ d ∷ []) rest (omega arith) refl)

-- Over any number of whole words.
swap_words_twice :
    (n : ℕ) (bytes : List ℕ) → length bytes ≡ 4 * n → swap_words (swap_words bytes) ≡ bytes
unfolding swap_words swap_each chunks_exact
swap_words_twice zero [] h = refl
swap_words_twice zero (a ∷ bytes) h = absurd (omega arith)
swap_words_twice (suc n) [] h = absurd (omega arith)
swap_words_twice (suc n) (a ∷ []) h = absurd (omega arith)
swap_words_twice (suc n) (a ∷ b ∷ []) h = absurd (omega arith)
swap_words_twice (suc n) (a ∷ b ∷ c ∷ []) h = absurd (omega arith)
swap_words_twice (suc n) (a ∷ b ∷ c ∷ d ∷ rest) h =
    ap swap_words (swap_words-cons a b c d rest)
    ∙ swap_words-cons d c b a (swap_words rest)
    ∙ ap (λ l. a ∷ b ∷ c ∷ d ∷ l) (swap_words_twice n rest (omega arith))

swap_words-IsArray :
    (n : ℕ) (bytes : List ℕ) → IsArray (4 * n) bytes → IsArray (4 * n) (swap_words bytes)
unfolding swap_words swap_each chunks_exact
swap_words-IsArray zero [] h = h
swap_words-IsArray zero (a ∷ bytes) h = absurd (omega (arith, h.0))
swap_words-IsArray (suc n) [] h = absurd (omega (arith, h.0))
swap_words-IsArray (suc n) (a ∷ []) h = absurd (omega (arith, h.0))
swap_words-IsArray (suc n) (a ∷ b ∷ []) h = absurd (omega (arith, h.0))
swap_words-IsArray (suc n) (a ∷ b ∷ c ∷ []) h = absurd (omega (arith, h.0))
swap_words-IsArray (suc n) (a ∷ b ∷ c ∷ d ∷ rest) (size, (ha, (hb, (hc, (hd, fits))))) =
    let (swapped, all) = swap_words-IsArray n rest (omega (arith, size), fits) in
    subst (IsArray (4 * suc n)) (sym (swap_words-cons a b c d rest))
      (omega (arith, swapped), (hd, (hc, (hb, (ha, all)))))

pub hash_to_stratum-IsArray : (h : Sha256dHash) → IsArray 32 h → IsArray 32 (hash_to_stratum h)
unfolding hash_to_stratum
hash_to_stratum-IsArray h fits = swap_words-IsArray 8 h fits

-- A hash that was encoded for Stratum is decoded to itself, and the other way around.
pub hash_from_stratum-to_stratum :
    (hash : Sha256dHash)
    → length hash ≡ 32
    → (hash_from_stratum (hash_to_stratum hash) ≡ hash)
      × (hash_to_stratum (hash_from_stratum hash) ≡ hash)
unfolding hash_from_stratum hash_to_stratum
hash_from_stratum-to_stratum hash h =
    (swap_words_twice 8 hash (omega (arith, h)), swap_words_twice 8 hash (omega (arith, h)))
