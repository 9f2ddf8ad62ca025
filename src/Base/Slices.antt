-- ===== src/Base/Slices.antt =====
-- Slice operations of Rust: `chunks_exact`, `copy_from_slice`, and writes to an index.
use Prim.Native.Nat.{ℕ, zero, suc, ◌+◌, ◌-◌, ◌≤◌, ◌<◌}
use mathlib.Core.Path.{◌≡◌, refl, sym, ap, ap₂, ◌∙◌}
use mathlib.Core.List.{List, [], ◌∷◌, ◌++◌, append_assoc, append-nil}
use native.Mathlib.Omega.{arith}
use mac_solo_miner.Base.Tests.{leb, if◌then◌else◌, Bool-cases, leb→le, le→leb}
use mac_solo_miner.Base.Lists.{
  length, take, drop, set, get_or, length-append, length-take, length-drop, take-append,
  drop-append, replicate, replicate-add, length-replicate, drop-add, take-append-drop,
}
use mathlib.Core.Logic.{inl, inr}

module _ {ℓ} {A : Type ℓ} where
  -- The whole chunks of `n` elements, on fuel; what is left over at the end is dropped.
  unfoldable pub chunks : ℕ → ℕ → List A → List (List A)
  chunks zero n xs = []
  chunks (suc fuel) n xs =
      let rest = chunks fuel n (drop n xs) in if leb n (length xs) then take n xs ∷ rest else []

  -- A chunk takes an element at least, so a round for each element is enough fuel.
  unfoldable pub chunks_exact : ℕ → List A → List (List A)
  unfolding chunks
  chunks_exact n xs = chunks (length xs) n xs

  -- `dst[at .. at + src.len()].copy_from_slice(src)`
  unfoldable pub copy_from_slice : ℕ → List A → List A → List A
  copy_from_slice at src dst = take at dst ++ (src ++ drop (at + length src) dst)

  chunks_fuel :
      (f g n : ℕ) (xs : List A)
      → 0 < n
      → length xs ≤ f
      → length xs ≤ g
      → chunks f n xs ≡ chunks g n xs
  unfolding chunks
  chunks_fuel zero zero n xs h p q = refl
  chunks_fuel zero (suc g) n [] h p q = ground arith
  chunks_fuel zero (suc g) n (x ∷ xs) h p q = absurd (omega arith)
  chunks_fuel (suc f) zero n [] h p q = ground arith
  chunks_fuel (suc f) zero n (x ∷ xs) h p q = absurd (omega arith)
  chunks_fuel (suc f) (suc g) n xs h p q = elim (Bool-cases (leb n (length xs))) [
    | inl fits ↦ rw fits (
        ap (◌∷◌ (take n xs)) (
          chunks_fuel f g n (drop n xs) h
            (omega (arith, length-drop n xs, leb→le n (length xs) fits))
            (omega (arith, length-drop n xs, leb→le n (length xs) fits))))
    | inr short ↦ rw short
  ]

  -- The first chunk of a list that begins with one.
  pub chunks_exact-append :
      (n : ℕ) (xs ys : List A)
      → 0 < n
      → length xs ≡ n
      → chunks_exact n (xs ++ ys) ≡ xs ∷ chunks_exact n ys
  unfolding chunks_exact
  chunks_exact-append n [] ys h e = absurd (omega arith)
  chunks_exact-append n (x ∷ xs) ys h e =
      rw
        (
          le→leb n (length (x ∷ xs ++ ys)) (omega (arith, length-append xs ys)),
          take-append n (x ∷ xs) ys e,
          drop-append n (x ∷ xs) ys e,
        )
        (ap (◌∷◌ (x ∷ xs)) (
          chunks_fuel (length (xs ++ ys)) (length ys) n ys h (omega (arith, length-append xs ys))
            (omega arith)))

  pub chunks_exact-nil : (n : ℕ) → chunks_exact n [] ≡ []
  unfolding chunks_exact
  chunks_exact-nil n = refl

  -- A write over `b`, where `b` stands behind `a`.
  pub copy-append :
      (at : ℕ) (a b c s : List A)
      → length a ≡ at
      → length s ≡ length b
      → copy_from_slice at s (a ++ (b ++ c)) ≡ a ++ (s ++ c)
  unfolding copy_from_slice
  copy-append at a b c s ha hs =
      ap₂ (λ p q. p ++ (s ++ q)) (take-append at a (b ++ c) ha)
        (ap (drop (at + length s)) (sym (append_assoc a b c))
          ∙ drop-append (at + length s) (a ++ b) c (omega (arith, length-append a b)))

  -- A write behind `a`, into what is still filled with `z`.
  pub copy_next :
      (at k : ℕ) (a s : List A) (z : A)
      → length a ≡ at
      → copy_from_slice at s (a ++ replicate (length s + k) z) ≡ (a ++ s) ++ replicate k z
  copy_next at k a s z h =
      ap (λ l. copy_from_slice at s (a ++ l)) (replicate-add (length s) k z)
      ∙ copy-append at a (replicate (length s) z) (replicate k z) s h
          (sym (length-replicate (length s) z))
      ∙ sym (append_assoc a s (replicate k z))

  -- `xs[from..to]`
  abbrev pub slice : ℕ → ℕ → List A → List A
  slice from to xs = take (to - from) (drop from xs)

  pub length-slice :
      (from to : ℕ) (xs : List A) → to ≤ length xs → length (slice from to xs) ≡ to - from
  length-slice from to xs h =
      omega (arith, length-take (to - from) (drop from xs), length-drop from xs)

  -- Slices that meet join.
  pub slice-drop :
      (from to : ℕ) (xs : List A) → from ≤ to → slice from to xs ++ drop to xs ≡ drop from xs
  slice-drop from to xs h =
      ap (λ l. slice from to xs ++ l)
        (ap (λ n. drop n xs) (omega arith) ∙ sym (drop-add from (to - from) xs))
      ∙ take-append-drop (to - from) (drop from xs)

  -- The slice behind `a` of the length of `b`.
  pub slice-append :
      (from to : ℕ) (a b c : List A)
      → length a ≡ from
      → length b ≡ to - from
      → slice from to (a ++ (b ++ c)) ≡ b
  slice-append from to a b c ha hb =
      ap (take (to - from)) (drop-append from a (b ++ c) ha) ∙ take-append (to - from) b c hb

  pub set-append :
      (i : ℕ) (a c : List A) (x v : A) → length a ≡ i → set (a ++ x ∷ c) i v ≡ a ++ v ∷ c
  set-append zero [] c x v h = refl
  set-append zero (y ∷ a) c x v h = absurd (omega arith)
  set-append (suc i) [] c x v h = absurd (omega arith)
  set-append (suc i) (y ∷ a) c x v h = ap (◌∷◌ y) (set-append i a c x v (omega arith))

  -- The element behind `a`, and one inside it.
  pub get_or-append_at : (a b : List A) (x d : A) → get_or (a ++ x ∷ b) (length a) d ≡ x
  get_or-append_at [] b x d = refl
  get_or-append_at (y ∷ a) b x d = get_or-append_at a b x d

  pub get_or-append_left :
      (a b : List A) (i : ℕ) (d : A) → i < length a → get_or (a ++ b) i d ≡ get_or a i d
  get_or-append_left [] b i d h = absurd (omega arith)
  get_or-append_left (y ∷ a) b zero d h = refl
  get_or-append_left (y ∷ a) b (suc i) d h = get_or-append_left a b i d (omega arith)

  take-skip : (k : ℕ) (a b : List A) → take (length a + k) (a ++ b) ≡ a ++ take k b
  take-skip k [] b = ap (λ m. take m b) (omega arith)
  take-skip k (x ∷ a) b =
      let e : length (x ∷ a) + k ≡ suc (length a + k) = omega arith in
      ap (λ m. take m (x ∷ a ++ b)) e ∙ ap (◌∷◌ x) (take-skip k a b)

  drop-skip : (k : ℕ) (a b : List A) → drop (length a + k) (a ++ b) ≡ drop k b
  drop-skip k [] b = ap (λ m. drop m b) (omega arith)
  drop-skip k (x ∷ a) b =
      let e : length (x ∷ a) + k ≡ suc (length a + k) = omega arith in
      ap (λ m. drop m (x ∷ a ++ b)) e ∙ drop-skip k a b

  -- A slice, and a write, that lie behind `a`.
  pub slice-skip :
      (n from to : ℕ) (a b : List A)
      → length a ≡ n
      → n ≤ from
      → slice from to (a ++ b) ≡ slice (from - n) (to - n) b
  slice-skip n from to a b e h =
      ap₂ (λ k m. take k (drop m (a ++ b))) (omega arith) (omega (arith, e))
      ∙ ap (take ((to - n) - (from - n))) (drop-skip (from - n) a b)

  pub copy-skip :
      (n at : ℕ) (s a b : List A)
      → length a ≡ n
      → n ≤ at
      → copy_from_slice at s (a ++ b) ≡ a ++ copy_from_slice (at - n) s b
  unfolding copy_from_slice
  copy-skip n at s a b e h =
      ap₂ (λ k m. take k (a ++ b) ++ (s ++ drop m (a ++ b))) (omega (arith, e)) (omega (arith, e))
      ∙ ap₂ (λ k m. k ++ (s ++ m)) (take-skip (at - n) a b) (drop-skip ((at - n) + length s) a b)
      ∙ append_assoc a (take (at - n) b) (s ++ drop ((at - n) + length s) b)

  -- A write over everything.
  pub copy_all : (s b : List A) → length s ≡ length b → copy_from_slice 0 s b ≡ s
  copy_all s b e =
      ap (copy_from_slice 0 s) (sym (append-nil b)) ∙ copy-append 0 [] b [] s refl e ∙ append-nil s
