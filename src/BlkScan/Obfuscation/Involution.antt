-- ===== src/BlkScan/Obfuscation/Involution.antt =====
-- The key undoes itself, at any offset of the file.
use Prim.Native.Nat.{bit_xor}
use mac_solo_miner.Base.{
  get_or, ℕ, suc, ◌+◌, ◌-◌, ◌%◌, ◌^◌, ◌≡◌, refl, ap, ap₂, ◌∙◌, arith, Bool-cases, inl, inr, List,
  [], ◌∷◌, ◌++◌, length, slice, slice-append, bit_xor_twice,
}
use mac_solo_miner.BlkScan.Obfuscation.{ObfuscationKey, is_active, key_byte, apply_each, apply}

module _ (key : ObfuscationKey) where
  length-apply_each :
      (offset index : ℕ) (buffer : List ℕ)
      → length (apply_each key offset index buffer) ≡ length buffer
  unfolding apply_each
  length-apply_each offset index [] = refl
  length-apply_each offset index (byte ∷ buffer) =
      ap suc (length-apply_each offset (suc index) buffer)

  apply_each_twice :
      (offset index : ℕ) (buffer : List ℕ)
      → apply_each key offset index (apply_each key offset index buffer) ≡ buffer
  unfolding apply_each
  apply_each_twice offset index [] = refl
  apply_each_twice offset index (byte ∷ buffer) =
      ap₂ ◌∷◌ (bit_xor_twice byte (key_byte key offset index))
        (apply_each_twice offset (suc index) buffer)

  -- Only the sum of the offset and the index counts.
  apply_each_shift :
      (a i b j : ℕ) (buffer : List ℕ)
      → a + i ≡ b + j
      → apply_each key a i buffer ≡ apply_each key b j buffer
  unfolding apply_each key_byte
  apply_each_shift a i b j [] h = refl
  apply_each_shift a i b j (byte ∷ buffer) h =
      ap₂ (λ n rest. bit_xor byte (get_or key (n % 2 ^ 64 % 8) 0) ∷ rest) h
        (apply_each_shift a (suc i) b (suc j) buffer (omega arith))

  apply_each-append :
      (offset index : ℕ) (a b : List ℕ)
      → apply_each key offset index (a ++ b)
        ≡ apply_each key offset index a ++ apply_each key offset (index + length a) b
  unfolding apply_each
  apply_each-append offset index [] b =
      let same : index ≡ index + 0 = omega arith in ap (λ i. apply_each key offset i b) same
  apply_each-append offset index (byte ∷ a) b =
      let same : suc index + length a ≡ index + suc (length a) = omega arith in
      ap (◌∷◌ (bit_xor byte (key_byte key offset index))) (
        apply_each-append offset (suc index) a b
        ∙ ap (λ i. apply_each key offset (suc index) a ++ apply_each key offset i b) same)

  pub length-apply :
      (buffer : List ℕ) (offset : ℕ) → length (apply key buffer offset) ≡ length buffer
  unfolding apply
  length-apply buffer offset = elim (Bool-cases (is_active key)) [
    | inl active ↦ rw active (length-apply_each offset 0 buffer)
    | inr idle ↦ rw idle refl
  ]

  pub apply_twice :
      (buffer : List ℕ) (offset : ℕ) → apply key (apply key buffer offset) offset ≡ buffer
  unfolding apply
  apply_twice buffer offset = elim (Bool-cases (is_active key)) [
    | inl active ↦ rw active (apply_each_twice offset 0 buffer)
    | inr idle ↦ rw idle refl
  ]

  pub apply-append :
      (a b : List ℕ) (offset : ℕ)
      → apply key (a ++ b) offset ≡ apply key a offset ++ apply key b (offset + length a)
  unfolding apply
  apply-append a b offset = elim (Bool-cases (is_active key)) [
    | inl active ↦ rw active (
        apply_each-append offset 0 a b
        ∙ ap (λ l. apply_each key offset 0 a ++ l)
            (apply_each_shift offset (0 + length a) (offset + length a) 0 b (omega arith)))
    | inr idle ↦ rw idle refl
  ]

  -- A part of a file that is stored under the key is read by the key at the offset of the part,
  -- without what stands before or behind it.
  pub apply-slice :
      (before part after : List ℕ) (from to : ℕ)
      → length before ≡ from
      → length part ≡ to - from
      → apply key (slice from to (apply key (before ++ (part ++ after)) 0)) from ≡ part
  apply-slice before part after from to hb hp =
      let start : 0 + length before ≡ from = omega (arith, hb) in
      ap (λ l. apply key (slice from to l) from)
        (apply-append before (part ++ after) 0
          ∙ ap (λ l. apply key before 0 ++ l)
              (ap (apply key (part ++ after)) start ∙ apply-append part after from))
      ∙ ap (λ l. apply key l from)
          (slice-append from to (apply key before 0) (apply key part from)
            (apply key after (from + length part)) (length-apply before 0 ∙ hb)
            (length-apply part from ∙ hp))
      ∙ apply_twice part from
