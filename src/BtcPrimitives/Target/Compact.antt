-- ===== src/BtcPrimitives/Target/Compact.antt =====
-- The compact form: `from_compact` computes mantissa * 256^(exponent - 3), rounded down, or says
-- that this does not fit 256 bits.
use mac_solo_miner.Base.{
  ℕ, zero, suc, ◌+◌, ◌-◌, ◌*◌, ◌/◌, ◌%◌, ◌^◌, ◌≤◌, ◌<◌, ◌≡◌, refl, sym, ap, ◌∙◌, subst, arith, true,
  false, List, [], ◌∷◌, ◌++◌, length, length-append, length-replicate, replicate, replicate-add,
  set, set-append, append_assoc, All-append, All-replicate, IsArray, IsByte, be_value,
  from_be_bytes, from_be_bytes-be_value, Result, ok, err, be_value-lt, ◌⊎◌,
}
use mac_solo_miner.BtcPrimitives.Target.{
  Target, TargetError, negative, overflow, exponent_of, mantissa_of, sign_of, place_byte,
  place_bytes, mantissa_bytes, from_compact,
}
use native.Mathlib.Decide.{dec_lt, ℕ_discrete}
use native.Mathlib.Nat.{pow-suc, pow-le-pow_right, mul-le-mul_right}

-- What a decoding of the number `v` has to answer.
abbrev pub Decodes : ℕ → Result TargetError Target → Type 0
Decodes v (ok t) = (v < 2 ^ 256) × IsArray 32 t × (from_be_bytes t ≡ v)
Decodes v (err negative) = ⊥
Decodes v (err overflow) = 2 ^ 256 ≤ v

be_value-zeros : (n : ℕ) → be_value (replicate n 0) ≡ 0
unfolding be_value
be_value-zeros zero = refl
be_value-zeros (suc n) = omega (arith, be_value-zeros n)

be_value-zeros_append : (n : ℕ) (bs : List ℕ) → be_value (replicate n 0 ++ bs) ≡ be_value bs
unfolding be_value
be_value-zeros_append zero bs = refl
be_value-zeros_append (suc n) bs = omega (arith, be_value-zeros_append n bs)

abbrev number : ℕ → ℕ → ℕ → ℕ
number a b c = a * 65536 + b * 256 + c

-- A byte inside the 32 is written over `y`, which stands behind `front`.
place_byte_inside :
    (e i x y : ℕ) (front back : List ℕ)
    → e ≤ 32 + i
    → 1 + i ≤ e
    → length front ≡ 32 + i - e
    → place_byte e i x (front ++ y ∷ back) ≡ ok (front ++ x ∷ back)
unfolding place_byte
place_byte_inside e i x y front back top low at =
    ground (arith, set-append (32 + i - e) front back y x at)

-- A byte above the top has to be zero.
place_byte_above :
    (e i x : ℕ) (bytes : List ℕ)
    → 32 + i < e
    → ((x ≡ 0) × (place_byte e i x bytes ≡ ok bytes))
      ⊎ ((0 < x) × (place_byte e i x bytes ≡ err overflow))
unfolding place_byte
place_byte_above e i x bytes h = ground arith

module _ (a b c : ℕ) (ha : a < 256) (hb : b < 256) (hc : c < 256) where
  abbrev placed : ℕ → ℕ → List ℕ
  placed k r = replicate k 0 ++ a ∷ b ∷ c ∷ replicate r 0

  -- The exponent is `r + 3`, and no byte lies above the top.
  inside :
      (k r : ℕ)
      → k + r ≡ 29
      → place_bytes (suc (suc (suc r))) 0 (a ∷ b ∷ c ∷ []) (replicate 32 0) ≡ ok (placed k r)
  unfolding place_bytes
  inside k r h =
      rw
        (
          zeros,
          place_byte_inside e 0 a 0 front (0 ∷ 0 ∷ replicate r 0) (omega arith) (omega arith)
              (omega (arith, size)),
          sym (append_assoc front (a ∷ []) (0 ∷ 0 ∷ replicate r 0)),
          place_byte_inside e 1 b 0 (front ++ a ∷ []) (0 ∷ replicate r 0) (omega arith)
              (omega arith) (omega (arith, size, length-append front (a ∷ []))),
          append_assoc front (a ∷ []) (b ∷ 0 ∷ replicate r 0),
          sym (append_assoc front (a ∷ b ∷ []) (0 ∷ replicate r 0)),
          place_byte_inside e 2 c 0 (front ++ a ∷ b ∷ []) (replicate r 0) (omega arith)
              (omega arith) (omega (arith, size, length-append front (a ∷ b ∷ []))),
          append_assoc front (a ∷ b ∷ []) (c ∷ replicate r 0),
        )
        refl
    where
      e : ℕ
      e = suc (suc (suc r))

      front : List ℕ
      front = replicate k 0

      size : length front ≡ k
      size = length-replicate k zero

      zeros : replicate {A = ℕ} 32 0 ≡ front ++ 0 ∷ 0 ∷ 0 ∷ replicate r 0
      zeros =
          ap (λ n. replicate n 0) {x = 32} {y = k + suc (suc (suc r))} (omega arith)
          ∙ replicate-add k (suc (suc (suc r))) 0

  value_inside : (k r : ℕ) → be_value (placed k r) ≡ number a b c * 256 ^ r
  value_inside k r =
      be_value-zeros_append k (a ∷ b ∷ c ∷ replicate r 0)
      ∙ unfold be_value in
        omega (
          arith,
          be_value-zeros r,
          ap (λ n. a * 256 ^ suc (suc n)) (length-replicate r zero),
          ap (λ n. b * 256 ^ suc n) (length-replicate r zero),
          ap (λ n. c * 256 ^ n) (length-replicate r zero),
          ap (λ p. a * p) (pow-suc 256 (suc r)),
          ap (λ p. a * (p * 256)) (pow-suc 256 r),
          ap (λ p. b * p) (pow-suc 256 r),
        )

  placed-IsArray : (k r : ℕ) → k + r ≡ 29 → IsArray 32 (placed k r)
  placed-IsArray k r h = (
    omega (
      arith,
      length-append (replicate k 0) (a ∷ b ∷ c ∷ replicate r 0),
      length-replicate k zero,
      length-replicate r zero,
    ),
    All-append IsByte (replicate k 0) (a ∷ b ∷ c ∷ replicate r 0)
        (All-replicate IsByte k 0 (omega arith))
        (ha, (hb, (hc, All-replicate IsByte r 0 (omega arith)))),
  )

  number_fits : (k r : ℕ) → k + r ≡ 29 → number a b c * 256 ^ r < 2 ^ 256
  number_fits k r h = rw (sym (value_inside k r)) (
      subst (λ n. be_value (placed k r) < 256 ^ n) (placed-IsArray k r h).0
        (be_value-lt (placed k r) (placed-IsArray k r h).1))

  small :
      (e : ℕ)
      → e < 3
      → Decodes
          (number a b c * 256 ^ e / 256 ^ 3)
          (place_bytes e 0 (a ∷ b ∷ c ∷ []) (replicate 32 0))
  unfolding place_bytes place_byte be_value
  small zero h = ground (arith, from_be_bytes-be_value (replicate 32 0))
  small (suc zero) h = ground (arith, from_be_bytes-be_value (set (replicate 32 0) 31 a))
  small (suc (suc zero)) h =
      ground (arith, from_be_bytes-be_value (set (set (replicate 32 0) 30 a) 31 b))
  small (suc (suc (suc e))) h = absurd (omega arith)

  middle :
      (k r : ℕ)
      → k + r ≡ 29
      → Decodes
          (number a b c * 256 ^ r)
          (place_bytes (suc (suc (suc r))) 0 (a ∷ b ∷ c ∷ []) (replicate 32 0))
  middle k r h = rw (inside k r h) (
    number_fits k r h,
    placed-IsArray k r h,
    from_be_bytes-be_value (placed k r) ∙ value_inside k r,
  )

  thirty : Decodes (number a b c * 256 ^ 30) (place_bytes 33 0 (a ∷ b ∷ c ∷ []) (replicate 32 0))
  unfolding place_bytes place_byte be_value
  thirty = ground (arith, from_be_bytes-be_value (b ∷ c ∷ replicate 30 0))

  thirty_one :
      Decodes (number a b c * 256 ^ 31) (place_bytes 34 0 (a ∷ b ∷ c ∷ []) (replicate 32 0))
  unfolding place_bytes place_byte be_value
  thirty_one = ground (arith, from_be_bytes-be_value (c ∷ replicate 31 0))

  -- With all three bytes above the top only 0 fits.
  above :
      (r : ℕ)
      → 32 ≤ r
      → Decodes
          (number a b c * 256 ^ r)
          (place_bytes (suc (suc (suc r))) 0 (a ∷ b ∷ c ∷ []) (replicate 32 0))
  unfolding place_bytes
  above r h = ground (
    arith,
    place_byte_above (suc (suc (suc r))) 0 a (replicate 32 0) (omega arith),
    place_byte_above (suc (suc (suc r))) 1 b (replicate 32 0) (omega arith),
    place_byte_above (suc (suc (suc r))) 2 c (replicate 32 0) (omega arith),
    from_be_bytes-be_value (replicate 32 0),
    be_value-zeros 32,
    too_large,
    nothing,
  )
    where
      too_large : 0 < number a b c → 2 ^ 256 ≤ number a b c * 256 ^ r
      too_large pos = omega (
        arith,
        pow-le-pow_right {n = 256} (omega arith) {i = 32} {j = r} h,
        mul-le-mul_right {m = 1} {n = number a b c} (256 ^ r) pos,
      )

      nothing : number a b c ≡ 0 → number a b c * 256 ^ r ≡ 0
      nothing e = ap (λ n. n * 256 ^ r) e ∙ omega arith

  -- The loop over the three bytes, at every exponent.
  place_bytes-Decodes :
      (e : ℕ)
      → Decodes
          (number a b c * 256 ^ e / 256 ^ 3)
          (place_bytes e 0 (a ∷ b ∷ c ∷ []) (replicate 32 0))
  place_bytes-Decodes zero = small 0 (omega arith)
  place_bytes-Decodes (suc zero) = small 1 (omega arith)
  place_bytes-Decodes (suc (suc zero)) = small 2 (omega arith)
  place_bytes-Decodes (suc (suc (suc r))) = rw shifted by_size
    where
      shifted : number a b c * 256 ^ suc (suc (suc r)) / 256 ^ 3 ≡ number a b c * 256 ^ r
      shifted = omega (
        arith,
        ap (λ p. number a b c * p) (pow-suc 256 (suc (suc r))),
        ap (λ p. number a b c * (p * 256)) (pow-suc 256 (suc r)),
        ap (λ p. number a b c * (p * 256 * 256)) (pow-suc 256 r),
      )

      by_size :
          Decodes
            (number a b c * 256 ^ r)
            (place_bytes (suc (suc (suc r))) 0 (a ∷ b ∷ c ∷ []) (replicate 32 0))
      by_size = elim (dec_lt r 30) [
        | yes fits ↦ middle (29 - r) r (omega arith)
        | no high ↦ elim (ℕ_discrete r 30) [
          | yes e ↦ rw e thirty
          | no n ↦ elim (ℕ_discrete r 31) [ yes e ↦ rw e thirty_one | no m ↦ above r (omega arith) ]
        ]
      ]

-- A compact form with the sign bit is refused as negative.
pub from_compact_negative : (bits : ℕ) → sign_of bits ≡ true → from_compact bits ≡ err negative
unfolding from_compact
from_compact_negative bits s = rw s

-- A compact form without the sign bit decodes to the 32 bytes of mantissa * 256^exponent / 256^3,
-- rounded down, where that is below 2^256, and is refused as an overflow exactly where it is not.
pub from_compact-Decodes :
    (bits : ℕ)
    → sign_of bits ≡ false
    → Decodes (mantissa_of bits * 256 ^ exponent_of bits / 256 ^ 3) (from_compact bits)
unfolding from_compact
from_compact-Decodes bits s = rw s (
    subst
      (λ n.
        Decodes (n * 256 ^ exponent_of bits / 256 ^ 3)
          (place_bytes (exponent_of bits) 0 (mantissa_bytes m) (replicate 32 0)))
      whole decoded)
  where
    m : ℕ
    m = mantissa_of bits

    whole : number (m / 2 ^ 16 % 256) (m / 2 ^ 8 % 256) (m % 256) ≡ m
    whole = omega arith

    decoded :
        Decodes
          (number (m / 2 ^ 16 % 256) (m / 2 ^ 8 % 256) (m % 256) * 256 ^ exponent_of bits / 256 ^ 3)
          (place_bytes (exponent_of bits) 0 (mantissa_bytes m) (replicate 32 0))
    decoded =
        place_bytes-Decodes (m / 2 ^ 16 % 256) (m / 2 ^ 8 % 256) (m % 256) (omega arith)
          (omega arith) (omega arith) (exponent_of bits)
