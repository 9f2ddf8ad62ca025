-- ===== src/Sha256d/Padding/Laws.antt =====
-- The padding loop in plain arithmetic, and the form of a padded message.
use mac_solo_miner.Base.{
  ℕ, zero, suc, ◌+◌, ◌-◌, ◌*◌, ◌%◌, ◌^◌, ◌<◌, ◌≤◌, ◌≡◌, refl, sym, ap, ◌∙◌, arith, Bool-cases, ◌==◌,
  inl, inr, List, [], ◌∷◌, ◌++◌, append-nil, append_assoc, length, replicate, length-append,
  length-replicate, IsBytes, IsByte, All-append, All-replicate, to_be_bytes, length-to_be_bytes,
  to_be_bytes-IsBytes, from_be_bytes, from_be_bytes-to_be_bytes,
}
use mac_solo_miner.Sha256d.Padding.{zero_fill, pad, padded_len}

-- How many zeros bring a length to 56 bytes into a block.
abbrev pub zeros : ℕ → ℕ
zeros len = (120 - len % 64) % 64

zero_fill-zeros :
    (fuel : ℕ) (padded : List ℕ)
    → zeros (length padded) ≤ fuel
    → zero_fill fuel padded ≡ padded ++ replicate (zeros (length padded)) 0
unfolding zero_fill
zero_fill-zeros zero padded h = rw (absurd_free (zeros (length padded)) h) (sym (append-nil padded))
  where
    absurd_free : (n : ℕ) → n ≤ 0 → n ≡ 0
    absurd_free n h = omega arith
zero_fill-zeros (suc fuel) padded h = elim (Bool-cases (length padded % 64 == 56)) [
  | inl done ↦
      let none_left : zeros (length padded) ≡ 0 = ground arith in
      rw (done, none_left) (sym (append-nil padded))
  | inr more ↦
      let longer : length (padded ++ 0 ∷ []) ≡ length padded + 1 = length-append padded (0 ∷ []) in
      let one_less : zeros (length padded) ≡ suc (zeros (length (padded ++ 0 ∷ []))) =
        ground (arith, longer) in
      rw (more, one_less)
        (zero_fill-zeros fuel (padded ++ 0 ∷ []) (omega arith)
          ∙ append_assoc padded (0 ∷ []) (replicate (zeros (length (padded ++ 0 ∷ []))) 0))
]

-- What stands before the length: the message, a 1 bit, and zeros.
abbrev pub body : List ℕ → List ℕ
body m = m ++ 0x80 ∷ replicate (zeros (length m + 1)) 0

pub pad_lem : (m : List ℕ) → pad m ≡ body m ++ to_be_bytes 8 (length m * 8)
unfolding pad
pad_lem m =
    rw
      (
        zero_fill-zeros 64 (m ++ 0x80 ∷ []) (omega arith),
        length-append m (0x80 ∷ []),
        append_assoc m (0x80 ∷ []) (replicate (zeros (length m + 1)) 0),
      )
      refl

length-body : (m : List ℕ) → length (body m) ≡ length m + 1 + zeros (length m + 1)
length-body m = omega (
  arith,
  length-append m (0x80 ∷ replicate (zeros (length m + 1)) 0),
  length-replicate (zeros (length m + 1)) zero,
)

-- `padded_len` tells how long `pad` makes a message, a whole number of blocks.
pub length-pad : (m : List ℕ) → (length (pad m) ≡ padded_len (length m)) × (length (pad m) % 64 ≡ 0)
unfolding padded_len
length-pad m =
    let total : length (pad m) ≡ length m + 1 + zeros (length m + 1) + 8 =
      ap length (pad_lem m)
      ∙ omega (
        arith,
        length-append (body m) (to_be_bytes 8 (length m * 8)),
        length-body m,
        length-to_be_bytes 8 (length m * 8),
      ) in
    (omega arith, omega arith)

-- A message of fewer than 2^61 bytes is padded with the byte 0x80, the fewest zeros that make it a
-- whole number of blocks, and eight bytes that are the number of its bits, with the highest first.
pub pad-IsPadded :
    (m : List ℕ)
    → length m < 2 ^ 61
    → (k : ℕ) × (bits : List ℕ) × (pad m ≡ m ++ 0x80 ∷ (replicate k 0 ++ bits))
      × (k < 64)
      × (length bits ≡ 8)
      × (from_be_bytes bits ≡ 8 * length m)
      × (length (pad m) % 64 ≡ 0)
pad-IsPadded m h = (
  zeros (length m + 1),
  to_be_bytes 8 (length m * 8),
  pad_lem m
      ∙ append_assoc m (0x80 ∷ replicate (zeros (length m + 1)) 0) (to_be_bytes 8 (length m * 8)),
  omega arith,
  length-to_be_bytes 8 (length m * 8),
  omega (arith, from_be_bytes-to_be_bytes 8 (length m * 8) (omega arith)),
  (length-pad m).1,
)

pub pad-IsBytes : (m : List ℕ) → IsBytes m → IsBytes (pad m)
pad-IsBytes m h = rw (pad_lem m) (
    All-append IsByte (body m) (to_be_bytes 8 (length m * 8))
      (All-append IsByte m (0x80 ∷ replicate (zeros (length m + 1)) 0) h
        (omega arith, All-replicate IsByte (zeros (length m + 1)) 0 (omega arith)))
      (to_be_bytes-IsBytes 8 (length m * 8)))
