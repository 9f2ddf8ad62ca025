-- ===== src/BtcPrimitives/Varint/RoundTrip.antt =====
-- Encoding and decoding of CompactSize integers are inverse to each other.
use mac_solo_miner.Base.{
  to_le_bytes-from_le_bytes, from_le_bytes-lt, subst₂, All-take, leb→le, length-take, ◌-◌,
  Bool-cases, ℕ, suc, ◌+◌, ◌%◌, ◌^◌, ◌≤◌, ◌<◌, ◌≡◌, refl, ap, ◌∙◌, arith, leb, List, [], ◌∷◌, ◌++◌,
  take, length, length-append, take-append, append_assoc, ok, err, IsBytes, IsByte, to_le_bytes,
  from_le_bytes, length-to_le_bytes, to_le_bytes-IsBytes, from_le_bytes-to_le_bytes,
  from_le_bytes-append_zeros, le→leb, inl, inr,
}
use mac_solo_miner.BtcPrimitives.Varint.{
  unexpected_end, encode, encoded_len, read_le, decode_first, decode,
}

-- `encode` keeps what was there.
pub encode-append : (v : ℕ) (out : List ℕ) → encode v out ≡ out ++ encode v []
unfolding encode
encode-append v out = ground (
  arith,
  append_assoc out (0xFD ∷ []) (to_le_bytes 2 (v % 2 ^ 16)),
  append_assoc out (0xFE ∷ []) (to_le_bytes 4 (v % 2 ^ 32)),
  append_assoc out (0xFF ∷ []) (to_le_bytes 8 v),
)

length-encode_nil : (v : ℕ) → length (encode v []) ≡ encoded_len v
unfolding encode encoded_len
length-encode_nil v = ground (
  arith,
  length-to_le_bytes 2 (v % 2 ^ 16),
  length-to_le_bytes 4 (v % 2 ^ 32),
  length-to_le_bytes 8 v,
)

-- `encoded_len` tells how many bytes `encode` appends.
pub length-encode : (v : ℕ) (out : List ℕ) → length (encode v out) ≡ length out + encoded_len v
length-encode v out =
    ap length (encode-append v out)
    ∙ length-append out (encode v [])
    ∙ ap (λ k. length out + k) (length-encode_nil v)

pub encode-IsBytes : (v : ℕ) → IsBytes (encode v [])
unfolding encode
encode-IsBytes v = ground (
  arith,
  to_le_bytes-IsBytes 2 (v % 2 ^ 16),
  to_le_bytes-IsBytes 4 (v % 2 ^ 32),
  to_le_bytes-IsBytes 8 v,
)

-- `read_le` reads what `to_le_bytes` wrote behind the first byte.
read_le-to_le_bytes :
    (n b v : ℕ) (rest : List ℕ) → v < 256 ^ n → read_le n (b ∷ to_le_bytes n v ++ rest) ≡ ok v
unfolding read_le
read_le-to_le_bytes n b v rest h =
    rw
      (
        le→leb (1 + n) (suc (length (to_le_bytes n v ++ rest)))
            (omega (arith, length-append (to_le_bytes n v) rest, length-to_le_bytes n v)),
        take-append n (to_le_bytes n v) rest (length-to_le_bytes n v),
        from_le_bytes-append_zeros (to_le_bytes n v),
        from_le_bytes-to_le_bytes n v h,
      )
      refl

-- Decoding reads back every u64 that was encoded, says how long it was, and leaves the rest alone.
pub decode-encode :
    (v : ℕ) (rest : List ℕ) → v < 2 ^ 64 → decode (encode v [] ++ rest) ≡ ok (v, encoded_len v)
unfolding decode decode_first encode encoded_len
decode-encode v rest h = ground (
  arith,
  read_le-to_le_bytes 2 0xFD (v % 2 ^ 16) rest (omega arith),
  read_le-to_le_bytes 4 0xFE (v % 2 ^ 32) rest (omega arith),
  read_le-to_le_bytes 8 0xFF v rest (omega arith),
)

-- What `read_le` reads determines the bytes that it read.
read_le-eq-ok :
    (n b v : ℕ) (bs : List ℕ)
    → IsBytes bs
    → read_le n (b ∷ bs) ≡ ok v
    → (n ≤ length bs) × (v < 256 ^ n) × (to_le_bytes n v ≡ take n bs)
unfolding read_le
read_le-eq-ok n b v bs all h = elim (Bool-cases (leb (1 + n) (suc (length bs)))) [
  | inl fits ↦
      let size : length (take n bs) ≡ n = omega (arith, length-take n bs, leb→le _ _ fits) in
      let bytes : IsBytes (take n bs) = All-take IsByte n bs all in
      let got : from_le_bytes (take n bs) ≡ v =
        ground (arith, from_le_bytes-append_zeros (take n bs) (8 - n)) in
      (
        omega (arith, leb→le _ _ fits),
        subst₂ (λ w m. w < 256 ^ m) got size (from_le_bytes-lt (take n bs) bytes),
        subst₂ (λ w m. to_le_bytes m w ≡ take n bs) got size
            (to_le_bytes-from_le_bytes (take n bs) bytes),
      )
  | inr short ↦ cc (rw short at h)
]

-- A decoding that succeeds has read the one canonical encoding of a u64, and no other bytes
-- decode to that value.
pub encode-decode :
    (bs : List ℕ) (v n : ℕ)
    → IsBytes bs
    → decode bs ≡ ok (v, n)
    → (v < 2 ^ 64) × (n ≡ encoded_len v) × (encode v [] ≡ take n bs)
unfolding decode decode_first encode encoded_len
encode-decode [] v n all h = cc
encode-decode (b ∷ bs) v n all h = ground (
  arith,
  read_le-eq-ok 2 b v bs all.1,
  read_le-eq-ok 4 b v bs all.1,
  read_le-eq-ok 8 b v bs all.1,
)

read_le_short : (n b : ℕ) (bs : List ℕ) → length bs < n → read_le n (b ∷ bs) ≡ err unexpected_end
unfolding read_le
read_le_short n b bs h = ground arith

-- Every proper prefix of an encoding is refused as ending too soon.
pub decode_truncated :
    (v x : ℕ) (front back : List ℕ)
    → v < 2 ^ 64
    → encode v [] ≡ front ++ x ∷ back
    → decode front ≡ err unexpected_end
unfolding decode decode_first encode
decode_truncated v x [] back h e = refl
decode_truncated v x (b ∷ bs) back h e = ground (
  arith,
  length-append bs (x ∷ back),
  ap length e,
  length-to_le_bytes 2 (v % 2 ^ 16),
  length-to_le_bytes 4 (v % 2 ^ 32),
  length-to_le_bytes 8 v,
  read_le_short 2 b bs,
  read_le_short 4 b bs,
  read_le_short 8 b bs,
)

pub encode_zero : encode 0 [] ≡ 0 ∷ []
unfolding encode
encode_zero = refl
