-- ===== src/BtcPrimitives/Reader/Reads.antt =====
-- What it is for a method of the reader to read an encoding, and how encodings are chained.
use mac_solo_miner.Base.{
  ℕ, ◌+◌, ◌^◌, ◌<◌, ◌≡◌, refl, sym, ap, ap₂, ◌∙◌, subst, arith, lt→ltb, le→leb, List, [], ◌∷◌, ◌++◌,
  map, All, append-nil, append_assoc, length, length-append, slice-append, drop-append, ok,
  to_le_bytes, from_le_bytes, length-to_le_bytes, from_le_bytes-to_le_bytes,
}
use mac_solo_miner.BtcPrimitives.Varint.{encode}
use mac_solo_miner.BtcPrimitives.Varint.RoundTrip.{length-encode, decode-encode}
use mac_solo_miner.BtcPrimitives.Reader.{
  Reader, Read, new, pure, ◌>>=◌, and_then, read_bytes, read_u32, read_i32, read_u64, read_hash,
  read_varint, read_var_bytes, read_times,
}

-- A cursor behind `front`, before `back`.
abbrev pub at : List ℕ → List ℕ → Reader
at front back = record { bytes = front ++ back; position = length front }

-- `m` reads `enc` as `x`, wherever `enc` stands.
pub Reads : {A : Type 0} → Read A → List ℕ → A → Type 0
Reads m enc x =
    (front back : List ℕ)
    → length (front ++ (enc ++ back)) < 2 ^ 64
    → m (at front (enc ++ back)) ≡ ok (x, at (front ++ enc) back)

pub Reads-pure : {A : Type 0} → (x : A) → Reads (pure x) [] x
unfolding Reads
Reads-pure x front back h = ap (λ l. ok (x, at l back)) (sym (append-nil front))

module _ {A B : Type 0} where
  pub Reads-chain :
      (m : Read A) (f : A → Read B) (enc₁ enc₂ : List ℕ) (x : A) (y : B)
      → Reads m enc₁ x
      → Reads (f x) enc₂ y
      → Reads (m >>= f) (enc₁ ++ enc₂) y
  unfolding Reads ◌>>=◌
  Reads-chain m f enc₁ enc₂ x y hm hf front back h =
      ap (λ l. and_then f (m (at front l))) (append_assoc enc₁ enc₂ back)
      ∙ ap (and_then f) (hm front (enc₂ ++ back) (omega (arith, h, sizes)))
      ∙ hf (front ++ enc₁) back (omega (arith, h, sizes))
      ∙ ap (λ l. ok (y, at l back)) (append_assoc front enc₁ enc₂)
    where
      sizes :
          (length (front ++ ((enc₁ ++ enc₂) ++ back))
            ≡ length front + (length enc₁ + (length enc₂ + length back)))
          × (length (front ++ (enc₁ ++ (enc₂ ++ back)))
              ≡ length front + (length enc₁ + (length enc₂ + length back)))
          × (length ((front ++ enc₁) ++ (enc₂ ++ back))
              ≡ length front + (length enc₁ + (length enc₂ + length back)))
      sizes = (
        simp length-append (omega arith),
        simp length-append (omega arith),
        simp length-append (omega arith),
      )

-- The pieces that the methods read.
sizes3 : (a b c : List ℕ) → length (a ++ (b ++ c)) ≡ length a + (length b + length c)
sizes3 a b c = simp length-append (omega arith)

pub Reads-bytes : (bs : List ℕ) (n : ℕ) → length bs ≡ n → Reads (read_bytes n) bs bs
unfolding Reads read_bytes
Reads-bytes bs n e front back h =
    rw
      (
        lt→ltb (length front + n) (2 ^ 64) (omega (arith, sizes3 front bs back)),
        le→leb (length front) (length front + n) (omega arith),
        le→leb (length front + n) (length (front ++ (bs ++ back)))
            (omega (arith, sizes3 front bs back)),
        slice-append (length front) (length front + n) front bs back refl (omega arith),
      )
      (ap₂ (λ l p. ok (bs, record { bytes = l; position = p })) (sym (append_assoc front bs back))
        (omega (arith, length-append front bs)))

-- A method that only decodes what `read_bytes` reads.
Reads-word :
    (n : ℕ) (v : ℕ)
    → v < 256 ^ n
    → Reads (read_bytes n >>= λ array. pure (from_le_bytes array)) (to_le_bytes n v) v
Reads-word n v h =
    subst (λ l. Reads (read_bytes n >>= λ array. pure (from_le_bytes array)) l v)
      (append-nil (to_le_bytes n v))
      (Reads-chain (read_bytes n) (λ array. pure (from_le_bytes array)) (to_le_bytes n v) []
        (to_le_bytes n v) v (Reads-bytes (to_le_bytes n v) n (length-to_le_bytes n v))
        (subst (Reads (pure (from_le_bytes (to_le_bytes n v))) []) (from_le_bytes-to_le_bytes n v h)
          (Reads-pure _)))

pub Reads-u32 : (v : ℕ) → v < 2 ^ 32 → Reads read_u32 (to_le_bytes 4 v) v
unfolding read_u32
Reads-u32 v h = Reads-word 4 v h

pub Reads-i32 : (v : ℕ) → v < 2 ^ 32 → Reads read_i32 (to_le_bytes 4 v) v
unfolding read_i32
Reads-i32 v h = Reads-word 4 v h

pub Reads-u64 : (v : ℕ) → v < 2 ^ 64 → Reads read_u64 (to_le_bytes 8 v) v
unfolding read_u64
Reads-u64 v h = Reads-word 8 v h

pub Reads-hash : (hash : List ℕ) → length hash ≡ 32 → Reads read_hash hash hash
unfolding read_hash
Reads-hash hash e =
    subst (λ l. Reads read_hash l hash) (append-nil hash)
      (Reads-chain (read_bytes 32) (λ array. pure array) hash [] hash hash (Reads-bytes hash 32 e)
        (Reads-pure hash))

pub Reads-varint : (v : ℕ) → v < 2 ^ 64 → Reads read_varint (encode v []) v
unfolding Reads read_varint
Reads-varint v h front back fits =
    rw (drop-append (length front) front (encode v [] ++ back) refl, decode-encode v back h)
      (ap₂ (λ l p. ok (v, record { bytes = l; position = p }))
        (sym (append_assoc front (encode v []) back))
        (omega (arith, length-append front (encode v []), length-encode v [])))

pub Reads-var_bytes :
    (bs : List ℕ) → length bs < 2 ^ 64 → Reads read_var_bytes (encode (length bs) [] ++ bs) bs
unfolding read_var_bytes
Reads-var_bytes bs h =
    Reads-chain read_varint read_bytes (encode (length bs) []) bs (length bs) bs
      (Reads-varint (length bs) h) (Reads-bytes bs (length bs) refl)

-- A last step that only builds the result.
pub Reads-map :
    {A B : Type 0}
    → (m : Read A) (f : A → B) (enc : List ℕ) (x : A) → Reads m enc x
    → Reads (m >>= λ a. pure (f a)) enc (f x)
Reads-map m f enc x h =
    subst (λ l. Reads (m >>= λ a. pure (f a)) l (f x)) (append-nil enc)
      (Reads-chain m (λ a. pure (f a)) enc [] x (f x) h (Reads-pure (f x)))

-- The encodings of a list, one after the other.
unfoldable pub bytes_of : {A : Type 0} → (A → List ℕ) → List A → List ℕ
bytes_of enc [] = []
bytes_of enc (x ∷ xs) = enc x ++ bytes_of enc xs

pub Reads-times :
    {A B : Type 0}
    → (m : Read B) (enc : A → List ℕ) (f : A → B) (xs : List A)
    → All (λ x. Reads m (enc x) (f x)) xs
    → Reads (read_times (length xs) m) (bytes_of enc xs) (map f xs)
unfolding read_times bytes_of
Reads-times m enc f [] h = Reads-pure []
Reads-times m enc f (x ∷ xs) h =
    Reads-chain m (λ first. read_times (length xs) m >>= λ rest. pure (first ∷ rest)) (enc x)
      (bytes_of enc xs) (f x) (f x ∷ map f xs) h.0
      (Reads-map (read_times (length xs) m) (◌∷◌ (f x)) (bytes_of enc xs) (map f xs)
        (Reads-times m enc f xs h.1))

-- Reading from the beginning.
pub Reads-new :
    {A : Type 0}
    → (m : Read A) (enc : List ℕ) (x : A) (rest : List ℕ) → Reads m enc x
    → length (enc ++ rest) < 2 ^ 64
    → m (new (enc ++ rest)) ≡ ok (x, at enc rest)
unfolding Reads
Reads-new m enc x rest h fits = h [] rest fits
