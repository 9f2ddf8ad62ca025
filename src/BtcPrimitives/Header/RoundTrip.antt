-- ===== src/BtcPrimitives/Header/RoundTrip.antt =====
-- Writing and reading a header are inverse to each other, and a new nonce is written in place.
use mac_solo_miner.Base.{
  ℕ, ◌-◌, ◌^◌, ◌≤◌, ◌<◌, ◌≡◌, refl, sym, ap, ap₂, ◌∙◌, arith, List, [], ◌++◌, append-nil, length,
  length-append, take, drop, length-drop, take_all, copy_from_slice, copy-skip, copy_all,
  slice-skip, IsBytes, slice, length-slice, slice-drop, slice-append, IsArray, IsByte, All-take,
  All-drop, All-append, to_le_bytes, from_le_bytes, length-to_le_bytes, to_le_bytes-IsBytes,
  from_le_bytes-to_le_bytes, to_le_bytes-from_le_bytes, from_le_bytes-lt, subst,
}
use mac_solo_miner.BtcPrimitives.Header.{BlockHeader, IsHeader, header_size, serialize, deserialize}
use mac_solo_miner.BtcPrimitives.Header.Layout.{layout, serialize-layout}

-- A serialised header is 80 bytes.
pub serialize-IsArray : (h : BlockHeader) → IsHeader h → IsArray header_size (serialize h)
serialize-IsArray h valid = rw (serialize-layout h valid) (size, bytes)
  where
    size : length (layout h) ≡ 80
    size = simp length-append (
        omega (
          arith,
          length-to_le_bytes 4 h.version,
          valid.prev_fits.0,
          valid.root_fits.0,
          length-to_le_bytes 4 h.time,
          length-to_le_bytes 4 h.bits,
          length-to_le_bytes 4 h.nonce,
        ))

    bytes : IsBytes (layout h)
    bytes = All-append IsByte _ _ (to_le_bytes-IsBytes 4 h.version) (
        All-append IsByte _ _ valid.prev_fits.1 (
          All-append IsByte _ _ valid.root_fits.1 (
            All-append IsByte _ _ (to_le_bytes-IsBytes 4 h.time) (
              All-append IsByte _ _ (to_le_bytes-IsBytes 4 h.bits)
                (to_le_bytes-IsBytes 4 h.nonce)))))

module _ (version : ℕ) (prev root : List ℕ) (time bits nonce : ℕ) where
  abbrev v : List ℕ
  v = to_le_bytes 4 version

  abbrev t : List ℕ
  t = to_le_bytes 4 time

  abbrev b : List ℕ
  b = to_le_bytes 4 bits

  abbrev n : List ℕ
  n = to_le_bytes 4 nonce

  abbrev fields : List ℕ
  fields = v ++ (prev ++ (root ++ (t ++ (b ++ n))))

  sv : length v ≡ 4
  sv = length-to_le_bytes 4 version

  st : length t ≡ 4
  st = length-to_le_bytes 4 time

  sb : length b ≡ 4
  sb = length-to_le_bytes 4 bits

  sn : length n ≡ 4
  sn = length-to_le_bytes 4 nonce

  module _ (hp : length prev ≡ 32) (hr : length root ≡ 32) where
    -- A slice behind the previous hash, behind the merkle root, and behind the time.
    behind_prev :
        (from to : ℕ)
        → 36 ≤ from
        → slice from to fields ≡ slice ((from - 4) - 32) ((to - 4) - 32) (root ++ (t ++ (b ++ n)))
    behind_prev from to h =
        slice-skip 4 from to v (prev ++ (root ++ (t ++ (b ++ n)))) sv (omega arith)
        ∙ slice-skip 32 (from - 4) (to - 4) prev (root ++ (t ++ (b ++ n))) hp (omega arith)

    field_slices :
        (slice 0 4 fields ≡ v)
        × (slice 4 36 fields ≡ prev)
        × (slice 36 68 fields ≡ root)
        × (slice 68 72 fields ≡ t)
        × (slice 72 76 fields ≡ b)
        × (slice 76 80 fields ≡ n)
    field_slices = (
      slice-append 0 4 [] v (prev ++ (root ++ (t ++ (b ++ n)))) refl sv,
      slice-append 4 36 v prev (root ++ (t ++ (b ++ n))) sv hp,
      behind_prev 36 68 (omega arith) ∙ slice-append 0 32 [] root (t ++ (b ++ n)) refl hr,
      behind_prev 68 72 (omega arith) ∙ slice-append 32 36 root t (b ++ n) hr st,
      behind_prev 72 76 (omega arith)
          ∙ slice-skip 32 36 40 root (t ++ (b ++ n)) hr (omega arith)
          ∙ slice-append 4 8 t b n st sb,
      behind_prev 76 80 (omega arith)
          ∙ slice-skip 32 40 44 root (t ++ (b ++ n)) hr (omega arith)
          ∙ slice-skip 4 8 12 t (b ++ n) st (omega arith)
          ∙ ap (λ l. slice 4 8 (b ++ l)) (sym (append-nil n))
          ∙ slice-append 4 8 b n [] sb sn,
    )

    new_nonce :
        (k : ℕ)
        → copy_from_slice 76 (to_le_bytes 4 k) fields
          ≡ v ++ (prev ++ (root ++ (t ++ (b ++ to_le_bytes 4 k))))
    new_nonce k =
        copy-skip 4 76 s v (prev ++ (root ++ (t ++ (b ++ n)))) sv (omega arith)
        ∙ ap (◌++◌ v) (
            copy-skip 32 72 s prev (root ++ (t ++ (b ++ n))) hp (omega arith)
            ∙ ap (◌++◌ prev) (
                copy-skip 32 40 s root (t ++ (b ++ n)) hr (omega arith)
                ∙ ap (◌++◌ root) (
                    copy-skip 4 8 s t (b ++ n) st (omega arith)
                    ∙ ap (◌++◌ t) (
                        copy-skip 4 4 s b n sb (omega arith)
                        ∙ ap (◌++◌ b) (copy_all s n (length-to_le_bytes 4 k ∙ sym sn))))))
      where
        s : List ℕ
        s = to_le_bytes 4 k

-- Reading a header back gives every field.
pub deserialize-serialize : (h : BlockHeader) → IsHeader h → deserialize (serialize h) ≡ h
unfolding deserialize
deserialize-serialize h valid =
    let s =
      field_slices h.version h.prev_block h.merkle_root h.time h.bits h.nonce valid.prev_fits.0
        valid.root_fits.0 in
    ap deserialize (serialize-layout h valid) ∙ λ i. record {
      version = (ap from_le_bytes s.0 ∙ from_le_bytes-to_le_bytes 4 h.version valid.version_fits) i;
      prev_block = s.1 i;
      merkle_root = s.2 i;
      time = (ap from_le_bytes s.3 ∙ from_le_bytes-to_le_bytes 4 h.time valid.time_fits) i;
      bits = (ap from_le_bytes s.4 ∙ from_le_bytes-to_le_bytes 4 h.bits valid.bits_fit) i;
      nonce = (ap from_le_bytes s.5 ∙ from_le_bytes-to_le_bytes 4 h.nonce valid.nonce_fits) i;
    }

-- A new nonce is four bytes written over the old ones.
pub serialize-nonce :
    (h : BlockHeader) (k : ℕ)
    → IsHeader h
    → k < 2 ^ 32
    → copy_from_slice 76 (to_le_bytes 4 k) (serialize h) ≡ serialize (record h { nonce = k })
serialize-nonce h k valid hk =
    ap (copy_from_slice 76 (to_le_bytes 4 k)) (serialize-layout h valid)
    ∙ new_nonce h.version h.prev_block h.merkle_root h.time h.bits h.nonce valid.prev_fits.0
        valid.root_fits.0 k
    ∙ sym (
        serialize-layout (record h { nonce = k })
          (record {
            version_fits = valid.version_fits;
            prev_fits = valid.prev_fits;
            root_fits = valid.root_fits;
            time_fits = valid.time_fits;
            bits_fit = valid.bits_fit;
            nonce_fits = hk;
          }))

-- A word of four bytes, read and written back.
module _ (from to : ℕ) (bytes : List ℕ) (valid : IsArray 80 bytes) (fits : to ≤ 80)
    (four : to - from ≡ 4) where
  word : List ℕ
  word = slice from to bytes

  word_size : length (slice from to bytes) ≡ 4
  word_size = length-slice from to bytes (omega (arith, valid.0)) ∙ four

  word_IsBytes : IsBytes (slice from to bytes)
  word_IsBytes = All-take IsByte (to - from) (drop from bytes) (All-drop IsByte from bytes valid.1)

  word_back : to_le_bytes 4 (from_le_bytes (slice from to bytes)) ≡ slice from to bytes
  word_back =
      ap (λ m. to_le_bytes m (from_le_bytes (slice from to bytes))) (sym word_size)
      ∙ to_le_bytes-from_le_bytes (slice from to bytes) word_IsBytes

  word_fits : from_le_bytes (slice from to bytes) < 2 ^ 32
  word_fits =
      subst (λ m. from_le_bytes (slice from to bytes) < 256 ^ m) word_size
        (from_le_bytes-lt (slice from to bytes) word_IsBytes)

module _ (bytes : List ℕ) (valid : IsArray 80 bytes) where
  -- What is read from any 80 bytes is a header.
  pub deserialize-IsHeader : IsHeader (deserialize bytes)
  unfolding deserialize
  deserialize-IsHeader = record {
    version_fits = word_fits 0 4 bytes valid (omega arith) refl;
    prev_fits = (length-slice 4 36 bytes (omega (arith, valid.0)), hash_IsBytes 4);
    root_fits = (length-slice 36 68 bytes (omega (arith, valid.0)), hash_IsBytes 36);
    time_fits = word_fits 68 72 bytes valid (omega arith) refl;
    bits_fit = word_fits 72 76 bytes valid (omega arith) refl;
    nonce_fits = word_fits 76 80 bytes valid (omega arith) refl;
  }
    where
      hash_IsBytes : (from : ℕ) → IsBytes (take 32 (drop from bytes))
      hash_IsBytes from = All-take IsByte 32 (drop from bytes) (All-drop IsByte from bytes valid.1)

  layout-deserialize : layout (deserialize bytes) ≡ bytes
  unfolding deserialize
  layout-deserialize =
      ap₂ ◌++◌ (word_back 0 4 bytes valid (omega arith) refl) (
        ap (◌++◌ (slice 4 36 bytes)) (
          ap (◌++◌ (slice 36 68 bytes)) (
            ap₂ ◌++◌ (word_back 68 72 bytes valid (omega arith) refl) (
              ap₂ ◌++◌ (word_back 72 76 bytes valid (omega arith) refl) (
                word_back 76 80 bytes valid (omega arith) refl
                ∙ take_all 4 (drop 76 bytes) (omega (arith, valid.0, length-drop 76 bytes)))
              ∙ slice-drop 72 76 bytes (omega arith))
            ∙ slice-drop 68 72 bytes (omega arith))
          ∙ slice-drop 36 68 bytes (omega arith))
        ∙ slice-drop 4 36 bytes (omega arith))
      ∙ slice-drop 0 4 bytes (omega arith)

  -- The header that is read from any 80 bytes is written back as the same bytes.
  pub serialize-deserialize : serialize (deserialize bytes) ≡ bytes
  serialize-deserialize =
      serialize-layout (deserialize bytes) deserialize-IsHeader ∙ layout-deserialize
