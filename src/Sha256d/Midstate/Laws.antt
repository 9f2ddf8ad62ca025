-- ===== src/Sha256d/Midstate/Laws.antt =====
-- The midstate computes the double hash of the whole header.
use mac_solo_miner.Base.{
  IsArray, ℕ, zero, ◌+◌, ◌≡◌, refl, sym, ap, ap₂, ◌∙◌, arith, List, [], ◌∷◌, ◌++◌, append-nil,
  append_assoc, length, replicate, take, drop, set, take-append, take_all, drop-append,
  take-append-drop, length-take, length-drop, copy_from_slice, copy-append, set-append, to_le_bytes,
  to_be_bytes, length-to_le_bytes, length-to_be_bytes, length-append, length-replicate,
}
use mac_solo_miner.Sha256d.Constants.{Words, to_list, h0}
use mac_solo_miner.Sha256d.Reference.{compress_block, be_words, sha256, sha256d}
use mac_solo_miner.Sha256d.Reference.Blocks.{
  sha256_digest, closed, absorb_header, length-be_words, be_words-IsBytes,
}
use mac_solo_miner.Sha256d.Midstate.{HeaderHasher, header_size, new, hash, second_hash}

-- A zero block of 64 bytes, written as `new` and `second_hash` do: `xs`, a 1 bit, the length.
filled :
    (k n : ℕ) (xs : List ℕ) (bits : ℕ)
    → length xs ≡ k
    → k + n ≡ 55
    → replicate {A = ℕ} 64 0 ≡ replicate k 0 ++ (0 ∷ replicate n 0 ++ replicate 8 0)
    → copy_from_slice 56 (to_be_bytes 8 bits) (set (copy_from_slice 0 xs (replicate 64 0)) k 0x80)
      ≡ closed n xs bits
filled k n xs bits hk h zs =
    ap (λ b. copy_from_slice 56 (to_be_bytes 8 bits) (set b k 0x80)) first
    ∙ ap (copy_from_slice 56 (to_be_bytes 8 bits)) marked
    ∙ ap (copy_from_slice 56 (to_be_bytes 8 bits)) regroup
    ∙ copy-append 56 (xs ++ 0x80 ∷ replicate n 0) (replicate 8 0) [] (to_be_bytes 8 bits) size
        (length-to_be_bytes 8 bits)
    ∙ append_assoc xs (0x80 ∷ replicate n 0) (to_be_bytes 8 bits ++ [])
    ∙ ap (λ l. xs ++ (0x80 ∷ replicate n 0 ++ l)) (append-nil (to_be_bytes 8 bits))
  where
    rest : List ℕ
    rest = replicate n 0 ++ replicate 8 0

    first : copy_from_slice 0 xs (replicate 64 0) ≡ xs ++ 0 ∷ rest
    first =
        ap (copy_from_slice 0 xs) zs
        ∙ copy-append 0 [] (replicate k 0) (0 ∷ rest) xs refl (hk ∙ sym (length-replicate k zero))

    marked : set (xs ++ 0 ∷ rest) k 0x80 ≡ xs ++ 0x80 ∷ rest
    marked = set-append k xs rest 0 0x80 hk

    regroup : xs ++ 0x80 ∷ rest ≡ xs ++ 0x80 ∷ replicate n 0 ++ (replicate 8 0 ++ [])
    regroup =
        ap (λ l. xs ++ (0x80 ∷ replicate n 0 ++ l)) (sym (append-nil (replicate 8 0)))
        ∙ sym (append_assoc xs (0x80 ∷ replicate n 0) (replicate 8 0 ++ []))

    size : length (xs ++ 0x80 ∷ replicate n 0) ≡ 56
    size = omega (arith, length-append xs (0x80 ∷ replicate n 0), length-replicate n zero)

second_hash-sha256 : (s : Words) → second_hash s ≡ sha256 (be_words (to_list s))
unfolding second_hash
second_hash-sha256 s =
    ap (λ b. be_words (to_list (compress_block h0 b))) (filled 32 23 digest 256 size refl refl)
    ∙ sym (sha256_digest digest size)
  where
    digest : List ℕ
    digest = be_words (to_list s)

    size : length digest ≡ 32
    size = length-be_words (to_list s)

-- A header in its pieces: the first block, the rest up to the nonce, and the old nonce.
hash-new_pieces :
    (front mid old : List ℕ) (nonce : ℕ)
    → length front ≡ 64
    → length mid ≡ 12
    → length old ≡ 4
    → hash (new (front ++ (mid ++ old))) nonce ≡ sha256d (front ++ (mid ++ to_le_bytes 4 nonce))
hash-new_pieces front mid old nonce hf hm ho =
    unfold hash new in
    ap₂
      (λ m t. second_hash (
        compress_block (compress_block h0 m) (
          copy_from_slice 12 bytes (
            copy_from_slice 56 (to_be_bytes 8 640)
              (set (copy_from_slice 0 t (replicate 64 0)) 16 0x80)))))
      (take-append 64 front (mid ++ old) hf) back
    ∙ ap (λ t. second_hash (compress_block (compress_block h0 front) (copy_from_slice 12 bytes t)))
        (filled 16 39 (mid ++ old) 640 sixteen refl refl)
    ∙ ap (λ t. second_hash (compress_block (compress_block h0 front) t)) with_nonce
    ∙ second_hash-sha256 _
    ∙ unfold sha256d in
      ap sha256 (
        unfold sha256 in
        ap (λ w. be_words (to_list w))
          (sym (
            absorb_header front (mid ++ bytes) hf
              (omega (arith, length-append mid bytes, length-to_le_bytes 4 nonce)))))
  where
    bytes : List ℕ
    bytes = to_le_bytes 4 nonce

    sixteen : length (mid ++ old) ≡ 16
    sixteen = omega (arith, length-append mid old)

    back : take 16 (drop 64 (front ++ (mid ++ old))) ≡ mid ++ old
    back =
        ap (take 16) (drop-append 64 front (mid ++ old) hf)
        ∙ take_all 16 (mid ++ old) (omega (arith, sixteen))

    after : List ℕ
    after = 0x80 ∷ replicate 39 0 ++ to_be_bytes 8 640

    with_nonce :
        copy_from_slice 12 bytes (closed 39 (mid ++ old) 640) ≡ closed 39 (mid ++ bytes) 640
    with_nonce =
        ap (copy_from_slice 12 bytes) (append_assoc mid old after)
        ∙ copy-append 12 mid old after bytes hm (length-to_le_bytes 4 nonce ∙ sym ho)
        ∙ sym (append_assoc mid bytes after)

-- Sweeping a nonce over the midstate gives the double hash of the header that carries it.
pub hash-new :
    (header : List ℕ) (nonce : ℕ)
    → length header ≡ header_size
    → hash (new header) nonce ≡ sha256d (copy_from_slice 76 (to_le_bytes 4 nonce) header)
hash-new header nonce h =
    ap (λ l. hash (new l) nonce) (sym whole)
    ∙ hash-new_pieces front mid old nonce (omega (arith, length-take 64 header)) mid_size old_size
    ∙ ap sha256d (sym written)
  where
    front : List ℕ
    front = take 64 header

    mid : List ℕ
    mid = take 12 (drop 64 header)

    old : List ℕ
    old = drop 12 (drop 64 header)

    bytes : List ℕ
    bytes = to_le_bytes 4 nonce

    mid_size : length mid ≡ 12
    mid_size = omega (arith, length-take 12 (drop 64 header), length-drop 64 header)

    old_size : length old ≡ 4
    old_size = omega (arith, length-drop 12 (drop 64 header), length-drop 64 header)

    whole : front ++ (mid ++ old) ≡ header
    whole = ap (λ l. front ++ l) (take-append-drop 12 (drop 64 header)) ∙ take-append-drop 64 header

    written :
        copy_from_slice 76 (to_le_bytes 4 nonce) header ≡ front ++ (mid ++ to_le_bytes 4 nonce)
    written =
        ap (copy_from_slice 76 bytes) (
          sym whole
          ∙ sym (append_assoc front mid old)
          ∙ ap (λ l. (front ++ mid) ++ l) (sym (append-nil old)))
        ∙ copy-append 76 (front ++ mid) old [] bytes
            (omega (arith, length-append front mid, length-take 64 header, mid_size))
            (length-to_le_bytes 4 nonce ∙ sym old_size)
        ∙ append_assoc front mid (bytes ++ [])
        ∙ ap (λ l. front ++ (mid ++ l)) (append-nil bytes)

pub hash-IsArray : (hasher : HeaderHasher) (nonce : ℕ) → IsArray 32 (hash hasher nonce)
unfolding hash second_hash
hash-IsArray hasher nonce = (length-be_words (to_list _), be_words-IsBytes (to_list _))
