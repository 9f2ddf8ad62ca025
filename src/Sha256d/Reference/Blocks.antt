-- ===== src/Sha256d/Reference/Blocks.antt =====
-- `sha256` block by block, with the compression function shut.
use mac_solo_miner.Base.{
  ℕ, zero, ◌+◌, ◌*◌, ◌≡◌, refl, sym, ap, ◌∙◌, arith, List, [], ◌∷◌, ◌++◌, append-nil, append_assoc,
  length, replicate, length-append, length-replicate, chunks_exact-append, chunks_exact-nil,
  to_be_bytes, length-to_be_bytes, IsBytes, IsByte, IsArray, All-append, to_be_bytes-IsBytes,
}
use mac_solo_miner.Sha256d.Constants.{Words, to_list, h0}
use mac_solo_miner.Sha256d.Padding.{pad}
use mac_solo_miner.Sha256d.Padding.Laws.{pad_lem}
use mac_solo_miner.Sha256d.Reference.{compress_block, absorb, be_words, sha256}
use mathlib.Core.List.{foldl}

pub absorb-append :
    (s : Words) (block rest : List ℕ)
    → length block ≡ 64
    → absorb s (block ++ rest) ≡ absorb (compress_block s block) rest
unfolding absorb
absorb-append s block rest h =
    ap (foldl compress_block s) (chunks_exact-append 64 block rest (omega arith) h)

pub absorb_one :
    (s : Words) (block : List ℕ) → length block ≡ 64 → absorb s block ≡ compress_block s block
absorb_one s block h =
    ap (absorb s) (sym (append-nil block))
    ∙ absorb-append s block [] h
    ∙ unfold absorb in ap (foldl compress_block (compress_block s block)) (chunks_exact-nil 64)

pub length-be_words : (ws : List ℕ) → length (be_words ws) ≡ 4 * length ws
unfolding be_words
length-be_words [] = refl
length-be_words (w ∷ ws) = omega (
  arith,
  length-append (to_be_bytes 4 w) (be_words ws),
  length-to_be_bytes 4 w,
  length-be_words ws,
)

pub be_words-IsBytes : (ws : List ℕ) → IsBytes (be_words ws)
unfolding be_words
be_words-IsBytes [] = tt
be_words-IsBytes (w ∷ ws) =
    All-append IsByte (to_be_bytes 4 w) (be_words ws) (to_be_bytes-IsBytes 4 w)
      (be_words-IsBytes ws)

-- `n` zeros and a length behind `xs`: what the padding makes of a last block.
abbrev pub closed : ℕ → List ℕ → ℕ → List ℕ
closed n xs bits = xs ++ (0x80 ∷ replicate n 0 ++ to_be_bytes 8 bits)

length-closed : (n : ℕ) (xs : List ℕ) (bits : ℕ) → length (closed n xs bits) ≡ length xs + n + 9
length-closed n xs bits = omega (
  arith,
  length-append xs (0x80 ∷ replicate n 0 ++ to_be_bytes 8 bits),
  length-append (replicate n 0) (to_be_bytes 8 bits),
  length-replicate n zero,
  length-to_be_bytes 8 bits,
)

-- A message of 32 bytes is one block.
pub sha256_digest :
    (m : List ℕ)
    → length m ≡ 32
    → sha256 m ≡ be_words (to_list (compress_block h0 (closed 23 m 256)))
unfolding sha256
sha256_digest m h =
    ap (λ s. be_words (to_list s))
      (ap (absorb h0) padded
        ∙ absorb_one h0 (closed 23 m 256) (omega (arith, length-closed 23 m 256)))
  where
    padded : pad m ≡ closed 23 m 256
    padded = pad_lem m ∙ rw h (append_assoc m (0x80 ∷ replicate 23 0) (to_be_bytes 8 256))

-- A message of 80 bytes is two blocks, and the second holds its last 16 bytes.
pub absorb_header :
    (front back : List ℕ)
    → length front ≡ 64
    → length back ≡ 16
    → absorb h0 (pad (front ++ back))
      ≡ compress_block (compress_block h0 front) (closed 39 back 640)
absorb_header front back hf hb =
    ap (absorb h0) padded
    ∙ absorb-append h0 front (closed 39 back 640) hf
    ∙ absorb_one _ (closed 39 back 640) (omega (arith, length-closed 39 back 640))
  where
    total : length (front ++ back) ≡ 80
    total = omega (arith, length-append front back)

    padded : pad (front ++ back) ≡ front ++ closed 39 back 640
    padded =
        pad_lem (front ++ back)
        ∙ rw total (
            append_assoc (front ++ back) (0x80 ∷ replicate 39 0) (to_be_bytes 8 640)
            ∙ append_assoc front back (0x80 ∷ replicate 39 0 ++ to_be_bytes 8 640))

-- A digest is 32 bytes.
pub sha256-IsArray : (m : List ℕ) → IsArray 32 (sha256 m)
unfolding sha256
sha256-IsArray m =
    (length-be_words (to_list (absorb h0 (pad m))), be_words-IsBytes (to_list (absorb h0 (pad m))))
