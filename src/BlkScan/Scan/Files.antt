-- ===== src/BlkScan/Scan/Files.antt =====
-- The files that the node writes: records one behind the other, stored under the key; and what a
-- round of the scan does at a record.
use mac_solo_miner.Base.{
  ℕ, suc, ◌+◌, ◌^◌, ◌≤◌, ◌<◌, ◌≡◌, refl, sym, ap, ◌∙◌, arith, false, ltb, ge→ltb, List, [], ◌∷◌,
  ◌++◌, append_assoc, length, take, drop, slice, length-append, length-take, take-append-drop,
  to_le_bytes, length-to_le_bytes, from_le_bytes, from_le_bytes-to_le_bytes,
}
use mac_solo_miner.BtcPrimitives.Header.{BlockHeader}
use mac_solo_miner.BtcPrimitives.Header
use mac_solo_miner.BlkScan.Obfuscation.{ObfuscationKey, apply}
use mac_solo_miner.BlkScan.Obfuscation.Involution.{length-apply, apply-slice}
use mac_solo_miner.BlkScan.Scan.{mainnet_magic, BlockRecord, with_record, record_at, scan_from}

-- The magic and the size that stand before a block.
abbrev pub prefix_of : List ℕ → List ℕ
prefix_of block = mainnet_magic ++ to_le_bytes 4 (length block)

-- The records of blocks, and `rest` behind them.
abbrev pub file_of : List (List ℕ) → List ℕ → List ℕ
file_of [] rest = rest
file_of (block ∷ blocks) rest = prefix_of block ++ (block ++ file_of blocks rest)

-- A block has its header, and a size of 32 bits.
abbrev pub IsBlock : List ℕ → Type 0
IsBlock block = (80 ≤ length block) × (length block < 2 ^ 32)

abbrev pub record_of : ℕ → List ℕ → BlockRecord
record_of offset block = record {
  offset = offset;
  size = length block;
  hash = Header.hash (Header.deserialize (take 80 block));
  previous = (Header.deserialize (take 80 block)).prev_block;
}

abbrev pub records_of : ℕ → List (List ℕ) → List BlockRecord
records_of offset [] = []
records_of offset (block ∷ blocks) =
    record_of offset block ∷ records_of (offset + (8 + length block)) blocks

abbrev pub end_of : ℕ → List (List ℕ) → ℕ
end_of offset [] = offset
end_of offset (block ∷ blocks) = end_of (offset + (8 + length block)) blocks

pub length-prefix_of : (block : List ℕ) → length (prefix_of block) ≡ 8
length-prefix_of block =
    length-append mainnet_magic (to_le_bytes 4 (length block))
    ∙ omega (arith, length-to_le_bytes 4 (length block))

module _ (key : ObfuscationKey) where
  -- What the two reads of a round give.
  pub prefix_read :
      (before after part : List ℕ) (offset : ℕ)
      → length before ≡ offset
      → length part ≡ 8
      → apply key (slice offset (offset + 8) (apply key (before ++ (part ++ after)) 0)) offset
        ≡ part
  prefix_read before after part offset h size =
      apply-slice key before part after offset (offset + 8) h (omega arith)

  record_read :
      (before block rest : List ℕ) (offset : ℕ)
      → length before ≡ offset
      → 80 ≤ length block
      → record_at key
          (apply key (before ++ (prefix_of block ++ (block ++ rest))) 0)
          offset
          (length block)
        ≡ record_of offset block
  unfolding record_at
  record_read before block rest offset h size =
      ap
        (λ bytes. record {
          offset = offset;
          size = length block;
          hash = Header.hash (Header.deserialize bytes);
          previous = (Header.deserialize bytes).prev_block;
        })
        (ap (λ l. apply key (slice (offset + 8) (offset + 88) (apply key l 0)) (offset + 8)) regroup
          ∙ apply-slice key (before ++ prefix_of block) (take 80 block) (drop 80 block ++ rest)
              (offset + 8) (offset + 88)
              (length-append before (prefix_of block) ∙ omega (arith, h, length-prefix_of block))
              (omega (arith, length-take 80 block)))
    where
      regroup :
          before ++ (prefix_of block ++ (block ++ rest))
          ≡ (before ++ prefix_of block) ++ (take 80 block ++ (drop 80 block ++ rest))
      regroup =
          sym (append_assoc before (prefix_of block) (block ++ rest))
          ∙ ap (λ l. (before ++ prefix_of block) ++ l)
              (ap (λ b. b ++ rest) (sym (take-append-drop 80 block))
                ∙ append_assoc (take 80 block) (drop 80 block) rest)

  size_read :
      (block : List ℕ)
      → length block < 2 ^ 32
      → from_le_bytes (drop 4 (prefix_of block)) ≡ length block
  size_read block h = from_le_bytes-to_le_bytes 4 (length block) (omega arith)

  magic_read : (block : List ℕ) → take 4 (prefix_of block) ≡ mainnet_magic
  magic_read block = refl

  -- A round at a record.
  pub scan_record :
      (before block rest : List ℕ) (fuel offset : ℕ)
      → length before ≡ offset
      → IsBlock block
      → scan_from key
          (apply key (before ++ (prefix_of block ++ (block ++ rest))) 0)
          (suc fuel)
          offset
        ≡ with_record (record_of offset block) (
            scan_from key
              (apply key (before ++ (prefix_of block ++ (block ++ rest))) 0)
              fuel
              (offset + (8 + length block)))
  unfolding scan_from
  scan_record before block rest fuel offset h (room, fits) =
      let file : List ℕ = apply key (before ++ (prefix_of block ++ (block ++ rest))) 0 in
      let long : ltb (length file) (offset + 88) ≡ false = ge→ltb _ _ (
        omega (
          arith,
          length-apply key (before ++ (prefix_of block ++ (block ++ rest))) 0,
          length-append before (prefix_of block ++ (block ++ rest)),
          length-append (prefix_of block) (block ++ rest),
          length-append block rest,
          length-prefix_of block,
        )) in
      rw
        (
          long,
          prefix_read before (block ++ rest) (prefix_of block) offset h (length-prefix_of block),
        )
        (ap
            (λ n.
              with_record (record_at key file offset n)
                (scan_from key file fuel (offset + (8 + n))))
            (size_read block fits)
          ∙ ap (λ r. with_record r (scan_from key file fuel (offset + (8 + length block))))
              (record_read before block rest offset h room))
