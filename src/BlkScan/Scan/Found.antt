-- ===== src/BlkScan/Scan/Found.antt =====
-- The scan of a file finds the records again, up to the zeros behind the last.
use mac_solo_miner.Base.{
  ℕ, zero, suc, ◌+◌, ◌-◌, ◌≤◌, ◌<◌, ◌≡◌, refl, sym, ap, ◌∙◌, arith, if◌then◌else◌, Bool-cases, inl,
  inr, ltb, lt→ltb, ge→ltb, ltb→lt, ltb→ge, replicate-add, List, [], ◌∷◌, ◌++◌, append_assoc,
  length, slice, replicate, length-append, length-replicate, All,
}
use mac_solo_miner.BlkScan.Obfuscation.{ObfuscationKey, apply}
use mac_solo_miner.BlkScan.Obfuscation.Involution.{length-apply}
use mac_solo_miner.BlkScan.Scan.{
  FileScan, end_of_file, padding, stop, with_record, scan_from, scan_file,
}
use mac_solo_miner.BlkScan.Scan.Files.{
  prefix_of, file_of, IsBlock, record_of, records_of, end_of, length-prefix_of, prefix_read,
  scan_record,
}

module _ (key : ObfuscationKey) where
  abbrev ending : ℕ → ℕ → FileScan
  ending p offset = stop offset (if ltb p 88 then end_of_file else padding)

  -- A round at the zeros behind the last record.
  scan_zeros :
      (before : List ℕ) (p fuel offset : ℕ)
      → length before ≡ offset
      → scan_from key (apply key (before ++ replicate p 0) 0) (suc fuel) offset ≡ ending p offset
  unfolding scan_from
  scan_zeros before p fuel offset h = elim (Bool-cases (ltb p 88)) [
    | inl few ↦
        rw
          (
            few,
            lt→ltb (length (apply key (before ++ replicate p 0) 0)) (offset + 88)
                (omega (arith, whole, ltb→lt p 88 few)),
          )
          refl
    | inr many ↦
        rw
          (
            many,
            ge→ltb (length (apply key (before ++ replicate p 0) 0)) (offset + 88)
                (omega (arith, whole, ltb→ge p 88 many)),
            zeros (omega (arith, ltb→ge p 88 many)),
          )
          refl
  ]
    where
      whole : length (apply key (before ++ replicate p 0) 0) ≡ offset + p
      whole =
          length-apply key (before ++ replicate p 0) 0
          ∙ length-append before (replicate p 0)
          ∙ omega (arith, h, length-replicate {A = ℕ} p 0)

      zeros :
          8 ≤ p
          → apply key (slice offset (offset + 8) (apply key (before ++ replicate p 0) 0)) offset
            ≡ replicate 8 0
      zeros room =
          let parts : p ≡ 8 + (p - 8) = omega arith in
          ap (λ l. apply key (slice offset (offset + 8) (apply key (before ++ l) 0)) offset)
            (ap (λ n. replicate {A = ℕ} n 0) parts ∙ replicate-add {A = ℕ} 8 (p - 8) 0)
          ∙ prefix_read key before (replicate (p - 8) 0) (replicate 8 0) offset h refl

  abbrev found : ℕ → List (List ℕ) → ℕ → FileScan
  found offset blocks p = record {
    records = records_of offset blocks;
    stopped_at = end_of offset blocks;
    reason = if ltb p 88 then end_of_file else padding;
  }

  scan_blocks :
      (blocks : List (List ℕ)) (before : List ℕ) (p fuel offset : ℕ)
      → length before ≡ offset
      → All IsBlock blocks
      → length blocks < fuel
      → scan_from key (apply key (before ++ file_of blocks (replicate p 0)) 0) fuel offset
        ≡ found offset blocks p
  scan_blocks blocks before p zero offset h fits enough = absurd (omega arith)
  scan_blocks [] before p (suc fuel) offset h fits enough = scan_zeros before p fuel offset h
  scan_blocks (block ∷ blocks) before p (suc fuel) offset h fits enough =
      scan_record key before block (file_of blocks (replicate p 0)) fuel offset h fits.0
      ∙ ap (with_record (record_of offset block)) (
          ap (λ l. scan_from key (apply key l 0) fuel (offset + (8 + length block))) regroup
          ∙ scan_blocks blocks (before ++ (prefix_of block ++ block)) p fuel
              (offset + (8 + length block)) further fits.1 (omega arith))
    where
      regroup :
          before ++ (prefix_of block ++ (block ++ file_of blocks (replicate p 0)))
          ≡ (before ++ (prefix_of block ++ block)) ++ file_of blocks (replicate p 0)
      regroup =
          ap (λ l. before ++ l)
            (sym (append_assoc (prefix_of block) block (file_of blocks (replicate p 0))))
          ∙ sym (append_assoc before (prefix_of block ++ block) (file_of blocks (replicate p 0)))

      further : length (before ++ (prefix_of block ++ block)) ≡ offset + (8 + length block)
      further = omega (
        arith,
        h,
        length-append before (prefix_of block ++ block),
        length-append (prefix_of block) block,
        length-prefix_of block,
      )

length-file_of :
    (blocks : List (List ℕ)) (rest : List ℕ) → length blocks ≤ length (file_of blocks rest)
length-file_of [] rest = omega arith
length-file_of (block ∷ blocks) rest = omega (
  arith,
  length-append (prefix_of block) (block ++ file_of blocks rest),
  length-append block (file_of blocks rest),
  length-prefix_of block,
  length-file_of blocks rest,
)

-- A file of blocks with their headers, one behind the other, with any number of zeros behind the
-- last, and stored under any key: the scan finds every block in its order, at its offset, with its
-- size, its hash and that of its parent. It stops behind the last, at the padding where that has
-- the length of a record with its header, and else at the end of the file.
pub scan_file-apply :
    (key : ObfuscationKey) (blocks : List (List ℕ)) (p : ℕ)
    → All IsBlock blocks
    → scan_file (apply key (file_of blocks (replicate p 0)) 0) key ≡ record {
      records = records_of 0 blocks;
      stopped_at = end_of 0 blocks;
      reason = if ltb p 88 then end_of_file else padding;
    }
unfolding scan_file
scan_file-apply key blocks p fits =
    scan_blocks key blocks [] p (suc (length (apply key (file_of blocks (replicate p 0)) 0))) 0 refl
      fits
      (omega (
        arith,
        length-apply key (file_of blocks (replicate p 0)) 0,
        length-file_of blocks (replicate p 0),
      ))
