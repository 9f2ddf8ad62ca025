-- ===== src/Mining/Coinbase/Built.antt =====
-- What a built coinbase is, byte by byte.
use mac_solo_miner.Base.{
  ℕ, ◌+◌, ◌≤◌, ◌<◌, ◌≡◌, refl, ap, ◌∙◌, arith, false, ltb, ge→ltb, List, [], ◌∷◌, ◌++◌, append-nil,
  append_assoc, length, length-append, some, ok, to_le_bytes,
}
use mac_solo_miner.BtcPrimitives.Hash.{zero_hash}
use mac_solo_miner.BtcPrimitives.Reader.Reads.{bytes_of}
use mac_solo_miner.BtcPrimitives.Transaction.{TxOut, serialize_legacy}
use mac_solo_miner.BtcPrimitives.Transaction.Bytes.{output_bytes, serialize_legacy-layout}
use mac_solo_miner.BtcPrimitives.Varint.{encode}
use mac_solo_miner.Mining.Script.{encode_block_height}
use mac_solo_miner.Mining.Script.Heights.{push_data_short}
use mac_solo_miner.Mining.Coinbase.{
  CoinbaseBuilder, script_sig, outputs_of, assemble, build_with, build, on_script, push_some,
}

-- What stands before, and behind, a part `x` of the script `a ++ (x ++ b)`.
abbrev pub before : ℕ → List ℕ → List ℕ
before size a =
    to_le_bytes 4 2
    ++ (encode 1 [] ++ (zero_hash ++ (to_le_bytes 4 0xFFFF_FFFF ++ (encode size [] ++ a))))

abbrev pub behind : List TxOut → List ℕ → List ℕ
behind outputs b =
    b
    ++ (to_le_bytes 4 0xFFFF_FFFF
        ++ (encode (length outputs) [] ++ (bytes_of output_bytes outputs ++ to_le_bytes 4 0)))

pub serialize_legacy-assemble :
    (self : CoinbaseBuilder) (a x b : List ℕ)
    → serialize_legacy (assemble self (a ++ (x ++ b)))
      ≡ before (length (a ++ (x ++ b))) a ++ (x ++ behind (outputs_of self self.commitment) b)
unfolding assemble bytes_of
serialize_legacy-assemble self a x b =
    serialize_legacy-layout (assemble self (a ++ (x ++ b))) ∙ simp (append_assoc, append-nil)

push_some-short :
    (bs out : List ℕ)
    → 0 < length bs
    → length bs ≤ 75
    → push_some bs out ≡ some ((out ++ length bs ∷ []) ++ bs)
push_some-short [] out pos h = absurd (omega arith)
push_some-short (b ∷ bs) out pos h = push_data_short (b ∷ bs) out h

-- The script where the extranonce and the tag are short and not empty.
abbrev pub short_script : List ℕ → List ℕ → List ℕ → List ℕ
short_script height extra tag_bytes =
    (height ++ length extra ∷ []) ++ (extra ++ (length tag_bytes ∷ tag_bytes))

module _ (self : CoinbaseBuilder) (height : List ℕ) where
  -- A coinbase with an extranonce and a tag of 1 to 40 bytes, whose height is encoded in at most
  -- six bytes, is built, and its script is the height and the pushes of both.
  pub build-short :
      encode_block_height self.height ≡ some height
      → length height ≤ 6
      → 0 < length self.extra
      → length self.extra ≤ 40
      → 0 < length self.tag_bytes
      → length self.tag_bytes ≤ 40
      → build self ≡ some (ok (assemble self (short_script height self.extra self.tag_bytes)))
  unfolding build build_with script_sig
  build-short encoded h e1 e2 t1 t2 =
      ap (on_script self) (
        chained
        ∙ ap some (
            append_assoc (((height ++ length self.extra ∷ []) ++ self.extra))
              (length self.tag_bytes ∷ []) self.tag_bytes
            ∙ append_assoc (height ++ length self.extra ∷ []) self.extra
                (length self.tag_bytes ∷ self.tag_bytes)))
      ∙ rw (low, high) refl
    where
      chained :
          script_sig self
          ≡ some (
              (((height ++ length self.extra ∷ []) ++ self.extra) ++ length self.tag_bytes ∷ [])
              ++ self.tag_bytes)
      chained =
          rw
            (
              encoded,
              push_some-short self.extra height e1 (omega arith),
              push_some-short self.tag_bytes ((height ++ length self.extra ∷ []) ++ self.extra) t1
                  (omega arith),
            )
            refl

      size :
          length (short_script height self.extra self.tag_bytes)
          ≡ length height + (2 + (length self.extra + length self.tag_bytes))
      size = omega (
        arith,
        length-append (height ++ length self.extra ∷ [])
            (self.extra ++ (length self.tag_bytes ∷ self.tag_bytes)),
        length-append height (length self.extra ∷ []),
        length-append self.extra (length self.tag_bytes ∷ self.tag_bytes),
      )

      low : ltb (length (short_script height self.extra self.tag_bytes)) 2 ≡ false
      low = ge→ltb _ 2 (omega (arith, size))

      high : ltb 100 (length (short_script height self.extra self.tag_bytes)) ≡ false
      high = ge→ltb 100 _ (omega (arith, size))
