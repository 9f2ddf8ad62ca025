-- ===== src/BtcPrimitives/Header/Layout.antt =====
-- The 80 bytes of a header, field by field.
use mac_solo_miner.Base.{
  ℕ, ◌+◌, ◌-◌, ◌≡◌, refl, sym, ap, ◌∙◌, arith, List, [], ◌++◌, append-nil, append_assoc, length,
  length-append, replicate, copy_from_slice, copy_next, to_le_bytes, length-to_le_bytes,
}
use mac_solo_miner.BtcPrimitives.Header.{BlockHeader, IsHeader, serialize}

-- The fields one after the other.
abbrev pub layout : BlockHeader → List ℕ
layout h =
    to_le_bytes 4 h.version
    ++ (h.prev_block
        ++ (h.merkle_root
            ++ (to_le_bytes 4 h.time ++ (to_le_bytes 4 h.bits ++ to_le_bytes 4 h.nonce))))

module _ (h : BlockHeader) (valid : IsHeader h) where
  abbrev v : List ℕ
  v = to_le_bytes 4 h.version

  abbrev t : List ℕ
  t = to_le_bytes 4 h.time

  abbrev b : List ℕ
  b = to_le_bytes 4 h.bits

  abbrev n : List ℕ
  n = to_le_bytes 4 h.nonce

  -- What each write adds to the bytes before it.
  written :
      (at k : ℕ) (a s : List ℕ)
      → length a ≡ at
      → length s + k ≡ 80 - at
      → copy_from_slice at s (a ++ replicate (80 - at) 0) ≡ (a ++ s) ++ replicate k 0
  written at k a s ha hs =
      ap (λ m. copy_from_slice at s (a ++ replicate m 0)) (sym hs) ∙ copy_next at k a s 0 ha

  -- `serialize` writes the fields one after the other.
  pub serialize-layout : serialize h ≡ layout h
  unfolding serialize
  serialize-layout =
      rw
        (
          written 0 76 [] v refl (omega (arith, sv)),
          written 4 44 v p sv (omega (arith, sp)),
          written 36 12 (v ++ p) m s2 (omega (arith, sm)),
          written 68 8 ((v ++ p) ++ m) t s3 (omega (arith, st)),
          written 72 4 (((v ++ p) ++ m) ++ t) b s4 (omega (arith, sb)),
          written 76 0 ((((v ++ p) ++ m) ++ t) ++ b) n s5 (omega (arith, sn)),
        )
        (simp (append_assoc, append-nil))
    where
      p : List ℕ
      p = h.prev_block

      m : List ℕ
      m = h.merkle_root

      sv : length v ≡ 4
      sv = length-to_le_bytes 4 h.version

      st : length t ≡ 4
      st = length-to_le_bytes 4 h.time

      sb : length b ≡ 4
      sb = length-to_le_bytes 4 h.bits

      sn : length n ≡ 4
      sn = length-to_le_bytes 4 h.nonce

      sp : length p ≡ 32
      sp = valid.prev_fits.0

      sm : length m ≡ 32
      sm = valid.root_fits.0

      s2 : length (v ++ p) ≡ 36
      s2 = omega (arith, length-append v p, sv, sp)

      s3 : length ((v ++ p) ++ m) ≡ 68
      s3 = omega (arith, length-append (v ++ p) m, s2, sm)

      s4 : length (((v ++ p) ++ m) ++ t) ≡ 72
      s4 = omega (arith, length-append ((v ++ p) ++ m) t, s3, st)

      s5 : length ((((v ++ p) ++ m) ++ t) ++ b) ≡ 76
      s5 = omega (arith, length-append (((v ++ p) ++ m) ++ t) b, s4, sb)
