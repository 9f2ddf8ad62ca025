-- ===== src/MacMiner/Worker/Extranonce.antt =====
-- The extranonces of the miner's threads: their width, their value, and that they differ.
use mathlib.Core.List.{reverse-append, reverse-cons}
use native.Mathlib.Nat.{div-div-eq-div-mul, div-eq_of_lt, pow-suc}
use mac_solo_miner.Base.{
  ℕ, zero, suc, ◌+◌, ◌-◌, ◌*◌, ◌/◌, ◌%◌, ◌^◌, ◌≤◌, ◌<◌, ◌≡◌, refl, sym, ap, ap₂, ◌∙◌, arith, ltb,
  ltb→lt, ltb→ge, Bool-cases, inl, inr, List, [], ◌∷◌, ◌++◌, append-nil, reverse, length, drop,
  length-reverse, length-replicate, length-drop, drop-append, replicate, replicate-add, min,
  to_le_bytes, to_be_bytes, from_be_bytes, length-to_le_bytes, length-to_be_bytes,
  from_be_bytes-to_be_bytes, copy_from_slice, copy_all, copy-append,
}
use mac_solo_miner.MacMiner.Worker.{encode_extranonce2}

to_le_bytes-add :
    (m n v : ℕ) → to_le_bytes (m + n) v ≡ to_le_bytes m v ++ to_le_bytes n (v / 256 ^ m)
unfolding to_le_bytes
to_le_bytes-add zero n v =
    let e₁ : zero + n ≡ n = omega arith in let e₂ : v ≡ v / 1 = omega arith in ap₂ to_le_bytes e₁ e₂
to_le_bytes-add (suc m) n v =
    let e₁ : suc m + n ≡ suc (m + n) = omega arith in
    let e₂ : 256 * 256 ^ m ≡ 256 ^ suc m = omega (arith, pow-suc 256 m) in
    ap (λ k. to_le_bytes k v) e₁
    ∙ ap (◌∷◌ (v % 256)) (
        to_le_bytes-add m n (v / 256)
        ∙ ap (λ q. to_le_bytes m (v / 256) ++ to_le_bytes n q)
            (div-div-eq-div-mul v 256 (256 ^ m) ∙ ap (λ p. v / p) e₂))

to_le_bytes-zero : (n : ℕ) → to_le_bytes n 0 ≡ replicate n 0
unfolding to_le_bytes
to_le_bytes-zero zero = refl
to_le_bytes-zero (suc n) = ap (◌∷◌ 0) (to_le_bytes-zero n)

reverse-replicate : (n : ℕ) → reverse {A = ℕ} (replicate n 0) ≡ replicate n 0
reverse-replicate zero = refl
reverse-replicate (suc n) =
    reverse-cons 0 (replicate n 0)
    ∙ ap (λ zeros. zeros ++ 0 ∷ []) (reverse-replicate n)
    ∙ sym (replicate-add {A = ℕ} n 1 0)
    ∙ ap (λ k. replicate {A = ℕ} k 0) one_more
  where
    one_more : n + 1 ≡ suc n
    one_more = omega arith

-- A number that fits in `m` bytes has zeros in front of them at a larger width.
to_be_bytes-wide :
    (m k v : ℕ) → v < 256 ^ m → to_be_bytes (m + k) v ≡ replicate k 0 ++ to_be_bytes m v
unfolding to_be_bytes
to_be_bytes-wide m k v h =
    ap reverse (
      to_le_bytes-add m k v
      ∙ ap (λ q. to_le_bytes m v ++ to_le_bytes k q) (div-eq_of_lt h)
      ∙ ap (λ bs. to_le_bytes m v ++ bs) (to_le_bytes-zero k))
    ∙ reverse-append (to_le_bytes m v) (replicate k 0)
    ∙ ap (λ bs. bs ++ reverse (to_le_bytes m v)) (reverse-replicate k)

-- The last bytes are those of the number at their width.
drop-to_be_bytes : (m k v : ℕ) → drop k (to_be_bytes (m + k) v) ≡ to_be_bytes m v
unfolding to_be_bytes
drop-to_be_bytes m k v =
    ap (λ bs. drop k (reverse bs)) (to_le_bytes-add m k v)
    ∙ ap (drop k) (reverse-append (to_le_bytes m v) (to_le_bytes k (v / 256 ^ m)))
    ∙ drop-append k (reverse (to_le_bytes k (v / 256 ^ m))) (reverse (to_le_bytes m v))
        (length-reverse (to_le_bytes k (v / 256 ^ m)) ∙ length-to_le_bytes k (v / 256 ^ m))

-- What is written over the zeros, where there are at most as many as the bytes, and where there
-- are at least as many.
placed : List ℕ → ℕ → ℕ → List ℕ
placed bytes size copy =
    copy_from_slice (size - copy) (drop (length bytes - copy) bytes) (replicate size 0)

placed_narrow :
    (bytes : List ℕ) (size : ℕ)
    → size ≤ length bytes
    → placed bytes size (min size (length bytes)) ≡ drop (length bytes - size) bytes
unfolding placed
placed_narrow bytes size h =
    let all : min size (length bytes) ≡ size = omega arith in
    let none_before : size - size ≡ 0 = omega arith in
    let tail : List ℕ = drop (length bytes - size) bytes in
    ap (λ copy. placed bytes size copy) all
    ∙ ap (λ at. copy_from_slice at tail (replicate size 0)) none_before
    ∙ copy_all tail (replicate size 0)
        (omega (arith, length-drop (length bytes - size) bytes, length-replicate {A = ℕ} size 0))

placed_wide :
    (bytes : List ℕ) (k : ℕ)
    → placed bytes (k + length bytes) (min (k + length bytes) (length bytes))
      ≡ replicate k 0 ++ bytes
unfolding placed
placed_wide bytes k =
    let all : min (k + length bytes) (length bytes) ≡ length bytes = omega arith in
    let behind : (k + length bytes) - length bytes ≡ k = omega arith in
    let none_dropped : length bytes - length bytes ≡ 0 = omega arith in
    ap (placed bytes (k + length bytes)) all
    ∙ ap₂ (λ at n. copy_from_slice at (drop n bytes) (replicate (k + length bytes) 0)) behind
        none_dropped
    ∙ ap (copy_from_slice k bytes) (
        replicate-add {A = ℕ} k (length bytes) 0
        ∙ ap (λ zeros. replicate k 0 ++ zeros) (sym (append-nil (replicate (length bytes) 0))))
    ∙ copy-append k (replicate k 0) (replicate (length bytes) 0) [] bytes
        (length-replicate {A = ℕ} k 0) (sym (length-replicate {A = ℕ} (length bytes) 0))
    ∙ ap (λ bs. replicate k 0 ++ bs) (append-nil bytes)

-- The counter, a u64, is encoded as its big-endian bytes at the width of the extranonce: with
-- zeros in front of its eight bytes where the width is larger, without the first of them where
-- it is smaller.
pub encode_extranonce2-to_be_bytes :
    (counter size : ℕ)
    → counter < 2 ^ 64
    → encode_extranonce2 counter size ≡ to_be_bytes size counter
unfolding encode_extranonce2 placed
encode_extranonce2-to_be_bytes counter size h = elim (Bool-cases (ltb size 8)) [
  | inl less ↦ narrow (omega (arith, ltb→lt size 8 less))
  | inr more ↦ wide (omega (arith, ltb→ge size 8 more))
]
  where
    bytes : List ℕ
    bytes = to_be_bytes 8 counter

    eight : length bytes ≡ 8
    eight = length-to_be_bytes 8 counter

    narrow : size ≤ 8 → placed bytes size (min size (length bytes)) ≡ to_be_bytes size counter
    narrow le =
        let width : 8 ≡ size + (8 - size) = omega arith in
        let cut : length bytes - size ≡ 8 - size = omega (arith, eight) in
        placed_narrow bytes size (omega (arith, eight))
        ∙ ap₂ (λ k w. drop k (to_be_bytes w counter)) cut width
        ∙ drop-to_be_bytes size (8 - size) counter

    wide : 8 ≤ size → placed bytes size (min size (length bytes)) ≡ to_be_bytes size counter
    wide le =
        let width : size ≡ (size - 8) + length bytes = omega (arith, eight) in
        let same : 8 + (size - 8) ≡ size = omega arith in
        ap (λ w. placed bytes w (min w (length bytes))) width
        ∙ placed_wide bytes (size - 8)
        ∙ sym (to_be_bytes-wide 8 (size - 8) counter h)
        ∙ ap (λ w. to_be_bytes w counter) same

-- Two counters below 2^64 that fit in the width of the extranonce have different extranonces.
pub encode_extranonce2-injective :
    (a b size : ℕ)
    → a < 2 ^ 64
    → b < 2 ^ 64
    → a < 256 ^ size
    → b < 256 ^ size
    → encode_extranonce2 a size ≡ encode_extranonce2 b size
    → a ≡ b
encode_extranonce2-injective a b size wa wb fa fb same =
    sym (from_be_bytes-to_be_bytes size a fa)
    ∙ ap from_be_bytes (
        sym (encode_extranonce2-to_be_bytes a size wa)
        ∙ same
        ∙ encode_extranonce2-to_be_bytes b size wb)
    ∙ from_be_bytes-to_be_bytes size b fb
