-- ===== src/Mining/Script/Numbers.antt =====
-- The script numbers, read back: little-endian, the top bit of the last byte is a sign, and only
-- the shortest form is minimal.
use mac_solo_miner.Base.{
  ℕ, zero, suc, ◌+◌, ◌*◌, ◌/◌, ◌%◌, ◌^◌, ◌≤◌, ◌<◌, ◌≡◌, refl, ap, subst, arith, true, not, ◌||◌,
  Bool, false, if◌then◌else◌, ltb, leb, ◌==◌, List, [], ◌∷◌, ◌++◌, length, from_le_bytes, IsBytes,
}
use native.Mathlib.Nat.{pow-suc}
use mac_solo_miner.Mining.Script.{value_bytes, last_is_negative, encode_script_number}

-- More fuel than the bytes of a number changes nothing: four rounds are enough for a u32.
pub value_bytes_fuel :
    (m n v : ℕ) (out : List ℕ)
    → v < 256 ^ m
    → v < 256 ^ n
    → value_bytes m v out ≡ value_bytes n v out
unfolding value_bytes
value_bytes_fuel zero zero v out h k = refl
value_bytes_fuel zero (suc n) v out h k = ground arith
value_bytes_fuel (suc m) zero v out h k = ground arith
value_bytes_fuel (suc m) (suc n) v out h k =
    ap (λ l. if ltb 0 v then l else out)
      (value_bytes_fuel m n (v / 2 ^ 8) (out ++ v % 2 ^ 8 ∷ []) (omega (arith, pow-suc 256 m))
        (omega (arith, pow-suc 256 n)))

-- The top bit of the last byte, the sign of a script number.
unfoldable pub is_negative : List ℕ → Bool
is_negative [] = false
is_negative (b ∷ []) = leb 128 b
is_negative (b ∷ c ∷ bs) = is_negative (c ∷ bs)

-- The last byte holds more than the sign, or keeps the sign apart from a byte whose top bit is set.
unfoldable pub is_minimal : List ℕ → Bool
is_minimal [] = true
is_minimal (b ∷ []) = not (b % 128 == 0)
is_minimal (b ∷ c ∷ []) = not (c % 128 == 0) || leb 128 b
is_minimal (b ∷ c ∷ d ∷ bs) = is_minimal (c ∷ d ∷ bs)

-- A script number stands for the number without a sign, is minimal, and shorter than six bytes.
pub encode_script_number-decode :
    (v : ℕ)
    → v < 2 ^ 32
    → (from_le_bytes (encode_script_number v) ≡ v)
      × (length (encode_script_number v) ≤ 5)
      × (is_negative (encode_script_number v) ≡ false)
      × (is_minimal (encode_script_number v) ≡ true)
unfolding encode_script_number value_bytes last_is_negative from_le_bytes is_negative is_minimal
encode_script_number-decode v h = ground arith

-- A string of bytes whose sign is off stands for less than half of what its length can hold.
sign_off :
    (b : ℕ) (bs : List ℕ)
    → IsBytes (b ∷ bs)
    → is_negative (b ∷ bs) ≡ false
    → 2 * from_le_bytes (b ∷ bs) + 2 ≤ 256 ^ length (b ∷ bs)
unfolding is_negative from_le_bytes
sign_off b [] all h = ground arith
sign_off b (c ∷ bs) all h =
    omega (arith, pow-suc 256 (length (c ∷ bs)), sign_off c bs all.1 h, all.0)

length_bound : (n v : ℕ) → v < 2 ^ 32 → 2 * v + 2 ≤ 256 ^ n → length (encode_script_number v) ≤ n
unfolding encode_script_number value_bytes last_is_negative
length_bound zero v h k = absurd (omega arith)
length_bound (suc zero) v h k = ground arith
length_bound (suc (suc zero)) v h k = ground arith
length_bound (suc (suc (suc zero))) v h k = ground arith
length_bound (suc (suc (suc (suc zero)))) v h k = ground arith
length_bound (suc (suc (suc (suc (suc n))))) v h k = ground arith

no_shorter :
    (v : ℕ) (bs : List ℕ)
    → v < 2 ^ 32
    → IsBytes bs
    → from_le_bytes bs ≡ v
    → is_negative bs ≡ false
    → length (encode_script_number v) ≤ length bs
unfolding from_le_bytes encode_script_number
no_shorter v [] h all e sign = subst (λ n. length (encode_script_number n) ≤ 0) e (omega arith)
no_shorter v (b ∷ bs) h all e sign =
    length_bound (length (b ∷ bs)) v h (omega (arith, e, sign_off b bs all sign))

-- A script number stands for its number with the sign off, and no string of bytes that does so is
-- shorter.
pub encode_script_number-IsShortest :
    (v : ℕ) (bs : List ℕ)
    → v < 2 ^ 32
    → IsBytes bs
    → from_le_bytes bs ≡ v
    → is_negative bs ≡ false
    → (from_le_bytes (encode_script_number v) ≡ v)
      × (is_negative (encode_script_number v) ≡ false)
      × (length (encode_script_number v) ≤ length bs)
encode_script_number-IsShortest v bs h all e sign =
    let number = encode_script_number-decode v h in
    (number.0, number.2, no_shorter v bs h all e sign)
