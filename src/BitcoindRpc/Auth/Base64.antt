-- ===== src/BitcoindRpc/Auth/Base64.antt =====
-- The base64 of the header can be read back.
use mac_solo_miner.Base.{
  ℕ, zero, suc, ◌+◌, ◌*◌, ◌/◌, ◌%◌, ◌<◌, ◌≡◌, refl, ap, ap₂, sym, ◌∙◌, arith, Bool, true, false,
  not, ◌&&◌, if◌then◌else◌, ◌==◌, Bool-cases, inl, inr, ltb, ltb→lt, ltb→ge, ==→eq, List, [], ◌∷◌,
  All, get_or,
}
use mac_solo_miner.BitcoindRpc.Auth.{alphabet, digit, base64_encode}

-- The place of a digit among `digits`.
abbrev pub position : List ℕ → ℕ → ℕ
position [] c = 0
position (d ∷ digits) c = let rest = position digits c in if c == d then 0 else suc rest

unfoldable pub value : ℕ → ℕ
value c = position alphabet c

-- Four digits are three bytes, two if the last is `=`, and one if the last two are.
unfoldable pub base64_decode : List ℕ → List ℕ
base64_decode [] = []
base64_decode (c0 ∷ []) = []
base64_decode (c0 ∷ c1 ∷ []) = []
base64_decode (c0 ∷ c1 ∷ c2 ∷ []) = []
base64_decode (c0 ∷ c1 ∷ c2 ∷ c3 ∷ rest) =
    let after = base64_decode rest in
    let b0 = (value c0 * 4 + value c1 / 16) % 256 in
    let b1 = (value c1 * 16 + value c2 / 4) % 256 in
    let b2 = (value c2 * 64 + value c3) % 256 in
    if c2 == 61 then b0 ∷ after else if c3 == 61 then b0 ∷ b1 ∷ after else b0 ∷ b1 ∷ b2 ∷ after

-- The digit of `i` stands at `i`, and is not `=`.
unfoldable is_digit : ℕ → Bool
is_digit i = (value (get_or alphabet i 0) == i) && not (get_or alphabet i 0 == 61)

unfoldable all_below : ℕ → (ℕ → Bool) → Bool
all_below zero test = true
all_below (suc n) test = test n && all_below n test

all_below_lem :
    (n : ℕ) (test : ℕ → Bool) → all_below n test ≡ true → (i : ℕ) → i < n → test i ≡ true
unfolding all_below
all_below_lem zero test h i l = absurd (omega (arith, l))
all_below_lem (suc n) test h i l = elim (Bool-cases (test n)) [
  | inl passes ↦
      let below : all_below n test ≡ true = ap (λ t. t && all_below n test) (sym passes) ∙ h in
      elim (Bool-cases (ltb i n)) [
        | inl less ↦ all_below_lem n test below i (ltb→lt i n less)
        | inr more ↦ let last : i ≡ n = omega (arith, l, ltb→ge i n more) in ap test last ∙ passes
      ]
  | inr fails ↦ cc (ap (λ t. t && all_below n test) (sym fails) ∙ h)
]

table : all_below 64 is_digit ≡ true
unfolding all_below is_digit value
table = refl

is_digit_lem : (v : ℕ) → is_digit (v % 64) ≡ true
is_digit_lem v = all_below_lem 64 is_digit table (v % 64) (omega arith)

value-digit : (v : ℕ) → value (digit v) ≡ v % 64
unfolding digit
value-digit v =
    let h : (value (digit v) == v % 64) && not (digit v == 61) ≡ true =
      unfold is_digit in is_digit_lem v in
    ==→eq (value (digit v)) (v % 64) (ground arith)

digit_padding : (v : ℕ) → (digit v == 61) ≡ false
unfolding digit
digit_padding v =
    let h : (value (digit v) == v % 64) && not (digit v == 61) ≡ true =
      unfold is_digit in is_digit_lem v in
    ground arith

single :
    (a : ℕ)
    → a < 256
    → let t = a * 65536 in (((t / 262144) % 64) * 4 + ((t / 4096) % 64) / 16) % 256 ≡ a
single a ha = omega arith

double0 :
    (a b : ℕ)
    → a < 256
    → b < 256
    → let t = a * 65536 + b * 256 in (((t / 262144) % 64) * 4 + ((t / 4096) % 64) / 16) % 256 ≡ a
double0 a b ha hb = omega arith

double1 :
    (a b : ℕ)
    → a < 256
    → b < 256
    → let t = a * 65536 + b * 256 in (((t / 4096) % 64) * 16 + ((t / 64) % 64) / 4) % 256 ≡ b
double1 a b ha hb = omega arith

byte0 :
    (a b c : ℕ)
    → a < 256
    → b < 256
    → c < 256
    → let t = a * 65536 + b * 256 + c in
      (((t / 262144) % 64) * 4 + ((t / 4096) % 64) / 16) % 256 ≡ a
byte0 a b c ha hb hc = omega arith

byte1 :
    (a b c : ℕ)
    → a < 256
    → b < 256
    → c < 256
    → let t = a * 65536 + b * 256 + c in (((t / 4096) % 64) * 16 + ((t / 64) % 64) / 4) % 256 ≡ b
byte1 a b c ha hb hc = omega arith

byte2 :
    (a b c : ℕ)
    → a < 256
    → b < 256
    → c < 256
    → let t = a * 65536 + b * 256 + c in (((t / 64) % 64) * 64 + t % 64) % 256 ≡ c
byte2 a b c ha hb hc = omega arith

-- What is encoded of bytes is read back.
pub base64_decode-base64_encode :
    (bytes : List ℕ) → All (λ b. b < 256) bytes → base64_decode (base64_encode bytes) ≡ bytes
unfolding base64_decode base64_encode
base64_decode-base64_encode [] h = refl
base64_decode-base64_encode (a ∷ []) h =
    let t : ℕ = a * 65536 in
    rw (value-digit (t / 262144), value-digit (t / 4096)) (ap (λ x. x ∷ []) (single a h.0))
base64_decode-base64_encode (a ∷ b ∷ []) h =
    let t : ℕ = a * 65536 + b * 256 in
    rw
      (
        digit_padding (t / 64),
        value-digit (t / 262144),
        value-digit (t / 4096),
        value-digit (t / 64),
      )
      (ap₂ (λ x y. x ∷ y ∷ []) (double0 a b h.0 h.1.0) (double1 a b h.0 h.1.0))
base64_decode-base64_encode (a ∷ b ∷ c ∷ rest) h =
    let t : ℕ = a * 65536 + b * 256 + c in
    let after : base64_decode (base64_encode rest) ≡ rest =
      base64_decode-base64_encode rest h.1.1.1 in
    rw
      (
        digit_padding (t / 64),
        digit_padding t,
        value-digit (t / 262144),
        value-digit (t / 4096),
        value-digit (t / 64),
        value-digit t,
        after,
      )
      (ap₂ ◌∷◌ (byte0 a b c h.0 h.1.0 h.1.1.0) (
        ap₂ ◌∷◌ (byte1 a b c h.0 h.1.0 h.1.1.0)
          (ap (λ x. x ∷ rest) (byte2 a b c h.0 h.1.0 h.1.1.0))))
