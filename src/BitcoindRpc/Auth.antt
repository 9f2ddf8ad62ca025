-- ===== src/BitcoindRpc/Auth.antt =====
-- crates/bitcoind-rpc/src/auth.rs: the cookie, and the header made of it. What reading the file
-- gives is an argument; `trim` of the standard library is a parameter.
pub mod Base64
use mac_solo_miner.Base.{
  ℕ, ◌+◌, ◌*◌, ◌/◌, ◌%◌, Bool, true, false, not, ◌||◌, if◌then◌else◌, ◌==◌, List, [], ◌∷◌, ◌++◌,
  get_or, Option, none, some, Result, ok, err,
}

-- `user:password`
abbrev pub Credentials : Type 0
Credentials = List ℕ

pub data AuthError : Type 0 where
  unreadable : AuthError
  malformed : AuthError

abbrev pub has_colon : List ℕ → Bool
has_colon [] = false
has_colon (c ∷ rest) = c == 58 || has_colon rest

unfoldable pub from_cookie_file : (List ℕ → List ℕ) → Option (List ℕ) → Result AuthError Credentials
from_cookie_file trim none = err unreadable
from_cookie_file trim (some contents) =
    if not (has_colon (trim contents)) then err malformed else ok (trim contents)

-- The letters, the digits, `+` and `/`
abbrev pub alphabet : List ℕ
alphabet =
    65 ∷ 66 ∷ 67 ∷ 68 ∷ 69 ∷ 70 ∷ 71 ∷ 72 ∷ 73 ∷ 74 ∷ 75 ∷ 76 ∷ 77 ∷ 78 ∷ 79 ∷ 80 ∷ 81 ∷ 82 ∷ 83
    ∷ 84 ∷ 85 ∷ 86 ∷ 87 ∷ 88 ∷ 89 ∷ 90 ∷ 97 ∷ 98 ∷ 99 ∷ 100 ∷ 101 ∷ 102 ∷ 103 ∷ 104 ∷ 105 ∷ 106
    ∷ 107 ∷ 108 ∷ 109 ∷ 110 ∷ 111 ∷ 112 ∷ 113 ∷ 114 ∷ 115 ∷ 116 ∷ 117 ∷ 118 ∷ 119 ∷ 120 ∷ 121 ∷ 122
    ∷ 48 ∷ 49 ∷ 50 ∷ 51 ∷ 52 ∷ 53 ∷ 54 ∷ 55 ∷ 56 ∷ 57 ∷ 43 ∷ 47 ∷ []

-- The digit of the lowest six bits: `&` with 0x3F is the remainder by 64.
unfoldable pub digit : ℕ → ℕ
digit v = get_or alphabet (v % 64) 0

-- The loop over the chunks of three; `=` fills what is missing of the last.
unfoldable pub base64_encode : List ℕ → List ℕ
base64_encode [] = []
base64_encode (b0 ∷ []) =
    let triple = b0 * 65536 in digit (triple / 262144) ∷ digit (triple / 4096) ∷ 61 ∷ 61 ∷ []
base64_encode (b0 ∷ b1 ∷ []) =
    let triple = b0 * 65536 + b1 * 256 in
    digit (triple / 262144) ∷ digit (triple / 4096) ∷ digit (triple / 64) ∷ 61 ∷ []
base64_encode (b0 ∷ b1 ∷ b2 ∷ rest) =
    let triple = b0 * 65536 + b1 * 256 + b2 in
    digit (triple / 262144)
    ∷ digit (triple / 4096)
    ∷ digit (triple / 64)
    ∷ digit triple
    ∷ base64_encode rest

-- "Basic "
abbrev pub basic : List ℕ
basic = 66 ∷ 97 ∷ 115 ∷ 105 ∷ 99 ∷ 32 ∷ []

unfoldable pub authorization_header : Credentials → List ℕ
authorization_header self = basic ++ base64_encode self
