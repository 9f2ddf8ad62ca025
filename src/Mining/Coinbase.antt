-- ===== src/Mining/Coinbase.antt =====
-- crates/mining/src/coinbase.rs: the transaction that pays the miner.
pub mod Built
use mac_solo_miner.Base.{
  ℕ, ◌||◌, Bool, if◌then◌else◌, ltb, List, [], ◌∷◌, ◌++◌, length, replicate, Option, none, some,
  Result, ok, err,
}
use mac_solo_miner.BtcPrimitives.Transaction.{Transaction, TxIn, TxOut, null_outpoint, is_empty}
use mac_solo_miner.Mining.Script.{push_data, encode_block_height}

abbrev pub min_script_sig : ℕ
min_script_sig = 2

abbrev pub max_script_sig : ℕ
max_script_sig = 100

-- `witness::RESERVED_VALUE`
abbrev pub reserved_value : List ℕ
reserved_value = replicate 32 0

pub record CoinbaseBuilder : Type 0 where
  pub height : ℕ
  pub value : ℕ
  pub payout_script : List ℕ
  pub extra : List ℕ
  pub tag_bytes : List ℕ
  pub commitment : Option (List ℕ)

pub data CoinbaseError : Type 0 where
  script_sig_length : ℕ → CoinbaseError

unfoldable pub new : ℕ → ℕ → List ℕ → CoinbaseBuilder
new height value payout_script = record {
  height = height;
  value = value;
  payout_script = payout_script;
  extra = [];
  tag_bytes = [];
  commitment = none;
}

unfoldable pub extranonce : List ℕ → CoinbaseBuilder → CoinbaseBuilder
extranonce bytes self = record self { extra = bytes }

unfoldable pub tag : List ℕ → CoinbaseBuilder → CoinbaseBuilder
tag bytes self = record self { tag_bytes = bytes }

unfoldable pub witness_commitment : List ℕ → CoinbaseBuilder → CoinbaseBuilder
witness_commitment script self = record self { commitment = some script }

-- A push of what is not empty.
abbrev pub push_some : List ℕ → List ℕ → Option (List ℕ)
push_some bytes script = if is_empty bytes then some script else push_data bytes script

infixl 5 ◌>>=◌
abbrev pub ◌>>=◌ : Option (List ℕ) → (List ℕ → Option (List ℕ)) → Option (List ℕ)
none >>= f = none
some a >>= f = f a

-- `none` where a push panics.
unfoldable pub script_sig : CoinbaseBuilder → Option (List ℕ)
script_sig self = do
  script ← encode_block_height self.height
  with_extra ← push_some self.extra script
  push_some self.tag_bytes with_extra

unfoldable pub witness_of : Option (List ℕ) → List (List ℕ)
witness_of (some script) = reserved_value ∷ []
witness_of none = []

unfoldable pub outputs_of : CoinbaseBuilder → Option (List ℕ) → List TxOut
outputs_of self none = (record { value = self.value; script_pubkey = self.payout_script }) ∷ []
outputs_of self (some script) =
    (record { value = self.value; script_pubkey = self.payout_script })
    ∷ (record { value = 0; script_pubkey = script })
    ∷ []

unfoldable pub assemble : CoinbaseBuilder → List ℕ → Transaction
assemble self script = record {
  version = 2;
  inputs =
      (record {
        previous_output = null_outpoint;
        script_sig = script;
        sequence = 0xFFFF_FFFF;
        witness = witness_of self.commitment;
      })
      ∷ [];
  outputs = outputs_of self self.commitment;
  lock_time = 0;
}

unfoldable pub build_with : CoinbaseBuilder → List ℕ → Result CoinbaseError Transaction
build_with self script =
    if ltb (length script) min_script_sig || ltb max_script_sig (length script)
    then err (script_sig_length (length script))
    else ok (assemble self script)

abbrev pub on_script : CoinbaseBuilder → Option (List ℕ) → Option (Result CoinbaseError Transaction)
on_script self none = none
on_script self (some script) = some (build_with self script)

unfoldable pub build : CoinbaseBuilder → Option (Result CoinbaseError Transaction)
build self = on_script self (script_sig self)
