-- ===== src/BitcoindRpc/Network.antt =====
-- crates/bitcoind-rpc/src/network.rs, and the state of the chain that methods.rs reads: the three
-- networks and what each is called. A path is a list of its parts.
use mac_solo_miner.Base.{
  ℕ, Bool, ◌||◌, if◌then◌else◌, List, [], ◌∷◌, ◌++◌, Option, none, some, bytes_eq,
}

pub data Network : Type 0 where
  regtest : Network
  testnet4 : Network
  mainnet : Network

unfoldable pub default_rpc_port : Network → ℕ
default_rpc_port regtest = 18443
default_rpc_port testnet4 = 48332
default_rpc_port mainnet = 8332

-- "regtest", "testnet4", "main", "mainnet" and ".cookie"
abbrev pub regtest_name : List ℕ
regtest_name = 114 ∷ 101 ∷ 103 ∷ 116 ∷ 101 ∷ 115 ∷ 116 ∷ []

abbrev pub testnet4_name : List ℕ
testnet4_name = 116 ∷ 101 ∷ 115 ∷ 116 ∷ 110 ∷ 101 ∷ 116 ∷ 52 ∷ []

abbrev pub main_name : List ℕ
main_name = 109 ∷ 97 ∷ 105 ∷ 110 ∷ []

abbrev pub mainnet_name : List ℕ
mainnet_name = 109 ∷ 97 ∷ 105 ∷ 110 ∷ 110 ∷ 101 ∷ 116 ∷ []

abbrev pub cookie_name : List ℕ
cookie_name = 46 ∷ 99 ∷ 111 ∷ 111 ∷ 107 ∷ 105 ∷ 101 ∷ []

unfoldable pub datadir_subdirectory : Network → Option (List ℕ)
datadir_subdirectory regtest = some regtest_name
datadir_subdirectory testnet4 = some testnet4_name
datadir_subdirectory mainnet = none

abbrev pub in_subdirectory : List (List ℕ) → Option (List ℕ) → List (List ℕ)
in_subdirectory datadir none = datadir ++ cookie_name ∷ []
in_subdirectory datadir (some subdirectory) = datadir ++ subdirectory ∷ cookie_name ∷ []

unfoldable pub cookie_path : Network → List (List ℕ) → List (List ℕ)
cookie_path self datadir = in_subdirectory datadir (datadir_subdirectory self)

unfoldable pub as_str : Network → List ℕ
as_str regtest = regtest_name
as_str testnet4 = testnet4_name
as_str mainnet = main_name

unfoldable pub parse : List ℕ → Option Network
parse name =
    if bytes_eq name regtest_name
    then some regtest
    else if bytes_eq name testnet4_name
    then some testnet4
    else if bytes_eq name main_name || bytes_eq name mainnet_name
    then some mainnet
    else none

pub record BlockchainInfo : Type 0 where
  pub chain : List ℕ
  pub blocks : ℕ
  pub headers : ℕ
  pub best_block_hash : List ℕ
  pub initial_block_download : Bool
  pub pruned : Bool
  pub time : ℕ
