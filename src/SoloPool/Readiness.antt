-- ===== src/SoloPool/Readiness.antt =====
-- crates/solo-pool/src/readiness.rs: whether a node is fit to mine on.
pub mod Fit
use mac_solo_miner.Base.{
  ℕ, ◌-◌, ◌*◌, ◌^◌, Bool, true, false, not, ◌||◌, if◌then◌else◌, ltb, ◌==◌, List, Result, ok, err,
  ℤ, pos, negsuc, minus, at_most, bytes_eq,
}
use mac_solo_miner.BitcoindRpc.Network.{Network, regtest, testnet4, mainnet, as_str, BlockchainInfo}

abbrev pub max_tip_age : ℕ
max_tip_age = 3 * 60 * 60

pub data NotReady : Type 0 where
  wrong_network : List ℕ → List ℕ → NotReady
  syncing : ℕ → ℕ → NotReady
  no_peers : NotReady
  stale_tip : ℤ → NotReady

-- `as i64` of a u64.
unfoldable pub as_i64 : ℕ → ℤ
as_i64 n = if ltb n (2 ^ 63) then pos n else negsuc ((2 ^ 64 - 1) - n)

unfoldable pub is_regtest : Network → Bool
is_regtest regtest = true
is_regtest testnet4 = false
is_regtest mainnet = false

unfoldable pub check_tip : BlockchainInfo → ℕ → ℤ → Result NotReady (Unit {0})
check_tip info peers now =
    let age = minus now (as_i64 info.time) in
    if peers == 0
    then err no_peers
    else if not (at_most age (pos max_tip_age))
    then err (stale_tip age)
    else ok tt

-- `check`, whose name other modules have: the node's state, its peers, and the time.
unfoldable pub check_node : Network → BlockchainInfo → ℕ → ℤ → Result NotReady (Unit {0})
check_node network info peers now =
    let tip = check_tip info peers now in
    if not (bytes_eq info.chain (as_str network))
    then err (wrong_network (as_str network) info.chain)
    else if info.initial_block_download || ltb info.blocks info.headers
    then err (syncing info.blocks info.headers)
    else if is_regtest network
    then ok tt
    else tip
