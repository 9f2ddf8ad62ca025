-- ===== src/BtcPrimitives/Header/Nonce.antt =====
-- The hash of a header, by the midstate and as an array of 32 bytes.
use mac_solo_miner.Base.{ℕ, ◌^◌, ◌<◌, ◌≡◌, ◌∙◌, ap, IsArray}
use mac_solo_miner.Sha256d.{sha256d}
use mac_solo_miner.Sha256d.Reference
use mac_solo_miner.Sha256d.Reference.Blocks.{sha256-IsArray}
use mac_solo_miner.Sha256d.Midstate
use mac_solo_miner.Sha256d.Midstate.Laws.{hash-new}
use mac_solo_miner.BtcPrimitives.Hash
use mac_solo_miner.BtcPrimitives.Header.{BlockHeader, IsHeader, serialize, hash}
use mac_solo_miner.BtcPrimitives.Header.RoundTrip.{serialize-IsArray, serialize-nonce}

-- Sweeping a nonce over the midstate of a header gives the hash of the header that carries it.
pub hash_of_nonce :
    (header : BlockHeader) (nonce : ℕ)
    → IsHeader header
    → nonce < 2 ^ 32
    → Midstate.hash (Midstate.new (serialize header)) nonce ≡ hash (record header { nonce = nonce })
unfolding hash Hash.hash sha256d
hash_of_nonce header nonce valid h =
    hash-new (serialize header) nonce (serialize-IsArray header valid).0
    ∙ ap Reference.sha256d (serialize-nonce header nonce valid h)

pub hash-IsArray : (header : BlockHeader) → IsArray 32 (hash header)
unfolding hash Hash.hash sha256d Reference.sha256d
hash-IsArray header = sha256-IsArray (Reference.sha256 (serialize header))
