-- ===== src/Mining/Block/Layout.antt =====
-- A serialised block: its header, the count of its transactions, and the transactions.
use mac_solo_miner.Base.{
  ℕ, ◌+◌, length, refl, arith, ◌^◌, ◌<◌, ◌≡◌, sym, ap, ◌∙◌, List, [], ◌∷◌, ◌++◌, append-nil,
  append_assoc, take, drop, take-append, drop-append, ok,
}
use mac_solo_miner.BtcPrimitives.Header.{BlockHeader, IsHeader, header_size, deserialize}
use mac_solo_miner.BtcPrimitives.Header
use mac_solo_miner.BtcPrimitives.Header.RoundTrip.{serialize-IsArray, deserialize-serialize}
use mac_solo_miner.BtcPrimitives.Transaction
use mac_solo_miner.BtcPrimitives.Varint.{encode, encoded_len, decode}
use mac_solo_miner.BtcPrimitives.Varint.RoundTrip.{encode-append, decode-encode, length-encode}
use mac_solo_miner.Mining.Block.{BlockBuilder, append_each, serialize, transaction_count}

append_each-append :
    (txs : List (List ℕ)) (block : List ℕ) → append_each txs block ≡ block ++ append_each txs []
unfolding append_each
append_each-append [] block = sym (append-nil block)
append_each-append (tx ∷ txs) block =
    append_each-append txs (block ++ tx)
    ∙ append_assoc block tx (append_each txs [])
    ∙ ap (◌++◌ block) (sym (append_each-append txs tx))

-- What stands behind the count.
abbrev body : BlockBuilder → List ℕ
body self = Transaction.serialize self.coinbase ++ append_each self.transactions []

serialize-body :
    (self : BlockBuilder) (header : BlockHeader)
    → serialize self header
      ≡ Header.serialize header ++ (encode (transaction_count self) [] ++ body self)
unfolding serialize
serialize-body self header =
    append_each-append self.transactions (
      encode (transaction_count self) (Header.serialize header)
      ++ Transaction.serialize self.coinbase)
    ∙ ap (λ l. (l ++ Transaction.serialize self.coinbase) ++ append_each self.transactions [])
        (encode-append (transaction_count self) (Header.serialize header))
    ∙ simp append_assoc

abbrev pub joined : List (List ℕ) → List ℕ
joined [] = []
joined (tx ∷ txs) = tx ++ joined txs

append_each-joined : (txs : List (List ℕ)) → append_each txs [] ≡ joined txs
unfolding append_each
append_each-joined [] = refl
append_each-joined (tx ∷ txs) = append_each-append txs tx ∙ ap (◌++◌ tx) (append_each-joined txs)

-- A serialised block begins with its header, which is read back from its first 80 bytes; the number
-- that is read behind them is one more than that of the transactions beside the coinbase; and what
-- is left behind the number is the coinbase with its witness, if it has one, and the transactions in
-- their order.
pub block-deserialize :
    (self : BlockBuilder) (header : BlockHeader)
    → IsHeader header
    → length self.transactions + 1 < 2 ^ 64
    → (deserialize (take header_size (serialize self header)) ≡ header)
      × (decode (drop header_size (serialize self header))
          ≡ ok (length self.transactions + 1, encoded_len (length self.transactions + 1)))
      × (drop
            (encoded_len (length self.transactions + 1))
            (drop header_size (serialize self header))
          ≡ Transaction.serialize self.coinbase ++ joined self.transactions)
unfolding transaction_count
block-deserialize self header valid fits =
    let size = (serialize-IsArray header valid).0 in
    let rest : List ℕ = encode (transaction_count self) [] ++ body self in
    (
      ap (λ l. deserialize (take 80 l)) (serialize-body self header)
          ∙ ap deserialize (take-append 80 (Header.serialize header) rest size)
          ∙ deserialize-serialize header valid,
      ap (λ l. decode (drop 80 l)) (serialize-body self header)
          ∙ ap decode (drop-append 80 (Header.serialize header) rest size)
          ∙ decode-encode (transaction_count self) (body self) fits,
      ap (λ l. drop (encoded_len (transaction_count self)) (drop 80 l)) (serialize-body self header)
          ∙ ap (drop (encoded_len (transaction_count self)))
              (drop-append 80 (Header.serialize header) rest size)
          ∙ drop-append (encoded_len (transaction_count self)) (encode (transaction_count self) [])
              (body self) (omega (arith, length-encode (transaction_count self) []))
          ∙ ap (◌++◌ (Transaction.serialize self.coinbase)) (append_each-joined self.transactions),
    )
