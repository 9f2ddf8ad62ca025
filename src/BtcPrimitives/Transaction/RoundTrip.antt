-- ===== src/BtcPrimitives/Transaction/RoundTrip.antt =====
-- A transaction is read back from either serialisation.
use mac_solo_miner.Base.{
  ℕ, ◌^◌, ◌<◌, ◌≡◌, refl, sym, ap, ap₂, ◌∙◌, subst, arith, Bool, true, false, Bool-cases, not, ◌||◌,
  ◌==◌, List, [], ◌∷◌, ◌++◌, map, length, All, ok, inl, inr, to_le_bytes, Bool-cases,
}
use mac_solo_miner.BtcPrimitives.Reader.{
  Read, pure, ◌>>=◌, new, read_i32, read_u32, read_u64, read_hash, read_bytes, read_varint,
  read_var_bytes, read_times,
}
use mac_solo_miner.BtcPrimitives.Reader.Reads.{
  Reads, Reads-pure, Reads-chain, Reads-map, Reads-times, Reads-bytes, Reads-u32, Reads-i32,
  Reads-u64, Reads-hash, Reads-varint, Reads-var_bytes, Reads-new, bytes_of,
}
use mac_solo_miner.BtcPrimitives.Transaction.{
  TxIn, TxOut, Transaction, is_empty, any_witness, has_witness, serialize, read_input, read_output,
  read_stack, read_witnesses, read_count, read_stacks, read_transaction, value_of, deserialize,
}
use mac_solo_miner.BtcPrimitives.Transaction.Bytes.{
  sized, input_bytes, output_bytes, stack_bytes, legacy_layout, segwit_layout,
  serialize_legacy-layout, serialize_segwit-layout,
}
use mac_solo_miner.BtcPrimitives.Varint.{encode}
use mac_solo_miner.BtcPrimitives.Varint.RoundTrip.{encode_zero}

-- What the field types of Rust give; a length is below 2^64.
pub record IsTxIn (input : TxIn) : Type 0 where
  pub txid_fits : length input.previous_output.txid ≡ 32
  pub vout_fits : input.previous_output.vout < 2 ^ 32
  pub script_fits : length input.script_sig < 2 ^ 64
  pub sequence_fits : input.sequence < 2 ^ 32
  pub witness_fits : length input.witness < 2 ^ 64
  pub items_fit : All (λ item. length item < 2 ^ 64) input.witness

pub record IsTxOut (output : TxOut) : Type 0 where
  pub value_fits : output.value < 2 ^ 64
  pub script_pubkey_fits : length output.script_pubkey < 2 ^ 64

pub record IsTransaction (tx : Transaction) : Type 0 where
  pub version_fits : tx.version < 2 ^ 32
  pub inputs_fit : length tx.inputs < 2 ^ 64
  pub each_input : All IsTxIn tx.inputs
  pub outputs_fit : length tx.outputs < 2 ^ 64
  pub each_output : All IsTxOut tx.outputs
  pub lock_time_fits : tx.lock_time < 2 ^ 32

-- The input without its witness.
abbrev pub bare : TxIn → TxIn
bare input = record input { witness = [] }

Reads-input : (input : TxIn) → IsTxIn input → Reads read_input (input_bytes input) (bare input)
unfolding read_input
Reads-input input valid =
    Reads-chain read_hash _ input.previous_output.txid _ input.previous_output.txid (bare input)
      (Reads-hash input.previous_output.txid valid.txid_fits)
      (Reads-chain read_u32 _ (to_le_bytes 4 input.previous_output.vout) _
        input.previous_output.vout (bare input)
        (Reads-u32 input.previous_output.vout valid.vout_fits)
        (Reads-chain read_var_bytes _ (sized input.script_sig) _ input.script_sig (bare input)
          (Reads-var_bytes input.script_sig valid.script_fits)
          (Reads-map read_u32 _ (to_le_bytes 4 input.sequence) input.sequence
            (Reads-u32 input.sequence valid.sequence_fits))))

Reads-output : (output : TxOut) → IsTxOut output → Reads read_output (output_bytes output) output
unfolding read_output
Reads-output output valid =
    Reads-chain read_u64 _ (to_le_bytes 8 output.value) _ output.value output
      (Reads-u64 output.value valid.value_fits)
      (Reads-map read_var_bytes _ (sized output.script_pubkey) output.script_pubkey
        (Reads-var_bytes output.script_pubkey valid.script_pubkey_fits))

map_id : {A : Type 0} → (xs : List A) → map (λ x. x) xs ≡ xs
map_id [] = refl
map_id (x ∷ xs) = ap (◌∷◌ x) (map_id xs)

All-map :
    {A : Type 0} {P Q : A → Type 0} → ((x : A) → P x → Q x) → (xs : List A) → All P xs → All Q xs
All-map f [] h = tt
All-map f (x ∷ xs) h = (f x h.0, All-map f xs h.1)

Reads-stack : (input : TxIn) → IsTxIn input → Reads read_stack (stack_bytes input) input.witness
unfolding read_stack
Reads-stack input valid =
    Reads-chain read_varint (λ items. read_times items read_var_bytes)
      (encode (length input.witness) []) (bytes_of sized input.witness) (length input.witness)
      input.witness (Reads-varint (length input.witness) valid.witness_fits)
      (subst
        (Reads (read_times (length input.witness) read_var_bytes) (bytes_of sized input.witness))
        (map_id input.witness)
        (Reads-times read_var_bytes sized (λ x. x) input.witness
          (All-map (λ item h. Reads-var_bytes item h) input.witness valid.items_fit)))

Reads-witnesses :
    (inputs : List TxIn)
    → All IsTxIn inputs
    → Reads (read_witnesses (map bare inputs)) (bytes_of stack_bytes inputs) inputs
unfolding read_witnesses bytes_of
Reads-witnesses [] h = Reads-pure []
Reads-witnesses (input ∷ rest) h =
    Reads-chain read_stack _ (stack_bytes input) (bytes_of stack_bytes rest) input.witness
      (input ∷ rest) (Reads-stack input h.0)
      (Reads-map (read_witnesses (map bare rest)) (◌∷◌ input) (bytes_of stack_bytes rest) rest
        (Reads-witnesses rest h.1))

witness_nil :
    (witness : List (List ℕ)) (b : Bool)
    → (not (is_empty witness) || b) ≡ false
    → (witness ≡ []) × (b ≡ false)
witness_nil [] b h = (refl, h)
witness_nil (item ∷ rest) b h = cc

-- Without a witness, an input is what was read of it.
map-bare : (inputs : List TxIn) → any_witness inputs ≡ false → map bare inputs ≡ inputs
unfolding any_witness
map-bare [] h = refl
map-bare (input ∷ rest) h =
    let e = witness_nil input.witness (any_witness rest) h in
    ap₂ ◌∷◌ (λ i. record input { witness = sym e.0 i }) (map-bare rest e.1)

module _ (tx : Transaction) (valid : IsTransaction tx) where
  -- What follows the count of inputs, for either serialisation.
  tail_bytes : List ℕ → List ℕ
  tail_bytes stacks =
      bytes_of input_bytes tx.inputs
      ++ (encode (length tx.outputs) []
          ++ (bytes_of output_bytes tx.outputs ++ (stacks ++ to_le_bytes 4 tx.lock_time)))

  read_tail : Bool × ℕ → Read Transaction
  read_tail count = do
    bare ← read_times count.1 read_input
    output_count ← read_varint
    outputs ← read_times output_count read_output
    inputs ← read_stacks count.0 bare
    lock_time ← read_u32
    pure
        (record { version = tx.version; inputs = inputs; outputs = outputs; lock_time = lock_time })

  Reads-tail :
      (segwit : Bool) (stacks : List ℕ)
      → Reads (read_stacks segwit (map bare tx.inputs)) stacks tx.inputs
      → Reads (read_tail (segwit, length tx.inputs)) (tail_bytes stacks) tx
  unfolding read_tail tail_bytes
  Reads-tail segwit stacks h =
      Reads-chain (read_times (length tx.inputs) read_input) _ (bytes_of input_bytes tx.inputs) _
        (map bare tx.inputs) tx
        (Reads-times read_input input_bytes bare tx.inputs
          (All-map Reads-input tx.inputs valid.each_input))
        (Reads-chain read_varint _ (encode (length tx.outputs) []) _ (length tx.outputs) tx
          (Reads-varint (length tx.outputs) valid.outputs_fit)
          (Reads-chain (read_times (length tx.outputs) read_output) _
            (bytes_of output_bytes tx.outputs) _ tx.outputs tx outputs
            (Reads-chain (read_stacks segwit (map bare tx.inputs)) _ stacks _ tx.inputs tx h (
              Reads-map read_u32 _ (to_le_bytes 4 tx.lock_time) tx.lock_time
                (Reads-u32 tx.lock_time valid.lock_time_fits)))))
    where
      outputs :
          Reads
            (read_times (length tx.outputs) read_output)
            (bytes_of output_bytes tx.outputs)
            tx.outputs
      outputs =
          subst
            (Reads (read_times (length tx.outputs) read_output) (bytes_of output_bytes tx.outputs))
            (map_id tx.outputs)
            (Reads-times read_output output_bytes (λ x. x) tx.outputs
              (All-map Reads-output tx.outputs valid.each_output))

  Reads-legacy :
      0 < length tx.inputs → has_witness tx ≡ false → Reads read_transaction (legacy_layout tx) tx
  unfolding read_transaction read_count read_stacks has_witness bytes_of tail_bytes read_tail
  Reads-legacy some_input bare_inputs =
      Reads-chain read_i32 _ (to_le_bytes 4 tx.version) _ tx.version tx
        (Reads-i32 tx.version valid.version_fits)
        (Reads-chain read_varint _ (encode (length tx.inputs) []) _ (length tx.inputs) tx
          (Reads-varint (length tx.inputs) valid.inputs_fit)
          (Reads-chain (read_count (length tx.inputs)) read_tail [] (tail_bytes [])
            (false, length tx.inputs) tx count (Reads-tail false [] stacks)))
    where
      not_zero : (length tx.inputs == 0) ≡ false
      not_zero = ground arith

      count : Reads (read_count (length tx.inputs)) [] (false, length tx.inputs)
      count = rw not_zero (Reads-pure (false, length tx.inputs))

      stacks : Reads (read_stacks false (map bare tx.inputs)) [] tx.inputs
      stacks =
          subst (λ l. Reads (pure l) [] tx.inputs) (sym (map-bare tx.inputs bare_inputs))
            (Reads-pure tx.inputs)

  Reads-segwit : Reads read_transaction (segwit_layout tx) tx
  unfolding read_transaction read_count read_stacks bytes_of tail_bytes read_tail
  Reads-segwit =
      Reads-chain read_i32 _ (to_le_bytes 4 tx.version) _ tx.version tx
        (Reads-i32 tx.version valid.version_fits)
        (Reads-chain read_varint _ (0x00 ∷ []) _ 0 tx
          (subst (λ l. Reads read_varint l 0) encode_zero (Reads-varint 0 (omega arith)))
          (Reads-chain (read_count 0) read_tail ((0x01 ∷ []) ++ encode (length tx.inputs) [])
            (tail_bytes (bytes_of stack_bytes tx.inputs)) (true, length tx.inputs) tx count
            (Reads-tail true (bytes_of stack_bytes tx.inputs)
              (Reads-witnesses tx.inputs valid.each_input))))
    where
      count :
          Reads
            (read_count 0)
            ((0x01 ∷ []) ++ encode (length tx.inputs) [])
            (true, length tx.inputs)
      count =
          Reads-chain (read_bytes 1) _ (0x01 ∷ []) (encode (length tx.inputs) []) (0x01 ∷ [])
            (true, length tx.inputs) (Reads-bytes (0x01 ∷ []) 1 refl)
            (Reads-map read_varint (λ c. (true, c)) (encode (length tx.inputs) [])
              (length tx.inputs) (Reads-varint (length tx.inputs) valid.inputs_fit))

  -- A transaction with an input is read back from its serialisation, whether it has a witness or
  -- not, and whatever follows.
  pub deserialize-serialize_transaction :
      (rest : List ℕ)
      → 0 < length tx.inputs
      → length (serialize tx ++ rest) < 2 ^ 64
      → deserialize (serialize tx ++ rest) ≡ ok tx
  unfolding deserialize serialize
  deserialize-serialize_transaction rest some_input fits = elim (Bool-cases (has_witness tx)) [
    | inl segwit ↦
        let e : serialize tx ≡ segwit_layout tx = rw segwit (serialize_segwit-layout tx) in
        read_back (segwit_layout tx) e Reads-segwit
    | inr legacy ↦
        let e : serialize tx ≡ legacy_layout tx = rw legacy (serialize_legacy-layout tx) in
        read_back (legacy_layout tx) e (Reads-legacy some_input legacy)
  ]
    where
      read_back :
          (enc : List ℕ)
          → serialize tx ≡ enc
          → Reads read_transaction enc tx
          → deserialize (serialize tx ++ rest) ≡ ok tx
      read_back enc e h =
          ap (λ l. value_of (read_transaction (new (l ++ rest)))) e
          ∙ ap value_of (
              Reads-new read_transaction enc tx rest h
                (subst (λ l. length (l ++ rest) < 2 ^ 64) e fits))
