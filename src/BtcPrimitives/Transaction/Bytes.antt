-- ===== src/BtcPrimitives/Transaction/Bytes.antt =====
-- The parts of a serialised transaction, one after the other.
use mac_solo_miner.Base.{
  ℕ, ◌≡◌, sym, ap, ◌∙◌, List, [], ◌∷◌, ◌++◌, append-nil, append_assoc, length, to_le_bytes,
}
use mac_solo_miner.BtcPrimitives.Reader.Reads.{bytes_of}
use mac_solo_miner.BtcPrimitives.Transaction.{
  TxIn, TxOut, Transaction, write_input, write_each_input, write_inputs, write_output,
  write_each_output, write_outputs, write_items, write_witnesses, serialize_legacy,
  serialize_segwit,
}
use mac_solo_miner.BtcPrimitives.Varint.{encode}
use mac_solo_miner.BtcPrimitives.Varint.RoundTrip.{encode-append}

-- A length in front of bytes.
abbrev pub sized : List ℕ → List ℕ
sized bs = encode (length bs) [] ++ bs

abbrev pub input_bytes : TxIn → List ℕ
input_bytes input =
    input.previous_output.txid
    ++ (to_le_bytes 4 input.previous_output.vout
        ++ (sized input.script_sig ++ to_le_bytes 4 input.sequence))

abbrev pub output_bytes : TxOut → List ℕ
output_bytes output = to_le_bytes 8 output.value ++ sized output.script_pubkey

abbrev pub stack_bytes : TxIn → List ℕ
stack_bytes input = encode (length input.witness) [] ++ bytes_of sized input.witness

abbrev pub inputs_bytes : Transaction → List ℕ
inputs_bytes self = encode (length self.inputs) [] ++ bytes_of input_bytes self.inputs

abbrev pub outputs_bytes : Transaction → List ℕ
outputs_bytes self = encode (length self.outputs) [] ++ bytes_of output_bytes self.outputs

pub write_input-append :
    (input : TxIn) (out : List ℕ) → write_input input out ≡ out ++ input_bytes input
unfolding write_input
write_input-append input out =
    rw
      (encode-append (length input.script_sig)
        ((out ++ input.previous_output.txid) ++ to_le_bytes 4 input.previous_output.vout))
      (simp append_assoc)

write_each_input-append :
    (inputs : List TxIn) (out : List ℕ)
    → write_each_input inputs out ≡ out ++ bytes_of input_bytes inputs
unfolding write_each_input bytes_of
write_each_input-append [] out = sym (append-nil out)
write_each_input-append (input ∷ rest) out =
    write_each_input-append rest (write_input input out)
    ∙ ap (λ l. l ++ bytes_of input_bytes rest) (write_input-append input out)
    ∙ append_assoc out (input_bytes input) (bytes_of input_bytes rest)

pub write_inputs-append :
    (self : Transaction) (out : List ℕ) → write_inputs self out ≡ out ++ inputs_bytes self
unfolding write_inputs
write_inputs-append self out =
    write_each_input-append self.inputs (encode (length self.inputs) out)
    ∙ ap (λ l. l ++ bytes_of input_bytes self.inputs) (encode-append (length self.inputs) out)
    ∙ append_assoc out (encode (length self.inputs) []) (bytes_of input_bytes self.inputs)

write_output-append :
    (output : TxOut) (out : List ℕ) → write_output output out ≡ out ++ output_bytes output
unfolding write_output
write_output-append output out =
    rw (encode-append (length output.script_pubkey) (out ++ to_le_bytes 8 output.value))
      (simp append_assoc)

write_each_output-append :
    (outputs : List TxOut) (out : List ℕ)
    → write_each_output outputs out ≡ out ++ bytes_of output_bytes outputs
unfolding write_each_output bytes_of
write_each_output-append [] out = sym (append-nil out)
write_each_output-append (output ∷ rest) out =
    write_each_output-append rest (write_output output out)
    ∙ ap (λ l. l ++ bytes_of output_bytes rest) (write_output-append output out)
    ∙ append_assoc out (output_bytes output) (bytes_of output_bytes rest)

pub write_outputs-append :
    (self : Transaction) (out : List ℕ) → write_outputs self out ≡ out ++ outputs_bytes self
unfolding write_outputs
write_outputs-append self out =
    write_each_output-append self.outputs (encode (length self.outputs) out)
    ∙ ap (λ l. l ++ bytes_of output_bytes self.outputs) (encode-append (length self.outputs) out)
    ∙ append_assoc out (encode (length self.outputs) []) (bytes_of output_bytes self.outputs)

write_items-append :
    (items : List (List ℕ)) (out : List ℕ) → write_items items out ≡ out ++ bytes_of sized items
unfolding write_items bytes_of
write_items-append [] out = sym (append-nil out)
write_items-append (item ∷ rest) out =
    write_items-append rest (encode (length item) out ++ item)
    ∙ ap (λ l. (l ++ item) ++ bytes_of sized rest) (encode-append (length item) out)
    ∙ simp append_assoc

pub write_witnesses-append :
    (inputs : List TxIn) (out : List ℕ)
    → write_witnesses inputs out ≡ out ++ bytes_of stack_bytes inputs
unfolding write_witnesses bytes_of
write_witnesses-append [] out = sym (append-nil out)
write_witnesses-append (input ∷ rest) out =
    write_witnesses-append rest (write_items input.witness (encode (length input.witness) out))
    ∙ ap (λ l. l ++ bytes_of stack_bytes rest)
        (write_items-append input.witness (encode (length input.witness) out)
          ∙ ap (λ l. l ++ bytes_of sized input.witness) (encode-append (length input.witness) out))
    ∙ simp append_assoc

-- Both serialisations, field by field.
abbrev pub legacy_layout : Transaction → List ℕ
legacy_layout self =
    to_le_bytes 4 self.version
    ++ (encode (length self.inputs) []
        ++ (bytes_of input_bytes self.inputs
            ++ (encode (length self.outputs) []
                ++ (bytes_of output_bytes self.outputs ++ to_le_bytes 4 self.lock_time))))

abbrev pub segwit_layout : Transaction → List ℕ
segwit_layout self =
    to_le_bytes 4 self.version
    ++ ((0x00 ∷ [])
        ++ (((0x01 ∷ []) ++ encode (length self.inputs) [])
            ++ (bytes_of input_bytes self.inputs
                ++ (encode (length self.outputs) []
                    ++ (bytes_of output_bytes self.outputs
                        ++ (bytes_of stack_bytes self.inputs ++ to_le_bytes 4 self.lock_time))))))

pub serialize_legacy-layout : (self : Transaction) → serialize_legacy self ≡ legacy_layout self
unfolding serialize_legacy
serialize_legacy-layout self =
    ap (λ l. l ++ to_le_bytes 4 self.lock_time)
      (write_outputs-append self (write_inputs self (to_le_bytes 4 self.version))
        ∙ ap (λ l. l ++ outputs_bytes self) (write_inputs-append self (to_le_bytes 4 self.version)))
    ∙ simp append_assoc

pub serialize_segwit-layout : (self : Transaction) → serialize_segwit self ≡ segwit_layout self
unfolding serialize_segwit
serialize_segwit-layout self =
    ap (λ l. l ++ to_le_bytes 4 self.lock_time)
      (write_witnesses-append self.inputs (write_outputs self (write_inputs self begun))
        ∙ ap (λ l. l ++ bytes_of stack_bytes self.inputs)
            (write_outputs-append self (write_inputs self begun)
              ∙ ap (λ l. l ++ outputs_bytes self) (write_inputs-append self begun)))
    ∙ simp append_assoc
  where
    begun : List ℕ
    begun = (to_le_bytes 4 self.version ++ 0x00 ∷ []) ++ 0x01 ∷ []
