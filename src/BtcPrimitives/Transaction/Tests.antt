-- ===== src/BtcPrimitives/Transaction/Tests.antt =====
-- A concrete transaction.
use mac_solo_miner.Base.{◌≡◌, refl, arith, [], ◌∷◌, ◌++◌, length, ok, to_le_bytes}
use mac_solo_miner.BtcPrimitives.Transaction.{
  Transaction, null_outpoint, serialize, serialize_segwit, deserialize, has_witness, any_witness,
  write_inputs, write_each_input, write_input, write_outputs, write_each_output, write_output,
  write_witnesses, write_items,
}
use mac_solo_miner.BtcPrimitives.Varint.{encode}
use mac_solo_miner.BtcPrimitives.Transaction.RoundTrip.{
  IsTransaction, deserialize-serialize_transaction,
}

-- A coinbase with a witness item of one byte.
abbrev sample : Transaction
sample = record {
  version = 2;
  inputs =
      (record {
        previous_output = null_outpoint;
        script_sig = 0x51 ∷ 0x01 ∷ [];
        sequence = 0xFFFF_FFFF;
        witness = (7 ∷ []) ∷ [];
      })
      ∷ [];
  outputs = (record { value = 5000000000; script_pubkey = 0x6A ∷ [] }) ∷ [];
  lock_time = 0;
}

sample-IsTransaction : IsTransaction sample
sample-IsTransaction = record {
  version_fits = omega arith;
  inputs_fit = omega arith;
  each_input = (
    record {
      txid_fits = refl;
      vout_fits = omega arith;
      script_fits = omega arith;
      sequence_fits = omega arith;
      witness_fits = omega arith;
      items_fit = (omega arith, tt);
    },
    tt,
  );
  outputs_fit = omega arith;
  each_output = (record { value_fits = omega arith; script_pubkey_fits = omega arith }, tt);
  lock_time_fits = omega arith;
}

size : length (serialize sample ++ 9 ∷ []) ≡ 69
unfolding serialize serialize_segwit has_witness any_witness write_inputs write_each_input
    write_input write_outputs write_each_output write_output write_witnesses write_items encode
    to_le_bytes
size = refl

deserialize-serialize_transaction_example : deserialize (serialize sample ++ 9 ∷ []) ≡ ok sample
deserialize-serialize_transaction_example =
    deserialize-serialize_transaction sample sample-IsTransaction (9 ∷ []) (omega arith)
      (omega (arith, size))
