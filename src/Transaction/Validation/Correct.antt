-- ===== src/Transaction/Validation/Correct.antt =====
-- `check_tx` as a whole: a transaction passes exactly when it is valid.
use opencbdc_tx.Common.{
  ℕ, ◌+◌, ◌^◌, ◌<◌, ◌≡◌, refl, ◌≢◌, ◌↔◌, List, [], ◌∷◌, map, Option, none, length, All, arith,
}
use opencbdc_tx.Crypto.{Crypto}
use opencbdc_tx.Transaction.{Output, Input, FullTx}
use opencbdc_tx.Transaction.Validation.{
  input_values, output_values, input_at, witness_at, or_next, check_input_count, check_output_count,
  check_witness_count, check_input_set, check_tx_structure, check_output_value,
  check_input_structure, check_inputs_from, check_outputs_from, check_tx,
}
use opencbdc_tx.Transaction.Validation.Balance.{IsBalanced, check_in_out_set_iff}
use opencbdc_tx.Transaction.Validation.Distinct.{AreDistinct, prevouts, check_input_set_iff}
use opencbdc_tx.Transaction.Validation.Witness.{Spends, check_witnesses_iff}

or_next_iff : {A : Type 0} (a b : Option A) → (or_next a b ≡ none) ↔ ((a ≡ none) × (b ≡ none))
or_next_iff a b = ground arith

check_inputs_from_iff :
    (idx : ℕ) (ins : List Input)
    → (check_inputs_from idx ins ≡ none)
      ↔ All (λ v. 0 < v) (map (λ inp. inp.prevout_data.value) ins)
unfolding check_inputs_from check_input_structure check_output_value
check_inputs_from_iff idx [] = ((λ _. tt), λ _. refl)
check_inputs_from_iff idx (inp ∷ rest) = ground (arith, check_inputs_from_iff (idx + 1) rest)

check_outputs_from_iff :
    (idx : ℕ) (outs : List Output)
    → (check_outputs_from idx outs ≡ none) ↔ All (λ v. 0 < v) (map (λ out. out.value) outs)
unfolding check_outputs_from check_output_value
check_outputs_from_iff idx [] = ((λ _. tt), λ _. refl)
check_outputs_from_iff idx (out ∷ rest) = ground (arith, check_outputs_from_iff (idx + 1) rest)

-- Inputs and outputs, as many witnesses as inputs, no outpoint twice, positive values whose totals
-- agree and fit 64 bits, and a witness for each input that spends it.
pub record IsValid (c : Crypto) (tx : FullTx) : Type 0 where
  pub has_inputs : tx.inputs ≢ []
  pub has_outputs : tx.outputs ≢ []
  pub witness_count : length tx.inputs ≡ length tx.witness
  pub distinct : AreDistinct (prevouts tx.inputs)
  pub balanced : IsBalanced (input_values tx) (output_values tx)
  pub spends : (i : ℕ) → i < length tx.witness → Spends c tx (input_at tx i) (witness_at tx i)

module _ (c : Crypto) (tx : FullTx) (hi : All (λ v. v < 2 ^ 64) (input_values tx))
    (ho : All (λ v. v < 2 ^ 64) (output_values tx)) where
  structure_iff : (check_tx_structure tx ≡ none) ↔ (
      (tx.inputs ≢ [])
      × (tx.outputs ≢ [])
      × (length tx.inputs ≡ length tx.witness)
      × (check_input_set tx ≡ none))
  unfolding check_tx_structure check_input_count check_output_count check_witness_count
  structure_iff = ground arith

  check_tx_sound : check_tx c tx ≡ none → IsValid c tx
  unfolding check_tx
  check_tx_sound h =
      let s = structure_iff.0 (ground arith) in
      record {
        has_inputs = s.0;
        has_outputs = s.1;
        witness_count = s.2;
        distinct = (check_input_set_iff tx).0 (s.3);
        balanced = (check_in_out_set_iff tx hi ho).0 (ground arith);
        spends = (check_witnesses_iff c tx (length tx.witness)).0 (ground arith);
      }

  check_tx_complete : IsValid c tx → check_tx c tx ≡ none
  unfolding check_tx
  check_tx_complete v = ground (
    arith,
    structure_iff.1
        (v.has_inputs, v.has_outputs, v.witness_count, (check_input_set_iff tx).1 v.distinct),
    (check_inputs_from_iff 0 tx.inputs).1 v.balanced.ins_positive,
    (check_outputs_from_iff 0 tx.outputs).1 v.balanced.outs_positive,
    (check_in_out_set_iff tx hi ho).1 v.balanced,
    (check_witnesses_iff c tx (length tx.witness)).1 v.spends,
  )

  -- Of a transaction whose values fit 64 bits, the check reports no error exactly when it has
  -- inputs and outputs, as many witnesses as inputs, no outpoint twice, positive values with equal
  -- totals below 2 ^ 64, and at each index a witness that spends the input.
  pub check_tx_iff : (check_tx c tx ≡ none) ↔ IsValid c tx
  check_tx_iff = (check_tx_sound, check_tx_complete)
