-- ===== src/Transaction/Validation.antt =====
-- src/uhs/transaction/validation.hpp and validation.cpp: the checks of a full transaction, and of
-- the attestations of a compact one. A sum of values wraps at 2 ^ 64 as `uint64_t` does.
pub mod Balance
pub mod Distinct
pub mod Witness
pub mod Correct
pub mod Attestations
use opencbdc_tx.Common.{
  ℕ, zero, suc, ◌+◌, ◌%◌, ◌^◌, List, [], ◌∷◌, map, Bool, true, false, not, ◌&&◌, ◌||◌, Option, none,
  some, ◌==◌, ltb, leb, if◌then◌else◌, length, is_empty, get_or, take, drop, all, contains,
}
use opencbdc_tx.Crypto.{Hash, Pubkey, Signature, Crypto}
use opencbdc_tx.Serialization.{Bytes, le_value, le_bytes}
use opencbdc_tx.Transaction.{
  OutPoint, Output, Input, FullTx, CompactTx, out_point_eq, tx_id, verify,
}

-- `witness_program_type::p2pk`, its program's length and its witness's length.
abbrev pub p2pk : ℕ
p2pk = 0

abbrev pub p2pk_witness_prog_len : ℕ
p2pk_witness_prog_len = 33

abbrev pub p2pk_witness_len : ℕ
p2pk_witness_len = 97

pub data InputErrorCode : Type 0 where
  duplicate data_error : InputErrorCode

pub data OutputErrorCode : Type 0 where
  zero_value : OutputErrorCode

pub record InputError : Type 0 where
  pub code : InputErrorCode
  pub data_err : Option OutputErrorCode
  pub idx : ℕ

pub data WitnessErrorCode : Type 0 where
  missing_witness_program_type unknown_witness_program_type malformed : WitnessErrorCode
  program_mismatch invalid_public_key invalid_signature : WitnessErrorCode

pub data TxErrorCode : Type 0 where
  no_inputs no_outputs missing_witness asymmetric_values value_overflow : TxErrorCode

pub record WitnessError : Type 0 where
  pub code : WitnessErrorCode
  pub idx : ℕ

pub record OutputError : Type 0 where
  pub code : OutputErrorCode
  pub idx : ℕ

pub data TxError : Type 0 where
  input_error : InputError → TxError
  output_error : OutputError → TxError
  witness_error : WitnessError → TxError
  tx_error : TxErrorCode → TxError

-- An early return: the first check that fails decides.
abbrev pub or_next : {A : Type 0} → Option A → Option A → Option A
or_next none next = next
or_next (some e) next = some e

unfoldable pub check_input_count : FullTx → Option TxError
check_input_count tx = if is_empty tx.inputs then some (tx_error no_inputs) else none

unfoldable pub check_output_count : FullTx → Option TxError
check_output_count tx = if is_empty tx.outputs then some (tx_error no_outputs) else none

unfoldable pub check_witness_count : FullTx → Option TxError
check_witness_count tx =
    if length tx.inputs == length tx.witness then none else some (tx_error missing_witness)

-- `inps.find(p) != inps.end()` on the `std::set` of the outpoints seen so far.
unfoldable pub seen_before : OutPoint → List OutPoint → Bool
seen_before p [] = false
seen_before p (q ∷ qs) = out_point_eq q p || seen_before p qs

-- The loop of `check_input_set`, from index `idx`.
unfoldable pub check_input_set_from : List OutPoint → ℕ → List Input → Option TxError
check_input_set_from inps idx [] = none
check_input_set_from inps idx (inp ∷ rest) =
    if seen_before inp.prevout inps
    then some (input_error (record { code = duplicate; data_err = none; idx = idx }))
    else check_input_set_from (inp.prevout ∷ inps) (idx + 1) rest

unfoldable pub check_input_set : FullTx → Option TxError
check_input_set tx = check_input_set_from [] 0 tx.inputs

unfoldable pub check_tx_structure : FullTx → Option TxError
check_tx_structure tx =
    or_next (check_input_count tx)
      (or_next (check_output_count tx) (or_next (check_witness_count tx) (check_input_set tx)))

unfoldable pub check_output_value : Output → Option OutputErrorCode
check_output_value out = if ltb out.value 1 then some zero_value else none

unfoldable pub check_input_structure : Input → Option (InputErrorCode × Option OutputErrorCode)
unfolding check_output_value
check_input_structure inp = elim (check_output_value inp.prevout_data) [
  | none ↦ none
  | some e ↦ some (data_error, some e)
]

-- The running total of `check_in_out_set`: `none` where it fails to grow.
unfoldable pub total_from : ℕ → List ℕ → Option ℕ
total_from total [] = some total
total_from total (v ∷ vs) =
    if leb ((total + v) % 2 ^ 64) total then none else total_from ((total + v) % 2 ^ 64) vs

abbrev pub input_values : FullTx → List ℕ
input_values tx = map (λ inp. inp.prevout_data.value) tx.inputs

abbrev pub output_values : FullTx → List ℕ
output_values tx = map (λ out. out.value) tx.outputs

unfoldable pub check_in_out_set : FullTx → Option TxError
check_in_out_set tx = elim (total_from 0 (input_values tx)) [
  | none ↦ some (tx_error value_overflow)
  | some input_total ↦ elim (total_from 0 (output_values tx)) [
    | none ↦ some (tx_error value_overflow)
    | some output_total ↦
        if input_total == output_total then none else some (tx_error asymmetric_values)
  ]
]

-- The loops of `check_tx` over the inputs and the outputs, from index `idx`.
unfoldable pub check_inputs_from : ℕ → List Input → Option TxError
check_inputs_from idx [] = none
check_inputs_from idx (inp ∷ rest) = elim (check_input_structure inp) [
  | none ↦ check_inputs_from (idx + 1) rest
  | some (code, err) ↦ some (input_error (record { code = code; data_err = err; idx = idx }))
]

unfoldable pub check_outputs_from : ℕ → List Output → Option TxError
check_outputs_from idx [] = none
check_outputs_from idx (out ∷ rest) = elim (check_output_value out) [
  | none ↦ check_outputs_from (idx + 1) rest
  | some code ↦ some (output_error (record { code = code; idx = idx }))
]

-- `tx.m_witness[idx]` and `tx.m_inputs[idx]`. The counts are compared before these are read; past
-- the end, where C++ has no value, an empty witness and a default input stand in.
abbrev pub witness_at : FullTx → ℕ → Bytes
witness_at tx idx = get_or tx.witness idx []

abbrev pub input_at : FullTx → ℕ → Input
input_at tx idx = get_or tx.inputs idx (record {
  prevout = record { tx_id = 0; index = 0 };
  prevout_data = record { witness_program_commitment = 0; value = 0 };
})

unfoldable pub check_p2pk_witness_len : FullTx → ℕ → Option WitnessErrorCode
check_p2pk_witness_len tx idx =
    if length (witness_at tx idx) == p2pk_witness_len then none else some malformed

-- `std::memcpy` of `len` bytes from an offset of the witness.
abbrev pub bytes_at : ℕ → ℕ → Bytes → Bytes
bytes_at offset len wit = take len (drop offset wit)

module _ (c : Crypto) where
  unfoldable pub check_p2pk_witness_commitment : FullTx → ℕ → Option WitnessErrorCode
  check_p2pk_witness_commitment tx idx =
      if c.sha256 (take p2pk_witness_prog_len (witness_at tx idx))
        == (input_at tx idx).prevout_data.witness_program_commitment
      then none
      else some program_mismatch

  unfoldable pub check_p2pk_witness_signature : FullTx → ℕ → Option WitnessErrorCode
  check_p2pk_witness_signature tx idx =
      elim (c.xonly_pubkey_parse (le_value (bytes_at 1 32 (witness_at tx idx)))) [
        | none ↦ some invalid_public_key
        | some pubkey ↦
            if c.schnorrsig_verify
              (le_value (bytes_at p2pk_witness_prog_len 64 (witness_at tx idx))) (tx_id c tx) pubkey
            then none
            else some invalid_signature
      ]

  unfoldable pub check_p2pk_witness : FullTx → ℕ → Option WitnessErrorCode
  check_p2pk_witness tx idx =
      or_next (check_p2pk_witness_len tx idx)
        (or_next (check_p2pk_witness_commitment tx idx) (check_p2pk_witness_signature tx idx))

  -- The `switch` on the first byte of the witness.
  unfoldable pub check_witness_program : FullTx → ℕ → Bytes → Option WitnessErrorCode
  check_witness_program tx idx [] = some missing_witness_program_type
  check_witness_program tx idx (program_type ∷ _) =
      if program_type == p2pk then check_p2pk_witness tx idx else some unknown_witness_program_type

  unfoldable pub check_witness : FullTx → ℕ → Option WitnessErrorCode
  check_witness tx idx = check_witness_program tx idx (witness_at tx idx)

  -- The loop of `check_tx` over the witnesses: the index and the number of rounds left.
  unfoldable pub check_witnesses_from : FullTx → ℕ → ℕ → Option TxError
  check_witnesses_from tx idx zero = none
  check_witnesses_from tx idx (suc rounds) = elim (check_witness tx idx) [
    | none ↦ check_witnesses_from tx (idx + 1) rounds
    | some code ↦ some (witness_error (record { code = code; idx = idx }))
  ]

  unfoldable pub check_tx : FullTx → Option TxError
  check_tx tx = or_next (check_tx_structure tx) (
      or_next (check_inputs_from 0 tx.inputs) (
        or_next (check_outputs_from 0 tx.outputs)
          (or_next (check_in_out_set tx) (check_witnesses_from tx 0 (length tx.witness)))))

  -- `get_p2pk_witness_commitment`: the type byte, then the key.
  unfoldable pub get_p2pk_witness_commitment : Pubkey → Hash
  get_p2pk_witness_commitment payee = c.sha256 (p2pk ∷ le_bytes 32 payee)

  unfoldable pub check_attestations : CompactTx → List Pubkey → ℕ → Bool
  check_attestations tx pubkeys threshold =
      if ltb (length tx.attestations) threshold
      then false
      else all (λ att. contains att.0 pubkeys && verify c tx att) tx.attestations
