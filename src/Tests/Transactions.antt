-- ===== src/Tests/Transactions.antt =====
-- Transactions: runs of the checks, and instances of their theorems.
use opencbdc_tx.Common.{◌≡◌, refl, ◌↔◌, [], ◌∷◌, ◌++◌, none, some, arith}
use opencbdc_tx.Serialization.{write_all, write_uint, write_vector, le_bytes, le_value}
use opencbdc_tx.Transaction.{
  tx_id, write_full_tx, out_point_eq, write_input, write_output, write_out_point, write_hash,
}
use opencbdc_tx.Transaction.Readers.{read_full_tx, read_full_tx-write_full_tx}
use opencbdc_tx.Transaction.Validation.{
  check_tx, check_tx_structure, check_input_count, check_output_count, check_witness_count,
  check_input_set, check_input_set_from, seen_before, check_inputs_from, check_input_structure,
  check_outputs_from, check_in_out_set, total_from, check_witnesses_from, check_witness,
  check_witness_program, check_p2pk_witness, check_p2pk_witness_len, check_output_value,
  check_p2pk_witness_commitment, check_p2pk_witness_signature,
}
use opencbdc_tx.Transaction.Validation.Correct.{IsValid, check_tx_iff}
use opencbdc_tx.Tests.Sample.{toy, unsigned_tx, good_tx}

check_tx_iff_example : (check_tx toy good_tx ≡ none) ↔ IsValid toy good_tx
check_tx_iff_example = check_tx_iff toy good_tx (omega arith) (omega arith)

read_full_tx-write_full_tx_example :
    read_full_tx (write_full_tx unsigned_tx ++ 1 ∷ 2 ∷ []) ≡ some (unsigned_tx, 1 ∷ 2 ∷ [])
unfolding le_bytes le_value
read_full_tx-write_full_tx_example =
    read_full_tx-write_full_tx unsigned_tx (1 ∷ 2 ∷ []) (omega arith)

program : Unit {0}
unfolding check_tx tx_id write_input write_output write_out_point write_hash le_bytes le_value
    out_point_eq check_tx_structure check_input_count check_output_count check_witness_count
    check_input_set check_input_set_from seen_before check_inputs_from check_input_structure
    check_outputs_from check_in_out_set total_from check_witnesses_from check_witness
    check_witness_program check_p2pk_witness check_p2pk_witness_len write_all write_uint
    write_vector check_output_value check_p2pk_witness_commitment check_p2pk_witness_signature
program = tt

pub good_tx_passes : check_tx toy good_tx ≡ none
unfolding program
good_tx_passes = refl
