-- ===== src/Transaction.antt =====
-- src/uhs/transaction/transaction.hpp, transaction.cpp and messages.cpp: outputs, inputs, full and
-- compact transactions, their bytes and their identifiers.
pub mod Readers
pub mod Validation
use opencbdc_tx.Common.{
  ℕ, zero, suc, ◌+◌, List, [], ◌∷◌, ◌++◌, map, Bool, true, false, ◌&&◌, Option, none, some, ◌==◌,
  get_elem?,
}
use opencbdc_tx.Crypto.{Hash, Pubkey, Signature, Crypto}
use opencbdc_tx.Serialization.{Bytes, write_uint, write_vector}

pub record OutPoint : Type 0 where
  pub tx_id : Hash
  pub index : ℕ

pub record Output : Type 0 where
  pub witness_program_commitment : Hash
  pub value : ℕ

pub record Input : Type 0 where
  pub prevout : OutPoint
  pub prevout_data : Output

-- A witness is the vector of its bytes.
pub record FullTx : Type 0 where
  pub inputs : List Input
  pub outputs : List Output
  pub witness : List Bytes

-- The attestations are an `unordered_map`: pairs with distinct keys.
pub record CompactTx : Type 0 where
  pub id : Hash
  pub inputs : List Hash
  pub uhs_outputs : List Hash
  pub attestations : List (Pubkey × Signature)

-- `out_point::operator==`.
unfoldable pub out_point_eq : OutPoint → OutPoint → Bool
out_point_eq a b = a.tx_id == b.tx_id && a.index == b.index

-- `compact_tx::operator==` compares the identifiers alone.
unfoldable pub compact_tx_eq : CompactTx → CompactTx → Bool
compact_tx_eq a b = a.id == b.id

unfoldable pub write_hash : Hash → Bytes
write_hash h = write_uint 32 h

unfoldable pub write_out_point : OutPoint → Bytes
write_out_point op = write_hash op.tx_id ++ write_uint 8 op.index

unfoldable pub write_output : Output → Bytes
write_output out = write_hash out.witness_program_commitment ++ write_uint 8 out.value

unfoldable pub write_input : Input → Bytes
write_input inp = write_out_point inp.prevout ++ write_output inp.prevout_data

unfoldable pub write_witness : Bytes → Bytes
write_witness wit = write_vector (write_uint 1) wit

unfoldable pub write_full_tx : FullTx → Bytes
write_full_tx tx =
    write_vector write_input tx.inputs
    ++ (write_vector write_output tx.outputs ++ write_vector write_witness tx.witness)

-- A pair of a public key (32 bytes) and a signature (64 bytes).
unfoldable pub write_attestation : Pubkey × Signature → Bytes
write_attestation (key, sig) = write_uint 32 key ++ write_uint 64 sig

unfoldable pub write_compact_tx : CompactTx → Bytes
write_compact_tx tx =
    write_hash tx.id
    ++ (write_vector write_hash tx.inputs
        ++ (write_vector write_hash tx.uhs_outputs
            ++ write_vector write_attestation tx.attestations))

module _ (c : Crypto) where
  -- `input::hash`: the UHS identifier of the output that an input spends.
  unfoldable pub input_hash : Input → Hash
  input_hash inp = c.sha256 (write_input inp)

  -- `tx_id`: the witnesses are left out.
  unfoldable pub tx_id : FullTx → Hash
  tx_id tx = c.sha256 (write_vector write_input tx.inputs ++ write_vector write_output tx.outputs)

  unfoldable pub uhs_id_from_output : Hash → ℕ → Output → Hash
  uhs_id_from_output entropy i out =
      c.sha256 (write_hash entropy ++ (write_uint 8 i ++ write_output out))

  -- The input that spends the output at an index of a transaction.
  unfoldable pub input_from_output_at : FullTx → ℕ → Hash → Option Input
  input_from_output_at tx i txid = elim (get_elem? tx.outputs i) [
    | none ↦ none
    | some out ↦ some (record { prevout = record { tx_id = txid; index = i }; prevout_data = out })
  ]

  unfoldable pub input_from_output : FullTx → ℕ → Option Input
  unfolding input_from_output_at
  input_from_output tx i = input_from_output_at tx i (tx_id tx)

  -- The loop of `compact_tx::compact_tx` over the outputs, from index `i`.
  unfoldable pub uhs_outputs_from : Hash → ℕ → List Output → List Hash
  uhs_outputs_from id i [] = []
  uhs_outputs_from id i (out ∷ outs) =
      uhs_id_from_output id i out ∷ uhs_outputs_from id (i + 1) outs

  unfoldable pub compact_tx : FullTx → CompactTx
  compact_tx tx = record {
    id = tx_id tx;
    inputs = map input_hash tx.inputs;
    uhs_outputs = uhs_outputs_from (tx_id tx) 0 tx.outputs;
    attestations = [];
  }

  -- `compact_tx::hash`: the attestations are left out.
  unfoldable pub compact_tx_hash : CompactTx → Hash
  compact_tx_hash tx = c.sha256 (write_compact_tx (record tx { attestations = [] }))

  -- `compact_tx::verify`.
  unfoldable pub verify : CompactTx → Pubkey × Signature → Bool
  verify tx (key, sig) = elim (c.xonly_pubkey_parse key) [
    | none ↦ false
    | some parsed ↦ c.schnorrsig_verify sig (compact_tx_hash tx) parsed
  ]
