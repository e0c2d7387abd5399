-- ===== src/Transaction/Readers.antt =====
-- The readers of src/uhs/transaction/messages.cpp, and the round trip of a full transaction.
use opencbdc_tx.Common.{◌^◌, ◌<◌, ◌≡◌, ◌∙◌, ◌++◌, some, length, All, All-mono}
use opencbdc_tx.Crypto.{Hash}
use opencbdc_tx.Serialization.{Bytes, Parser, write_vector, ◌>>=◌, done, read_uint, read_vector}
use opencbdc_tx.Serialization.RoundTrip.{
  bind_some, read_uint-write_uint, Agrees, read_vector-write_vector,
}
use opencbdc_tx.Transaction.{
  OutPoint, Output, Input, FullTx, write_hash, write_out_point, write_output, write_input,
  write_witness, write_full_tx,
}
use mathlib.Core.List.{append_assoc}

unfoldable pub read_hash : Parser Hash
read_hash = read_uint 32

unfoldable pub read_out_point : Parser OutPoint
read_out_point = do id ← read_hash; i ← read_uint 8; done (record { tx_id = id; index = i })

unfoldable pub read_output : Parser Output
read_output = do
  commitment ← read_hash
  v ← read_uint 8
  done (record { witness_program_commitment = commitment; value = v })

unfoldable pub read_input : Parser Input
read_input = do
  op ← read_out_point
  out ← read_output
  done (record { prevout = op; prevout_data = out })

unfoldable pub read_witness : Parser Bytes
read_witness = read_vector (read_uint 1)

unfoldable pub read_full_tx : Parser FullTx
read_full_tx = do
  ins ← read_vector read_input
  outs ← read_vector read_output
  wits ← read_vector read_witness
  done (record { inputs = ins; outputs = outs; witness = wits })

-- Every number fits its field of the C++ struct.
pub record OutPointFits (op : OutPoint) : Type 0 where
  pub id : op.tx_id < 256 ^ 32
  pub i : op.index < 256 ^ 8

pub record OutputFits (out : Output) : Type 0 where
  pub commitment : out.witness_program_commitment < 256 ^ 32
  pub v : out.value < 256 ^ 8

abbrev pub InputFits : Input → Type 0
InputFits inp = OutPointFits inp.prevout × OutputFits inp.prevout_data

abbrev pub WitnessFits : Bytes → Type 0
WitnessFits wit = (length wit < 256 ^ 8) × All (λ b. b < 256 ^ 1) wit

pub record TxFits (tx : FullTx) : Type 0 where
  pub input_count : length tx.inputs < 256 ^ 8
  pub ins : All InputFits tx.inputs
  pub output_count : length tx.outputs < 256 ^ 8
  pub outs : All OutputFits tx.outputs
  pub witness_count : length tx.witness < 256 ^ 8
  pub wits : All WitnessFits tx.witness

-- Two fields in a row.
agrees_pair :
    {A B C : Type 0} (p : Parser A) (q : Parser B) (make : A → B → C) (a : A) (b : B) (u v : Bytes)
    → ((rest : Bytes) → p (u ++ rest) ≡ some (a, rest))
    → ((rest : Bytes) → q (v ++ rest) ≡ some (b, rest))
    → (rest : Bytes) → (do x ← p; y ← q; done (make x y)) ((u ++ v) ++ rest) ≡ some (make a b, rest)
agrees_pair p q make a b u v hp hq rest =
    rw (append_assoc u v rest) (bind_some p _ (hp (v ++ rest)) ∙ bind_some q _ (hq rest))

out_point-Agrees : (op : OutPoint) → OutPointFits op → Agrees write_out_point read_out_point op
unfolding write_out_point read_out_point write_hash read_hash
out_point-Agrees op h =
    agrees_pair (read_uint 32) (read_uint 8) _ op.tx_id op.index _ _
      (λ r. read_uint-write_uint 32 op.tx_id r h.id) (λ r. read_uint-write_uint 8 op.index r h.i)

output-Agrees : (out : Output) → OutputFits out → Agrees write_output read_output out
unfolding write_output read_output write_hash read_hash
output-Agrees out h =
    agrees_pair (read_uint 32) (read_uint 8) _ out.witness_program_commitment out.value _ _
      (λ r. read_uint-write_uint 32 out.witness_program_commitment r h.commitment)
      (λ r. read_uint-write_uint 8 out.value r h.v)

input-Agrees : (inp : Input) → InputFits inp → Agrees write_input read_input inp
unfolding write_input read_input
input-Agrees inp h =
    agrees_pair read_out_point read_output _ inp.prevout inp.prevout_data _ _
      (out_point-Agrees inp.prevout h.0) (output-Agrees inp.prevout_data h.1)

witness-Agrees : (wit : Bytes) → WitnessFits wit → Agrees write_witness read_witness wit
unfolding write_witness read_witness
witness-Agrees wit h rest =
    read_vector-write_vector _ _ wit rest h.0
      (All-mono (λ b lt r. read_uint-write_uint 1 b r lt) wit h.1)

-- A full transaction whose numbers fit their fields is read back as it was written, and what
-- follows it in the buffer is left.
pub read_full_tx-write_full_tx :
    (tx : FullTx) (rest : Bytes)
    → TxFits tx
    → read_full_tx (write_full_tx tx ++ rest) ≡ some (tx, rest)
unfolding read_full_tx write_full_tx
read_full_tx-write_full_tx tx rest h =
    rw (append_assoc (write_vector write_input tx.inputs) _ rest) (
      bind_some (read_vector read_input) _ (
        read_vector-write_vector _ _ tx.inputs _ h.input_count
          (All-mono input-Agrees tx.inputs h.ins))
      ∙ agrees_pair (read_vector read_output) (read_vector read_witness) _ tx.outputs tx.witness _ _
          (λ r.
            read_vector-write_vector _ _ tx.outputs r h.output_count
              (All-mono output-Agrees tx.outputs h.outs))
          (λ r.
            read_vector-write_vector _ _ tx.witness r h.witness_count
              (All-mono witness-Agrees tx.witness h.wits))
          rest)
