-- ===== src/Wallet.antt =====
-- src/uhs/transaction/wallet.hpp and wallet.cpp: the coins of a wallet, from the choice of the inputs
-- of a transaction to its confirmation. The inputs of the set are compared by their out point; the
-- members of 64 bits wrap. A key that `generate_key` would draw is an argument, and the calls that
-- only handle keys (generate_key, sign) and files (save, load) are not modelled.
pub mod Coins
pub mod Inputs
pub mod Payment
pub mod Confirm
use opencbdc_tx.Common.{
  ◌||◌, ℕ, zero, suc, ◌+◌, ◌-◌, ◌*◌, ◌/◌, ◌%◌, ◌^◌, Bool, true, false, not, ◌&&◌, List, [], ◌∷◌,
  ◌++◌, Option, none, some, ◌==◌, ltb, length, is_empty, if◌then◌else◌, lookup, Outcome, returned,
  terminated, ◌>>=◌,
}
use opencbdc_tx.Crypto.{Hash, Pubkey, Crypto}
use opencbdc_tx.Serialization.{Bytes, write_uint}
use opencbdc_tx.Transaction.Validation.{get_p2pk_witness_commitment}
use opencbdc_tx.Transaction.{
  OutPoint, Output, Input, FullTx, out_point_eq, tx_id, input_from_output_at, input_from_output,
}

abbrev pub sig_len : ℕ
sig_len = 64

pub record Wallet : Type 0 where
  pub balance : ℕ
  pub utxos_set : List Input
  pub seed_from : ℕ
  pub seed_to : ℕ
  pub seed_value : ℕ
  pub seed_witness_commitment : Hash
  pub spend_queue : List Input
  pub witness_programs : List (Hash × Pubkey)

-- `m_utxos_set`, a set by the out point.
unfoldable pub has_utxo : Input → List Input → Bool
has_utxo inp [] = false
has_utxo inp (utxo ∷ utxos) = out_point_eq utxo.prevout inp.prevout || has_utxo inp utxos

unfoldable pub erase_utxo : Input → List Input → List Input
erase_utxo inp [] = []
erase_utxo inp (utxo ∷ utxos) =
    let rest = erase_utxo inp utxos in
    if out_point_eq utxo.prevout inp.prevout then rest else utxo ∷ rest

-- `update_balance`, the two loops.
unfoldable pub credit : List Input → Wallet → Wallet
credit [] w = w
credit (inp ∷ credits) w = credit credits (
    if has_utxo inp w.utxos_set then w else record w {
      utxos_set = inp ∷ w.utxos_set;
      balance = (w.balance + inp.prevout_data.value) % 2 ^ 64;
      spend_queue = w.spend_queue ++ (inp ∷ []);
    })

unfoldable pub debit : List Input → Wallet → Wallet
debit [] w = w
debit (inp ∷ debits) w = debit debits (
    if has_utxo inp w.utxos_set
    then record w {
      utxos_set = erase_utxo inp w.utxos_set;
      balance = (w.balance + 2 ^ 64 - inp.prevout_data.value) % 2 ^ 64;
    }
    else w)

unfoldable pub update_balance : List Input → List Input → Wallet → Outcome Wallet
update_balance credits debits w =
    let u = debit debits (credit credits w) in
    if length u.spend_queue == length u.utxos_set then returned u else terminated

unfoldable pub confirm_inputs : List Input → Wallet → Outcome Wallet
confirm_inputs credits w = update_balance credits [] w

unfoldable pub is_spendable : Input → Wallet → Bool
is_spendable inp w = elim (lookup inp.prevout_data.witness_program_commitment w.witness_programs) [
  | none ↦ false
  | some key ↦ true
]

-- The seeds that are left, with the value of each.
unfoldable pub seeds : Wallet → ℕ
seeds w = (w.seed_to + 2 ^ 64 - w.seed_from) % 2 ^ 64

unfoldable pub total_balance : Wallet → ℕ
total_balance w =
    if w.seed_from == w.seed_to then w.balance else (w.balance + seeds w * w.seed_value) % 2 ^ 64

unfoldable pub count : Wallet → ℕ
count w =
    if w.seed_from == w.seed_to then length w.utxos_set else (length w.utxos_set + seeds w) % 2 ^ 64

unfoldable pub seed_readonly : Hash → ℕ → ℕ → ℕ → Wallet → Wallet
seed_readonly commitment value begin_seed end_seed w = record w {
  seed_from = begin_seed;
  seed_to = end_seed;
  seed_value = value;
  seed_witness_commitment = commitment;
}

unfoldable pub create_seeded_transaction : ℕ → Wallet → Option FullTx
create_seeded_transaction idx w =
    if w.seed_from == w.seed_to
    then none
    else some (record {
      inputs =
          record {
            prevout = record { tx_id = 0; index = idx };
            prevout_data = record { witness_program_commitment = 0; value = w.seed_value };
          }
          ∷ [];
      outputs =
          record { witness_program_commitment = w.seed_witness_commitment; value = w.seed_value }
          ∷ [];
      witness = [];
    })

-- The loop of `accumulate_inputs` over the queue of spendable inputs.
unfoldable pub take_queue : ℕ → ℕ → List Input → List Input × ℕ
take_queue amount total [] = ([], total)
take_queue amount total (utxo ∷ queue) =
    let (taken, sum) = take_queue amount ((total + utxo.prevout_data.value) % 2 ^ 64) queue in
    if ltb total amount then (utxo ∷ taken, sum) else ([], total)

-- The inputs that were taken leave the front of the queue.
unfoldable pub pop_utxos : List Input → Wallet → Wallet
pop_utxos [] w = w
pop_utxos (inp ∷ taken) w = elim w.spend_queue [
  | [] ↦ w
  | utxo ∷ queue ↦ pop_utxos taken (record w {
    balance = (w.balance + 2 ^ 64 - utxo.prevout_data.value) % 2 ^ 64;
    utxos_set = erase_utxo utxo w.utxos_set;
    spend_queue = queue;
  })
]

unfoldable pub zero_witness : ℕ → Bytes
zero_witness zero = []
zero_witness (suc n) = 0 ∷ zero_witness n

unfoldable pub zero_witnesses : List Input → List Bytes
zero_witnesses [] = []
zero_witnesses (inp ∷ inps) = zero_witness sig_len ∷ zero_witnesses inps

-- The transaction of the inputs that were found gets its outputs, which depend on their total.
unfoldable pub with_outputs :
    (ℕ → List Output) → Wallet × Option (FullTx × ℕ) → Wallet × Option FullTx
with_outputs outputs (w, none) = (w, none)
with_outputs outputs (w, some (tx, total)) = (w, some (record tx { outputs = outputs total }))

unfoldable pub repeat_output : ℕ → Output → List Output
repeat_output zero out = []
repeat_output (suc n) out = out ∷ repeat_output n out

module _ (c : Crypto) where
  unfoldable pub create_seeded_input : ℕ → Wallet → Option Input
  create_seeded_input idx w = elim (create_seeded_transaction idx w) [
    | none ↦ none
    | some tx ↦ input_from_output_at c tx 0 (tx_id c tx)
  ]

  -- The loop of `accumulate_inputs` over the seeds: at most as many rounds as there are seeds.
  unfoldable pub take_seeds : ℕ → ℕ → ℕ → Wallet → List Input × ℕ × Wallet
  take_seeds zero amount total w = ([], total, w)
  take_seeds (suc fuel) amount total w =
      let (taken, sum, u) =
        take_seeds fuel amount ((total + w.seed_value) % 2 ^ 64)
          (record w { seed_from = (w.seed_from + 1) % 2 ^ 64 }) in
      if not (w.seed_from == w.seed_to) && ltb total amount
      then elim (create_seeded_input w.seed_from w) [
        | none ↦ ([], total, w)
        | some inp ↦ (inp ∷ taken, sum, u)
      ]
      else ([], total, w)

  unfoldable pub accumulate_inputs : ℕ → Wallet → Wallet × Option (FullTx × ℕ)
  accumulate_inputs amount w =
      let (seeded, seed_total, u) = take_seeds (seeds w) amount 0 w in
      let (taken, total) = take_queue amount seed_total u.spend_queue in
      if ltb total amount
      then (record u { seed_from = (u.seed_from + 2 ^ 64 - length seeded) % 2 ^ 64 }, none)
      else (
        pop_utxos taken u,
        some (
          record {
            inputs = seeded ++ taken;
            outputs = [];
            witness = zero_witnesses (seeded ++ taken);
          },
          total,
        ),
      )

  -- The change, if there is any; its key is an argument of the payments.
  unfoldable pub change_output : ℕ → ℕ → Pubkey → List Output
  change_output amount total change_key =
      if ltb amount total
      then record {
        witness_program_commitment = get_p2pk_witness_commitment c change_key;
        value = total - amount;
      }
        ∷ []
      else []

  -- `send_to` of an amount, unsigned.
  unfoldable pub send_to : ℕ → Pubkey → Pubkey → Wallet → Wallet × Option FullTx
  send_to amount payee change_key w =
      with_outputs
        (λ total.
          record {
            witness_program_commitment = get_p2pk_witness_commitment c payee;
            value = amount;
          }
          ∷ change_output amount total change_key)
        (accumulate_inputs amount w)

  unfoldable pub fan : ℕ → ℕ → Pubkey → Pubkey → Wallet → Wallet × Option FullTx
  fan output_count value payee change_key w =
      let amount = (output_count * value) % 2 ^ 64 in
      with_outputs
        (λ total.
          change_output amount total change_key
          ++ repeat_output output_count (record {
            witness_program_commitment = get_p2pk_witness_commitment c payee;
            value = value;
          }))
        (accumulate_inputs amount w)

  -- `export_send_inputs`, the loop over the outputs from index `i`.
  unfoldable pub export_from : FullTx → Hash → ℕ → List Output → List Input
  export_from tx commitment i [] = []
  export_from tx commitment i (out ∷ outs) =
      let rest = export_from tx commitment (i + 1) outs in
      if out.witness_program_commitment == commitment
      then elim (input_from_output c tx i) [ none ↦ rest | some inp ↦ inp ∷ rest ]
      else rest

  unfoldable pub export_send_inputs : FullTx → Pubkey → List Input
  export_send_inputs tx payee = export_from tx (get_p2pk_witness_commitment c payee) 0 tx.outputs

  -- `confirm_transaction`, the outputs that are the wallet's.
  unfoldable pub new_utxos_from : FullTx → Wallet → ℕ → List Output → List Input
  new_utxos_from tx w i [] = []
  new_utxos_from tx w i (out ∷ outs) =
      let rest = new_utxos_from tx w (i + 1) outs in
      elim (lookup out.witness_program_commitment w.witness_programs) [
        | none ↦ rest
        | some key ↦ elim (input_from_output_at c tx i (tx_id c tx)) [
          | none ↦ rest
          | some inp ↦ inp ∷ rest
        ]
      ]

  unfoldable pub confirm_transaction : FullTx → Wallet → Outcome Wallet
  confirm_transaction tx w = update_balance (new_utxos_from tx w 0 tx.outputs) tx.inputs w
