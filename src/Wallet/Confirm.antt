-- ===== src/Wallet/Confirm.antt =====
-- `update_balance`, which keeps the queue of spendable inputs when it takes inputs out of the set.
use opencbdc_tx.Common.{◌≤◌, ◌<◌, ◌≡◌, true, List, [], ◌∷◌, length, arith, terminated}
use opencbdc_tx.Transaction.{Input}
use opencbdc_tx.Wallet.{Wallet, has_utxo, erase_utxo, credit, debit, update_balance}

length-erase_utxo_le :
    (inp : Input) (utxos : List Input) → length (erase_utxo inp utxos) ≤ length utxos
unfolding erase_utxo
length-erase_utxo_le inp [] = omega arith
length-erase_utxo_le inp (utxo ∷ utxos) = ground (arith, length-erase_utxo_le inp utxos)

length-erase_utxo :
    (inp : Input) (utxos : List Input)
    → has_utxo inp utxos ≡ true
    → length (erase_utxo inp utxos) < length utxos
unfolding erase_utxo has_utxo
length-erase_utxo inp [] h = absurd (ground arith)
length-erase_utxo inp (utxo ∷ utxos) h =
    ground (arith, length-erase_utxo inp utxos, length-erase_utxo_le inp utxos)

-- On a wallet whose queue has as many inputs as its set, a debit of an input of the set ends the
-- process: the input leaves the set and not the queue, and the assertion on their sizes fails.
pub update_balance_stops :
    (inp : Input) (w : Wallet)
    → length w.spend_queue ≡ length w.utxos_set
    → has_utxo inp w.utxos_set ≡ true
    → update_balance [] (inp ∷ []) w ≡ terminated
unfolding update_balance credit debit
update_balance_stops inp w e h =
    rw (update_balance, debit, h) (ground (arith, length-erase_utxo inp w.utxos_set h))
