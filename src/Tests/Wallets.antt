-- ===== src/Tests/Wallets.antt =====
-- A wallet with two seeds and one coin: payments from it, and the assertion that a debit fails.
use opencbdc_tx.Common.{refl, [], ◌∷◌, arith}
use opencbdc_tx.Transaction.{Input}
use opencbdc_tx.Wallet.{Wallet, send_to}
use opencbdc_tx.Wallet.Coins.{sum_values}
use opencbdc_tx.Wallet.Inputs.{Funded, assets}
use opencbdc_tx.Wallet.Payment.{Payment, payee_and_change, send_to-Payment}
use opencbdc_tx.Tests.Sample.{toy}

abbrev coin : Input
coin = record {
  prevout = record { tx_id = 4; index = 1 };
  prevout_data = record { witness_program_commitment = 9; value = 7 };
}

abbrev purse : Wallet
purse = record {
  balance = 7;
  utxos_set = coin ∷ [];
  seed_from = 0;
  seed_to = 2;
  seed_value = 5;
  seed_witness_commitment = 3;
  spend_queue = coin ∷ [];
  witness_programs = [];
}

purse-Funded : Funded purse
unfolding assets sum_values
purse-Funded = record {
  seeded = omega arith;
  bounded = omega arith;
  balanced = refl;
  small = omega arith;
}

send_to-Payment_example :
    Payment toy (payee_and_change toy 1 2 12) 12 purse (send_to toy 12 1 2 purse)
send_to-Payment_example = send_to-Payment toy 1 2 purse purse-Funded 12
