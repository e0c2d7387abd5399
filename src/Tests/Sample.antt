-- ===== src/Tests/Sample.antt =====
-- A stand-in for the cryptography, and transactions over it.
use opencbdc_tx.Common.{ℕ, ◌+◌, ◌%◌, List, [], ◌∷◌, ◌++◌, some, ◌==◌}
use opencbdc_tx.Crypto.{Crypto}
use opencbdc_tx.Serialization.{le_bytes, le_value}
use opencbdc_tx.Transaction.{Input, FullTx, CompactTx, tx_id}

-- A digest modulo a prime, every key valid, and a signature that is the message plus the key.
abbrev pub toy : Crypto
toy = record {
  sha256 = λ bs. le_value bs % 1009;
  xonly_pubkey_parse = λ key. some key;
  schnorrsig_verify = λ sig msg key. sig == msg + key;
}

abbrev pub spent_input : Input
spent_input = record {
  prevout = record { tx_id = 5; index = 1 };
  prevout_data = record { witness_program_commitment = toy.sha256 (0 ∷ le_bytes 32 77); value = 9 };
}

abbrev pub unsigned_tx : FullTx
unsigned_tx = record {
  inputs = spent_input ∷ [];
  outputs =
      record { witness_program_commitment = 3; value = 4 }
      ∷ record { witness_program_commitment = 8; value = 5 }
      ∷ [];
  witness = [];
}

abbrev pub good_tx : FullTx
good_tx = record unsigned_tx {
  witness = (0 ∷ (le_bytes 32 77 ++ le_bytes 64 (tx_id toy unsigned_tx + 77))) ∷ [];
}

-- The compact transactions of the shard's tests: an identifier, inputs and outputs.
abbrev pub compact : ℕ → List ℕ → List ℕ → CompactTx
compact i ins outs = record { id = i; inputs = ins; uhs_outputs = outs; attestations = [] }
