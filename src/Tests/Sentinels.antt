-- ===== src/Tests/Sentinels.antt =====
-- A sentinel that forwards a transaction with two attestations, and one of the atomizer that sends it
-- to one shard of two.
use opencbdc_tx.Common.{
  ◌+◌, ◌≡◌, refl, ==_refl, true, List, [], ◌∷◌, none, contains, lookup, emplace, insert, returned,
}
use opencbdc_tx.Crypto.{Hash, hash_in_shard_range}
use opencbdc_tx.Transaction.{CompactTx, compact_tx, compact_tx_hash}
use opencbdc_tx.Transaction.Validation.{check_tx, check_attestations}
use opencbdc_tx.Transaction.Validation.Attestations.{IsGood}
use opencbdc_tx.Sentinel.{
  Sentinel, attests, forwards, gathers, ShardInfo, add_attestation, attest, gather_attestations,
  execute_transaction, send_compact_tx,
}
use opencbdc_tx.Sentinel.Attested.{execute_transaction-Accepted}
use opencbdc_tx.Sentinel.Broadcast.{send_compact_tx_first}
use opencbdc_tx.Tests.Sample.{toy, good_tx, compact}
use opencbdc_tx.Tests.Transactions.{good_tx_passes}

abbrev digest : Hash
digest = compact_tx_hash toy (compact_tx toy good_tx)

abbrev first_sentinel : Sentinel
first_sentinel = record { attestation_threshold = 2; pubkey = 77; sign = λ h. h + 77; clients = 1 }

abbrev forwarded : CompactTx
forwarded = record (compact_tx toy good_tx) {
  attestations = (78, digest + 78) ∷ (77, digest + 77) ∷ [];
}

good_tx-gathers :
    execute_transaction toy first_sentinel good_tx ((0, attests 78 (digest + 78)) ∷ [])
    ≡ returned (gathers (forwards forwarded))
unfolding execute_transaction gather_attestations attest add_attestation emplace lookup contains
    insert compact_tx
good_tx-gathers = rw (execute_transaction, good_tx_passes) refl

own-IsGood : IsGood toy (compact_tx toy good_tx) (77 ∷ 78 ∷ []) (77, digest + 77)
unfolding contains
own-IsGood = (refl, (77, refl, ==_refl (digest + 77)))

other-IsGood : IsGood toy (compact_tx toy good_tx) (77 ∷ 78 ∷ []) (78, digest + 78)
unfolding contains
other-IsGood = (refl, (78, refl, ==_refl (digest + 78)))

execute_transaction-Accepted_example :
    (check_tx toy good_tx ≡ none)
    × (record forwarded { attestations = [] } ≡ compact_tx toy good_tx)
    × (check_attestations toy forwarded (77 ∷ 78 ∷ []) 2 ≡ true)
execute_transaction-Accepted_example =
    execute_transaction-Accepted toy first_sentinel good_tx (77 ∷ 78 ∷ [])
      ((0, attests 78 (digest + 78)) ∷ []) forwarded own-IsGood (other-IsGood, tt) good_tx-gathers

-- The second input is in the range of the second shard alone.
abbrev halves : List ShardInfo
halves = record { range = (0, 127); peer_id = 4 } ∷ record { range = (128, 255); peer_id = 5 } ∷ []

in_lower : hash_in_shard_range (0, 127) 10 ≡ true
unfolding hash_in_shard_range
in_lower = refl

send_compact_tx_first_example :
    send_compact_tx (λ peer. true) halves 0 (compact 1 (10 ∷ 200 ∷ []) (20 ∷ []))
    ≡ returned (4 ∷ [])
send_compact_tx_first_example =
    send_compact_tx_first (λ peer. true) halves 0 (compact 1 (10 ∷ 200 ∷ []) (20 ∷ [])) 10
      (200 ∷ []) (record { range = (0, 127); peer_id = 4 }) refl refl refl in_lower
