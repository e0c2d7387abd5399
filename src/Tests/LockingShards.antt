-- ===== src/Tests/LockingShards.antt =====
-- Locking shards: runs of batches, and instances of the theorems.
use opencbdc_tx.Common.{ℕ}
use opencbdc_tx.Common.{
  ◌≡◌, refl, List, [], ◌∷◌, true, false, some, arith, contains, insert, erase, lookup, emplace,
  remove, returned, length,
}
use opencbdc_tx.Crypto.{Hash, hash_in_shard_range}
use opencbdc_tx.CacheSet.{CacheSet}
use opencbdc_tx.CacheSet
use opencbdc_tx.CacheSet.Window.{add_all, empty-IsWindow}
use opencbdc_tx.CacheSet.Recent.{remembered, add_all-Remembers}
use opencbdc_tx.CacheSet.{has}
use opencbdc_tx.Common.{length, ◌<◌, AreDistinct}
use opencbdc_tx.Transaction.Validation.{check_attestations}
use opencbdc_tx.LockingShard.{
  Config, LockingShard, init, all_unspent, lock_inputs, check_and_lock_tx, lock_txs, lock_outputs,
  create_outputs, release_inputs, apply_tx, apply_txs, complete_ids, apply_outputs, check_unspent,
}
use opencbdc_tx.LockingShard.Moves.{listed}
use opencbdc_tx.LockingShard.Batch.{is_input, is_spent, is_created}
use opencbdc_tx.LockingShard.Atomic.{IsFresh, Within, Commits, apply_outputs-lock_outputs}
use opencbdc_tx.LockingShard.Shared.{apply_outputs_respends}
use opencbdc_tx.Tests.Sample.{toy, compact}

program : Unit {0}
unfolding contains insert erase lookup emplace remove hash_in_shard_range CacheSet.empty
    CacheSet.evict CacheSet.push CacheSet.add CacheSet.has check_attestations init all_unspent
    lock_inputs check_and_lock_tx lock_txs lock_outputs create_outputs release_inputs apply_tx
    apply_txs complete_ids apply_outputs check_unspent listed is_input is_spent is_created
program = tt

-- A shard of all hashes, without attestations, on which 10 and 11 are unspent.
abbrev whole : Config
whole = record {
  crypto = toy;
  output_range = (0, 255);
  sentinel_public_keys = [];
  attestation_threshold = 0;
}

abbrev seeded : LockingShard
seeded = record {
  running = true;
  coins = record { uhs = 10 ∷ 11 ∷ []; locked = [] };
  prepared_dtxs = [];
  applied_dtxs = [];
  completed_txs = record { vals = []; queue = []; max_size = 4 };
}

seeded-IsFresh :
    IsFresh whole (compact 1 (10 ∷ []) (20 ∷ []) ∷ compact 2 (12 ∷ []) (21 ∷ []) ∷ []) 7 seeded
unfolding program
seeded-IsFresh = record {
  running = refl;
  new = refl;
  distinct = ((refl, tt), ((refl, tt), tt));
  unshared = ((λ j h. ground arith), ((λ j h. refl), tt));
  free = λ j h. refl;
}

apply_outputs-lock_outputs_example :
    (t : LockingShard) × (rs : List _) × (lock_outputs whole
        (compact 1 (10 ∷ []) (20 ∷ []) ∷ compact 2 (12 ∷ []) (21 ∷ []) ∷ [])
        7
        seeded
      ≡ returned (t, some rs))
    × (length rs ≡ 2)
    × ((fs : List _)
        → Within fs rs
        → (u : LockingShard) × (apply_outputs whole fs 7 t ≡ returned (u, true))
          × Commits whole fs
              (compact 1 (10 ∷ []) (20 ∷ []) ∷ compact 2 (12 ∷ []) (21 ∷ []) ∷ [])
              seeded.coins
              u.coins)
apply_outputs-lock_outputs_example = apply_outputs-lock_outputs whole _ 7 seeded seeded-IsFresh

-- The states after the batch is locked, and after its second transaction is cancelled.
abbrev locked : LockingShard
locked = record seeded {
  coins = record { uhs = 11 ∷ []; locked = 10 ∷ [] };
  prepared_dtxs =
      (
        7,
        record {
          txs = compact 1 (10 ∷ []) (20 ∷ []) ∷ compact 2 (12 ∷ []) (21 ∷ []) ∷ [];
          results = true ∷ false ∷ [];
        },
      )
      ∷ [];
}

abbrev applied : LockingShard
applied = record seeded {
  coins = record { uhs = 20 ∷ 11 ∷ []; locked = [] };
  applied_dtxs = 7 ∷ [];
  completed_txs = record { vals = 2 ∷ 1 ∷ []; queue = 1 ∷ 2 ∷ []; max_size = 4 };
}

runs :
    (lock_outputs whole
        (compact 1 (10 ∷ []) (20 ∷ []) ∷ compact 2 (12 ∷ []) (21 ∷ []) ∷ [])
        7
        seeded
      ≡ returned (locked, some (true ∷ false ∷ [])))
    × (apply_outputs whole (true ∷ false ∷ []) 7 locked ≡ returned (applied, true))
    × (check_unspent 20 applied ≡ some true)
unfolding program
runs = (refl, refl, refl)

-- The first transaction also spends 12, which is not there; the second spends 10 alone.
abbrev shared_locked : LockingShard
shared_locked = record seeded {
  coins = record { uhs = 11 ∷ []; locked = 10 ∷ [] };
  prepared_dtxs =
      (
        7,
        record {
          txs = compact 1 (10 ∷ 12 ∷ []) (20 ∷ []) ∷ compact 2 (10 ∷ []) (21 ∷ []) ∷ [];
          results = false ∷ true ∷ [];
        },
      )
      ∷ [];
}

shared_runs :
    lock_outputs whole
      (compact 1 (10 ∷ 12 ∷ []) (20 ∷ []) ∷ compact 2 (10 ∷ []) (21 ∷ []) ∷ [])
      7
      seeded
    ≡ returned (shared_locked, some (false ∷ true ∷ []))
unfolding program
shared_runs = refl

apply_outputs_respends_example :
    (u : LockingShard) × (apply_outputs whole (false ∷ true ∷ []) 7 shared_locked
      ≡ returned (u, true))
    × ((j : Hash) → listed whole j (21 ∷ []) ≡ true → contains j u.uhs ≡ true)
    × (contains 10 u.uhs ≡ true)
unfolding program
apply_outputs_respends_example =
    apply_outputs_respends whole (compact 1 (10 ∷ 12 ∷ []) (20 ∷ []))
      (compact 2 (10 ∷ []) (21 ∷ [])) 7 seeded shared_locked 10 refl shared_runs refl refl

add_all-Remembers_example :
    ((k : ℕ)
      → has (add_all (CacheSet.empty 3) (4 ∷ 5 ∷ 4 ∷ 6 ∷ [])) k
        ≡ contains k (remembered 2 [] (4 ∷ 5 ∷ 4 ∷ 6 ∷ [])))
    × (length (remembered 2 [] (4 ∷ 5 ∷ 4 ∷ 6 ∷ [])) < 3)
    × AreDistinct (remembered 2 [] (4 ∷ 5 ∷ 4 ∷ 6 ∷ []))
unfolding program
add_all-Remembers_example =
    add_all-Remembers (CacheSet.empty 3) (4 ∷ 5 ∷ 4 ∷ 6 ∷ []) (empty-IsWindow 3 (omega arith))

-- The last two different values, in order.
remembered_two : remembered 2 [] (4 ∷ 5 ∷ 4 ∷ 6 ∷ []) ≡ 5 ∷ 6 ∷ []
unfolding contains
remembered_two = refl
