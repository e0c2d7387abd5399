-- ===== src/Tests/DistributedTxs.antt =====
-- Batches over two shards: a run, and instances of the theorems.
use opencbdc_tx.Common.{
  inl, inr, ◌+◌, map, length-map, Option, ◌⊎◌, ◌==◌, if◌then◌else◌, terminated, ◌>>=◌, ℕ, ◌≡◌, refl,
  Bool, List, [], ◌∷◌, true, false, none, some, arith, contains, insert, erase, lookup, emplace,
  remove, returned, length,
}
use opencbdc_tx.DistributedTx.{
  prepare, Interface, distributed_tx, called, Run, collect, execute, start, done, add_txs, add_tx,
  is_active, any_in_range, append_where, failed, prepare_dtx, execute_prepare, execute_start, fail,
  set_prepare_cb, set_commit_cb, set_discard_cb, set_done_cb, execute_commit, execute_discard,
  commit_dtx, discard_all, lock_shards, apply_shards, discard_shards, mark, select, all_true,
}
use opencbdc_tx.Crypto.{Hash, hash_in_shard_range}
use opencbdc_tx.Transaction.{CompactTx}
use opencbdc_tx.LockingShard.Batch.{is_input}
use opencbdc_tx.LockingShard.Moves.{listed}
use opencbdc_tx.LockingShard.Atomic.{IsFresh}
use opencbdc_tx.DistributedTx.Commit.{IsReady, Shard, in_memory, Committed, execute-Committed}
use opencbdc_tx.CoordinatorLog.{discard, CoordinatorState, has_key, apply_command}
use opencbdc_tx.CoordinatorLog.Phases.{
  Phase, absent, prepared, committed, is_prepared, is_committed, is_discarded, next, Represents,
  moved, apply_command-Represents,
}
use opencbdc_tx.DistributedTx.Execution.{Agrees}
use opencbdc_tx.DistributedTx.Answering.{Answers}
use opencbdc_tx.DistributedTx.Takeover.{in_prepare, Settles, execute-Settles}
use opencbdc_tx.DistributedTx.Halting.{Halts, execute-Halts}
use opencbdc_tx.LockingShard.{
  lock_outputs, lock_txs, check_and_lock_tx, all_unspent, lock_inputs, apply_outputs, discard_dtx,
  apply_txs, apply_tx, create_outputs, release_input, release_inputs,
}
use opencbdc_tx.Transaction.Validation.{check_attestations}
use opencbdc_tx.DistributedTx.Batch.{IsSpreadRun, add_txs-distributed_tx}
use opencbdc_tx.Tests.Sample.{toy, compact}

program : Unit {0}
unfolding contains insert erase lookup emplace remove hash_in_shard_range listed is_input called
    in_memory
program = tt

-- The lower and the upper half of the hashes, with 10 and 200 unspent.
abbrev pub side : ℕ → ℕ → List Hash → Shard
side first last uhs = (
  record {
    crypto = toy;
    output_range = (first, last);
    sentinel_public_keys = [];
    attestation_threshold = 0;
  },
  record {
    running = true;
    coins = record { uhs = uhs; locked = [] };
    prepared_dtxs = [];
    applied_dtxs = [];
    completed_txs = record { vals = []; queue = []; max_size = 4 };
  },
)

abbrev pub payment : CompactTx
payment = compact 1 (10 ∷ 200 ∷ []) (20 ∷ 210 ∷ [])

abbrev pub overdraft : CompactTx
overdraft = compact 2 (11 ∷ []) (211 ∷ [])

-- A batch of both transactions, each of which both shards take part in.
abbrev pub batch : Run Shard (Unit {0})
batch = record {
  dtx = record {
    dtx_id = 7;
    txs = (payment ∷ overdraft ∷ []) ∷ (payment ∷ overdraft ∷ []) ∷ [];
    full_txs = payment ∷ overdraft ∷ [];
    tx_idxs = (0 ∷ 1 ∷ []) ∷ (0 ∷ 1 ∷ []) ∷ [];
    prepare_cb = none;
    commit_cb = none;
    discard_cb = none;
    done_cb = none;
    state = start;
    complete_txs = [];
  };
  shards = side 0 127 (10 ∷ []) ∷ side 128 255 (200 ∷ []) ∷ [];
  world = tt;
}

-- The batch is what the constructor and `add_tx` make.
batch_built :
    distributed_tx in_memory 7 batch.shards tt
      >>= (λ r. returned (add_txs in_memory (payment ∷ overdraft ∷ []) r))
    ≡ returned batch
unfolding program distributed_tx add_txs add_tx is_active any_in_range append_where
batch_built = refl

batch-Agrees : Agrees batch.dtx
unfolding program
batch-Agrees = record {
  prepares = λ w. refl;
  commits = λ f w. refl;
  discards = λ w. refl;
  finishes = λ w. refl;
}

lower-IsFresh :
    IsFresh (side 0 127 (10 ∷ [])).0 (payment ∷ overdraft ∷ []) 7 (side 0 127 (10 ∷ [])).1
unfolding program
lower-IsFresh = record {
  running = refl;
  new = refl;
  distinct = ((refl, (refl, tt)), ((refl, tt), tt));
  unshared = ((λ j h. ground arith), ((λ j h. refl), tt));
  free = λ j h. refl;
}

upper-IsFresh :
    IsFresh (side 128 255 (200 ∷ [])).0 (payment ∷ overdraft ∷ []) 7 (side 128 255 (200 ∷ [])).1
unfolding program
upper-IsFresh = record {
  running = refl;
  new = refl;
  distinct = ((refl, (refl, tt)), ((refl, tt), tt));
  unshared = ((λ j h. ground arith), ((λ j h. refl), tt));
  free = λ j h. refl;
}

batch-IsReady : IsReady 2 7 batch.dtx.tx_idxs batch.dtx.txs batch.shards
batch-IsReady = (
  refl,
  (omega arith, (omega arith, tt)),
  lower-IsFresh,
  (refl, (omega arith, (omega arith, tt)), upper-IsFresh, tt),
)

execute-Committed_example :
    (u : Run Shard (Unit {0})) × (flags : List Bool) × (execute in_memory batch
      ≡ returned (u, some flags))
    × (u.dtx.state ≡ done)
    × (length flags ≡ 2)
    × Committed flags batch.dtx.tx_idxs batch.dtx.txs batch.shards u.shards
execute-Committed_example = execute-Committed batch refl batch-Agrees batch-IsReady

add_txs-distributed_tx_example :
    ((batch.shards ≡ []) × (distributed_tx in_memory 7 batch.shards (tt {0}) ≡ terminated))
    ⊎ ((r : Run Shard (Unit {0})) × (distributed_tx in_memory 7 batch.shards (tt {0}) ≡ returned r)
        × IsSpreadRun in_memory
            (payment ∷ overdraft ∷ [])
            batch.shards
            (add_txs in_memory (payment ∷ overdraft ∷ []) r))
add_txs-distributed_tx_example =
    add_txs-distributed_tx in_memory 7 batch.shards (tt {0}) (payment ∷ overdraft ∷ [])

-- The same batch with callbacks that count the replicated phases: the payment is settled on both
-- shards, and the overdraft on none.
abbrev counted : Run Shard ℕ
counted = record {
  dtx =
      set_prepare_cb (λ id txs w. (w + 1, true))
        (set_commit_cb (λ id flags idxs w. (w + 1, true))
          (set_discard_cb (λ id w. (w + 1, true))
            (set_done_cb (λ id w. (w + 1, true))
              (record {
                dtx_id = 7;
                txs = batch.dtx.txs;
                full_txs = batch.dtx.full_txs;
                tx_idxs = batch.dtx.tx_idxs;
                prepare_cb = none;
                commit_cb = none;
                discard_cb = none;
                done_cb = none;
                state = start;
                complete_txs = [];
              }))));
  shards = batch.shards;
  world = 0;
}

counted_run :
    (u : Run Shard ℕ) × (execute in_memory counted ≡ returned (u, some (true ∷ false ∷ [])))
    × (u.world ≡ 4)
    × (map (λ s. s.1.uhs) u.shards ≡ (20 ∷ []) ∷ (210 ∷ []) ∷ [])
unfolding program execute execute_start execute_prepare execute_commit execute_discard prepare_dtx
    commit_dtx discard_all lock_shards apply_shards discard_shards set_prepare_cb set_commit_cb
    set_discard_cb set_done_cb lock_outputs lock_txs check_and_lock_tx check_attestations
    all_unspent lock_inputs collect mark select apply_outputs all_true discard_dtx apply_txs
    apply_tx create_outputs release_input release_inputs
counted_run = (_, refl, refl, refl)

-- A batch whose replication fails, before and after it is executed.
abbrev refused_batch : Run Shard (Unit {0})
refused_batch = record batch { dtx = set_prepare_cb (λ id txs w. (w, false)) batch.dtx }

abbrev failed_batch : Run Shard (Unit {0})
failed_batch = record refused_batch { dtx = record refused_batch.dtx { state = failed } }

refused_run : execute in_memory refused_batch ≡ returned (failed_batch, none)
unfolding program execute execute_start execute_prepare prepare_dtx fail set_prepare_cb
refused_run = refl

-- Shards that answer every call: one that accepts each transaction, and one that refuses each.
abbrev pub votes : Interface Bool
votes = record {
  hash_in_shard_range = λ s h. true;
  lock_outputs = λ txs id s. returned (s, some (map (λ tx. s) txs));
  apply_outputs = λ flags id s. returned (s, true);
  discard_dtx = λ id s. (s, true);
}

pub votes-Answers : Answers votes
votes-Answers = record {
  locks = λ txs id s. (s, some (map (λ tx. s) txs), refl, length-map (λ tx. s) txs);
  applies = λ flags id s. (s, true, refl);
}

execute-Halts_example :
    (u : Run Shard (Unit {0})) × (res : Option (List Bool)) × (execute in_memory refused_batch
      ≡ returned (u, res))
    × Halts refused_batch u res
unfolding set_prepare_cb
execute-Halts_example = execute-Halts refused_batch refl batch-IsReady

-- The batch taken over in the prepare phase: the lower shard has locked its part, the upper one has not.
abbrev lower_locked : Shard
lower_locked = (
  (side 0 127 []).0,
  record {
    running = true;
    coins = record { uhs = []; locked = 10 ∷ [] };
    prepared_dtxs =
        (7, record { txs = payment ∷ overdraft ∷ []; results = true ∷ false ∷ [] }) ∷ [];
    applied_dtxs = [];
    completed_txs = record { vals = []; queue = []; max_size = 4 };
  },
)

lower_answer :
    in_memory.lock_outputs (payment ∷ overdraft ∷ []) 7 (side 0 127 (10 ∷ []))
    ≡ returned (lower_locked, some (true ∷ false ∷ []))
unfolding program lock_outputs lock_txs check_and_lock_tx check_attestations all_unspent lock_inputs
lower_answer = refl

abbrev taken_over : Run Shard (Unit {0})
taken_over = record {
  dtx = record batch.dtx { state = prepare };
  shards = lower_locked ∷ side 128 255 (200 ∷ []) ∷ [];
  world = tt;
}

taken_over-Agrees : Agrees taken_over.dtx
unfolding program
taken_over-Agrees = record {
  prepares = λ w. refl;
  commits = λ f w. refl;
  discards = λ w. refl;
  finishes = λ w. refl;
}

execute-Settles_example : Settles 2 batch.dtx.txs batch.shards taken_over
execute-Settles_example =
    execute-Settles 2 batch.dtx.txs batch.shards taken_over taken_over-Agrees batch-IsReady
      (in_prepare refl refl refl refl (inr (true ∷ false ∷ [], lower_answer), (inl refl, refl)))

-- Batch 7 is prepared and batch 8 committed; the buffers are numbers.
abbrev phases : CoordinatorState ℕ
phases = record { prepare_txs = (7, 1) ∷ []; commit_txs = (8, 2) ∷ []; discard_txs = [] }

abbrev phase_of : Hash → Phase
phase_of j = if j == 7 then prepared else if j == 8 then committed else absent

phases-Represents : Represents phases phase_of
unfolding program has_key is_prepared is_committed is_discarded
phases-Represents = record {
  prepares = λ j. ground arith;
  commits = λ j. ground arith;
  discards = λ j. ground arith;
}

apply_command-Represents_example :
    ((next (discard 8) committed ≡ none) × (apply_command (discard 8) 3 phases ≡ terminated))
    ⊎ ((p : Phase) × (t : CoordinatorState ℕ) × (next (discard 8) committed ≡ some p)
        × (apply_command (discard 8) 3 phases ≡ returned (t, none))
        × Represents t (moved 8 p phase_of))
apply_command-Represents_example =
    apply_command-Represents (discard 8) 8 3 phases phase_of refl (λ e. absurd (ground arith))
      phases-Represents
