-- ===== src/Tests/Coordinators.antt =====
-- The node of a coordinator: runs with commands that are lost, a recovery, and instances of the
-- theorems.
use opencbdc_tx.Common.{false}
use opencbdc_tx.Common.{terminated}
use opencbdc_tx.Common.{
  ℕ, ◌≡◌, refl, ◌⊎◌, Bool, true, List, [], ◌∷◌, Option, none, some, ◌==◌, if◌then◌else◌, contains,
  lookup, get_elem?, returned, arith, emplace, remove, insert, erase,
}
use opencbdc_tx.Crypto.{Hash}
use opencbdc_tx.Transaction.{CompactTx}
use opencbdc_tx.DistributedTx.{
  Interface, DistributedTx, Run, distributed_tx, recover_discard, execute, start, select, done,
  DtxState, set_prepare_cb, set_commit_cb, set_discard_cb, set_done_cb, add_tx, is_active,
  append_where, execute_start, execute_prepare, execute_commit, execute_discard, prepare_dtx,
  commit_dtx, discard_all, called, lock_shards, apply_shards, discard_shards, collect, mark,
  all_true,
}
use opencbdc_tx.DistributedTx.Commit.{Shard, in_memory}
use opencbdc_tx.Coordinator.{
  acknowledged, dropped, Raft, World, prepare_tx, batch_set_cbs, recovery_func, done_cb, set_cbs_in,
  prepare_cb, commit_cb, discard_cb, replicated, replicate_sm_command, answered, apply_log,
}
use opencbdc_tx.Coordinator.Log.{
  Entry, absent, preparing, discarding, in_prepare, in_commit, in_discard, Holds, Knows,
}
use opencbdc_tx.Coordinator.Tracked.{Logs, without_callbacks}
use opencbdc_tx.Coordinator.Recorded.{execute-Logs}
use opencbdc_tx.Coordinator.Takeover.{IsOnce, Recovered}
use opencbdc_tx.Coordinator.Complete.{Decodes, recovery_func-Completes}
use opencbdc_tx.Coordinator.Forgotten.{recover_discard_silent}
use opencbdc_tx.Coordinator.Executor.{
  Controller, new_batch, execute_transaction, add_to_batch, execute_batch,
}
use opencbdc_tx.Coordinator.Batching.{AreIndexed, AreAnswered, fresh, added, execute_batch-Answers}
use opencbdc_tx.Transaction.Validation.{check_attestations}
use opencbdc_tx.CoordinatorLog.{has_key, apply_command, commit_log}
use opencbdc_tx.Tests.Sample.{toy}
use opencbdc_tx.Coordinator.Startup.{init}
use opencbdc_tx.Coordinator.Startup.Checked.{AreInRange, init_iff}
use opencbdc_tx.Tests.DistributedTxs.{votes, votes-Answers, side, payment, overdraft, batch}

-- A cluster that drops the second command.
abbrev lossy : Raft
lossy = record {
  machine = record {
    last_committed_idx = 0;
    state = record { prepare_txs = []; commit_txs = []; discard_txs = [] };
  };
  fate = λ n. if n == 1 then dropped else acknowledged;
  sent = 0;
}

abbrev lossy_run : Run Shard World
lossy_run = record {
  dtx = record {
    dtx_id = 7;
    txs = batch.dtx.txs;
    full_txs = batch.dtx.full_txs;
    tx_idxs = batch.dtx.tx_idxs;
    prepare_cb = none;
    commit_cb = none;
    discard_cb = none;
    done_cb = none;
    state = start;
    complete_txs = [];
  };
  shards = batch.shards;
  world = returned lossy;
}

nothing_known : Knows 7 (λ j. absent) absent (returned lossy)
unfolding lookup contains in_prepare in_commit in_discard
nothing_known = (
  lossy,
  refl,
  record {
    prepares = λ j. ground arith;
    commits = λ j. ground arith;
    discards = λ j. ground arith;
  },
)

execute-Logs_example :
    Logs in_memory
      (λ j. absent)
      (execute in_memory (without_callbacks lossy_run) ≡ terminated)
      lossy_run.dtx
      (execute in_memory (record lossy_run { dtx = batch_set_cbs lossy_run.dtx }))
execute-Logs_example =
    execute-Logs in_memory (λ j. absent) lossy_run absent
      (record { prepares = refl; commits = refl; discards = refl; finishes = refl }) refl
      nothing_known

-- A cluster that has a batch in the prepare phase and one in the discard phase.
abbrev left_behind : Hash → Entry
left_behind j =
    if 7 == j then preparing (payment ∷ overdraft ∷ []) else if 9 == j then discarding else absent

abbrev loaded : Raft
loaded = record {
  machine = record {
    last_committed_idx = 5;
    state = record {
      prepare_txs = (7, prepare_tx (payment ∷ overdraft ∷ [])) ∷ [];
      commit_txs = [];
      discard_txs = 9 ∷ [];
    };
  };
  fate = λ n. acknowledged;
  sent = 0;
}

loaded-Holds : Holds loaded.machine.state left_behind
unfolding lookup contains in_prepare in_commit in_discard
loaded-Holds = record {
  prepares = λ j. ground arith;
  commits = λ j. ground arith;
  discards = λ j. ground arith;
}

loaded-IsOnce : IsOnce loaded.machine.state
unfolding contains
loaded-IsOnce = record { prepares = (refl, tt); commits = tt; discards = (refl, tt) }

loaded-Decodes : Decodes (true ∷ false ∷ []) loaded.machine.state
loaded-Decodes = record { prepares = ((payment ∷ overdraft ∷ [], refl), tt); commits = tt }

recovery_func-Completes_example :
    (shards : List Bool) × (w : World) × (ok : Bool) × (recovery_func votes
        (true ∷ false ∷ [])
        (returned loaded)
      ≡ returned (shards, w, ok))
    × Recovered left_behind (returned (shards, w, ok))
recovery_func-Completes_example =
    recovery_func-Completes votes true (false ∷ []) left_behind loaded votes-Answers loaded-Decodes
      loaded-Holds loaded-IsOnce

recover_discard_silent_example :
    (r : Run Shard World) × (distributed_tx in_memory 9 batch.shards (returned loaded) ≡ returned r)
    × ((u : Run Shard World) × (res : Option (List Bool)) × (execute in_memory
            (record r { dtx = batch_set_cbs (recover_discard r.dtx) })
          ≡ returned (u, res))
        × (u.shards ≡ batch.shards)
        × (u.world ≡ (done_cb 9 (returned loaded)).0)
        × (res ≡ (if (done_cb 9 (returned loaded)).1 then some [] else none)))
recover_discard_silent_example =
    recover_discard_silent in_memory 9 (side 0 127 (10 ∷ [])) (side 128 255 (200 ∷ []) ∷ [])
      (returned loaded)

-- A configuration of one cluster with two nodes.
abbrev hosts : List (List ℕ)
hosts = (4 ∷ 5 ∷ []) ∷ []

abbrev raft_hosts : List (List ℕ)
raft_hosts = (6 ∷ 7 ∷ []) ∷ []

init_iff_example :
    (AreInRange 0 1 hosts
      × AreInRange 0 1 raft_hosts
      × ((vec : List ℕ) × (e : ℕ) × (raft : List ℕ) × (get_elem? hosts 0 ≡ some vec)
          × (get_elem? vec 1 ≡ some e)
          × (get_elem? raft_hosts 0 ≡ some raft)
          × (init 0 1 hosts raft_hosts ≡ returned (some (e, raft)))))
    ⊎ (((AreInRange 0 1 hosts × AreInRange 0 1 raft_hosts) → ⊥)
        × (init 0 1 hosts raft_hosts ≡ returned none))
init_iff_example =
    init_iff 0 1 hosts raft_hosts (omega arith, omega arith, ((omega arith, omega arith), tt))
      (omega arith, omega arith, ((omega arith, omega arith), tt))

-- A shard that agrees to everything, and a controller over it with one transaction in its batch.
abbrev agreeing : Interface (Unit {0})
agreeing = record {
  hash_in_shard_range = λ s h. true;
  lock_outputs = λ txs id s. returned (s, some (true ∷ []));
  apply_outputs = λ flags id s. returned (s, true);
  discard_dtx = λ id s. (s, true);
}

abbrev working : Raft
working = record lossy { fate = λ n. acknowledged }

abbrev dtx_of :
    List (List CompactTx)
    → List CompactTx
    → List (List ℕ)
    → DtxState
    → List Bool
    → DistributedTx World
dtx_of txs full idxs state flags = record {
  dtx_id = 7;
  txs = txs;
  full_txs = full;
  tx_idxs = idxs;
  prepare_cb = some prepare_cb;
  commit_cb = some commit_cb;
  discard_cb = some discard_cb;
  done_cb = some done_cb;
  state = state;
  complete_txs = flags;
}

abbrev idle : Controller (Unit {0}) ℕ
idle = record {
  running = true;
  shards = tt ∷ [];
  current_batch = dtx_of ([] ∷ []) [] ([] ∷ []) start [];
  current_txs = [];
  batch_size = 2;
  sentinel_public_keys = [];
  attestation_threshold = 0;
}

abbrev busy : Controller (Unit {0}) ℕ
busy = record idle {
  current_batch = dtx_of ((payment ∷ []) ∷ []) (payment ∷ []) ((0 ∷ []) ∷ []) start [];
  current_txs = (1, (33, 0)) ∷ [];
}

idle_made : new_batch agreeing 7 (returned working) idle ≡ returned idle
unfolding new_batch distributed_tx batch_set_cbs set_cbs_in set_prepare_cb set_commit_cb
    set_discard_cb set_done_cb
idle_made = refl

busy_made :
    execute_transaction agreeing toy true payment 33 (returned working) idle ≡ some (busy, true)
unfolding execute_transaction check_attestations has_key lookup emplace add_to_batch add_tx
    is_active append_where
busy_made = refl

abbrev finished : Run (Unit {0}) World
finished = record {
  dtx = dtx_of ([] ∷ []) (payment ∷ []) ((0 ∷ []) ∷ []) done (true ∷ []);
  shards = tt ∷ [];
  world =
      returned
        (record working { machine = record working.machine { last_committed_idx = 4 }; sent = 4 });
}

busy_runs :
    execute agreeing
      (record { dtx = busy.current_batch; shards = tt ∷ []; world = returned working })
    ≡ returned (finished, some (true ∷ []))
unfolding execute execute_start execute_prepare execute_commit execute_discard prepare_dtx
    commit_dtx discard_all called lock_shards apply_shards discard_shards collect mark select
    all_true prepare_cb commit_cb discard_cb done_cb replicated replicate_sm_command answered
    apply_log commit_log apply_command has_key lookup emplace remove contains insert erase
busy_runs = refl

execute_batch-Answers_example :
    (answers : List (ℕ × Option Bool)) × (execute_batch agreeing busy.current_batch busy.current_txs
        busy.shards
        (returned working)
      ≡ returned (finished.shards, finished.world, answers))
    × AreIndexed busy.current_batch.full_txs busy.current_txs
    × AreAnswered (some (true ∷ [])) busy.current_txs answers
execute_batch-Answers_example =
    execute_batch-Answers agreeing busy (returned working) finished (some (true ∷ []))
      (added toy true true payment 33 (returned working) idle busy
        (fresh 7 (returned working) idle idle idle_made) busy_made)
      busy_runs
