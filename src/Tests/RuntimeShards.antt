-- ===== src/Tests/RuntimeShards.antt =====
-- The programmable platform's shard: a run in which an older ticket wounds a younger one, one in
-- which it waits for a prepared one, and instances of the theorems on it.
use opencbdc_tx.Common.{
  ◌⊎◌, assign, remove, insert, erase, contains, insert_all, ℕ, ◌≡◌, ◌<◌, refl, true, false, List,
  [], ◌∷◌, none, some, lookup, returned, arith, Option,
}
use opencbdc_tx.RuntimeShard.{
  PendingCallback, value, acquire_loop, acquire_lock, acquire_locks, grant, sole_reader,
  get_waiting_on, younger, younger_writer, element_of, set_lock, set_ticket, enqueue, release_locks,
  unqueue, release_held, release_lock, held_keys, wound_tickets, wound_each, Key, read, write,
  begun, prepared, wounded, Shard, lock_of, ticket_of, is_prepared, ShardError,
}
use opencbdc_tx.RuntimeShard.Operations.{
  try_lock_known, try_lock_error, queue_lock, covers, prepare, prepare_error, check_update,
  try_lock, commit,
}
use opencbdc_tx.RuntimeShard.Views.{held, value_of}
use opencbdc_tx.RuntimeShard.Replicated.{
  ReplicatedShard, ReplicatedState, recover, replicated_commit,
}
use opencbdc_tx.RuntimeShard.Recovery.{locks}
use opencbdc_tx.RuntimeShard.Server.{
  replied, Server, serve_prepare, serve_commit, serve_finish, serve_rollback,
}
use opencbdc_tx.RuntimeShard.Mirror.{Mirrors, serve_commit-Mirrors, serve_prepare-Mirrors}
use opencbdc_tx.RuntimeShard.Finish.{serve_finish-Mirrors}
use opencbdc_tx.Common.{◌↔◌}
use opencbdc_tx.RuntimeShard.Withdraw.{serve_rollback-Mirrors}
use opencbdc_tx.RuntimeShard.Takeover.{AreRecoverable, locked_in, replicated_value, commit-recover}
use opencbdc_tx.RuntimeShard.Steps.{
  locking, preparing, committing, perform, Reachable, start, step, IsAllowed, empty_shard,
}
use opencbdc_tx.RuntimeShard.Consistent.Loop.{Acquired, acquire_loop-Acquired}
use opencbdc_tx.RuntimeShard.Safety.{Reachable-Sound, perform_returns}
use opencbdc_tx.RuntimeShard.Exclusion.{write_excludes, first_waits, Blocks}
use opencbdc_tx.RuntimeShard.Isolation.{isolation, is_commit_of, updates}
use opencbdc_tx.RuntimeShard.Durability.{prepared_lasts, commit_writes, try_lock_wounds, is_end_of}

-- Ticket 5 holds a write lock on key 1.
abbrev locked : Shard
locked = record {
  state =
      (1, record { value = []; lock = record { writer = some 5; readers = []; queue = [] } }) ∷ [];
  tickets =
      (
        5,
        record {
          state = begun;
          locks_held = (1, write) ∷ [];
          queued_locks = [];
          state_update = [];
          broker_id = 0;
          wounded_details = none;
        },
      )
      ∷ [];
}

-- It is prepared to write 7 there.
abbrev ready : Shard
ready = record {
  state =
      (1, record { value = []; lock = record { writer = some 5; readers = []; queue = [] } }) ∷ [];
  tickets =
      (
        5,
        record {
          state = prepared;
          locks_held = (1, write) ∷ [];
          queued_locks = [];
          state_update = (1, 7 ∷ []) ∷ [];
          broker_id = 0;
          wounded_details = none;
        },
      )
      ∷ [];
}

-- Ticket 3 waits for it.
abbrev waiting : Shard
waiting = record {
  state =
      (
        1,
        record {
          value = [];
          lock = record {
            writer = some 5;
            readers = [];
            queue = (3, record { type = read; callback = 1 }) ∷ [];
          };
        },
      )
      ∷ [];
  tickets =
      (
        5,
        record {
          state = prepared;
          locks_held = (1, write) ∷ [];
          queued_locks = [];
          state_update = (1, 7 ∷ []) ∷ [];
          broker_id = 0;
          wounded_details = none;
        },
      )
      ∷ (
        3,
        record {
          state = begun;
          locks_held = [];
          queued_locks = 1 ∷ [];
          state_update = [];
          broker_id = 0;
          wounded_details = none;
        },
      )
      ∷ [];
}

-- Ticket 3 reads the key of ticket 5, when that was not prepared.
abbrev wounding : Shard
wounding = record {
  state =
      (1, record { value = []; lock = record { writer = none; readers = 3 ∷ []; queue = [] } })
      ∷ [];
  tickets =
      (
        5,
        record {
          state = wounded;
          locks_held = [];
          queued_locks = [];
          state_update = [];
          broker_id = 0;
          wounded_details = some (record { wounding_ticket = 3; wounding_key = 1 });
        },
      )
      ∷ (
        3,
        record {
          state = begun;
          locks_held = (1, read) ∷ [];
          queued_locks = [];
          state_update = [];
          broker_id = 0;
          wounded_details = none;
        },
      )
      ∷ [];
}

abbrev reads : PendingCallback
reads = record { callback = 1; returning = value []; ticket_number = 3 }

first_lock : perform (locking 5 0 1 write true 0) empty_shard ≡ returned locked
unfolding perform try_lock try_lock_known try_lock_error queue_lock wound_tickets wound_each
    is_prepared acquire_locks acquire_loop acquire_lock grant sole_reader get_waiting_on younger
    younger_writer covers lock_of element_of ticket_of set_lock set_ticket enqueue lookup assign
    remove insert erase contains insert_all release_locks unqueue release_held release_lock
    held_keys prepare prepare_error check_update
first_lock = refl

update_prepared : perform (preparing 5 ((1, 7 ∷ []) ∷ [])) locked ≡ returned ready
unfolding perform try_lock try_lock_known try_lock_error queue_lock wound_tickets wound_each
    is_prepared acquire_locks acquire_loop acquire_lock grant sole_reader get_waiting_on younger
    younger_writer covers lock_of element_of ticket_of set_lock set_ticket enqueue lookup assign
    remove insert erase contains insert_all release_locks unqueue release_held release_lock
    held_keys prepare prepare_error check_update
update_prepared = refl

waits : perform (locking 3 0 1 read true 1) ready ≡ returned waiting
unfolding perform try_lock try_lock_known try_lock_error queue_lock wound_tickets wound_each
    is_prepared acquire_locks acquire_loop acquire_lock grant sole_reader get_waiting_on younger
    younger_writer covers lock_of element_of ticket_of set_lock set_ticket enqueue lookup assign
    remove insert erase contains insert_all release_locks unqueue release_held release_lock
    held_keys prepare prepare_error check_update
waits = refl

locked-Reachable : Reachable locked
unfolding IsAllowed lookup
locked-Reachable = step (locking 5 0 1 write true 0) start (λ h. refl) first_lock

ready-Reachable : Reachable ready
unfolding IsAllowed
ready-Reachable = step (preparing 5 ((1, 7 ∷ []) ∷ [])) locked-Reachable tt update_prepared

waiting-Reachable : Reachable waiting
unfolding IsAllowed lookup
waiting-Reachable = step (locking 3 0 1 read true 1) ready-Reachable (λ h. refl) waits

perform_returns_example : (t : Shard) × (perform (committing 5) waiting ≡ returned t)
unfolding IsAllowed
perform_returns_example = perform_returns (committing 5) waiting waiting-Reachable tt

write_excludes_example : ◌≡◌ {A = ℕ} 5 5
unfolding held ticket_of lookup
write_excludes_example = write_excludes 5 5 1 write waiting waiting-Reachable refl refl

first_waits_example : (m : ℕ) × Blocks m 1 3 read waiting
unfolding lock_of element_of lookup
first_waits_example =
    first_waits 1 3 (record { type = read; callback = 1 }) [] waiting waiting-Reachable refl

acquire_loop-Acquired_example : Acquired 1 waiting (acquire_loop 2 1 waiting).0
unfolding lock_of element_of lookup
acquire_loop-Acquired_example =
    acquire_loop-Acquired 2 1 waiting (Reachable-Sound waiting-Reachable).consistent (omega arith)

isolation_example : value_of 1 waiting ≡ value_of 1 ready
unfolding IsAllowed lookup held ticket_of is_commit_of
isolation_example =
    isolation (locking 3 0 1 read true 1) ready waiting 5 1 write ready-Reachable (λ h. refl) waits
      refl refl

prepared_lasts_example : ticket_of 5 waiting ≡ ticket_of 5 ready
unfolding IsAllowed lookup ticket_of is_end_of
prepared_lasts_example =
    prepared_lasts (locking 3 0 1 read true 1) ready waiting 5 ready-Reachable (λ h. refl) waits
      refl refl

commit_writes_example :
    (u : Shard) × (cbs : List PendingCallback) × (commit 5 waiting ≡ returned (u, cbs, none))
    × ((k : Key)
        → value_of k u
          ≡ elim (updates k ((1, 7 ∷ []) ∷ [])) [ none ↦ value_of k waiting | some v ↦ v ])
unfolding lookup
commit_writes_example = commit_writes 5 _ waiting waiting-Reachable refl refl

wound_run : try_lock 3 0 1 read true 1 locked ≡ returned (wounding, reads ∷ [])
unfolding try_lock try_lock_known try_lock_error queue_lock wound_tickets wound_each is_prepared
    acquire_locks acquire_loop acquire_lock grant sole_reader get_waiting_on younger younger_writer
    covers lock_of element_of ticket_of set_lock set_ticket enqueue lookup assign remove insert
    erase contains insert_all release_locks unqueue release_held release_lock held_keys
wound_run = refl

try_lock_wounds_example :
    ((ticket_of 5 wounding).state ≡ (ticket_of 5 locked).state)
    ⊎ ((3 < 5)
        × (is_prepared (ticket_of 5 locked).state ≡ false)
        × ((ticket_of 5 wounding).state ≡ wounded))
unfolding lookup
try_lock_wounds_example =
    try_lock_wounds 3 0 1 read true 1 locked wounding (reads ∷ []) locked-Reachable (λ h. refl)
      wound_run 5

-- What is replicated when ticket 5 is prepared and ticket 4 is committed.
abbrev replica : ReplicatedShard
replica = record {
  state = (1, 6 ∷ []) ∷ (2, 8 ∷ []) ∷ [];
  tickets =
      (4, record { broker_id = 0; state_update = (2, []) ∷ []; state = ReplicatedState.committed })
      ∷ (
        5,
        record { broker_id = 0; state_update = (1, 7 ∷ []) ∷ []; state = ReplicatedState.prepared },
      )
      ∷ [];
}

replica-AreRecoverable : AreRecoverable replica.tickets
unfolding AreRecoverable lookup locks locked_in
replica-AreRecoverable = (refl, (λ k h. absurd (ground arith)), (refl, (λ k h. refl), tt))

commit-recover_example :
    (u : Shard) × (cbs : List PendingCallback) × (commit 5
        (recover replica.state replica.tickets empty_shard).0
      ≡ returned (u, cbs, none))
    × ((k : Key) → value_of k u ≡ replicated_value k (replicated_commit 5 replica).0)
unfolding lookup
commit-recover_example =
    commit-recover 5
      (record { broker_id = 0; state_update = (1, 7 ∷ []) ∷ []; state = ReplicatedState.prepared })
      replica replica-AreRecoverable refl refl

-- A server with ticket 5 prepared in both shards, and one with it only locked.
abbrev serving : Server
serving = record {
  shard = ready;
  replica = record {
    state = [];
    tickets =
        (
          5,
          record {
            broker_id = 0;
            state_update = (1, 7 ∷ []) ∷ [];
            state = ReplicatedState.prepared;
          },
        )
        ∷ [];
  };
}

ready_value : (k : Key) → value_of k ready ≡ replicated_value k serving.replica
unfolding value_of element_of lookup replicated_value
ready_value k = ground arith

ready_ticket : (n : ℕ) → (ticket_of n ready).state ≡ prepared → (n ≡ 5)
unfolding ticket_of lookup
ready_ticket n p = ground arith

serving-Mirrors : Mirrors serving
unfolding ticket_of lookup
serving-Mirrors = record {
  sound = Reachable-Sound ready-Reachable;
  values = ready_value;
  records = λ n p. rw (ready_ticket n p) (
    record { broker_id = 0; state_update = (1, 7 ∷ []) ∷ []; state = ReplicatedState.prepared },
    refl,
    refl,
  );
}

serve_commit-Mirrors_example :
    (w : Server) × (serve_commit true 5 serving ≡ returned (w, replied none)) × Mirrors w
unfolding ticket_of lookup
serve_commit-Mirrors_example = serve_commit-Mirrors 5 serving serving-Mirrors refl

serve_prepare-Mirrors_example : Mirrors (serve_prepare true 8 0 [] serving).0
unfolding lookup
serve_prepare-Mirrors_example = serve_prepare-Mirrors 8 0 [] serving serving-Mirrors refl

serve_rollback-Mirrors_example :
    (w : Server) × (e : Option ShardError) × (serve_rollback true 5 serving
      ≡ returned (w, replied e))
    × (lookup 5 w.shard.tickets ≡ none)
    × (lookup 5 w.replica.tickets ≡ none)
    × Mirrors w
serve_rollback-Mirrors_example = serve_rollback-Mirrors 5 serving serving-Mirrors

serve_finish-Mirrors_example :
    Mirrors (serve_finish true 5 serving).0 ↔ (¬ ((ticket_of 5 serving.shard).state ≡ prepared))
serve_finish-Mirrors_example = serve_finish-Mirrors 5 serving serving-Mirrors
