-- ===== src/RuntimeShard/Operations.antt =====
-- The calls of the shard: impl.cpp from `try_lock` to `recover`. A call returns the new state, the
-- pending callbacks in the order in which they are called, and the argument of its own callback
-- (an error, or none). Buffers that are moved from are not read again and stay as they are here.
use opencbdc_tx.Common.{
  ℕ, Bool, true, false, not, List, [], ◌∷◌, ◌++◌, Option, none, some, ◌==◌, is_empty, if◌then◌else◌,
  contains, insert, lookup, remove, Outcome, returned, terminated, ◌>>=◌,
}
use opencbdc_tx.RuntimeShard.{
  Key, Value, LockType, read, write, ErrorCode, prepared, wounded, lock_held, lock_queued,
  unknown_ticket, lock_not_held, state_update_with_read_lock, not_prepared, committed,
  not_committed, begun, ShardError, TicketState, error, PendingCallback, Ticket, new_ticket, Shard,
  lock_of, ticket_of, set_lock, set_value, set_ticket, enqueue, get_waiting_on, wound_tickets,
  release_locks, acquire_locks,
}

abbrev pub failed : ErrorCode → Option ShardError
failed code = some (record { error_code = code; wounded_details = none })

abbrev pub Result : Type 0
Result = Outcome (Shard × List PendingCallback × Option ShardError)

-- The lock that is held is at least as strong as the one that is asked for.
unfoldable pub covers : Option LockType → LockType → Bool
covers none lt = false
covers (some write) lt = true
covers (some read) read = true
covers (some read) write = false

-- The error that `try_lock` returns for a ticket that is known.
unfoldable pub try_lock_error : Ticket → Key → LockType → Option ShardError
try_lock_error t k lt = elim t.state [
  | prepared ↦ failed prepared
  | committed ↦ failed committed
  | wounded ↦ some (record { error_code = wounded; wounded_details = t.wounded_details })
  | begun ↦
      if covers (lookup k t.locks_held) lt
      then failed lock_held
      else if contains k t.queued_locks
      then failed lock_queued
      else none
]

-- The lock is queued for the ticket, which waits on the younger tickets that hold it.
unfoldable pub queue_lock : ℕ → ℕ → Key → LockType → ℕ → Shard → Shard
queue_lock n broker k lt callback s =
    let t = ticket_of n s in
    let lk = lock_of k s in
    set_ticket n (record t { broker_id = broker; queued_locks = insert k t.queued_locks })
      (set_lock k
        (record lk { queue = enqueue n (record { type = lt; callback = callback }) lk.queue }) s)

unfoldable pub try_lock_known :
    ℕ → ℕ → Key → LockType → ℕ → Shard → Outcome (Shard × List PendingCallback)
try_lock_known n broker k lt callback s = elim (try_lock_error (ticket_of n s) k lt) [
  | some err ↦
      returned (s, record { callback = callback; returning = error err; ticket_number = n } ∷ [])
  | none ↦
      let u = queue_lock n broker k lt callback s in
      wound_tickets k (get_waiting_on n lt (lock_of k u)) n u
]

unfoldable pub try_lock :
    ℕ → ℕ → Key → LockType → Bool → ℕ → Shard → Outcome (Shard × List PendingCallback)
try_lock n broker k lt first_lock callback s = elim (lookup n s.tickets) [
  | some t ↦ elim first_lock [ true ↦ terminated | false ↦ try_lock_known n broker k lt callback s ]
  | none ↦ elim first_lock [
    | true ↦ try_lock_known n broker k lt callback (set_ticket n new_ticket s)
    | false ↦ returned (
      s,
      record {
        callback = callback;
        returning = error (record { error_code = unknown_ticket; wounded_details = none });
        ticket_number = n;
      }
          ∷ [],
    )
  ]
]

-- The loop of `prepare` over the updates, each of which needs a write lock.
unfoldable pub check_update : Ticket → List (Key × Value) → Option ShardError
check_update t [] = none
check_update t ((k, v) ∷ update) = elim (lookup k t.locks_held) [
  | none ↦ failed lock_not_held
  | some lt ↦ elim lt [ read ↦ failed state_update_with_read_lock | write ↦ check_update t update ]
]

unfoldable pub prepare_error : Ticket → List (Key × Value) → Option ShardError
prepare_error t update = elim t.state [
  | prepared ↦ failed prepared
  | committed ↦ failed committed
  | wounded ↦ some (record { error_code = wounded; wounded_details = t.wounded_details })
  | begun ↦ if not (is_empty t.queued_locks) then failed lock_queued else check_update t update
]

unfoldable pub prepare : ℕ → List (Key × Value) → Shard → Shard × Option ShardError
prepare n update s = elim (lookup n s.tickets) [
  | none ↦ (s, failed unknown_ticket)
  | some t ↦ elim (prepare_error t update) [
    | some err ↦ (s, some err)
    | none ↦ (set_ticket n (record t { state_update = update; state = prepared }) s, none)
  ]
]

unfoldable pub apply_update : List (Key × Value) → Shard → Shard
apply_update [] s = s
apply_update ((k, v) ∷ update) s = apply_update update (set_value k v s)

-- The locks are released, which may not abort a queued one, and go to the tickets that wait.
unfoldable pub commit_prepared : ℕ → Ticket → Shard → Result
commit_prepared n t s = do
  (u, aborted, keys) ← release_locks n (apply_update t.state_update s)
  let (v, acquired) = acquire_locks keys u
  if is_empty aborted
      then returned (set_ticket n (record (ticket_of n v) { state = committed }) v, acquired, none)
      else terminated

unfoldable pub commit : ℕ → Shard → Result
commit n s = elim (lookup n s.tickets) [
  | none ↦ returned (s, [], failed unknown_ticket)
  | some t ↦ elim t.state [
    | prepared ↦ commit_prepared n t s
    | begun ↦ returned (s, [], failed not_prepared)
    | wounded ↦ returned (s, [], failed not_prepared)
    | committed ↦ returned (s, [], failed not_prepared)
  ]
]

unfoldable pub erase_ticket : ℕ → Shard → Shard
erase_ticket n s = record s { tickets = remove n s.tickets }

unfoldable pub rollback : ℕ → Shard → Result
rollback n s = elim (lookup n s.tickets) [
  | none ↦ returned (s, [], failed unknown_ticket)
  | some t ↦ do
    (u, aborted, keys) ← release_locks n s
    let (v, acquired) = acquire_locks keys u
    returned (erase_ticket n v, acquired ++ aborted, none)
]

unfoldable pub finish : ℕ → Shard → Shard × Option ShardError
finish n s = elim (lookup n s.tickets) [
  | none ↦ (s, failed unknown_ticket)
  | some t ↦ elim t.state [
    | committed ↦ (erase_ticket n s, none)
    | begun ↦ (s, failed not_committed)
    | wounded ↦ (s, failed not_committed)
    | prepared ↦ (s, failed not_committed)
  ]
]

unfoldable pub tickets_of : ℕ → List (ℕ × Ticket) → List (ℕ × TicketState)
tickets_of broker [] = []
tickets_of broker ((n, t) ∷ tickets) =
    let rest = tickets_of broker tickets in
    if t.broker_id == broker then (n, t.state) ∷ rest else rest

unfoldable pub get_tickets : ℕ → Shard → List (ℕ × TicketState)
get_tickets broker s = tickets_of broker s.tickets
