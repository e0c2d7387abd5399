-- ===== src/RuntimeShard/Replicated.antt =====
-- src/parsec/runtime_locking_shard/replicated_shard_interface.hpp and replicated_shard.cpp: what is
-- replicated of a shard, its values and the tickets that are prepared or committed; and `recover` of
-- impl.cpp, which makes a shard of it. A callback's argument is the result.
use opencbdc_tx.Common.{
  ℕ, Bool, true, false, not, ◌&&◌, List, [], ◌∷◌, Option, none, some, is_empty, if◌then◌else◌,
  lookup, assign, emplace, remove,
}
use opencbdc_tx.RuntimeShard.{
  Key, Value, LockType, write, TicketState, Shard, new_ticket, free_lock, StateElement, lock_of,
  set_lock,
}

pub data ReplicatedState : Type 0 where
  prepared : ReplicatedState
  committed : ReplicatedState

pub record ReplicatedTicket : Type 0 where
  pub broker_id : ℕ
  pub state_update : List (Key × Value)
  pub state : ReplicatedState

pub record ReplicatedShard : Type 0 where
  pub state : List (Key × Value)
  pub tickets : List (ℕ × ReplicatedTicket)

pub data ReplicatedError : Type 0 where
  unknown_ticket : ReplicatedError
  internal_error : ReplicatedError

unfoldable pub replicated_prepare : ℕ → ℕ → List (Key × Value) → ReplicatedShard → ReplicatedShard
replicated_prepare n broker update r = record r {
  tickets =
      emplace n (record { broker_id = broker; state_update = update; state = prepared }) r.tickets;
}

unfoldable pub assign_all : List (Key × Value) → List (Key × Value) → List (Key × Value)
assign_all [] state = state
assign_all ((k, v) ∷ update) state = assign_all update (assign k v state)

-- A buffer that is moved from is empty.
unfoldable pub moved : List (Key × Value) → List (Key × Value)
moved [] = []
moved ((k, v) ∷ update) = (k, []) ∷ moved update

unfoldable pub replicated_commit : ℕ → ReplicatedShard → ReplicatedShard × Option ReplicatedError
replicated_commit n r = elim (lookup n r.tickets) [
  | none ↦ (r, some unknown_ticket)
  | some t ↦ (
    record {
      state = assign_all t.state_update r.state;
      tickets =
          assign n (record t { state = committed; state_update = moved t.state_update }) r.tickets;
    },
    none,
  )
]

unfoldable pub replicated_finish : ℕ → ReplicatedShard → ReplicatedShard
replicated_finish n r = record r { tickets = remove n r.tickets }

-- `recover`, the values: a key that is there stays.
unfoldable pub recover_state :
    List (Key × Value) → List (Key × StateElement) → List (Key × StateElement)
recover_state [] state = state
recover_state ((k, v) ∷ values) state =
    recover_state values (emplace k (record { value = v; lock = free_lock }) state)

-- The locks of a prepared ticket: a write lock on each key of its update.
unfoldable pub write_locks : List (Key × Value) → List (Key × LockType) → List (Key × LockType)
write_locks [] held = held
write_locks ((k, v) ∷ update) held = write_locks update (emplace k write held)

unfoldable pub set_writers : ℕ → List (Key × Value) → Shard → Shard
set_writers n [] s = s
set_writers n ((k, v) ∷ update) s =
    set_writers n update (set_lock k (record (lock_of k s) { writer = some n }) s)

unfoldable pub recover_ticket : ℕ → ReplicatedTicket → Shard → Shard
recover_ticket n t s = elim t.state [
  | committed ↦ record s {
    tickets =
        emplace n
          (record new_ticket {
            state = TicketState.committed;
            state_update = t.state_update;
            broker_id = t.broker_id;
          })
          s.tickets;
  }
  | prepared ↦ record (set_writers n t.state_update s) {
    tickets =
        emplace n
          (record new_ticket {
            state = TicketState.prepared;
            locks_held = write_locks t.state_update [];
            state_update = t.state_update;
            broker_id = t.broker_id;
          })
          s.tickets;
  }
]

unfoldable pub recover_tickets : List (ℕ × ReplicatedTicket) → Shard → Shard
recover_tickets [] s = s
recover_tickets ((n, t) ∷ tickets) s = recover_tickets tickets (recover_ticket n t s)

unfoldable pub recover : List (Key × Value) → List (ℕ × ReplicatedTicket) → Shard → Shard × Bool
recover state tickets s =
    if not (is_empty s.tickets) && not (is_empty s.state)
    then (s, false)
    else (recover_tickets tickets (record s { state = recover_state state s.state }), true)
