-- ===== src/RuntimeShard.antt =====
-- src/parsec/runtime_locking_shard/interface.hpp, impl.hpp and impl.cpp: the shard of the
-- programmable platform, a store of keys with read and write locks. A ticket is a transaction; an
-- older one (of a smaller number) that waits for a younger one wounds it. A key and a value are
-- opaque buffers: a key is a number here, a value a list of bytes. A callback of `try_lock` is a
-- number that names the call, and what the callbacks are called with, in their order, is a result.
-- The calls themselves hold `m_mut`, so each is one step. The order of an unordered set or map is
-- that of its list; no theorem depends on it.
pub mod Operations
pub mod Views
pub mod Consistent
pub mod Replicated
pub mod Steps
pub mod Safety
pub mod Exclusion
pub mod Isolation
pub mod Durability
pub mod Recovery
pub mod Takeover
pub mod Recommit
pub mod Server
pub mod Mirror
pub mod Finish
pub mod Withdraw
use opencbdc_tx.Common.{
  ℕ, zero, suc, ◌+◌, ◌<◌, Bool, true, false, not, ◌&&◌, ◌||◌, List, [], ◌∷◌, ◌++◌, Option, none,
  some, ◌==◌, ltb, length, if◌then◌else◌, contains, insert, erase, insert_all, lookup, assign,
  remove, Outcome, returned, terminated, ◌>>=◌,
}

abbrev pub Key : Type 0
Key = ℕ

abbrev pub Value : Type 0
Value = List ℕ

pub data LockType : Type 0 where
  read : LockType
  write : LockType

pub data ErrorCode : Type 0 where
  prepared : ErrorCode
  wounded : ErrorCode
  lock_held : ErrorCode
  lock_queued : ErrorCode
  unknown_ticket : ErrorCode
  lock_not_held : ErrorCode
  state_update_with_read_lock : ErrorCode
  not_prepared : ErrorCode
  committed : ErrorCode
  not_committed : ErrorCode
  internal_error : ErrorCode

pub record WoundedDetails : Type 0 where
  pub wounding_ticket : ℕ
  pub wounding_key : Key

pub record ShardError : Type 0 where
  pub error_code : ErrorCode
  pub wounded_details : Option WoundedDetails

pub data TicketState : Type 0 where
  begun : TicketState
  wounded : TicketState
  prepared : TicketState
  committed : TicketState

-- What a callback of `try_lock` is called with.
pub data TryLockReturn : Type 0 where
  value : Value → TryLockReturn
  error : ShardError → TryLockReturn

pub record LockQueueElement : Type 0 where
  pub type : LockType
  pub callback : ℕ

-- `m_queue` is ordered by the tickets' numbers.
pub record RwLock : Type 0 where
  pub writer : Option ℕ
  pub readers : List ℕ
  pub queue : List (ℕ × LockQueueElement)

pub record StateElement : Type 0 where
  pub value : Value
  pub lock : RwLock

pub record Ticket : Type 0 where
  pub state : TicketState
  pub locks_held : List (Key × LockType)
  pub queued_locks : List Key
  pub state_update : List (Key × Value)
  pub broker_id : ℕ
  pub wounded_details : Option WoundedDetails

pub record PendingCallback : Type 0 where
  pub callback : ℕ
  pub returning : TryLockReturn
  pub ticket_number : ℕ

pub record Shard : Type 0 where
  pub state : List (Key × StateElement)
  pub tickets : List (ℕ × Ticket)

abbrev pub free_lock : RwLock
free_lock = record { writer = none; readers = []; queue = [] }

abbrev pub new_ticket : Ticket
new_ticket = record {
  state = begun;
  locks_held = [];
  queued_locks = [];
  state_update = [];
  broker_id = 0;
  wounded_details = none;
}

-- `m_state[key]` and `m_tickets[ticket_number]`: what is not there is made.
unfoldable pub element_of : Key → Shard → StateElement
element_of k s = elim (lookup k s.state) [
  | none ↦ record { value = []; lock = free_lock }
  | some e ↦ e
]

unfoldable pub lock_of : Key → Shard → RwLock
lock_of k s = (element_of k s).lock

unfoldable pub ticket_of : ℕ → Shard → Ticket
ticket_of n s = elim (lookup n s.tickets) [ none ↦ new_ticket | some t ↦ t ]

unfoldable pub set_lock : Key → RwLock → Shard → Shard
set_lock k lk s = record s {
  state = assign k (record { value = (element_of k s).value; lock = lk }) s.state;
}

unfoldable pub set_value : Key → Value → Shard → Shard
set_value k v s = record s { state = assign k (record { value = v; lock = lock_of k s }) s.state }

unfoldable pub set_ticket : ℕ → Ticket → Shard → Shard
set_ticket n t s = record s { tickets = assign n t s.tickets }

-- `std::map::emplace` on the queue: by the number, and an entry that is there stays.
unfoldable pub enqueue :
    ℕ → LockQueueElement → List (ℕ × LockQueueElement) → List (ℕ × LockQueueElement)
enqueue n q [] = (n, q) ∷ []
enqueue n q ((m, p) ∷ rest) =
    let later = enqueue n q rest in
    if n == m then (m, p) ∷ rest else if ltb n m then (n, q) ∷ (m, p) ∷ rest else (m, p) ∷ later

unfoldable pub younger : ℕ → List ℕ → List ℕ
younger n [] = []
younger n (m ∷ ms) = let rest = younger n ms in if ltb n m then m ∷ rest else rest

unfoldable pub younger_writer : ℕ → Option ℕ → List ℕ
younger_writer n none = []
younger_writer n (some w) = if ltb n w then w ∷ [] else []

unfoldable pub get_waiting_on : ℕ → LockType → RwLock → List ℕ
get_waiting_on n write lk = younger n lk.readers ++ younger_writer n lk.writer
get_waiting_on n read lk = younger_writer n lk.writer

-- `acquire_lock`: the oldest queued ticket gets the lock, if it can, with the callback to call and
-- whether the next one may be tried.
unfoldable pub grant :
    Key → ℕ → LockQueueElement → Option ℕ → List ℕ → Shard → Shard × PendingCallback
grant k n q writer readers s =
    let lk = lock_of k s in
    let t = ticket_of n s in
    (
      set_ticket n
          (record t {
            queued_locks = erase k t.queued_locks;
            locks_held = assign k q.type t.locks_held;
          })
          (set_lock k (record { writer = writer; readers = readers; queue = remove n lk.queue }) s),
      record { callback = q.callback; returning = value (element_of k s).value; ticket_number = n },
    )

-- Whether the only reader, if there is any, is the ticket.
unfoldable pub sole_reader : ℕ → List ℕ → Bool
sole_reader n [] = true
sole_reader n (m ∷ []) = m == n
sole_reader n (m ∷ l ∷ ms) = false

unfoldable pub acquire_lock : Key → Shard → Option (Shard × PendingCallback × Bool)
acquire_lock k s =
    let lk = lock_of k s in
    elim lk.queue [
      | [] ↦ none
      | (n, q) ∷ rest ↦ elim lk.writer [
        | some w ↦ none
        | none ↦ elim q.type [
          | read ↦ (let (t, cb) = grant k n q none (insert n lk.readers) s in some (t, cb, true))
          | write ↦
              if sole_reader n lk.readers
              then (let (t, cb) = grant k n q (some n) [] s in some (t, cb, false))
              else none
        ]
      ]
    ]

-- `while(acquire_lock(key, callbacks)) {}`; each round but the last takes a ticket off the queue.
unfoldable pub acquire_loop : ℕ → Key → Shard → Shard × List PendingCallback
acquire_loop zero k s = (s, [])
acquire_loop (suc fuel) k s = elim (acquire_lock k s) [
  | none ↦ (s, [])
  | some (t, cb, next) ↦ elim next [
    | true ↦ (let (u, cbs) = acquire_loop fuel k t in (u, cb ∷ cbs))
    | false ↦ (t, cb ∷ [])
  ]
]

unfoldable pub acquire_locks : List Key → Shard → Shard × List PendingCallback
acquire_locks [] s = (s, [])
acquire_locks (k ∷ ks) s =
    let (t, cbs) = acquire_loop (suc (length (lock_of k s).queue)) k s in
    let (u, rest) = acquire_locks ks t in (u, cbs ++ rest)

-- `release_locks`, the loop over the queued locks: the node that is taken out must be there.
unfoldable pub unqueue :
    ℕ → Option WoundedDetails → List Key → Shard → Outcome (Shard × List PendingCallback)
unqueue n details [] s = returned (s, [])
unqueue n details (k ∷ ks) s = elim (lookup n (lock_of k s).queue) [
  | none ↦ terminated
  | some q ↦ do
    (t, cbs) ←
        unqueue n details ks
          (set_lock k (record (lock_of k s) { queue = remove n (lock_of k s).queue }) s)
    returned (
      t,
      record {
        callback = q.callback;
        returning = error (record { error_code = wounded; wounded_details = details });
        ticket_number = n;
      }
          ∷ cbs,
    )
]

unfoldable pub release_lock : ℕ → LockType → RwLock → RwLock
release_lock n read lk = record lk { readers = erase n lk.readers }
release_lock n write lk = record lk { writer = none }

unfoldable pub release_held : ℕ → List (Key × LockType) → Shard → Shard
release_held n [] s = s
release_held n ((k, lt) ∷ held) s =
    release_held n held (set_lock k (release_lock n lt (lock_of k s)) s)

unfoldable pub held_keys : List (Key × LockType) → List Key
held_keys [] = []
held_keys ((k, lt) ∷ held) = k ∷ held_keys held

unfoldable pub release_locks : ℕ → Shard → Outcome (Shard × List PendingCallback × List Key)
release_locks n s = do
  let t = ticket_of n s
  (u, cbs) ← unqueue n t.wounded_details t.queued_locks s
  returned (
    set_ticket n (record t { queued_locks = []; locks_held = [] }) (release_held n t.locks_held u),
    cbs,
    insert_all (held_keys t.locks_held) t.queued_locks,
  )

unfoldable pub is_prepared : TicketState → Bool
is_prepared prepared = true
is_prepared begun = false
is_prepared wounded = false
is_prepared committed = false

-- `wound_tickets`, the loop over the blocking tickets, with the keys that their locks were on.
unfoldable pub wound_each :
    Key → ℕ → List ℕ → List Key → Shard → Outcome (Shard × List PendingCallback × List Key)
wound_each k blocked [] keys s = returned (s, [], keys)
wound_each k blocked (n ∷ ns) keys s =
    if is_prepared (ticket_of n s).state then wound_each k blocked ns keys s else do
      (t, cbs, affected) ← release_locks n (
          set_ticket n
            (record (ticket_of n s) {
              state = wounded;
              wounded_details = some (record { wounding_ticket = blocked; wounding_key = k });
            })
            s)
      (u, rest, all_keys) ← wound_each k blocked ns (insert_all affected keys) t
      returned (u, cbs ++ rest, all_keys)

unfoldable pub wound_tickets : Key → List ℕ → ℕ → Shard → Outcome (Shard × List PendingCallback)
wound_tickets k blocking blocked s = do
  (t, cbs, keys) ← wound_each k blocked blocking [] s
  let (u, acquired) = acquire_locks (insert k keys) t
  returned (u, cbs ++ acquired)
