-- ===== src/RuntimeShard/Views.antt =====
-- What the locks and the tickets say of each other, read key by key and ticket by ticket.
use opencbdc_tx.Common.{
  ℕ, ◌≡◌, refl, ap, Bool, true, false, ◌||◌, List, [], ◌∷◌, Option, none, some, ◌==◌, if◌then◌else◌,
  contains, lookup, remove, lookup-assign, lookup-remove, arith, Bool-cases, inl, inr,
}
use opencbdc_tx.RuntimeShard.{
  Key, LockType, read, write, LockQueueElement, RwLock, Ticket, Shard, element_of, lock_of,
  ticket_of, set_lock, set_value, set_ticket, enqueue, held_keys,
}

unfoldable pub is_writer : ℕ → Option ℕ → Bool
is_writer n none = false
is_writer n (some w) = w == n

unfoldable pub is_write : Option LockType → Bool
is_write none = false
is_write (some write) = true
is_write (some read) = false

unfoldable pub is_read : Option LockType → Bool
is_read none = false
is_read (some write) = false
is_read (some read) = true

unfoldable pub is_queued : ℕ → List (ℕ × LockQueueElement) → Bool
is_queued n q = elim (lookup n q) [ none ↦ false | some e ↦ true ]

-- The lock that a ticket holds on a key, by the ticket.
unfoldable pub held : ℕ → Key → Shard → Option LockType
held n k s = lookup k (ticket_of n s).locks_held

unfoldable pub value_of : Key → Shard → List ℕ
value_of k s = (element_of k s).value

pub value_of-set_lock :
    (j k : Key) (lk : RwLock) (s : Shard) → value_of j (set_lock k lk s) ≡ value_of j s
unfolding value_of set_lock element_of
value_of-set_lock j k lk s = elim (Bool-cases (k == j)) [
  | inl e ↦
      let same : k ≡ j = ground arith in
      ground (
        arith,
        lookup-assign j k (record { value = (element_of k s).value; lock = lk }) s.state,
        ap (λ i. lookup i s.state) same,
      )
  | inr e ↦
      ground
        (arith, lookup-assign j k (record { value = (element_of k s).value; lock = lk }) s.state)
]

pub value_of-set_value :
    (j k : Key) (v : List ℕ) (s : Shard)
    → value_of j (set_value k v s) ≡ (if k == j then v else value_of j s)
unfolding value_of set_value element_of
value_of-set_value j k v s =
    ground (arith, lookup-assign j k (record { value = v; lock = lock_of k s }) s.state)

pub value_of-set_ticket :
    (j : Key) (n : ℕ) (t : Ticket) (s : Shard) → value_of j (set_ticket n t s) ≡ value_of j s
unfolding value_of element_of set_ticket
value_of-set_ticket j n t s = refl

pub lock_of-set_lock :
    (j k : Key) (lk : RwLock) (s : Shard)
    → lock_of j (set_lock k lk s) ≡ (if k == j then lk else lock_of j s)
unfolding lock_of element_of set_lock
lock_of-set_lock j k lk s =
    ground (arith, lookup-assign j k (record { value = (element_of k s).value; lock = lk }) s.state)

pub ticket_of-set_lock :
    (n : ℕ) (k : Key) (lk : RwLock) (s : Shard) → ticket_of n (set_lock k lk s) ≡ ticket_of n s
unfolding ticket_of set_lock
ticket_of-set_lock n k lk s = refl

pub lock_of-set_value :
    (j k : Key) (v : List ℕ) (s : Shard) → lock_of j (set_value k v s) ≡ lock_of j s
unfolding lock_of element_of set_value
lock_of-set_value j k v s = elim (Bool-cases (k == j)) [
  | inl e ↦
      let same : k ≡ j = ground arith in
      ground (
        arith,
        lookup-assign j k (record { value = v; lock = lock_of k s }) s.state,
        ap (λ i. lookup i s.state) same,
      )
  | inr e ↦ ground (arith, lookup-assign j k (record { value = v; lock = lock_of k s }) s.state)
]

pub ticket_of-set_value :
    (n : ℕ) (k : Key) (v : List ℕ) (s : Shard) → ticket_of n (set_value k v s) ≡ ticket_of n s
unfolding ticket_of set_value
ticket_of-set_value n k v s = refl

pub lock_of-set_ticket :
    (j : Key) (n : ℕ) (t : Ticket) (s : Shard) → lock_of j (set_ticket n t s) ≡ lock_of j s
unfolding lock_of element_of set_ticket
lock_of-set_ticket j n t s = refl

pub ticket_of-set_ticket :
    (m n : ℕ) (t : Ticket) (s : Shard)
    → ticket_of m (set_ticket n t s) ≡ (if n == m then t else ticket_of m s)
unfolding ticket_of set_ticket
ticket_of-set_ticket m n t s = ground (arith, lookup-assign m n t s.tickets)

pub is_queued-enqueue :
    (m n : ℕ) (e : LockQueueElement) (q : List (ℕ × LockQueueElement))
    → is_queued m (enqueue n e q) ≡ (n == m || is_queued m q)
unfolding is_queued enqueue lookup
is_queued-enqueue m n e [] = ground arith
is_queued-enqueue m n e ((l, p) ∷ q) = ground (arith, is_queued-enqueue m n e q)

pub is_queued-remove :
    (m n : ℕ) (q : List (ℕ × LockQueueElement))
    → is_queued m (remove n q) ≡ (if n == m then false else is_queued m q)
unfolding is_queued
is_queued-remove m n q = ground (arith, lookup-remove m n q)

pub contains-held_keys :
    (k : Key) (hs : List (Key × LockType))
    → contains k (held_keys hs) ≡ (is_write (lookup k hs) || is_read (lookup k hs))
unfolding contains held_keys lookup is_write is_read
contains-held_keys k [] = refl
contains-held_keys k ((j, read) ∷ hs) = ground (arith, contains-held_keys k hs)
contains-held_keys k ((j, write) ∷ hs) = ground (arith, contains-held_keys k hs)
