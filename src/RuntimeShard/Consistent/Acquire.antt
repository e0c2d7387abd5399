-- ===== src/RuntimeShard/Consistent/Acquire.antt =====
-- `acquire_lock` and its loops keep the shard consistent.
use opencbdc_tx.Common.{
  ℕ, suc, ◌≤◌, ◌≡◌, refl, sym, ap, ◌∙◌, Bool, true, false, not, ◌||◌, List, [], ◌∷◌, Option, none,
  some, ◌==◌, ==_refl, if◌then◌else◌, contains, insert, erase, lookup, assign, remove,
  lookup-assign, contains-insert, contains-erase, insert-AreDistinct, erase-AreDistinct, arith,
  AreDistinct, Bool-cases, inl, inr, length,
}
use opencbdc_tx.RuntimeShard.{
  Key, LockType, read, write, LockQueueElement, RwLock, Ticket, PendingCallback, begun, Shard,
  lock_of, ticket_of, set_lock, held_keys, grant, sole_reader, acquire_lock,
}
use opencbdc_tx.RuntimeShard.Views.{
  value_of, value_of-set_lock, value_of-set_ticket, is_writer, is_write, is_read, is_queued, held,
  lock_of-set_lock, lock_of-set_ticket, ticket_of-set_lock, ticket_of-set_ticket, is_queued-remove,
}
use opencbdc_tx.RuntimeShard.Consistent.{Consistent, is_live}

module _ (k : Key) (n : ℕ) (q : LockQueueElement) (w : Option ℕ) (rs : List ℕ) (s : Shard) where
  abbrev new_lock : RwLock
  new_lock = record { writer = w; readers = rs; queue = remove n (lock_of k s).queue }

  abbrev new_holder : Ticket
  new_holder = record (ticket_of n s) {
    queued_locks = erase k (ticket_of n s).queued_locks;
    locks_held = assign k q.type (ticket_of n s).locks_held;
  }

  lock_of-grant :
      (j : Key) → lock_of j (grant k n q w rs s).0 ≡ (if k == j then new_lock else lock_of j s)
  unfolding grant
  lock_of-grant j =
      lock_of-set_ticket j n new_holder (set_lock k new_lock s) ∙ lock_of-set_lock j k new_lock s

  pub ticket_of-grant :
      (m : ℕ) → ticket_of m (grant k n q w rs s).0 ≡ (if n == m then new_holder else ticket_of m s)
  unfolding grant
  ticket_of-grant m =
      ticket_of-set_ticket m n new_holder (set_lock k new_lock s)
      ∙ ap (λ t. if n == m then new_holder else t) (ticket_of-set_lock m k new_lock s)

held_keys-assign :
    (j k : Key) (lt : LockType) (hs : List (Key × LockType))
    → contains j (held_keys (assign k lt hs)) ≡ (k == j || contains j (held_keys hs))
unfolding held_keys assign contains
held_keys-assign j k lt [] = refl
held_keys-assign j k lt ((i, l) ∷ hs) = ground (arith, held_keys-assign j k lt hs)

assign-AreDistinct :
    (k : Key) (lt : LockType) (hs : List (Key × LockType))
    → AreDistinct (held_keys hs)
    → AreDistinct (held_keys (assign k lt hs))
unfolding held_keys assign contains
assign-AreDistinct k lt [] d = (refl, tt)
assign-AreDistinct k lt ((i, l) ∷ hs) d = elim (Bool-cases (i == k)) [
  | inl e ↦ rw (assign, e) d
  | inr e ↦
      rw (assign, e) (ground (arith, held_keys-assign i k lt hs), assign-AreDistinct k lt hs d.1)
]

-- A grant to a queued ticket, with the lock's new writer or readers.
grant-Consistent :
    (k : Key) (n : ℕ) (q : LockQueueElement) (w : Option ℕ) (rs : List ℕ) (s : Shard)
    → Consistent s
    → is_queued n (lock_of k s).queue ≡ true
    → ((m : ℕ) → is_writer m w ≡ (if n == m then is_write (some q.type) else is_write (held m k s)))
    → ((m : ℕ) → contains m rs ≡ (if n == m then is_read (some q.type) else is_read (held m k s)))
    → ((l m : ℕ) → is_writer l w ≡ true → contains m rs ≡ false)
    → AreDistinct rs
    → Consistent (grant k n q w rs s).0
unfolding held is_live
grant-Consistent k n q w rs s c queued fw fr ex once =
    let began : (ticket_of n s).state ≡ begun = c.ready n k (sym (c.queue n k) ∙ queued) in
    let L = lock_of-grant k n q w rs s in
    let T = ticket_of-grant k n q w rs s in
    record {
      writer = λ m j.
          rw (L j, T m)
            (ground
              (arith, c.writer m j, fw m, lookup-assign j k q.type (ticket_of n s).locks_held));
      readers = λ m j.
          rw (L j, T m)
            (ground
              (arith, c.readers m j, fr m, lookup-assign j k q.type (ticket_of n s).locks_held));
      queue = λ m j.
          rw (L j, T m)
            (ground (
              arith,
              c.queue m j,
              is_queued-remove m n (lock_of k s).queue,
              contains-erase j k (ticket_of n s).queued_locks,
            ));
      exclusive = λ l m j. rw (L j) (ground (arith, c.exclusive l m j, ex l m));
      readers_once = λ j.
          rw (L j)
            (elim (Bool-cases (k == j)) [ inl e ↦ rw e once | inr e ↦ rw e (c.readers_once j) ]);
      held_once = λ m.
          rw (T m)
            (ground (arith, c.held_once m, assign-AreDistinct k q.type (ticket_of n s).locks_held));
      queued_once = λ m.
          rw (T m)
            (ground (arith, c.queued_once m, erase-AreDistinct k (ticket_of n s).queued_locks));
      idle = λ m j. rw (T m) (ground (arith, c.idle m j, ap is_live began));
      needy = λ m j. rw (T m) (
          ground (
            arith,
            c.needy m j,
            contains-erase j k (ticket_of n s).queued_locks,
            lookup-assign j k q.type (ticket_of n s).locks_held,
          ));
      ready = λ m j.
          rw (T m) (ground (arith, c.ready m j, contains-erase j k (ticket_of n s).queued_locks));
    }

no_write : (l : Option LockType) → is_read l ≡ true → is_write l ≡ false
unfolding is_read is_write
no_write none h = refl
no_write (some read) h = refl
no_write (some write) h = absurd (ground arith)

sole_reader-others :
    (n m : ℕ) (rs : List ℕ) → sole_reader n rs ≡ true → contains m rs ≡ true → n ≡ m
unfolding sole_reader contains
sole_reader-others n m [] h e = absurd (ground arith)
sole_reader-others n m (x ∷ []) h e = ground arith
sole_reader-others n m (x ∷ y ∷ rs) h e = absurd (ground arith)

length-remove_le : (n : ℕ) (q : List (ℕ × LockQueueElement)) → length (remove n q) ≤ length q
unfolding remove
length-remove_le n [] = omega arith
length-remove_le n ((m, e) ∷ q) = ground (arith, length-remove_le n q)

module _ (k : Key) (n : ℕ) (q : LockQueueElement) (rest : List (ℕ × LockQueueElement)) (s : Shard)
    (c : Consistent s) (e : (lock_of k s).queue ≡ (n, q) ∷ rest)
    (f : (lock_of k s).writer ≡ none) where
  pub head_queued : is_queued n (lock_of k s).queue ≡ true
  unfolding is_queued lookup
  head_queued = rw e (ground (arith, ==_refl n))

  grant-read-Consistent :
      q.type ≡ read → Consistent (grant k n q none (insert n (lock_of k s).readers) s).0
  unfolding is_writer is_write is_read
  grant-read-Consistent g =
      grant-Consistent k n q none (insert n (lock_of k s).readers) s c head_queued
        (λ m. ground (arith, c.writer m k, ap (is_writer m) f))
        (λ m. ground (arith, c.readers m k, contains-insert m n (lock_of k s).readers))
        (λ l m h. absurd (ground arith))
        (insert-AreDistinct n (lock_of k s).readers (c.readers_once k))

  grant-write-Consistent :
      q.type ≡ write
      → sole_reader n (lock_of k s).readers ≡ true
      → Consistent (grant k n q (some n) [] s).0
  unfolding is_writer is_write is_read contains
  grant-write-Consistent g sole =
      grant-Consistent k n q (some n) [] s c head_queued
        (λ m. ground (arith, c.writer m k, ap (is_writer m) f))
        (λ m. ground (arith, c.readers m k, sole_reader-others n m (lock_of k s).readers))
        (λ l m h. refl) tt

shorter :
    (k : Key) (n : ℕ) (q : LockQueueElement) (rest : List (ℕ × LockQueueElement)) (s : Shard)
    → (lock_of k s).queue ≡ (n, q) ∷ rest
    → (w : Option ℕ) (rs : List ℕ)
    → suc (length (lock_of k (grant k n q w rs s).0).queue) ≤ length (lock_of k s).queue
unfolding remove
shorter k n q rest s e w rs = rw (lock_of-grant k n q w rs s k) (
    ground
      (arith, ==_refl k, length-remove_le n rest, ap (λ x. length (remove n x)) e, ap length e))

pub value_of-grant :
    (j k : Key) (n : ℕ) (q : LockQueueElement) (w : Option ℕ) (rs : List ℕ) (s : Shard)
    → value_of j (grant k n q w rs s).0 ≡ value_of j s
unfolding grant
value_of-grant j k n q w rs s =
    value_of-set_ticket j n (new_holder k n q w rs s) (set_lock k (new_lock k n q w rs s) s)
    ∙ value_of-set_lock j k (new_lock k n q w rs s) s

-- One grant of `acquire_lock`: the oldest queued ticket becomes a reader, or the writer.
pub data Granted (k : Key) (s : Shard) : Shard → Type 0 where
  to_reader :
      (n : ℕ) (q : LockQueueElement) (rest : List (ℕ × LockQueueElement))
      → (lock_of k s).queue ≡ (n, q) ∷ rest
      → (lock_of k s).writer ≡ none
      → q.type ≡ read
      → Granted k s (grant k n q none (insert n (lock_of k s).readers) s).0
  to_writer :
      (n : ℕ) (q : LockQueueElement) (rest : List (ℕ × LockQueueElement))
      → (lock_of k s).queue ≡ (n, q) ∷ rest
      → (lock_of k s).writer ≡ none
      → q.type ≡ write
      → sole_reader n (lock_of k s).readers ≡ true
      → Granted k s (grant k n q (some n) [] s).0

pub Granted-Consistent : {k : Key} {s t : Shard} → Granted k s t → Consistent s → Consistent t
Granted-Consistent {k} {s} (to_reader n q rest e f g) c = grant-read-Consistent k n q rest s c e f g
Granted-Consistent {k} {s} (to_writer n q rest e f g h) c =
    grant-write-Consistent k n q rest s c e f g h

-- No ticket that is queued for the lock could be granted it.
unfoldable pub is_blocked : RwLock → Bool
is_blocked lk = elim lk.queue [
  | [] ↦ true
  | (n, q) ∷ rest ↦ elim lk.writer [
    | some w ↦ true
    | none ↦ elim q.type [ read ↦ false | write ↦ not (sole_reader n lk.readers) ]
  ]
]

-- The outcome of `acquire_lock`: the lock is blocked, or a grant takes one ticket off its queue and
-- touches no other lock, and the lock is blocked after a grant that ends the loop.
unfoldable pub Acquires : Key → Shard → Option (Shard × PendingCallback × Bool) → Type 0
Acquires k s none = is_blocked (lock_of k s) ≡ true
Acquires k s (some (t, cb, next)) =
    Granted k s t
    × (suc (length (lock_of k t).queue) ≤ length (lock_of k s).queue)
    × ((j : Key) → (k == j) ≡ false → lock_of j t ≡ lock_of j s)
    × (next ≡ false → is_blocked (lock_of k t) ≡ true)

blocked_by_writer : (n : ℕ) (lk : RwLock) → lk.writer ≡ some n → is_blocked lk ≡ true
unfolding is_blocked
blocked_by_writer n lk e = go lk.queue refl
  where
    go : (qs : List (ℕ × LockQueueElement)) → lk.queue ≡ qs → is_blocked lk ≡ true
    go [] f = rw (is_blocked, f) refl
    go ((m, q) ∷ rest) f = rw (is_blocked, f, e) refl

blocked_by_reader :
    (lk : RwLock) (n : ℕ) (q : LockQueueElement) (rest : List (ℕ × LockQueueElement))
    → lk.queue ≡ (n, q) ∷ rest
    → lk.writer ≡ none
    → q.type ≡ write
    → sole_reader n lk.readers ≡ false
    → is_blocked lk ≡ true
unfolding is_blocked
blocked_by_reader lk n q rest e f g h = rw (is_blocked, e, f, g, h) refl

blocked_idle : (lk : RwLock) → lk.queue ≡ [] → is_blocked lk ≡ true
unfolding is_blocked
blocked_idle lk e = rw (is_blocked, e) refl

pub acquire_lock-Acquires : (k : Key) (s : Shard) → Acquires k s (acquire_lock k s)
unfolding acquire_lock Acquires
acquire_lock-Acquires k s = go (lock_of k s).queue (lock_of k s).writer refl refl
  where
    others :
        (n : ℕ) (q : LockQueueElement) (w : Option ℕ) (rs : List ℕ) (j : Key)
        → (k == j) ≡ false
        → lock_of j (grant k n q w rs s).0 ≡ lock_of j s
    others n q w rs j h = lock_of-grant k n q w rs s j ∙ rw h refl

    granted :
        (n : ℕ) (q : LockQueueElement) (rest : List (ℕ × LockQueueElement)) (lt : LockType)
        → (lock_of k s).queue ≡ (n, q) ∷ rest
        → (lock_of k s).writer ≡ none
        → q.type ≡ lt
        → Acquires k s (acquire_lock k s)
    granted n q rest read e f g =
        rw (acquire_lock, e, f, g)
          (
            to_reader n q rest e f g,
            shorter k n q rest s e none (insert n (lock_of k s).readers),
            others n q none (insert n (lock_of k s).readers),
            (λ h. absurd (ground arith)),
          )
    granted n q rest write e f g = elim (Bool-cases (sole_reader n (lock_of k s).readers)) [
      | inl h ↦
          rw (acquire_lock, e, f, g, h)
            (
              to_writer n q rest e f g h,
              shorter k n q rest s e (some n) [],
              others n q (some n) [],
              (λ b.
                  blocked_by_writer n _ (rw (lock_of-grant k n q (some n) [] s k, ==_refl k) refl)),
            )
      | inr h ↦ rw (acquire_lock, e, f, g, h) (blocked_by_reader (lock_of k s) n q rest e f g h)
    ]

    go :
        (qs : List (ℕ × LockQueueElement)) (w : Option ℕ)
        → (lock_of k s).queue ≡ qs
        → (lock_of k s).writer ≡ w
        → Acquires k s (acquire_lock k s)
    go [] w e f = rw (acquire_lock, e) (blocked_idle (lock_of k s) e)
    go ((n, q) ∷ rest) (some x) e f = rw (acquire_lock, e, f) (blocked_by_writer x (lock_of k s) f)
    go ((n, q) ∷ rest) none e f = granted n q rest q.type e f refl
