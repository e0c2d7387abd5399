-- ===== src/RuntimeShard/Exclusion.antt =====
-- The locks of a reachable shard: who holds them, and whom a queued ticket waits on.
use opencbdc_tx.RuntimeShard.{
  RwLock, Key, LockType, read, write, LockQueueElement, Shard, lock_of, ticket_of, sole_reader,
}
use opencbdc_tx.Common.{
  ◌⊎◌, ℕ, ◌≡◌, refl, sym, ap, ◌∙◌, true, false, not, List, [], ◌∷◌, Option, none, some, ◌==◌,
  ==_refl, contains, lookup, arith, Bool-cases, inl, inr, AreDistinct,
}
use opencbdc_tx.RuntimeShard.Views.{is_writer, is_write, is_read, is_queued, held}
use opencbdc_tx.RuntimeShard.Consistent.Acquire.{is_blocked}
use opencbdc_tx.RuntimeShard.Consistent.Loop.{IsSettled}
use opencbdc_tx.RuntimeShard.Consistent.Tickets.{Sound}
use opencbdc_tx.RuntimeShard.Steps.{Reachable}
use opencbdc_tx.RuntimeShard.Safety.{Reachable-Sound}

is_write-cases : (l : Option LockType) → is_write l ≡ true → l ≡ some write
unfolding is_write
is_write-cases none h = absurd (ground arith)
is_write-cases (some read) h = absurd (ground arith)
is_write-cases (some write) h = refl

is_read-cases : (l : Option LockType) → is_read l ≡ true → l ≡ some read
unfolding is_read
is_read-cases none h = absurd (ground arith)
is_read-cases (some read) h = refl
is_read-cases (some write) h = absurd (ground arith)

-- A ticket that holds a write lock on a key is the only ticket that holds a lock on it.
pub write_excludes :
    (n m : ℕ) (k : Key) (lt : LockType) (s : Shard)
    → Reachable s
    → held n k s ≡ some write
    → held m k s ≡ some lt
    → m ≡ n
unfolding is_writer is_write is_read
write_excludes n m k read s r h g =
    let c = (Reachable-Sound r).consistent in
    absurd
      (ground (arith, c.exclusive n m k, c.writer n k, c.readers m k, ap is_write h, ap is_read g))
write_excludes n m k write s r h g =
    let c = (Reachable-Sound r).consistent in
    one_writer (lock_of k s).writer (c.writer n k ∙ ap is_write h) (c.writer m k ∙ ap is_write g)
  where
    one_writer : (w : Option ℕ) → is_writer n w ≡ true → is_writer m w ≡ true → m ≡ n
    one_writer none a b = absurd (ground arith)
    one_writer (some l) a b = ground arith

-- Another ticket that stands in the way of a request of the type for the key by a ticket.
pub Blocks : ℕ → Key → ℕ → LockType → Shard → Type 0
Blocks m k n lt s =
    ((m == n) ≡ false) × ((held m k s ≡ some write) ⊎ ((lt ≡ write) × (held m k s ≡ some read)))

other_reader :
    (n : ℕ) (rs : List ℕ)
    → sole_reader n rs ≡ false
    → AreDistinct rs
    → (m : ℕ) × (contains m rs ≡ true) × ((m == n) ≡ false)
unfolding sole_reader contains
other_reader n [] h d = absurd (ground arith)
other_reader n (x ∷ []) h d = (x, ground (arith, ==_refl x), h)
other_reader n (x ∷ y ∷ rs) h d = elim (Bool-cases (x == n)) [
  | inl e ↦ (y, ground (arith, ==_refl y), ground (arith, d.0))
  | inr e ↦ (x, ground (arith, ==_refl x), e)
]

first_queued :
    (n : ℕ) (q : LockQueueElement) (rest : List (ℕ × LockQueueElement)) (lk : RwLock)
    → lk.queue ≡ (n, q) ∷ rest
    → is_queued n lk.queue ≡ true
unfolding is_queued lookup
first_queued n q rest lk e = rw e (ground (arith, ==_refl n))

settled_at : (k : Key) (s : Shard) → IsSettled [] s → is_blocked (lock_of k s) ≡ true
unfolding IsSettled contains
settled_at k s h = h k

module _ (lk : RwLock) (n : ℕ) (q : LockQueueElement) (rest : List (ℕ × LockQueueElement))
    (e : lk.queue ≡ (n, q) ∷ rest) (f : lk.writer ≡ none) where
  reader_free : q.type ≡ read → is_blocked lk ≡ false
  unfolding is_blocked
  reader_free g = rw (is_blocked, e, f, g) refl

  writer_free : q.type ≡ write → is_blocked lk ≡ not (sole_reader n lk.readers)
  unfolding is_blocked
  writer_free g = rw (is_blocked, e, f, g) refl

-- The ticket that is first in the queue for a key waits on another ticket, which holds a lock on the
-- key: a write lock, or a read lock if a write lock is asked for.
pub first_waits :
    (k : Key) (n : ℕ) (q : LockQueueElement) (rest : List (ℕ × LockQueueElement)) (s : Shard)
    → Reachable s
    → (lock_of k s).queue ≡ (n, q) ∷ rest
    → (m : ℕ) × Blocks m k n q.type s
unfolding Blocks is_writer is_queued lookup
first_waits k n q rest s r e = go (lock_of k s).writer refl q.type refl
  where
    s_ok : Sound s
    s_ok = Reachable-Sound r

    queued : contains k (ticket_of n s).queued_locks ≡ true
    queued = sym (s_ok.consistent.queue n k) ∙ first_queued n q rest (lock_of k s) e

    other : (m : ℕ) → is_write (held m k s) ≡ true → (m == n) ≡ false
    other m h = elim (Bool-cases (m == n)) [
      | inl g ↦
          let same : m ≡ n = ground arith in
          absurd (
            ground
              (arith, h, ap (λ l. is_write (held l k s)) same, s_ok.consistent.needy n k queued))
      | inr g ↦ g
    ]

    writes : (m : ℕ) → (lock_of k s).writer ≡ some m → is_write (held m k s) ≡ true
    writes m f = sym (s_ok.consistent.writer m k) ∙ rw f (==_refl m)

    blocked : is_blocked (lock_of k s) ≡ true
    blocked = settled_at k s (s_ok.settled)

    reader :
        q.type ≡ write
        → (lock_of k s).writer ≡ none
        → sole_reader n (lock_of k s).readers ≡ false
        → (m : ℕ) × Blocks m k n write s
    reader g f h =
        let (m, a, b) = other_reader n (lock_of k s).readers h (s_ok.consistent.readers_once k) in
        (m, (b, inr (refl, is_read-cases (held m k s) (sym (s_ok.consistent.readers m k) ∙ a))))

    go :
        (w : Option ℕ)
        → (lock_of k s).writer ≡ w
        → (lt : LockType) → q.type ≡ lt
        → (m : ℕ) × Blocks m k n lt s
    go (some m) f lt g = (m, (other m (writes m f), inl (is_write-cases (held m k s) (writes m f))))
    go none f read g = absurd (ground (arith, blocked, reader_free (lock_of k s) n q rest e f g))
    go none f write g =
        reader g f (ground (arith, blocked, writer_free (lock_of k s) n q rest e f g))
