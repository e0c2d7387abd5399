-- ===== src/RuntimeShard/Consistent/Free.antt =====
-- `release_locks` returns on a consistent shard, and frees the ticket's locks and no other.
use opencbdc_tx.Common.{
  erase-AreDistinct, ℕ, ◌≡◌, refl, sym, ap, ◌∙◌, Bool, true, false, List, [], Option, none, some,
  ◌==◌, if◌then◌else◌, contains, insert_all, contains-insert_all, contains-erase, lookup, arith,
  Bool-cases, inl, inr, Outcome, returned, AreDistinct,
}
use opencbdc_tx.RuntimeShard.Consistent.Release.{
  value_of-release_held, not_held, unqueued, Unqueues, unqueue-Unqueues, released,
  lock_of-release_held, ticket_of-release_held,
}
use opencbdc_tx.RuntimeShard.{
  Key, LockType, read, write, RwLock, PendingCallback, Shard, lock_of, ticket_of, set_ticket,
  unqueue, release_lock, release_held, held_keys, release_locks,
}
use opencbdc_tx.RuntimeShard.Views.{
  value_of, value_of-set_ticket, is_writer, is_write, is_read, is_queued, held, lock_of-set_ticket,
  ticket_of-set_ticket, is_queued-remove,
}
use opencbdc_tx.RuntimeShard.Consistent.{Consistent}

-- Two shards with the same locks, on which the tickets say the same of their locks; the states may
-- differ for one ticket.
pub record Resembles (n : ℕ) (r s : Shard) : Type 0 where
  pub same_lock : (k : Key) → lock_of k s ≡ lock_of k r
  pub same_queued : (m : ℕ) → (ticket_of m s).queued_locks ≡ (ticket_of m r).queued_locks
  pub same_held : (m : ℕ) → (ticket_of m s).locks_held ≡ (ticket_of m r).locks_held
  pub same_state : (m : ℕ) → (n == m) ≡ false → (ticket_of m s).state ≡ (ticket_of m r).state

pub Resembles-refl : (n : ℕ) (s : Shard) → Resembles n s s
Resembles-refl n s = record {
  same_lock = λ k. refl;
  same_queued = λ m. refl;
  same_held = λ m. refl;
  same_state = λ m h. refl;
}

-- What `release_locks` does: the ticket is left without locks, and what other tickets hold and wait
-- for is as before; a lock that is not on a returned key did not change.
pub record Releases (n : ℕ) (s : Shard) (o : Outcome (Shard × List PendingCallback × List Key))
    : Type 0 where
  pub shard : Shard
  pub callbacks : List PendingCallback
  pub keys : List Key
  pub returns : o ≡ returned (shard, callbacks, keys)
  pub consistent : Consistent shard
  pub others : (k : Key) → contains k keys ≡ false → lock_of k shard ≡ lock_of k s
  pub tickets :
      (m : ℕ)
      → ticket_of m shard ≡ (
          if n == m
          then record (ticket_of n s) { queued_locks = []; locks_held = [] }
          else ticket_of m s)
  pub aborted : (ticket_of n s).queued_locks ≡ [] → callbacks ≡ []
  pub values : (j : Key) → value_of j shard ≡ value_of j s

held_refl :
    (n : ℕ) (k : Key) (s : Shard) (lk : RwLock)
    → released n (lookup k (ticket_of n s).locks_held) lk ≡ released n (held n k s) lk
unfolding held
held_refl n k s lk = refl

unless : (n m : ℕ) (f : ℕ → Bool) → f n ≡ false → f m ≡ (if n == m then false else f m)
unless n m f h = elim (Bool-cases (n == m)) [
  | inl e ↦ let same : n ≡ m = ground arith in rw e (ap f (sym same) ∙ h)
  | inr e ↦ rw e refl
]

writer_apart :
    (n m : ℕ) (w : Option ℕ) → is_writer n w ≡ true → (n == m) ≡ false → is_writer m w ≡ false
unfolding is_writer
writer_apart n m none h d = refl
writer_apart n m (some l) h d = ground arith

writer-unqueued : (n : ℕ) (b : Bool) (lk : RwLock) → (unqueued n b lk).writer ≡ lk.writer
unfolding unqueued
writer-unqueued n true lk = refl
writer-unqueued n false lk = refl

readers-unqueued : (n : ℕ) (b : Bool) (lk : RwLock) → (unqueued n b lk).readers ≡ lk.readers
unfolding unqueued
readers-unqueued n true lk = refl
readers-unqueued n false lk = refl

-- What a freed lock says of the tickets.
module _ (n : ℕ) (k : Key) (r : Shard) (c : Consistent r) where
  abbrev freed_lock : RwLock
  freed_lock =
      released n (held n k r) (unqueued n (contains k (ticket_of n r).queued_locks) (lock_of k r))

  is_writer-freed :
      (m : ℕ) → is_writer m freed_lock.writer ≡ (if n == m then false else is_write (held m k r))
  unfolding released release_lock is_write is_writer
  is_writer-freed m = go (held n k r) refl (contains k (ticket_of n r).queued_locks)
    where
      go :
          (h : Option LockType)
          → held n k r ≡ h
          → (b : Bool)
          → is_writer m (released n h (unqueued n b (lock_of k r))).writer
            ≡ (if n == m then false else is_write (held m k r))
      go none e b =
          rw (writer-unqueued n b (lock_of k r), c.writer m k)
            (unless n m (λ l. is_write (held l k r)) (ap is_write e))
      go (some read) e b =
          rw (writer-unqueued n b (lock_of k r), c.writer m k)
            (unless n m (λ l. is_write (held l k r)) (ap is_write e))
      go (some write) e b =
          ground (
            arith,
            c.writer m k,
            c.writer n k,
            ap is_write e,
            writer_apart n m (lock_of k r).writer,
          )

  contains-freed :
      (m : ℕ) → contains m freed_lock.readers ≡ (if n == m then false else is_read (held m k r))
  unfolding released release_lock is_read
  contains-freed m = go (held n k r) refl (contains k (ticket_of n r).queued_locks)
    where
      go :
          (h : Option LockType)
          → held n k r ≡ h
          → (b : Bool)
          → contains m (released n h (unqueued n b (lock_of k r))).readers
            ≡ (if n == m then false else is_read (held m k r))
      go none e b =
          rw (readers-unqueued n b (lock_of k r), c.readers m k)
            (unless n m (λ l. is_read (held l k r)) (ap is_read e))
      go (some read) e b = rw (readers-unqueued n b (lock_of k r)) (
          contains-erase m n (lock_of k r).readers
          ∙ ap (λ x. if n == m then false else x) (c.readers m k))
      go (some write) e b =
          rw (readers-unqueued n b (lock_of k r), c.readers m k)
            (unless n m (λ l. is_read (held l k r)) (ap is_read e))

  readers-freed : AreDistinct freed_lock.readers
  unfolding released release_lock
  readers-freed = go (held n k r) (contains k (ticket_of n r).queued_locks)
    where
      go :
          (h : Option LockType) (b : Bool)
          → AreDistinct (released n h (unqueued n b (lock_of k r))).readers
      go none b = rw (readers-unqueued n b (lock_of k r)) (c.readers_once k)
      go (some read) b =
          rw (readers-unqueued n b (lock_of k r))
            (erase-AreDistinct n (lock_of k r).readers (c.readers_once k))
      go (some write) b = rw (readers-unqueued n b (lock_of k r)) (c.readers_once k)

  is_queued-freed :
      (m : ℕ)
      → is_queued m freed_lock.queue ≡ (if n == m then false else is_queued m (lock_of k r).queue)
  unfolding released unqueued release_lock
  is_queued-freed m = go (held n k r) (contains k (ticket_of n r).queued_locks) refl
    where
      go :
          (h : Option LockType) (b : Bool)
          → contains k (ticket_of n r).queued_locks ≡ b
          → is_queued m (released n h (unqueued n b (lock_of k r))).queue
            ≡ (if n == m then false else is_queued m (lock_of k r).queue)
      go none true e = is_queued-remove m n (lock_of k r).queue
      go (some read) true e = is_queued-remove m n (lock_of k r).queue
      go (some write) true e = is_queued-remove m n (lock_of k r).queue
      go none false e = unless n m (λ l. is_queued l (lock_of k r).queue) (c.queue n k ∙ e)
      go (some read) false e = unless n m (λ l. is_queued l (lock_of k r).queue) (c.queue n k ∙ e)
      go (some write) false e = unless n m (λ l. is_queued l (lock_of k r).queue) (c.queue n k ∙ e)

module _ (n : ℕ) (r s : Shard) (c : Consistent r) (same : Resembles n r s) where
  unqueues :
      Unqueues n
        (ticket_of n s).queued_locks
        s
        (unqueue n (ticket_of n s).wounded_details (ticket_of n s).queued_locks s)
  unqueues =
      unqueue-Unqueues n (ticket_of n s).wounded_details (ticket_of n s).queued_locks s
        (rw (same.same_queued n) (c.queued_once n))
        (λ k. rw (same.same_queued n, same.same_lock k) (λ h. c.queue n k ∙ h))

  abbrev freed : Shard
  freed =
      set_ticket n (record (ticket_of n s) { queued_locks = []; locks_held = [] })
        (release_held n (ticket_of n s).locks_held unqueues.shard)

  lock_of-freed : (k : Key) → lock_of k freed ≡ freed_lock n k r c
  lock_of-freed k =
      lock_of-set_ticket k n (record (ticket_of n s) { queued_locks = []; locks_held = [] })
        (release_held n (ticket_of n s).locks_held unqueues.shard)
      ∙ lock_of-release_held n k (ticket_of n s).locks_held unqueues.shard
          (rw (same.same_held n) (c.held_once n))
      ∙ rw (unqueues.locks k, same.same_held n, same.same_queued n, same.same_lock k)
          (held_refl n k r _)

  ticket_of-freed :
      (m : ℕ)
      → ticket_of m freed ≡ (
          if n == m
          then record (ticket_of n s) { queued_locks = []; locks_held = [] }
          else ticket_of m s)
  ticket_of-freed m =
      ticket_of-set_ticket m n (record (ticket_of n s) { queued_locks = []; locks_held = [] })
        (release_held n (ticket_of n s).locks_held unqueues.shard)
      ∙ ap
          (λ t. if n == m then record (ticket_of n s) { queued_locks = []; locks_held = [] } else t)
          (ticket_of-release_held n m (ticket_of n s).locks_held unqueues.shard
            ∙ unqueues.tickets m)

  freed-Consistent : Consistent freed
  unfolding held lookup contains held_keys is_write is_read
  freed-Consistent = record {
    writer = λ m k.
        rw (lock_of-freed k, ticket_of-freed m)
          (ground (arith, is_writer-freed n k r c m, same.same_held m));
    readers = λ m k.
        rw (lock_of-freed k, ticket_of-freed m)
          (ground (arith, contains-freed n k r c m, same.same_held m));
    queue = λ m k.
        rw (lock_of-freed k, ticket_of-freed m)
          (ground (arith, is_queued-freed n k r c m, same.same_queued m, c.queue m k));
    exclusive = λ l m k. rw (lock_of-freed k) (
        ground (
          arith,
          is_writer-freed n k r c l,
          contains-freed n k r c m,
          c.exclusive l m k,
          c.writer l k,
          c.readers m k,
        ));
    readers_once = λ k. rw (lock_of-freed k) (readers-freed n k r c);
    held_once = λ m. rw (ticket_of-freed m) (elim (Bool-cases (n == m)) [
      | inl e ↦ rw e tt
      | inr e ↦ rw (e, same.same_held m) (c.held_once m)
    ]);
    queued_once = λ m. rw (ticket_of-freed m) (elim (Bool-cases (n == m)) [
      | inl e ↦ rw e tt
      | inr e ↦ rw (e, same.same_queued m) (c.queued_once m)
    ]);
    idle = λ m k. rw (ticket_of-freed m) (elim (Bool-cases (n == m)) [
      | inl e ↦ rw e (λ h. refl)
      | inr e ↦ rw (e, same.same_held m, same.same_state m e) (c.idle m k)
    ]);
    needy = λ m k. rw (ticket_of-freed m) (elim (Bool-cases (n == m)) [
      | inl e ↦ rw e (λ h. refl)
      | inr e ↦ rw (e, same.same_queued m, same.same_held m) (c.needy m k)
    ]);
    ready = λ m k. rw (ticket_of-freed m) (elim (Bool-cases (n == m)) [
      | inl e ↦ rw e (λ h. absurd (ground arith))
      | inr e ↦ rw (e, same.same_queued m, same.same_state m e) (c.ready m k)
    ]);
  }

  freed-others :
      (k : Key)
      → contains k (insert_all (held_keys (ticket_of n s).locks_held) (ticket_of n s).queued_locks)
        ≡ false
      → lock_of k freed ≡ lock_of k s
  unfolding held released unqueued
  freed-others k h =
      let out : (contains k (held_keys (ticket_of n s).locks_held) ≡ false)
          × (contains k (ticket_of n s).queued_locks ≡ false) =
        ground (
          arith,
          contains-insert_all k (held_keys (ticket_of n s).locks_held) (ticket_of n s).queued_locks,
        ) in
      let none_held : held n k r ≡ none =
        ap (lookup k) (sym (same.same_held n)) ∙ not_held k (ticket_of n s).locks_held out.0 in
      let not_queued : contains k (ticket_of n r).queued_locks ≡ false =
        ap (contains k) (sym (same.same_queued n)) ∙ out.1 in
      lock_of-freed k ∙ rw (none_held, not_queued) (sym (same.same_lock k))

  pub release_locks-Releases : Releases n s (release_locks n s)
  unfolding release_locks
  release_locks-Releases = record {
    shard = freed;
    callbacks = unqueues.callbacks;
    keys = insert_all (held_keys (ticket_of n s).locks_held) (ticket_of n s).queued_locks;
    returns = rw unqueues.returns refl;
    consistent = freed-Consistent;
    others = freed-others;
    tickets = ticket_of-freed;
    aborted = unqueues.aborted;
    values = λ j.
        value_of-set_ticket j n _ _
        ∙ value_of-release_held n j (ticket_of n s).locks_held unqueues.shard
        ∙ unqueues.values j;
  }
