-- ===== src/RuntimeShard/Consistent.antt =====
-- The locks and the tickets agree, and a write lock excludes every other lock on its key.
pub mod Acquire
pub mod Loop
pub mod Release
pub mod Free
pub mod Tickets
pub mod Wound
pub mod Calls
pub mod Phases
pub mod Locking
use opencbdc_tx.Common.{
  ℕ, ◌≡◌, refl, sym, ap, ◌∙◌, Bool, true, false, not, ◌&&◌, ◌||◌, List, [], ◌∷◌, ◌++◌, Option, none,
  some, ◌==◌, if◌then◌else◌, contains, lookup, arith, AreDistinct,
}
use opencbdc_tx.RuntimeShard.{
  Key, LockType, TicketState, begun, wounded, prepared, committed, is_prepared, Shard, lock_of,
  ticket_of, held_keys,
}
use opencbdc_tx.RuntimeShard.Views.{is_writer, is_write, is_read, is_queued, held}

unfoldable pub is_live : TicketState → Bool
is_live begun = true
is_live prepared = true
is_live wounded = false
is_live committed = false

-- A ticket is the writer of a key, one of its readers, or queued for it exactly if it says so
-- itself; a key that is written has no readers; only a ticket that is begun or prepared has locks,
-- and only one that is begun is queued, for a key that it does not write.
pub record Consistent (s : Shard) : Type 0 where
  pub writer : (n : ℕ) (k : Key) → is_writer n (lock_of k s).writer ≡ is_write (held n k s)
  pub readers : (n : ℕ) (k : Key) → contains n (lock_of k s).readers ≡ is_read (held n k s)
  pub queue :
      (n : ℕ) (k : Key) → is_queued n (lock_of k s).queue ≡ contains k (ticket_of n s).queued_locks
  pub exclusive :
      (n m : ℕ) (k : Key)
      → is_writer n (lock_of k s).writer ≡ true
      → contains m (lock_of k s).readers ≡ false
  pub readers_once : (k : Key) → AreDistinct (lock_of k s).readers
  pub held_once : (n : ℕ) → AreDistinct (held_keys (ticket_of n s).locks_held)
  pub queued_once : (n : ℕ) → AreDistinct (ticket_of n s).queued_locks
  pub idle : (n : ℕ) (k : Key) → is_live (ticket_of n s).state ≡ false → held n k s ≡ none
  pub ready :
      (n : ℕ) (k : Key)
      → contains k (ticket_of n s).queued_locks ≡ true
      → (ticket_of n s).state ≡ begun
  pub needy :
      (n : ℕ) (k : Key)
      → contains k (ticket_of n s).queued_locks ≡ true
      → is_write (held n k s) ≡ false
