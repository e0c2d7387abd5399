-- ===== src/RuntimeShard/Steps.antt =====
-- Runs of the shard: the calls of interface.hpp that change it, one after the other.
use opencbdc_tx.Common.{ℕ, ◌≡◌, Bool, true, List, [], none, lookup, Outcome, returned, ◌>>=◌}
use opencbdc_tx.RuntimeShard.{Key, Value, LockType, Shard}
use opencbdc_tx.RuntimeShard.Operations.{try_lock, prepare, commit, rollback, finish}

pub data Call : Type 0 where
  locking : ℕ → ℕ → Key → LockType → Bool → ℕ → Call
  preparing : ℕ → List (Key × Value) → Call
  committing : ℕ → Call
  rolling_back : ℕ → Call
  finishing : ℕ → Call

-- The shard after the call.
unfoldable pub perform : Call → Shard → Outcome Shard
perform (locking n broker k lt first_lock callback) s = do
  (t, cbs) ← try_lock n broker k lt first_lock callback s
  returned t
perform (preparing n update) s = returned (prepare n update s).0
perform (committing n) s = do (t, cbs, err) ← commit n s; returned t
perform (rolling_back n) s = do (t, cbs, err) ← rollback n s; returned t
perform (finishing n) s = returned (finish n s).0

-- A ticket's first lock is its first: the ticket machine never gives a number twice.
unfoldable pub IsAllowed : Call → Shard → Type 0
IsAllowed (locking n broker k lt first_lock callback) s =
    first_lock ≡ true → lookup n s.tickets ≡ none
IsAllowed (preparing n update) s = Unit
IsAllowed (committing n) s = Unit
IsAllowed (rolling_back n) s = Unit
IsAllowed (finishing n) s = Unit

abbrev pub empty_shard : Shard
empty_shard = record { state = []; tickets = [] }

-- What a sequence of calls makes of an empty shard.
pub data Reachable : Shard → Type 0 where
  start : Reachable empty_shard
  step :
      {s t : Shard} (c : Call)
      → Reachable s
      → IsAllowed c s
      → perform c s ≡ returned t
      → Reachable t
