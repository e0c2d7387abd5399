-- ===== src/RuntimeShard/Safety.antt =====
-- What holds of every reachable shard.
use opencbdc_tx.RuntimeShard.{element_of, Shard, lock_of, ticket_of, held_keys}
use opencbdc_tx.Common.{◌≡◌, refl, sym, ◌∙◌, contains, lookup, arith, returned}
use opencbdc_tx.RuntimeShard.Operations.{try_lock, prepare, commit, rollback, finish}
use opencbdc_tx.RuntimeShard.Views.{is_writer, is_write, is_read, is_queued, held}
use opencbdc_tx.RuntimeShard.Consistent.{is_live}
use opencbdc_tx.RuntimeShard.Consistent.Acquire.{is_blocked}
use opencbdc_tx.RuntimeShard.Consistent.Loop.{IsSettled}
use opencbdc_tx.RuntimeShard.Consistent.Tickets.{Sound}
use opencbdc_tx.RuntimeShard.Consistent.Calls.{
  Completes, rollback-Completes, commit-Completes, written,
}
use opencbdc_tx.RuntimeShard.Consistent.Phases.{prepare-Sound, finish-Sound}
use opencbdc_tx.RuntimeShard.Consistent.Locking.{Tries, try_lock-Tries}
use opencbdc_tx.RuntimeShard.Steps.{
  Call, locking, preparing, committing, rolling_back, finishing, perform, IsAllowed, empty_shard,
  Reachable, start, step,
}

empty_shard-Sound : Sound empty_shard
unfolding lock_of ticket_of held is_live IsSettled is_blocked is_writer is_write is_read is_queued
    contains lookup held_keys element_of
empty_shard-Sound = record {
  consistent = record {
    writer = λ n k. refl;
    readers = λ n k. refl;
    queue = λ n k. refl;
    exclusive = λ n m k h. refl;
    readers_once = λ k. tt;
    held_once = λ n. tt;
    queued_once = λ n. tt;
    idle = λ n k h. refl;
    ready = λ n k h. refl;
    needy = λ n k h. refl;
  };
  settled = λ j. refl;
}

-- The outcome of an allowed call.
record Performs (c : Call) (s : Shard) : Type 0 where
  shard : Shard
  returns : perform c s ≡ returned shard
  sound : Sound shard

perform-Performs : (c : Call) (s : Shard) → Sound s → IsAllowed c s → Performs c s
unfolding perform IsAllowed
perform-Performs (locking n b k lt f cb) s sound h = go (try_lock-Tries n b k lt f cb s sound h)
  where
    go : Tries n s (try_lock n b k lt f cb s) → Performs (locking n b k lt f cb) s
    go t = record { shard = t.shard; returns = rw (perform, t.returns) refl; sound = t.sound }
perform-Performs (preparing n u) s sound h = record {
  shard = (prepare n u s).0;
  returns = refl;
  sound = prepare-Sound n u s sound;
}
perform-Performs (committing n) s sound h = go (commit-Completes n s sound)
  where
    go : Completes n (written n s) s (commit n s) → Performs (committing n) s
    go t = record { shard = t.shard; returns = rw (perform, t.returns) refl; sound = t.sound }
perform-Performs (rolling_back n) s sound h = go (rollback-Completes n s sound)
  where
    go : Completes n s s (rollback n s) → Performs (rolling_back n) s
    go t = record { shard = t.shard; returns = rw (perform, t.returns) refl; sound = t.sound }
perform-Performs (finishing n) s sound h = record {
  shard = (finish n s).0;
  returns = refl;
  sound = finish-Sound n s sound;
}

same-Sound : {s t : Shard} → s ≡ t → Sound s → Sound t
same-Sound e x = rw (sym e) x

pub Reachable-Sound : {s : Shard} → Reachable s → Sound s
Reachable-Sound start = empty_shard-Sound
Reachable-Sound (step {s} {t} c r h e) =
    let p = perform-Performs c s (Reachable-Sound r) h in
    let same : returned p.shard ≡ returned t = sym p.returns ∙ e in
    same-Sound (ground arith) p.sound

-- Every call that is allowed on a reachable shard returns: no assertion of it fails.
pub perform_returns :
    (c : Call) (s : Shard) → Reachable s → IsAllowed c s → (t : Shard) × (perform c s ≡ returned t)
perform_returns c s r h = let p = perform-Performs c s (Reachable-Sound r) h in (p.shard, p.returns)
