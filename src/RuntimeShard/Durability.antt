-- ===== src/RuntimeShard/Durability.antt =====
-- What was prepared stays until it is committed or rolled back, and what is committed is written.
use opencbdc_tx.RuntimeShard.{
  TicketState, is_prepared, Key, Value, LockType, prepared, wounded, Ticket, PendingCallback, Shard,
  ticket_of,
}
use opencbdc_tx.RuntimeShard.Consistent.Phases.{prepare_error-none, prepare-cases, finish-cases}
use opencbdc_tx.RuntimeShard.Consistent.Calls.{
  committed≢prepared, commit_prepared-Completes, Completes, rollback-Completes, commit-Completes,
  written,
}
use opencbdc_tx.RuntimeShard.Consistent.Locking.{IsWoundWait, Tries, try_lock-Tries}
use opencbdc_tx.Common.{
  ◌⊎◌, ℕ, ◌≡◌, ◌<◌, refl, sym, ap, ◌∙◌, Bool, true, false, List, none, some, ◌==◌, lookup, arith,
  Bool-cases, inl, inr, Outcome, returned,
}
use opencbdc_tx.RuntimeShard.Operations.{
  try_lock, prepare, apply_update, commit, rollback, finish, commit_prepared,
}
use opencbdc_tx.RuntimeShard.Views.{value_of, ticket_of-set_ticket}
use opencbdc_tx.RuntimeShard.Consistent.Tickets.{Sound, begun≢prepared, ticket_of-erase_ticket}
use opencbdc_tx.RuntimeShard.Steps.{
  Call, locking, preparing, committing, rolling_back, finishing, perform, IsAllowed, Reachable,
}
use opencbdc_tx.RuntimeShard.Safety.{Reachable-Sound}
use opencbdc_tx.RuntimeShard.Isolation.{updates, value_of-apply_update}

-- Whether the call commits the ticket or rolls it back.
unfoldable pub is_end_of : ℕ → Call → Bool
is_end_of n (committing m) = m == n
is_end_of n (rolling_back m) = m == n
is_end_of n (locking m b k lt f cb) = false
is_end_of n (preparing m u) = false
is_end_of n (finishing m) = false

record Lasts (c : Call) (s : Shard) : Type 0 where
  shard : Shard
  returns : perform c s ≡ returned shard
  lasts :
      (m : ℕ)
      → is_end_of m c ≡ false
      → (ticket_of m s).state ≡ prepared
      → ticket_of m shard ≡ ticket_of m s

lasts-prepare :
    (n : ℕ) (u : List (Key × Value)) (s : Shard) (m : ℕ)
    → (ticket_of m s).state ≡ prepared
    → ticket_of m (prepare n u s).0 ≡ ticket_of m s
lasts-prepare n u s m p = elim (prepare-cases n u s) [
  | inl e ↦ ap (ticket_of m) e
  | inr (t, o, f, e) ↦
      let free = prepare_error-none t u f in
      rw (e, ticket_of-set_ticket m n (record t { state_update = u; state = prepared }) s)
        (elim (Bool-cases (n == m)) [
          | inl d ↦
              let same : n ≡ m = ground arith in
              absurd (
                begun≢prepared (
                  sym free.0
                  ∙ ap (λ x. x.state) (sym o)
                  ∙ ap (λ l. (ticket_of l s).state) same
                  ∙ p))
          | inr d ↦ rw d refl
        ])
]

pub lasts-finish :
    (n : ℕ) (s : Shard) (m : ℕ)
    → (ticket_of m s).state ≡ prepared
    → ticket_of m (finish n s).0 ≡ ticket_of m s
lasts-finish n s m p = elim (finish-cases n s) [
  | inl e ↦ ap (ticket_of m) e
  | inr (o, e) ↦
      rw (e, ticket_of-erase_ticket m n s)
        (elim (Bool-cases (n == m)) [
          | inl d ↦
              let same : n ≡ m = ground arith in
              absurd (committed≢prepared (sym o ∙ ap (λ l. (ticket_of l s).state) same ∙ p))
          | inr d ↦ rw d refl
        ])
]

perform-Lasts : (c : Call) (s : Shard) → Sound s → IsAllowed c s → Lasts c s
unfolding perform IsAllowed is_end_of
perform-Lasts (locking n b k lt f cb) s sound h = go (try_lock-Tries n b k lt f cb s sound h)
  where
    go : Tries n s (try_lock n b k lt f cb s) → Lasts (locking n b k lt f cb) s
    go t = record {
      shard = t.shard;
      returns = rw (perform, t.returns) refl;
      lasts = λ m d. t.keeps_prepared m;
    }
perform-Lasts (preparing n u) s sound h = record {
  shard = (prepare n u s).0;
  returns = refl;
  lasts = λ m d. lasts-prepare n u s m;
}
perform-Lasts (committing n) s sound h = go (commit-Completes n s sound)
  where
    go : Completes n (written n s) s (commit n s) → Lasts (committing n) s
    go t = record {
      shard = t.shard;
      returns = rw (perform, t.returns) refl;
      lasts = t.keeps_prepared;
    }
perform-Lasts (rolling_back n) s sound h = go (rollback-Completes n s sound)
  where
    go : Completes n s s (rollback n s) → Lasts (rolling_back n) s
    go t = record {
      shard = t.shard;
      returns = rw (perform, t.returns) refl;
      lasts = t.keeps_prepared;
    }
perform-Lasts (finishing n) s sound h = record {
  shard = (finish n s).0;
  returns = refl;
  lasts = λ m d. lasts-finish n s m;
}

-- A call that neither commits a prepared ticket nor rolls it back leaves it as it is, with its locks
-- and its update.
pub prepared_lasts :
    (c : Call) (s t : Shard) (m : ℕ)
    → Reachable s
    → IsAllowed c s
    → perform c s ≡ returned t
    → (ticket_of m s).state ≡ prepared
    → is_end_of m c ≡ false
    → ticket_of m t ≡ ticket_of m s
prepared_lasts c s t m r a e p d =
    let l = perform-Lasts c s (Reachable-Sound r) a in
    let same : returned l.shard ≡ returned t = sym l.returns ∙ e in
    let end : l.shard ≡ t = ground arith in ap (ticket_of m) (sym end) ∙ l.lasts m d p

-- `commit` of a prepared ticket returns no error, and each key has the value that the ticket's
-- update gives it last, or the one it had.
pub commit_writes :
    (n : ℕ) (t : Ticket) (s : Shard)
    → Reachable s
    → lookup n s.tickets ≡ some t
    → t.state ≡ prepared
    → (u : Shard) × (cbs : List PendingCallback) × (commit n s ≡ returned (u, cbs, none))
      × ((k : Key)
          → value_of k u ≡ elim (updates k t.state_update) [ none ↦ value_of k s | some v ↦ v ])
unfolding commit
commit_writes n t s r e p = go (commit_prepared-Completes n t s (Reachable-Sound r) e p)
  where
    go :
        (c : Completes n (apply_update t.state_update s) s (commit_prepared n t s)) × (c.answer
            ≡ none)
          × ((ticket_of n c.shard).state ≡ TicketState.committed)
        → (u : Shard) × (cbs : List PendingCallback) × (commit n s ≡ returned (u, cbs, none))
          × ((k : Key)
              → value_of k u ≡ elim (updates k t.state_update) [ none ↦ value_of k s | some v ↦ v ])
    go (c, f, g) = (
      c.shard,
      c.callbacks,
      rw (commit, e, p, c.returns, f) refl,
      λ k. c.values k ∙ value_of-apply_update k t.state_update s,
    )

returned-shard :
    (a b : Shard) (x y : List PendingCallback)
    → ◌≡◌ {A = Outcome (Shard × List PendingCallback)} (returned (a, x)) (returned (b, y))
    → a ≡ b
returned-shard a b x y e = ground arith

-- A call of `try_lock` that returns leaves the state of every ticket, but of those it wounds: these
-- are younger than the caller, and were not prepared.
pub try_lock_wounds :
    (n broker : ℕ) (k : Key) (lt : LockType) (first_lock : Bool) (callback : ℕ) (s t : Shard)
    (cbs : List PendingCallback)
    → Reachable s
    → (first_lock ≡ true → lookup n s.tickets ≡ none)
    → try_lock n broker k lt first_lock callback s ≡ returned (t, cbs)
    → (m : ℕ)
    → ((ticket_of m t).state ≡ (ticket_of m s).state)
      ⊎ ((n < m) × (is_prepared (ticket_of m s).state ≡ false) × ((ticket_of m t).state ≡ wounded))
unfolding IsWoundWait
try_lock_wounds n b k lt f cb s t cbs r h e m =
    let x = try_lock-Tries n b k lt f cb s (Reachable-Sound r) h in
    let end = returned-shard x.shard t x.callbacks cbs (sym x.returns ∙ e) in
    rw (sym end) (x.wound_wait m)
