-- ===== src/RuntimeShard/Isolation.antt =====
-- A key that a ticket has locked keeps its value until the ticket itself commits.
use opencbdc_tx.RuntimeShard.Consistent.Phases.{
  no_error, prepare-cases, finish-cases, prepare_error-check,
}
use opencbdc_tx.RuntimeShard.Consistent.Calls.{
  lookup-ticket_of, Completes, rollback-Completes, commit-Completes, written,
}
use opencbdc_tx.RuntimeShard.Consistent.Locking.{prepared_before, Tries, try_lock-Tries}
use opencbdc_tx.RuntimeShard.{
  set_value, Key, Value, LockType, read, write, TicketState, begun, prepared, wounded, committed,
  Ticket, Shard, ticket_of,
}
use opencbdc_tx.Common.{
  ◌⊎◌, ℕ, ◌≡◌, refl, sym, ap, ◌∙◌, Bool, false, List, [], ◌∷◌, Option, none, some, ◌==◌,
  if◌then◌else◌, lookup, arith, Bool-cases, inl, inr, returned,
}
use opencbdc_tx.RuntimeShard.Operations.{
  try_lock, check_update, prepare, apply_update, commit, rollback, finish,
}
use opencbdc_tx.RuntimeShard.Views.{
  held, value_of, ticket_of-set_ticket, value_of-set_ticket, value_of-set_value,
}
use opencbdc_tx.RuntimeShard.Consistent.Tickets.{
  Sound, begun≢prepared, ticket_of-erase_ticket, value_of-erase_ticket,
}
use opencbdc_tx.RuntimeShard.Steps.{
  Call, locking, preparing, committing, rolling_back, finishing, perform, IsAllowed, empty_shard,
  Reachable, start, step,
}
use opencbdc_tx.RuntimeShard.Safety.{Reachable-Sound}
use opencbdc_tx.RuntimeShard.Exclusion.{write_excludes}

-- The update of a prepared ticket passed the check of `prepare`, and still does.
Guarded : Shard → Type 0
Guarded s =
    (n : ℕ)
    → (ticket_of n s).state ≡ prepared
    → check_update (ticket_of n s) (ticket_of n s).state_update ≡ none

-- Whether the call is the commit of the ticket.
unfoldable pub is_commit_of : ℕ → Call → Bool
is_commit_of n (committing m) = m == n
is_commit_of n (locking m b k lt f cb) = false
is_commit_of n (preparing m u) = false
is_commit_of n (rolling_back m) = false
is_commit_of n (finishing m) = false

-- Prepared tickets are as before, so they stay guarded.
still-Guarded :
    (s t : Shard)
    → Guarded s
    → ((m : ℕ) → (ticket_of m t).state ≡ prepared → ticket_of m t ≡ ticket_of m s)
    → Guarded t
unfolding Guarded
still-Guarded s t g same m p = rw (same m p) (g m (ap (λ x. x.state) (sym (same m p)) ∙ p))

unfoldable pub updates : Key → List (Key × Value) → Option Value
updates k [] = none
updates k ((j, v) ∷ u) = elim (updates k u) [
  | none ↦ if j == k then some v else none
  | some w ↦ some w
]

-- The value after the update: that of the last entry for the key.
pub value_of-apply_update :
    (k : Key) (u : List (Key × Value)) (s : Shard)
    → value_of k (apply_update u s) ≡ elim (updates k u) [ none ↦ value_of k s | some v ↦ v ]
unfolding apply_update updates
value_of-apply_update k [] s = refl
value_of-apply_update k ((j, v) ∷ u) s =
    ground (arith, value_of-apply_update k u (set_value j v s), value_of-set_value k j v s)

check_update-held :
    (t : Ticket) (u : List (Key × Value)) (k : Key)
    → check_update t u ≡ none
    → (updates k u ≡ none) ⊎ (lookup k t.locks_held ≡ some write)
unfolding check_update updates
check_update-held t [] k h = inl refl
check_update-held t ((j, v) ∷ u) k h =
    go (lookup j t.locks_held) refl (λ g. check_update-held t u k g)
  where
    written_next :
        lookup j t.locks_held ≡ some write → check_update t ((j, v) ∷ u) ≡ check_update t u
    written_next e = rw (check_update, e) refl

    go :
        (l : Option LockType)
        → lookup j t.locks_held ≡ l
        → (check_update t u ≡ none → (updates k u ≡ none) ⊎ (lookup k t.locks_held ≡ some write))
        → (updates k ((j, v) ∷ u) ≡ none) ⊎ (lookup k t.locks_held ≡ some write)
    go none e next = absurd (no_error (check_update t ((j, v) ∷ u)) h (rw (check_update, e) refl))
    go (some read) e next =
        absurd (no_error (check_update t ((j, v) ∷ u)) h (rw (check_update, e) refl))
    go (some write) e next = elim (Bool-cases (j == k)) [
      | inl f ↦
          let same : j ≡ k = ground arith in inr (ap (λ i. lookup i t.locks_held) (sym same) ∙ e)
      | inr f ↦ elim (next (sym (written_next e) ∙ h)) [
        | inl g ↦ inl (rw (g, f) refl)
        | inr g ↦ inr g
      ]
    ]

check_update-same :
    (t r : Ticket) (u : List (Key × Value))
    → t.locks_held ≡ r.locks_held
    → check_update t u ≡ check_update r u
unfolding check_update
check_update-same t r [] e = refl
check_update-same t r ((k, v) ∷ u) e = ground (arith, check_update-same t r u e, ap (lookup k) e)

prepare-Guarded :
    (n : ℕ) (u : List (Key × Value)) (s : Shard) → Guarded s → Guarded (prepare n u s).0
unfolding Guarded
prepare-Guarded n u s g = elim (prepare-cases n u s) [
  | inl e ↦ rw e g
  | inr (t, o, f, e) ↦ rw e (λ m.
      rw (ticket_of-set_ticket m n (record t { state_update = u; state = prepared }) s)
        (elim (Bool-cases (n == m)) [
          | inl d ↦ rw d (λ p.
              check_update-same (record t { state_update = u; state = prepared }) t u refl
              ∙ prepare_error-check t u f)
          | inr d ↦ rw d (g m)
        ]))
]

value_of-prepare :
    (k : Key) (n : ℕ) (u : List (Key × Value)) (s : Shard)
    → value_of k (prepare n u s).0 ≡ value_of k s
value_of-prepare k n u s = elim (prepare-cases n u s) [
  | inl e ↦ rw e refl
  | inr (t, o, f, e) ↦
      rw e (value_of-set_ticket k n (record t { state_update = u; state = prepared }) s)
]

pub finish-prepared :
    (n : ℕ) (s : Shard) (m : ℕ)
    → (ticket_of m (finish n s).0).state ≡ prepared
    → ticket_of m (finish n s).0 ≡ ticket_of m s
finish-prepared n s m = elim (finish-cases n s) [
  | inl e ↦ rw e (λ p. refl)
  | inr (o, e) ↦
      rw (e, ticket_of-erase_ticket m n s)
        (elim (Bool-cases (n == m)) [
          | inl d ↦ rw d (λ p. absurd (begun≢prepared p))
          | inr d ↦ rw d (λ p. refl)
        ])
]

pub value_of-finish : (k : Key) (n : ℕ) (s : Shard) → value_of k (finish n s).0 ≡ value_of k s
value_of-finish k n s = elim (finish-cases n s) [
  | inl e ↦ rw e refl
  | inr (o, e) ↦ rw e (value_of-erase_ticket k n s)
]

-- The shard whose values a call leaves.
after : Call → Shard → Shard
after (committing n) s = written n s
after (locking n b k lt f cb) s = s
after (preparing n u) s = s
after (rolling_back n) s = s
after (finishing n) s = s

record Effects (c : Call) (s : Shard) : Type 0 where
  shard : Shard
  returns : perform c s ≡ returned shard
  guarded : Guarded s → Guarded shard
  values : (k : Key) → value_of k shard ≡ value_of k (after c s)

perform-Effects : (c : Call) (s : Shard) → Sound s → IsAllowed c s → Effects c s
unfolding perform IsAllowed after
perform-Effects (locking n b k lt f cb) s sound h = go (try_lock-Tries n b k lt f cb s sound h)
  where
    go : Tries n s (try_lock n b k lt f cb s) → Effects (locking n b k lt f cb) s
    go t = record {
      shard = t.shard;
      returns = rw (perform, t.returns) refl;
      guarded = λ g. still-Guarded s t.shard g (prepared_before t);
      values = t.values;
    }
perform-Effects (preparing n u) s sound h = record {
  shard = (prepare n u s).0;
  returns = refl;
  guarded = prepare-Guarded n u s;
  values = λ k. value_of-prepare k n u s;
}
perform-Effects (committing n) s sound h = go (commit-Completes n s sound)
  where
    go : Completes n (written n s) s (commit n s) → Effects (committing n) s
    go t = record {
      shard = t.shard;
      returns = rw (perform, t.returns) refl;
      guarded = λ g. still-Guarded s t.shard g t.prepared_before;
      values = t.values;
    }
perform-Effects (rolling_back n) s sound h = go (rollback-Completes n s sound)
  where
    go : Completes n s s (rollback n s) → Effects (rolling_back n) s
    go t = record {
      shard = t.shard;
      returns = rw (perform, t.returns) refl;
      guarded = λ g. still-Guarded s t.shard g t.prepared_before;
      values = t.values;
    }
perform-Effects (finishing n) s sound h = record {
  shard = (finish n s).0;
  returns = refl;
  guarded = λ g. still-Guarded s (finish n s).0 g (finish-prepared n s);
  values = λ k. value_of-finish k n s;
}

empty_shard-Guarded : Guarded empty_shard
unfolding Guarded ticket_of lookup check_update
empty_shard-Guarded n p = refl

same-Guarded : {s t : Shard} → s ≡ t → Guarded s → Guarded t
same-Guarded e x = rw (sym e) x

Reachable-Guarded : {s : Shard} → Reachable s → Guarded s
Reachable-Guarded start = empty_shard-Guarded
Reachable-Guarded (step {s} {t} c r h e) =
    let p = perform-Effects c s (Reachable-Sound r) h in
    let same : returned p.shard ≡ returned t = sym p.returns ∙ e in
    same-Guarded (ground arith) (p.guarded (Reachable-Guarded r))

value_of-written :
    (n m : ℕ) (k : Key) (lt : LockType) (s : Shard)
    → Reachable s
    → held m k s ≡ some lt
    → (n == m) ≡ false
    → value_of k (written n s) ≡ value_of k s
unfolding written held Guarded
value_of-written n m k lt s r h d = go (lookup n s.tickets) refl
  where
    by_state :
        (t : Ticket) (st : TicketState)
        → lookup n s.tickets ≡ some t
        → t.state ≡ st
        → value_of k (written n s) ≡ value_of k s
    by_state t begun e f = rw (written, e, f) refl
    by_state t wounded e f = rw (written, e, f) refl
    by_state t committed e f = rw (written, e, f) refl
    by_state t prepared e f =
        let same = lookup-ticket_of n t s e in
        rw (written, e, f)
          (value_of-apply_update k t.state_update s
            ∙ kept (
                check_update-held t t.state_update k (
                  ap (λ x. check_update x x.state_update) (sym same)
                  ∙ Reachable-Guarded r n (ap (λ x. x.state) same ∙ f))))
      where
        kept :
            (updates k t.state_update ≡ none) ⊎ (lookup k t.locks_held ≡ some write)
            → (elim (updates k t.state_update) as (λ x. Value) [ none ↦ value_of k s | some v ↦ v ])
              ≡ value_of k s
        kept (inl g) = rw g refl
        kept (inr g) = absurd (
            ground (
              arith,
              d,
              write_excludes n m k lt s r
                  (ap (λ x. lookup k x.locks_held) (lookup-ticket_of n t s e) ∙ g) h,
            ))

    go : (o : Option Ticket) → lookup n s.tickets ≡ o → value_of k (written n s) ≡ value_of k s
    go none e = rw (written, e) refl
    go (some t) e = by_state t t.state e refl

-- While a ticket holds a lock on a key, no call but its own commit changes the value of the key.
pub isolation :
    (c : Call) (s t : Shard) (m : ℕ) (k : Key) (lt : LockType)
    → Reachable s
    → IsAllowed c s
    → perform c s ≡ returned t
    → held m k s ≡ some lt
    → is_commit_of m c ≡ false
    → value_of k t ≡ value_of k s
unfolding is_commit_of after
isolation c s t m k lt r a e h d =
    let p = perform-Effects c s (Reachable-Sound r) a in
    let same : returned p.shard ≡ returned t = sym p.returns ∙ e in
    let end : p.shard ≡ t = ground arith in
    ap (value_of k) (sym end) ∙ p.values k ∙ value_of-after c d
  where
    value_of-after : (c : Call) → is_commit_of m c ≡ false → value_of k (after c s) ≡ value_of k s
    value_of-after (committing n) f = value_of-written n m k lt s r h f
    value_of-after (locking n b j l g cb) f = refl
    value_of-after (preparing n u) f = refl
    value_of-after (rolling_back n) f = refl
    value_of-after (finishing n) f = refl
