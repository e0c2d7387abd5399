-- ===== src/RuntimeShard/Consistent/Calls.antt =====
-- `commit` and `rollback` return, and keep the shard consistent with no queued ticket that could be
-- granted its lock.
use opencbdc_tx.RuntimeShard.{
  not_prepared, held_keys, TicketState, unknown_ticket, Key, Value, begun, prepared, wounded,
  committed, Ticket, PendingCallback, Shard, ticket_of, set_value, set_ticket, release_locks,
  acquire_locks, ShardError,
}
use opencbdc_tx.Common.{
  ==_refl, ℕ, ◌≡◌, refl, sym, ap, ◌∙◌, false, List, [], ◌∷◌, ◌++◌, Option, none, some, ◌==◌,
  contains, lookup, arith, Bool-cases, inl, inr, returned,
}
use opencbdc_tx.RuntimeShard.Operations.{
  Result, apply_update, commit_prepared, commit, erase_ticket, rollback, failed,
}
use opencbdc_tx.RuntimeShard.Views.{
  value_of, value_of-set_ticket, lock_of-set_value, ticket_of-set_value, ticket_of-set_ticket,
}
use opencbdc_tx.RuntimeShard.Consistent.Loop.{
  IsSettled, acquire_locks-Keeps, acquire_locks-IsSettled,
}
use opencbdc_tx.RuntimeShard.Consistent.Free.{
  Resembles, Resembles-refl, Releases, release_locks-Releases,
}
use opencbdc_tx.RuntimeShard.Consistent.Tickets.{
  value_of-erase_ticket, begun≢prepared, ticket_of-erase_ticket, prepared-queued_locks, Proper,
  set_ticket-Consistent, Unlocked, erase_ticket-Consistent, Sound, set_ticket-IsSettled,
  erase_ticket-IsSettled,
}

-- The locks of a ticket are released and given to the tickets that wait for them.
record Freed (n : ℕ) (s : Shard) : Type 0 where
  shard : Shard
  aborted : List PendingCallback
  keys : List Key
  returns : release_locks n s ≡ returned (shard, aborted, keys)
  abort_none : (ticket_of n s).queued_locks ≡ [] → aborted ≡ []
  sound : Sound (acquire_locks keys shard).0
  values : (j : Key) → value_of j (acquire_locks keys shard).0 ≡ value_of j s
  emptied :
      ticket_of n (acquire_locks keys shard).0
      ≡ record (ticket_of n s) { queued_locks = []; locks_held = [] }
  states :
      (m : ℕ)
      → (n == m) ≡ false
      → (ticket_of m (acquire_locks keys shard).0).state ≡ (ticket_of m s).state
  keeps_prepared :
      (m : ℕ)
      → (n == m) ≡ false
      → (ticket_of m s).state ≡ prepared
      → ticket_of m (acquire_locks keys shard).0 ≡ ticket_of m s

release-Freed : (n : ℕ) (r s : Shard) → Sound r → Resembles n r s → Freed n s
unfolding IsSettled contains
release-Freed n r s sound like = go (release_locks-Releases n r s sound.consistent like)
  where
    settled : (f : Releases n s (release_locks n s)) → IsSettled f.keys f.shard
    settled f j = elim (Bool-cases (contains j f.keys)) [
      | inl e ↦ rw e refl
      | inr e ↦ rw (e, f.others j e, like.same_lock j) (sound.settled j)
    ]

    go : Releases n s (release_locks n s) → Freed n s
    go f =
        let keeps = acquire_locks-Keeps f.keys f.shard f.consistent in
        record {
          shard = f.shard;
          aborted = f.callbacks;
          keys = f.keys;
          returns = f.returns;
          abort_none = f.aborted;
          sound = record {
            consistent = keeps.consistent;
            settled = acquire_locks-IsSettled f.keys f.shard f.consistent (settled f);
          };
          values = λ j. keeps.values j ∙ f.values j;
          emptied =
              keeps.resting n (rw (f.tickets n, ==_refl n) refl) ∙ rw (f.tickets n, ==_refl n) refl;
          states = λ m h. keeps.states m ∙ rw (f.tickets m, h) refl;
          keeps_prepared = λ m h p.
              let same : ticket_of m f.shard ≡ ticket_of m s = rw (f.tickets m, h) refl in
              keeps.resting m
                (prepared-queued_locks m f.shard f.consistent (ap (λ t. t.state) same ∙ p))
              ∙ same;
        }

emptied-Unlocked :
    (n : ℕ) (t : Ticket) (u : Shard)
    → ticket_of n u ≡ record t { queued_locks = []; locks_held = [] }
    → Unlocked n u
unfolding lookup contains
emptied-Unlocked n t u e = record { unheld = λ k. rw e refl; unqueued = λ k. rw e refl }

no_locks-Proper : (t : Ticket) → t.queued_locks ≡ [] → t.locks_held ≡ [] → Proper t
unfolding lookup contains held_keys
no_locks-Proper t q h = record {
  held_once = rw h tt;
  queued_once = rw q tt;
  idle = λ k x. rw h refl;
  ready = λ k. rw q (λ x. absurd (ground arith));
  needy = λ k. rw q (λ x. absurd (ground arith));
}

pub committed≢prepared : TicketState.committed ≡ TicketState.prepared → ⊥
committed≢prepared h = ground arith

-- A call for a ticket that returns, with a sound shard, on which the other tickets that are prepared
-- are as before, and the values are those of the shard `r`.
pub record Completes (n : ℕ) (r s : Shard) (o : Result) : Type 0 where
  pub shard : Shard
  pub callbacks : List PendingCallback
  pub answer : Option ShardError
  pub returns : o ≡ returned (shard, callbacks, answer)
  pub sound : Sound shard
  pub values : (j : Key) → value_of j shard ≡ value_of j r
  pub keeps_prepared :
      (m : ℕ)
      → (n == m) ≡ false
      → (ticket_of m s).state ≡ prepared
      → ticket_of m shard ≡ ticket_of m s
  pub prepared_before :
      (m : ℕ) → (ticket_of m shard).state ≡ prepared → ticket_of m shard ≡ ticket_of m s

unchanged :
    (n : ℕ) (s : Shard) (a : Option ShardError) (o : Result)
    → Sound s
    → o ≡ returned (s, [], a)
    → Completes n s s o
unchanged n s a o sound e = record {
  shard = s;
  callbacks = [];
  answer = a;
  returns = e;
  sound = sound;
  values = λ j. refl;
  keeps_prepared = λ m h p. refl;
  prepared_before = λ m p. refl;
}

pub rollback-Completes : (n : ℕ) (s : Shard) → Sound s → Completes n s s (rollback n s)
unfolding rollback
rollback-Completes n s sound =
    go (lookup n s.tickets) refl (release-Freed n s s sound (Resembles-refl n s))
  where
    go : (r : Option Ticket) → lookup n s.tickets ≡ r → Freed n s → Completes n s s (rollback n s)
    go none e f = unchanged n s (failed unknown_ticket) (rollback n s) sound (rw (rollback, e) refl)
    go (some t) e f = record {
      shard = erase_ticket n (acquire_locks f.keys f.shard).0;
      callbacks = (acquire_locks f.keys f.shard).1 ++ f.aborted;
      answer = none;
      returns = rw (rollback, e, f.returns) refl;
      sound = record {
        consistent =
            erase_ticket-Consistent n _ f.sound.consistent
              (emptied-Unlocked n (ticket_of n s) (acquire_locks f.keys f.shard).0 f.emptied);
        settled = erase_ticket-IsSettled [] n _ f.sound.settled;
      };
      values = λ j. value_of-erase_ticket j n _ ∙ f.values j;
      keeps_prepared = λ m h p.
          rw (ticket_of-erase_ticket m n (acquire_locks f.keys f.shard).0, h)
            (f.keeps_prepared m h p);
      prepared_before = λ m.
          rw (ticket_of-erase_ticket m n (acquire_locks f.keys f.shard).0)
            (elim (Bool-cases (n == m)) [
              | inl h ↦ rw h (λ p. absurd (begun≢prepared p))
              | inr h ↦ rw h (λ p. f.keeps_prepared m h (sym (f.states m h) ∙ p))
            ]);
    }

pub lookup-ticket_of :
    (n : ℕ) (t : Ticket) (s : Shard) → lookup n s.tickets ≡ some t → ticket_of n s ≡ t
unfolding ticket_of
lookup-ticket_of n t s e = rw (ticket_of, e) refl

ticket_of-apply_update :
    (n : ℕ) (u : List (Key × Value)) (s : Shard) → ticket_of n (apply_update u s) ≡ ticket_of n s
unfolding apply_update
ticket_of-apply_update n [] s = refl
ticket_of-apply_update n ((k, v) ∷ u) s =
    ticket_of-apply_update n u (set_value k v s) ∙ ticket_of-set_value n k v s

apply_update-Resembles :
    (n : ℕ) (u : List (Key × Value)) (s : Shard) → Resembles n s (apply_update u s)
unfolding apply_update
apply_update-Resembles n [] s = Resembles-refl n s
apply_update-Resembles n ((k, v) ∷ u) s =
    let rest = apply_update-Resembles n u (set_value k v s) in
    record {
      same_lock = λ j. rest.same_lock j ∙ lock_of-set_value j k v s;
      same_queued =
          λ m. rest.same_queued m ∙ ap (λ t. t.queued_locks) (ticket_of-set_value m k v s);
      same_held = λ m. rest.same_held m ∙ ap (λ t. t.locks_held) (ticket_of-set_value m k v s);
      same_state = λ m h. rest.same_state m h ∙ ap (λ t. t.state) (ticket_of-set_value m k v s);
    }

-- The state after `commit` of a prepared ticket.
pub commit_prepared-Completes :
    (n : ℕ) (t : Ticket) (s : Shard)
    → Sound s
    → lookup n s.tickets ≡ some t
    → t.state ≡ prepared
    → (c : Completes n (apply_update t.state_update s) s (commit_prepared n t s)) × (c.answer
        ≡ none)
      × ((ticket_of n c.shard).state ≡ TicketState.committed)
unfolding commit_prepared
commit_prepared-Completes n t s sound e p = go (
    release-Freed n s (apply_update t.state_update s) sound
      (apply_update-Resembles n t.state_update s))
  where
    none_queued : (ticket_of n (apply_update t.state_update s)).queued_locks ≡ []
    none_queued =
        (apply_update-Resembles n t.state_update s).same_queued n
        ∙ prepared-queued_locks n s sound.consistent
            (ap (λ x. x.state) (lookup-ticket_of n t s e) ∙ p)

    go :
        Freed n (apply_update t.state_update s)
        → (c : Completes n (apply_update t.state_update s) s (commit_prepared n t s)) × (c.answer
            ≡ none)
          × ((ticket_of n c.shard).state ≡ TicketState.committed)
    go f =
        let v = (acquire_locks f.keys f.shard).0 in
        (
          record {
            shard = set_ticket n (record (ticket_of n v) { state = committed }) v;
            callbacks = (acquire_locks f.keys f.shard).1;
            answer = none;
            returns = rw (commit_prepared, f.returns, f.abort_none none_queued) refl;
            sound = record {
              consistent =
                  set_ticket-Consistent n (record (ticket_of n v) { state = committed }) v
                    f.sound.consistent refl refl
                    (no_locks-Proper _ (ap (λ x. x.queued_locks) f.emptied)
                      (ap (λ x. x.locks_held) f.emptied));
              settled = set_ticket-IsSettled [] n _ v f.sound.settled;
            };
            values = λ j. value_of-set_ticket j n _ _ ∙ f.values j;
            keeps_prepared = λ m h p.
                let same = ticket_of-apply_update m t.state_update s in
                rw (ticket_of-set_ticket m n (record (ticket_of n v) { state = committed }) v, h)
                  (f.keeps_prepared m h (ap (λ x. x.state) same ∙ p) ∙ same);
            prepared_before = λ m.
                rw (ticket_of-set_ticket m n (record (ticket_of n v) { state = committed }) v)
                  (elim (Bool-cases (n == m)) [
                    | inl h ↦ rw h (λ p. absurd (committed≢prepared p))
                    | inr h ↦ rw h (λ p.
                        f.keeps_prepared m h (sym (f.states m h) ∙ p)
                        ∙ ticket_of-apply_update m t.state_update s)
                  ]);
          },
          refl,
          rw (ticket_of-set_ticket n n (record (ticket_of n v) { state = committed }) v, ==_refl n)
              refl,
        )

-- The shard, with the update of the ticket if it is prepared.
unfoldable pub written : ℕ → Shard → Shard
written n s = elim (lookup n s.tickets) [
  | none ↦ s
  | some t ↦ elim t.state [
    | prepared ↦ apply_update t.state_update s
    | begun ↦ s
    | wounded ↦ s
    | committed ↦ s
  ]
]

pub commit-Completes : (n : ℕ) (s : Shard) → Sound s → Completes n (written n s) s (commit n s)
unfolding commit written
commit-Completes n s sound =
    go (lookup n s.tickets) refl (λ t e p. (commit_prepared-Completes n t s sound e p).0)
  where
    by_state :
        (t : Ticket) (st : TicketState)
        → lookup n s.tickets ≡ some t
        → t.state ≡ st
        → (t.state ≡ prepared
            → Completes n (apply_update t.state_update s) s (commit_prepared n t s))
        → Completes n (written n s) s (commit n s)
    by_state t prepared e f c = rw (written, commit, e, f) (c f)
    by_state t begun e f c =
        rw (written, e, f)
          (unchanged n s (failed not_prepared) (commit n s) sound (rw (commit, e, f) refl))
    by_state t wounded e f c =
        rw (written, e, f)
          (unchanged n s (failed not_prepared) (commit n s) sound (rw (commit, e, f) refl))
    by_state t committed e f c =
        rw (written, e, f)
          (unchanged n s (failed not_prepared) (commit n s) sound (rw (commit, e, f) refl))

    go :
        (r : Option Ticket)
        → lookup n s.tickets ≡ r
        → ((t : Ticket)
            → lookup n s.tickets ≡ some t
            → t.state ≡ prepared
            → Completes n (apply_update t.state_update s) s (commit_prepared n t s))
        → Completes n (written n s) s (commit n s)
    go none e c =
        rw (written, e)
          (unchanged n s (failed unknown_ticket) (commit n s) sound (rw (commit, e) refl))
    go (some t) e c = by_state t t.state e refl (c t e)
