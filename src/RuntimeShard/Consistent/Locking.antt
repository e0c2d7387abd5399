-- ===== src/RuntimeShard/Consistent/Locking.antt =====
-- `try_lock` returns and keeps the shard consistent; it wounds only younger tickets that are not
-- prepared.
use opencbdc_tx.RuntimeShard.{
  error, held_keys, TicketState, unknown_ticket, Key, LockType, read, write, begun, prepared,
  wounded, committed, RwLock, Ticket, PendingCallback, Shard, lock_of, ticket_of, set_lock,
  set_ticket, new_ticket, enqueue, younger, younger_writer, get_waiting_on, is_prepared,
  wound_tickets, ShardError,
}
use opencbdc_tx.Common.{
  ◌⊎◌, ℕ, ◌≡◌, ◌<◌, refl, sym, ap, ◌∙◌, Bool, true, false, ◌||◌, ◌&&◌, List, [], ◌∷◌, ◌++◌, Option,
  none, some, ◌==◌, ltb, if◌then◌else◌, contains, insert, contains-insert, insert-AreDistinct,
  lookup, arith, Bool-cases, Option-cases, inl, inr, Outcome, returned,
}
use opencbdc_tx.RuntimeShard.Operations.{
  try_lock_error, queue_lock, try_lock_known, try_lock, covers,
}
use opencbdc_tx.RuntimeShard.Views.{
  value_of, value_of-set_lock, value_of-set_ticket, is_write, held, lock_of-set_lock,
  ticket_of-set_lock, lock_of-set_ticket, ticket_of-set_ticket, is_queued-enqueue,
}
use opencbdc_tx.RuntimeShard.Consistent.{Consistent, is_live}
use opencbdc_tx.RuntimeShard.Consistent.Loop.{IsSettled}
use opencbdc_tx.RuntimeShard.Consistent.Wound.{WoundsAll, wound_tickets-WoundsAll}
use opencbdc_tx.RuntimeShard.Consistent.Tickets.{
  begun≢prepared, set_ticket-Consistent, Sound, set_ticket-IsSettled,
}
use opencbdc_tx.RuntimeShard.Consistent.Phases.{no_error}

try_lock_error-none :
    (t : Ticket) (k : Key) (lt : LockType)
    → try_lock_error t k lt ≡ none
    → (t.state ≡ begun)
      × (contains k t.queued_locks ≡ false)
      × (covers (lookup k t.locks_held) lt ≡ false)
unfolding try_lock_error
try_lock_error-none t k lt h = go t.state refl
  where
    refused :
        (st : Bool)
        → t.state ≡ begun
        → covers (lookup k t.locks_held) lt ≡ st
        → (b : Bool) → contains k t.queued_locks ≡ b
        → (t.state ≡ begun)
          × (contains k t.queued_locks ≡ false)
          × (covers (lookup k t.locks_held) lt ≡ false)
    refused true e f b g =
        absurd (no_error (try_lock_error t k lt) h (rw (try_lock_error, e, f) refl))
    refused false e f true g =
        absurd (no_error (try_lock_error t k lt) h (rw (try_lock_error, e, f, g) refl))
    refused false e f false g = (e, g, f)

    go :
        (st : TicketState)
        → t.state ≡ st
        → (t.state ≡ begun)
          × (contains k t.queued_locks ≡ false)
          × (covers (lookup k t.locks_held) lt ≡ false)
    go begun e = refused (covers (lookup k t.locks_held) lt) e refl (contains k t.queued_locks) refl
    go prepared e = absurd (no_error (try_lock_error t k lt) h (rw (try_lock_error, e) refl))
    go wounded e = absurd (no_error (try_lock_error t k lt) h (rw (try_lock_error, e) refl))
    go committed e = absurd (no_error (try_lock_error t k lt) h (rw (try_lock_error, e) refl))

module _ (n broker : ℕ) (k : Key) (lt : LockType) (callback : ℕ) (s : Shard) where
  abbrev new_queue : RwLock
  new_queue = record (lock_of k s) {
    queue = enqueue n (record { type = lt; callback = callback }) (lock_of k s).queue;
  }

  abbrev waiting_ticket : Ticket
  waiting_ticket = record (ticket_of n s) {
    broker_id = broker;
    queued_locks = insert k (ticket_of n s).queued_locks;
  }

  lock_of-queue_lock :
      (j : Key)
      → lock_of j (queue_lock n broker k lt callback s)
        ≡ (if k == j then new_queue else lock_of j s)
  unfolding queue_lock
  lock_of-queue_lock j =
      lock_of-set_ticket j n waiting_ticket (set_lock k new_queue s)
      ∙ lock_of-set_lock j k new_queue s

  ticket_of-queue_lock :
      (m : ℕ)
      → ticket_of m (queue_lock n broker k lt callback s)
        ≡ (if n == m then waiting_ticket else ticket_of m s)
  unfolding queue_lock
  ticket_of-queue_lock m =
      ticket_of-set_ticket m n waiting_ticket (set_lock k new_queue s)
      ∙ ap (λ t. if n == m then waiting_ticket else t) (ticket_of-set_lock m k new_queue s)

  value_of-queue_lock : (j : Key) → value_of j (queue_lock n broker k lt callback s) ≡ value_of j s
  unfolding queue_lock
  value_of-queue_lock j =
      value_of-set_ticket j n waiting_ticket (set_lock k new_queue s)
      ∙ value_of-set_lock j k new_queue s

  queue_lock-needs :
      is_write (held n k s) ≡ false
      → (m : ℕ) (j : Key)
      → (contains j (ticket_of m s).queued_locks ≡ true → is_write (held m j s) ≡ false)
      → contains j (if n == m then waiting_ticket else ticket_of m s).queued_locks ≡ true
      → is_write (lookup j (if n == m then waiting_ticket else ticket_of m s).locks_held) ≡ false
  unfolding held
  queue_lock-needs nw m j old = elim (Bool-cases (n == m)) [
    | inr e ↦ rw e old
    | inl e ↦
        let same : n ≡ m = ground arith in
        rw e (λ h. elim (Bool-cases (k == j)) [
          | inl f ↦
              let key : k ≡ j = ground arith in
              ap (λ i. is_write (lookup i (ticket_of n s).locks_held)) (sym key) ∙ nw
          | inr f ↦
              ap (λ l. is_write (lookup j (ticket_of l s).locks_held)) same
              ∙ old (
                  ap (λ l. contains j (ticket_of l s).queued_locks) (sym same)
                  ∙ ground (arith, contains-insert j k (ticket_of n s).queued_locks))
        ])
  ]

  queue_lock-Consistent :
      Consistent s
      → (ticket_of n s).state ≡ begun
      → contains k (ticket_of n s).queued_locks ≡ false
      → is_write (held n k s) ≡ false
      → Consistent (queue_lock n broker k lt callback s)
  unfolding held is_live
  queue_lock-Consistent c b q nw =
      let L = lock_of-queue_lock in
      let T = ticket_of-queue_lock in
      record {
        writer = λ m j. rw (L j, T m) (ground (arith, c.writer m j));
        readers = λ m j. rw (L j, T m) (ground (arith, c.readers m j));
        queue = λ m j.
            rw (L j, T m)
              (ground (
                arith,
                c.queue m j,
                is_queued-enqueue m n (record { type = lt; callback = callback })
                    (lock_of k s).queue,
                contains-insert j k (ticket_of n s).queued_locks,
              ));
        exclusive = λ l m j. rw (L j) (ground (arith, c.exclusive l m j));
        readers_once = λ j. rw (L j) (ground (arith, c.readers_once j));
        held_once = λ m. rw (T m) (ground (arith, c.held_once m));
        queued_once = λ m.
            rw (T m)
              (ground (arith, c.queued_once m, insert-AreDistinct k (ticket_of n s).queued_locks));
        idle = λ m j. rw (T m) (ground (arith, c.idle m j, ap is_live b));
        needy = λ m j. rw (T m) (queue_lock-needs nw m j (c.needy m j));
        ready = λ m j.
            rw (T m)
              (ground (arith, c.ready m j, contains-insert j k (ticket_of n s).queued_locks));
      }

  queue_lock-IsSettled : IsSettled [] s → IsSettled (k ∷ []) (queue_lock n broker k lt callback s)
  unfolding IsSettled contains
  queue_lock-IsSettled h j = elim (Bool-cases (k == j)) [
    | inl e ↦ rw e refl
    | inr e ↦ rw (e, lock_of-queue_lock j, e) (h j)
  ]

  states-queue_lock :
      (m : ℕ) → (ticket_of m (queue_lock n broker k lt callback s)).state ≡ (ticket_of m s).state
  states-queue_lock m = elim (Bool-cases (n == m)) [
    | inl e ↦
        let same : n ≡ m = ground arith in
        rw (ticket_of-queue_lock m, e) (ap (λ l. (ticket_of l s).state) same)
    | inr e ↦ rw (ticket_of-queue_lock m, e) refl
  ]

not_write :
    (n : ℕ) (k : Key) (lt : LockType) (s : Shard)
    → covers (lookup k (ticket_of n s).locks_held) lt ≡ false
    → is_write (held n k s) ≡ false
unfolding held covers is_write
not_write n k lt s h = go (lookup k (ticket_of n s).locks_held) h
  where
    go : (l : Option LockType) → covers l lt ≡ false → is_write l ≡ false
    go none f = refl
    go (some read) f = refl
    go (some write) f = absurd (ground arith)

contains-younger : (m n : ℕ) (ms : List ℕ) → contains m (younger n ms) ≡ (ltb n m && contains m ms)
unfolding contains younger
contains-younger m n [] = ground arith
contains-younger m n (l ∷ ms) = ground (arith, contains-younger m n ms)

contains-append :
    (m : ℕ) (xs ys : List ℕ) → contains m (xs ++ ys) ≡ (contains m xs || contains m ys)
unfolding contains
contains-append m [] ys = refl
contains-append m (x ∷ xs) ys = ground (arith, contains-append m xs ys)

younger_writer-lt : (m n : ℕ) (w : Option ℕ) → contains m (younger_writer n w) ≡ true → n < m
unfolding younger_writer contains
younger_writer-lt m n none h = ground arith
younger_writer-lt m n (some w) h = ground arith

get_waiting_on-lt :
    (m n : ℕ) (lt : LockType) (lk : RwLock) → contains m (get_waiting_on n lt lk) ≡ true → n < m
unfolding get_waiting_on
get_waiting_on-lt m n read lk h = younger_writer-lt m n lk.writer h
get_waiting_on-lt m n write lk h = ground (
  arith,
  contains-append m (younger n lk.readers) (younger_writer n lk.writer),
  contains-younger m n lk.readers,
  younger_writer-lt m n lk.writer,
)

abbrev answer : ℕ → ShardError → ℕ → PendingCallback
answer callback err n = record { callback = callback; returning = error err; ticket_number = n }

wounded≢prepared : TicketState.wounded ≡ TicketState.prepared → ⊥
wounded≢prepared h = ground arith

-- A ticket keeps its state, or is a younger one that was not prepared, and is wounded.
unfoldable pub IsWoundWait : ℕ → Shard → Shard → Type 0
IsWoundWait n s t =
    (m : ℕ)
    → ((ticket_of m t).state ≡ (ticket_of m s).state)
      ⊎ ((n < m) × (is_prepared (ticket_of m s).state ≡ false) × ((ticket_of m t).state ≡ wounded))

-- What a call of `try_lock` does.
pub record Tries (n : ℕ) (s : Shard) (o : Outcome (Shard × List PendingCallback)) : Type 0 where
  pub shard : Shard
  pub callbacks : List PendingCallback
  pub returns : o ≡ returned (shard, callbacks)
  pub sound : Sound shard
  pub wound_wait : IsWoundWait n s shard
  pub values : (j : Key) → value_of j shard ≡ value_of j s
  pub keeps_prepared :
      (m : ℕ) → (ticket_of m s).state ≡ prepared → ticket_of m shard ≡ ticket_of m s

pub prepared_before :
    {n : ℕ} {s : Shard} {o : Outcome (Shard × List PendingCallback)} (t : Tries n s o) (m : ℕ)
    → (ticket_of m t.shard).state ≡ prepared
    → ticket_of m t.shard ≡ ticket_of m s
unfolding IsWoundWait
prepared_before t m p = elim (t.wound_wait m) [
  | inl e ↦ t.keeps_prepared m (sym e ∙ p)
  | inr (l, f, e) ↦ absurd (wounded≢prepared (sym e ∙ p))
]

is_prepared-state : (st : TicketState) → is_prepared st ≡ true → st ≡ prepared
unfolding is_prepared
is_prepared-state prepared h = refl
is_prepared-state begun h = absurd (ground arith)
is_prepared-state wounded h = absurd (ground arith)
is_prepared-state committed h = absurd (ground arith)

refused-Tries :
    (n : ℕ) (s : Shard) (cbs : List PendingCallback) (o : Outcome (Shard × List PendingCallback))
    → Sound s
    → o ≡ returned (s, cbs)
    → Tries n s o
unfolding IsWoundWait
refused-Tries n s cbs o sound e = record {
  shard = s;
  callbacks = cbs;
  returns = e;
  sound = sound;
  wound_wait = λ m. inl refl;
  keeps_prepared = λ m p. refl;
  values = λ j. refl;
}

module _ (n broker : ℕ) (k : Key) (lt : LockType) (callback : ℕ) (s : Shard) (sound : Sound s) where
  queued-Tries :
      try_lock_error (ticket_of n s) k lt ≡ none
      → Tries n s (try_lock_known n broker k lt callback s)
  unfolding try_lock_known IsWoundWait
  queued-Tries e =
      let free = try_lock_error-none (ticket_of n s) k lt e in
      go (
        wound_tickets-WoundsAll k (get_waiting_on n lt (lock_of k u)) n u
          (queue_lock-Consistent n broker k lt callback s sound.consistent free.0 free.1
            (not_write n k lt s free.2))
          (queue_lock-IsSettled n broker k lt callback s sound.settled))
    where
      u : Shard
      u = queue_lock n broker k lt callback s

      kept : (m : ℕ) → (ticket_of m s).state ≡ prepared → ticket_of m u ≡ ticket_of m s
      kept m p = elim (Bool-cases (n == m)) [
        | inl f ↦
            let same : n ≡ m = ground arith in
            absurd (
              begun≢prepared (
                sym (try_lock_error-none (ticket_of n s) k lt e).0
                ∙ ap (λ l. (ticket_of l s).state) same
                ∙ p))
        | inr f ↦ rw (ticket_of-queue_lock n broker k lt callback s m, f) refl
      ]

      wounded_or_not :
          {o : Outcome (Shard × List PendingCallback)}
          (w : WoundsAll (get_waiting_on n lt (lock_of k u)) u o)
          → (m : ℕ)
          → ((ticket_of m w.shard).state ≡ (ticket_of m s).state)
            ⊎ ((n < m)
                × (is_prepared (ticket_of m s).state ≡ false)
                × ((ticket_of m w.shard).state ≡ wounded))
      wounded_or_not w m = elim (Bool-cases (contains m (get_waiting_on n lt (lock_of k u)))) [
        | inr f ↦ inl (w.spares m f ∙ states-queue_lock n broker k lt callback s m)
        | inl f ↦ elim (Bool-cases (is_prepared (ticket_of m u).state)) [
          | inl g ↦ inl (
              ap (λ t. t.state) (w.prepares m (is_prepared-state (ticket_of m u).state g))
              ∙ states-queue_lock n broker k lt callback s m)
          | inr g ↦ inr (
            get_waiting_on-lt m n lt (lock_of k u) f,
            ap is_prepared (sym (states-queue_lock n broker k lt callback s m)) ∙ g,
            w.wounds m f g,
          )
        ]
      ]

      go :
          WoundsAll
            (get_waiting_on n lt (lock_of k u))
            u
            (wound_tickets k (get_waiting_on n lt (lock_of k u)) n u)
          → Tries n s (try_lock_known n broker k lt callback s)
      go w = record {
        shard = w.shard;
        callbacks = w.callbacks;
        returns = rw (try_lock_known, e) w.returns;
        sound = record { consistent = w.consistent; settled = w.settled };
        wound_wait = λ m. wounded_or_not w m;
        values = λ j. w.values j ∙ value_of-queue_lock n broker k lt callback s j;
        keeps_prepared =
            λ m p. w.prepares m (states-queue_lock n broker k lt callback s m ∙ p) ∙ kept m p;
      }

  pub try_lock_known-Tries : Tries n s (try_lock_known n broker k lt callback s)
  unfolding try_lock_known
  try_lock_known-Tries = elim (Option-cases (try_lock_error (ticket_of n s) k lt)) [
    | inl e ↦ queued-Tries e
    | inr (a, e) ↦
        refused-Tries n s (answer callback a n ∷ []) (try_lock_known n broker k lt callback s) sound
          (rw (try_lock_known, e) refl)
  ]

new_ticket-Sound :
    (n : ℕ) (s : Shard) → Sound s → lookup n s.tickets ≡ none → Sound (set_ticket n new_ticket s)
unfolding ticket_of lookup contains held_keys
new_ticket-Sound n s sound e =
    let same : ticket_of n s ≡ new_ticket = rw (ticket_of, e) refl in
    record {
      consistent =
          set_ticket-Consistent n new_ticket s sound.consistent (ap (λ t. t.locks_held) (sym same))
            (ap (λ t. t.queued_locks) (sym same))
            (record {
              held_once = tt;
              queued_once = tt;
              idle = λ k h. refl;
              ready = λ k h. refl;
              needy = λ k h. absurd (ground arith);
            });
      settled = set_ticket-IsSettled [] n new_ticket s sound.settled;
    }

new_ticket-Tries :
    (n : ℕ) (s : Shard) (o : Outcome (Shard × List PendingCallback))
    → lookup n s.tickets ≡ none
    → Tries n (set_ticket n new_ticket s) o
    → Tries n s o
unfolding IsWoundWait ticket_of
new_ticket-Tries n s o e t = record {
  shard = t.shard;
  callbacks = t.callbacks;
  returns = t.returns;
  sound = t.sound;
  wound_wait = λ m. ground (arith, t.wound_wait m, same m);
  keeps_prepared = λ m p. t.keeps_prepared m (ap (λ x. x.state) (same m) ∙ p) ∙ same m;
  values = λ j. t.values j ∙ value_of-set_ticket j n new_ticket s;
}
  where
    same : (m : ℕ) → ticket_of m (set_ticket n new_ticket s) ≡ ticket_of m s
    same m = elim (Bool-cases (n == m)) [
      | inl f ↦
          let l : n ≡ m = ground arith in
          rw (ticket_of-set_ticket m n new_ticket s, f)
            (sym (ap (λ i. ticket_of i s) (sym l) ∙ fresh))
      | inr f ↦ rw (ticket_of-set_ticket m n new_ticket s, f) refl
    ]
      where
        fresh : ticket_of n s ≡ new_ticket
        fresh = rw (ticket_of, e) refl

-- The call, on a ticket that is new exactly if the lock is its first.
pub try_lock-Tries :
    (n broker : ℕ) (k : Key) (lt : LockType) (first_lock : Bool) (callback : ℕ) (s : Shard)
    → Sound s
    → (first_lock ≡ true → lookup n s.tickets ≡ none)
    → Tries n s (try_lock n broker k lt first_lock callback s)
unfolding try_lock
try_lock-Tries n broker k lt first callback s sound h = go (lookup n s.tickets) refl first refl
  where
    go :
        (r : Option Ticket)
        → lookup n s.tickets ≡ r
        → (b : Bool) → first ≡ b
        → Tries n s (try_lock n broker k lt first callback s)
    go (some t) e true f = absurd (ground (arith, h f, e))
    go (some t) e false f =
        rw (try_lock, e, f) (try_lock_known-Tries n broker k lt callback s sound)
    go none e false f =
        refused-Tries n s
          (answer callback (record { error_code = unknown_ticket; wounded_details = none }) n ∷ [])
          (try_lock n broker k lt first callback s) sound (rw (try_lock, e, f) refl)
    go none e true f =
        rw (try_lock, e, f)
          (new_ticket-Tries n s _ e (
            try_lock_known-Tries n broker k lt callback (set_ticket n new_ticket s)
              (new_ticket-Sound n s sound e)))
