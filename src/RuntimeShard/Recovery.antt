-- ===== src/RuntimeShard/Recovery.antt =====
-- `recover`: a new shard takes over the replicated values, and the prepared tickets with their locks.
use opencbdc_tx.RuntimeShard.{
  TicketState, element_of, Key, Value, LockType, write, RwLock, Ticket, Shard, lock_of, ticket_of,
  set_lock, new_ticket, free_lock, held_keys,
}
use opencbdc_tx.Common.{
  ℕ, ◌≡◌, refl, ap, ◌∙◌, Bool, true, false, ◌||◌, List, [], ◌∷◌, Option, none, some, ◌==◌,
  if◌then◌else◌, contains, lookup, emplace, lookup-emplace, arith, Bool-cases, inl, inr,
  AreDistinct,
}
use opencbdc_tx.RuntimeShard.Views.{
  is_writer, is_write, is_read, is_queued, held, value_of, lock_of-set_lock, ticket_of-set_lock,
  value_of-set_lock, contains-held_keys,
}
use opencbdc_tx.RuntimeShard.Consistent.{Consistent, is_live}
use opencbdc_tx.RuntimeShard.Consistent.Acquire.{is_blocked}
use opencbdc_tx.RuntimeShard.Consistent.Loop.{IsSettled}
use opencbdc_tx.RuntimeShard.Consistent.Tickets.{Proper, Consistent-Proper}
use opencbdc_tx.RuntimeShard.Replicated.{
  ReplicatedTicket, ReplicatedState, prepared, committed, write_locks, set_writers, recover_ticket,
}

-- Whether the update writes the key.
unfoldable pub writes : Key → List (Key × Value) → Bool
writes k [] = false
writes k ((j, v) ∷ u) = j == k || writes k u

either : (b : Bool) (x : RwLock) → (if b then x else x) ≡ x
either true x = refl
either false x = refl

lock_of-set_writers :
    (j : Key) (n : ℕ) (u : List (Key × Value)) (s : Shard)
    → lock_of j (set_writers n u s)
      ≡ (if writes j u then record (lock_of j s) { writer = some n } else lock_of j s)
unfolding set_writers writes
lock_of-set_writers j n [] s = refl
lock_of-set_writers j n ((k, v) ∷ u) s = elim (Bool-cases (k == j)) [
  | inl e ↦
      let same : k ≡ j = ground arith in
      lock_of-set_writers j n u (set_lock k (record (lock_of k s) { writer = some n }) s)
      ∙ rw (lock_of-set_lock j k (record (lock_of k s) { writer = some n }) s, e)
          (either (writes j u) _ ∙ ap (λ i. record (lock_of i s) { writer = some n }) same)
  | inr e ↦
      lock_of-set_writers j n u (set_lock k (record (lock_of k s) { writer = some n }) s)
      ∙ rw (lock_of-set_lock j k (record (lock_of k s) { writer = some n }) s, e) refl
]

ticket_of-set_writers :
    (m n : ℕ) (u : List (Key × Value)) (s : Shard) → ticket_of m (set_writers n u s) ≡ ticket_of m s
unfolding set_writers
ticket_of-set_writers m n [] s = refl
ticket_of-set_writers m n ((k, v) ∷ u) s =
    ticket_of-set_writers m n u (set_lock k (record (lock_of k s) { writer = some n }) s)
    ∙ ticket_of-set_lock m k (record (lock_of k s) { writer = some n }) s

value_of-set_writers :
    (j : Key) (n : ℕ) (u : List (Key × Value)) (s : Shard)
    → value_of j (set_writers n u s) ≡ value_of j s
unfolding set_writers
value_of-set_writers j n [] s = refl
value_of-set_writers j n ((k, v) ∷ u) s =
    value_of-set_writers j n u (set_lock k (record (lock_of k s) { writer = some n }) s)
    ∙ value_of-set_lock j k (record (lock_of k s) { writer = some n }) s

lookup-write_locks :
    (k : Key) (u : List (Key × Value)) (hs : List (Key × LockType))
    → ((j : Key) → is_read (lookup j hs) ≡ false)
    → lookup k (write_locks u hs) ≡ (if writes k u then some write else lookup k hs)
unfolding write_locks writes is_read
lookup-write_locks k [] hs h = refl
lookup-write_locks k ((j, v) ∷ u) hs h =
    lookup-write_locks k u (emplace j write hs)
      (λ i. ground (arith, lookup-emplace i j write hs, h i, h j))
    ∙ ground (arith, lookup-emplace k j write hs, h j)

write_locks-AreDistinct :
    (u : List (Key × Value)) (hs : List (Key × LockType))
    → AreDistinct (held_keys hs)
    → AreDistinct (held_keys (write_locks u hs))
unfolding write_locks emplace held_keys is_write is_read
write_locks-AreDistinct [] hs d = d
write_locks-AreDistinct ((k, v) ∷ u) hs d =
    write_locks-AreDistinct u (emplace k write hs) (go (lookup k hs) refl)
  where
    go : (o : Option LockType) → lookup k hs ≡ o → AreDistinct (held_keys (emplace k write hs))
    go none e = rw (emplace, e) (ground (arith, contains-held_keys k hs), d)
    go (some l) e = rw (emplace, e) d

only_tickets :
    (j : Key) (s : Shard) (ts : List (ℕ × Ticket))
    → lock_of j (record s { tickets = ts }) ≡ lock_of j s
unfolding lock_of element_of
only_tickets j s ts = refl

same_values :
    (j : Key) (s : Shard) (ts : List (ℕ × Ticket))
    → value_of j (record s { tickets = ts }) ≡ value_of j s
unfolding value_of element_of
same_values j s ts = refl

-- The ticket that `recover` makes of a replicated one.
unfoldable pub recovered : ReplicatedTicket → Ticket
recovered t = elim t.state [
  | committed ↦ record new_ticket {
    state = TicketState.committed;
    state_update = t.state_update;
    broker_id = t.broker_id;
  }
  | prepared ↦ record new_ticket {
    state = TicketState.prepared;
    locks_held = write_locks t.state_update [];
    state_update = t.state_update;
    broker_id = t.broker_id;
  }
]

-- The keys that a replicated ticket has locked.
unfoldable pub locks : Key → ReplicatedTicket → Bool
locks k t = elim t.state [ committed ↦ false | prepared ↦ writes k t.state_update ]

module _ (n : ℕ) (t : ReplicatedTicket) (s : Shard) where
  pub lock_of-recover_ticket :
      (j : Key)
      → lock_of j (recover_ticket n t s)
        ≡ (if locks j t then record (lock_of j s) { writer = some n } else lock_of j s)
  unfolding recover_ticket locks
  lock_of-recover_ticket j = go t.state refl
    where
      go :
          (st : ReplicatedState)
          → t.state ≡ st
          → lock_of j (recover_ticket n t s)
            ≡ (if locks j t then record (lock_of j s) { writer = some n } else lock_of j s)
      go committed e = rw (recover_ticket, locks, e) (only_tickets j s _)
      go prepared e =
          rw (recover_ticket, locks, e)
            (only_tickets j _ _ ∙ lock_of-set_writers j n t.state_update s)

  pub tickets-recover_ticket : (recover_ticket n t s).tickets ≡ emplace n (recovered t) s.tickets
  unfolding recover_ticket recovered
  tickets-recover_ticket = go t.state refl
    where
      go :
          (st : ReplicatedState)
          → t.state ≡ st
          → (recover_ticket n t s).tickets ≡ emplace n (recovered t) s.tickets
      go committed e = rw (recover_ticket, recovered, e) refl
      go prepared e = rw (recover_ticket, recovered, e) refl

  pub ticket_of-recover_ticket :
      lookup n s.tickets ≡ none
      → (m : ℕ)
      → ticket_of m (recover_ticket n t s) ≡ (if n == m then recovered t else ticket_of m s)
  unfolding ticket_of
  ticket_of-recover_ticket h m =
      rw (ticket_of, tickets-recover_ticket)
        (ground (arith, lookup-emplace m n (recovered t) s.tickets, h))

  pub value_of-recover_ticket : (j : Key) → value_of j (recover_ticket n t s) ≡ value_of j s
  unfolding recover_ticket
  value_of-recover_ticket j = go t.state refl
    where
      go : (st : ReplicatedState) → t.state ≡ st → value_of j (recover_ticket n t s) ≡ value_of j s
      go committed e = rw (recover_ticket, e) (same_values j s _)
      go prepared e =
          rw (recover_ticket, e) (same_values j _ _ ∙ value_of-set_writers j n t.state_update s)

lookup-recovered :
    (k : Key) (t : ReplicatedTicket)
    → lookup k (recovered t).locks_held ≡ (if locks k t then some write else none)
unfolding recovered locks lookup is_read
lookup-recovered k t = go t.state refl
  where
    go :
        (st : ReplicatedState)
        → t.state ≡ st
        → lookup k (recovered t).locks_held ≡ (if locks k t then some write else none)
    go committed e = rw (recovered, locks, e) refl
    go prepared e = rw (recovered, locks, e) (lookup-write_locks k t.state_update [] (λ j. refl))

recovered-Proper : (t : ReplicatedTicket) → Proper (recovered t)
unfolding recovered lookup contains is_live held_keys
recovered-Proper t = go t.state refl
  where
    go : (st : ReplicatedState) → t.state ≡ st → Proper (recovered t)
    go committed e =
        rw (recovered, e)
          (record {
            held_once = tt;
            queued_once = tt;
            idle = λ k h. refl;
            ready = λ k h. absurd (ground arith);
            needy = λ k h. absurd (ground arith);
          })
    go prepared e =
        rw (recovered, e)
          (record {
            held_once = write_locks-AreDistinct t.state_update [] tt;
            queued_once = tt;
            idle = λ k h. absurd (ground arith);
            ready = λ k h. absurd (ground arith);
            needy = λ k h. absurd (ground arith);
          })

queued_locks-recovered : (t : ReplicatedTicket) → (recovered t).queued_locks ≡ []
unfolding recovered
queued_locks-recovered t = go t.state refl
  where
    go : (st : ReplicatedState) → t.state ≡ st → (recovered t).queued_locks ≡ []
    go committed e = rw (recovered, e) refl
    go prepared e = rw (recovered, e) refl

module _ (n : ℕ) (t : ReplicatedTicket) (s : Shard) (c : Consistent s)
    (h : lookup n s.tickets ≡ none)
    (f : (j : Key) → locks j t ≡ true → lock_of j s ≡ free_lock) where
  unknown : ticket_of n s ≡ new_ticket
  unfolding ticket_of
  unknown = rw (ticket_of, h) refl

  proper : (m : ℕ) → Proper (if n == m then recovered t else ticket_of m s)
  proper m = elim (Bool-cases (n == m)) [
    | inl e ↦ rw e (recovered-Proper t)
    | inr e ↦ rw e (Consistent-Proper m s c)
  ]

  pub recover_ticket-Consistent : Consistent (recover_ticket n t s)
  unfolding held lookup contains is_writer is_queued is_write is_read
  recover_ticket-Consistent =
      let L = lock_of-recover_ticket n t s in
      let T = ticket_of-recover_ticket n t s h in
      record {
        writer = λ m j.
            rw (L j, T m)
              (ground (arith, c.writer m j, c.writer n j, f j, lookup-recovered j t, unknown));
        readers = λ m j.
            rw (L j, T m)
              (ground (arith, c.readers m j, c.readers n j, f j, lookup-recovered j t, unknown));
        queue = λ m j.
            rw (L j, T m)
              (ground (arith, c.queue m j, c.queue n j, f j, queued_locks-recovered t, unknown));
        exclusive = λ l m j. rw (L j) (ground (arith, c.exclusive l m j, f j));
        readers_once = λ j. elim (Bool-cases (locks j t)) [
          | inl e ↦ rw (L j, e) (c.readers_once j)
          | inr e ↦ rw (L j, e) (c.readers_once j)
        ];
        held_once = λ m. rw (T m) (proper m).held_once;
        queued_once = λ m. rw (T m) (proper m).queued_once;
        idle = λ m. rw (T m) (proper m).idle;
        ready = λ m. rw (T m) (proper m).ready;
        needy = λ m. rw (T m) (proper m).needy;
      }

  pub recover_ticket-IsSettled : IsSettled [] s → IsSettled [] (recover_ticket n t s)
  unfolding IsSettled is_blocked contains
  recover_ticket-IsSettled b j = elim (Bool-cases (locks j t)) [
    | inl e ↦ rw (lock_of-recover_ticket n t s j, e, f j e) refl
    | inr e ↦ rw (lock_of-recover_ticket n t s j, e) (b j)
  ]
