-- ===== src/RuntimeShard/Takeover.antt =====
-- A shard that takes over from a replicated one: it is consistent, has the replicated values, and its
-- prepared tickets can be committed.
use opencbdc_tx.Common.{
  lookup-assign, returned, assign, ==_refl, ℕ, ◌≡◌, refl, sym, ap, ◌∙◌, Bool, true, false, ◌||◌,
  List, [], ◌∷◌, Option, none, some, ◌==◌, contains, lookup, emplace, lookup-emplace, arith,
  Bool-cases, inl, inr,
}
use opencbdc_tx.RuntimeShard.{
  PendingCallback, StateElement, TicketState, element_of, Key, Value, Ticket, Shard, lock_of,
  ticket_of, new_ticket, free_lock, held_keys,
}
use opencbdc_tx.RuntimeShard.Views.{is_writer, is_write, is_read, is_queued, held, value_of}
use opencbdc_tx.RuntimeShard.Consistent.{is_live}
use opencbdc_tx.RuntimeShard.Consistent.Acquire.{is_blocked}
use opencbdc_tx.RuntimeShard.Consistent.Loop.{IsSettled}
use opencbdc_tx.RuntimeShard.Consistent.Tickets.{begun≢prepared, Sound}
use opencbdc_tx.RuntimeShard.Replicated.{
  ReplicatedTicket, prepared, recover_ticket, recover_tickets, recover_state, recover,
  ReplicatedShard, replicated_commit, assign_all,
}
use opencbdc_tx.RuntimeShard.Consistent.Calls.{
  Completes, commit_prepared-Completes, lookup-ticket_of,
}
use opencbdc_tx.RuntimeShard.Operations.{commit, commit_prepared, apply_update}
use opencbdc_tx.RuntimeShard.Steps.{empty_shard}
use opencbdc_tx.RuntimeShard.Isolation.{updates, value_of-apply_update}
use opencbdc_tx.RuntimeShard.Recovery.{
  recovered, locks, tickets-recover_ticket, ticket_of-recover_ticket, lock_of-recover_ticket,
  value_of-recover_ticket, recover_ticket-Consistent, recover_ticket-IsSettled,
}

unfoldable pub locked_in : Key → List (ℕ × ReplicatedTicket) → Bool
locked_in k [] = false
locked_in k ((n, t) ∷ ts) = locks k t || locked_in k ts

-- The tickets have different numbers, and no two prepared ones write the same key.
unfoldable pub AreRecoverable : List (ℕ × ReplicatedTicket) → Type 0
AreRecoverable [] = Unit
AreRecoverable ((n, t) ∷ ts) =
    (lookup n ts ≡ none)
    × ((k : Key) → locks k t ≡ true → locked_in k ts ≡ false)
    × AreRecoverable ts

-- What the loop over the tickets makes of a shard.
record Recovers (ts : List (ℕ × ReplicatedTicket)) (s u : Shard) : Type 0 where
  sound : Sound u
  values : (k : Key) → value_of k u ≡ value_of k s
  tickets :
      (n : ℕ) → ticket_of n u ≡ elim (lookup n ts) [ none ↦ ticket_of n s | some t ↦ recovered t ]

recover_tickets-Recovers :
    (ts : List (ℕ × ReplicatedTicket)) (s : Shard)
    → Sound s
    → AreRecoverable ts
    → ((n : ℕ) (t : ReplicatedTicket) → lookup n ts ≡ some t → lookup n s.tickets ≡ none)
    → ((k : Key) → locked_in k ts ≡ true → lock_of k s ≡ free_lock)
    → Recovers ts s (recover_tickets ts s)
unfolding recover_tickets AreRecoverable lookup locked_in
recover_tickets-Recovers [] s sound a h f = record {
  sound = sound;
  values = λ k. refl;
  tickets = λ n. refl;
}
recover_tickets-Recovers ((n, t) ∷ ts) s sound a h f =
    let u = recover_ticket n t s in
    let new : lookup n s.tickets ≡ none = h n t (rw (==_refl n) refl) in
    let free : (k : Key) → locks k t ≡ true → lock_of k s ≡ free_lock = λ k e. f k (ground arith) in
    let next =
      recover_tickets-Recovers ts u
        (record {
          consistent = recover_ticket-Consistent n t s sound.consistent new free;
          settled = recover_ticket-IsSettled n t s sound.consistent new free sound.settled;
        })
        a.2 (λ m r e. still_new m r e) (λ k e. still_free k e) in
    record {
      sound = next.sound;
      values = λ k. next.values k ∙ value_of-recover_ticket n t s k;
      tickets = λ m. next.tickets m ∙ known m new;
    }
  where
    apart : (m : ℕ) (r : ReplicatedTicket) → lookup m ts ≡ some r → (n == m) ≡ false
    apart m r e = elim (Bool-cases (n == m)) [
      | inl g ↦
          let same : n ≡ m = ground arith in
          absurd (ground (arith, a.0, e, ap (λ l. lookup l ts) same))
      | inr g ↦ g
    ]

    still_new :
        (m : ℕ) (r : ReplicatedTicket)
        → lookup m ts ≡ some r
        → lookup m (recover_ticket n t s).tickets ≡ none
    still_new m r e =
        rw (tickets-recover_ticket n t s, lookup-emplace m n (recovered t) s.tickets, apart m r e)
          (h m r (rw (apart m r e) e))

    still_free : (k : Key) → locked_in k ts ≡ true → lock_of k (recover_ticket n t s) ≡ free_lock
    still_free k e = elim (Bool-cases (locks k t)) [
      | inl g ↦ absurd (ground (arith, a.1 k g, e))
      | inr g ↦ rw (lock_of-recover_ticket n t s k, g) (f k (ground arith))
    ]

    known :
        (m : ℕ)
        → lookup n s.tickets ≡ none
        → (elim (lookup m ts) as (λ x. Ticket) [
          | none ↦ ticket_of m (recover_ticket n t s)
          | some r ↦ recovered r
        ])
          ≡ (elim (lookup m ((n, t) ∷ ts)) as (λ x. Ticket) [
            | none ↦ ticket_of m s
            | some r ↦ recovered r
          ])
    known m new = elim (Bool-cases (n == m)) [
      | inl g ↦
          let same : n ≡ m = ground arith in
          rw (sym (ap (λ l. lookup l ts) same) ∙ a.0, g, ticket_of-recover_ticket n t s new m, g)
            refl
      | inr g ↦ rw g (
          ap (λ x. elim (lookup m ts) as (λ y. Ticket) [ none ↦ x | some r ↦ recovered r ])
            (ticket_of-recover_ticket n t s new m ∙ rw g refl))
    ]

lookup-recover_state :
    (k : Key) (vs : List (Key × Value)) (st : List (Key × StateElement))
    → lookup k (recover_state vs st) ≡ elim (lookup k st) [
      | some e ↦ some e
      | none ↦ elim (lookup k vs) [
        | none ↦ none
        | some v ↦ some (record { value = v; lock = free_lock })
      ]
    ]
unfolding recover_state lookup
lookup-recover_state k [] st = ground arith
lookup-recover_state k ((j, v) ∷ vs) st =
    lookup-recover_state k vs (emplace j (record { value = v; lock = free_lock }) st)
    ∙ elim (Bool-cases (j == k)) [
      | inl e ↦
          let same : j ≡ k = ground arith in
          ground (
            arith,
            lookup-emplace k j (record { value = v; lock = free_lock }) st,
            ap (λ i. lookup i st) same,
          )
      | inr e ↦ ground (arith, lookup-emplace k j (record { value = v; lock = free_lock }) st)
    ]

abbrev with_values : List (Key × Value) → Shard
with_values state = record { state = recover_state state []; tickets = [] }

lock_of-with_values :
    (k : Key) (state : List (Key × Value)) → lock_of k (with_values state) ≡ free_lock
unfolding lock_of element_of lookup
lock_of-with_values k state = ground (arith, lookup-recover_state k state [])

value_of-with_values :
    (k : Key) (state : List (Key × Value))
    → value_of k (with_values state) ≡ elim (lookup k state) [ none ↦ [] | some v ↦ v ]
unfolding value_of element_of lookup
value_of-with_values k state = ground (arith, lookup-recover_state k state [])

with_values-Sound : (state : List (Key × Value)) → Sound (with_values state)
unfolding ticket_of held is_live IsSettled is_blocked is_writer is_write is_read is_queued contains
    lookup held_keys
with_values-Sound state = record {
  consistent = record {
    writer = λ n k. rw (lock_of-with_values k state) refl;
    readers = λ n k. rw (lock_of-with_values k state) refl;
    queue = λ n k. rw (lock_of-with_values k state) refl;
    exclusive = λ n m k. rw (lock_of-with_values k state) (λ h. refl);
    readers_once = λ k. rw (lock_of-with_values k state) tt;
    held_once = λ n. tt;
    queued_once = λ n. tt;
    idle = λ n k h. refl;
    ready = λ n k h. refl;
    needy = λ n k h. refl;
  };
  settled = λ j. rw (lock_of-with_values j state) refl;
}

-- What a new shard recovers.
pub record Recovered (state : List (Key × Value)) (ts : List (ℕ × ReplicatedTicket))
    (r : Shard × Bool) : Type 0 where
  pub succeeds : r.1 ≡ true
  pub sound : Sound r.0
  pub values : (k : Key) → value_of k r.0 ≡ elim (lookup k state) [ none ↦ [] | some v ↦ v ]
  pub tickets :
      (n : ℕ) → ticket_of n r.0 ≡ elim (lookup n ts) [ none ↦ new_ticket | some t ↦ recovered t ]

pub recover-Recovered :
    (state : List (Key × Value)) (ts : List (ℕ × ReplicatedTicket))
    → AreRecoverable ts
    → Recovered state ts (recover state ts empty_shard)
unfolding recover ticket_of lookup
recover-Recovered state ts a = go (
    recover_tickets-Recovers ts (with_values state) (with_values-Sound state) a (λ n t h. refl)
      (λ k h. lock_of-with_values k state))
  where
    go :
        Recovers ts (with_values state) (recover_tickets ts (with_values state))
        → Recovered state ts (recover state ts empty_shard)
    go r = record {
      succeeds = refl;
      sound = r.sound;
      values = λ k. r.values k ∙ value_of-with_values k state;
      tickets = λ n. r.tickets n;
    }

lookup-assign_all :
    (k : Key) (u : List (Key × Value)) (state : List (Key × Value))
    → lookup k (assign_all u state) ≡ elim (updates k u) [ none ↦ lookup k state | some v ↦ some v ]
unfolding assign_all updates
lookup-assign_all k [] state = refl
lookup-assign_all k ((j, v) ∷ u) state =
    ground (arith, lookup-assign_all k u (assign j v state), lookup-assign k j v state)

pub known_ticket :
    (n : ℕ) (t : Ticket) (s : Shard)
    → ticket_of n s ≡ t
    → t.state ≡ TicketState.prepared
    → lookup n s.tickets ≡ some t
unfolding ticket_of
known_ticket n t s e p = go (lookup n s.tickets) refl
  where
    go : (o : Option Ticket) → lookup n s.tickets ≡ o → lookup n s.tickets ≡ some t
    go none f = absurd (begun≢prepared (ap (λ x. x.state) (fresh f) ∙ p))
      where
        fresh : lookup n s.tickets ≡ none → new_ticket ≡ t
        fresh f = sym (rw (ticket_of, f) refl) ∙ e
    go (some x) f = f ∙ ap (λ y. some y) (same x f)
      where
        same : (x : Ticket) → lookup n s.tickets ≡ some x → x ≡ t
        same x f = sym (lookup-ticket_of n x s f) ∙ e

-- The value that a replicated shard has for a key.
unfoldable pub replicated_value : Key → ReplicatedShard → Value
replicated_value k r = elim (lookup k r.state) [ none ↦ [] | some v ↦ v ]

pub value-replicated_commit :
    (k : Key) (n : ℕ) (t : ReplicatedTicket) (r : ReplicatedShard)
    → lookup n r.tickets ≡ some t
    → replicated_value k (replicated_commit n r).0
      ≡ elim (updates k t.state_update) [ none ↦ replicated_value k r | some v ↦ v ]
unfolding replicated_value replicated_commit
value-replicated_commit k n t r e =
    rw (replicated_commit, e) (ground (arith, lookup-assign_all k t.state_update r.state))

state-recovered :
    (t : ReplicatedTicket) → t.state ≡ prepared → (recovered t).state ≡ TicketState.prepared
unfolding recovered
state-recovered t p = rw (recovered, p) refl

update-recovered :
    (t : ReplicatedTicket) → t.state ≡ prepared → (recovered t).state_update ≡ t.state_update
unfolding recovered
update-recovered t p = rw (recovered, p) refl

-- A ticket that is prepared in the replicated shard can be committed on the shard that recovers, and
-- each key then has the value that the commit gives it in the replicated shard.
pub commit-recover :
    (n : ℕ) (t : ReplicatedTicket) (r : ReplicatedShard)
    → AreRecoverable r.tickets
    → lookup n r.tickets ≡ some t
    → t.state ≡ prepared
    → (u : Shard) × (cbs : List PendingCallback) × (commit n
          (recover r.state r.tickets empty_shard).0
        ≡ returned (u, cbs, none))
      × ((k : Key) → value_of k u ≡ replicated_value k (replicated_commit n r).0)
unfolding commit replicated_value
commit-recover n t r a e p = go (recover-Recovered r.state r.tickets a)
  where
    s : Shard
    s = (recover r.state r.tickets empty_shard).0

    go :
        Recovered r.state r.tickets (recover r.state r.tickets empty_shard)
        → (u : Shard) × (cbs : List PendingCallback) × (commit n s ≡ returned (u, cbs, none))
          × ((k : Key) → value_of k u ≡ replicated_value k (replicated_commit n r).0)
    go c =
        let known =
          known_ticket n (recovered t) s (c.tickets n ∙ rw e refl) (state-recovered t p) in
        done c known
          (commit_prepared-Completes n (recovered t) s c.sound known (state-recovered t p))
      where
        done :
            Recovered r.state r.tickets (recover r.state r.tickets empty_shard)
            → lookup n s.tickets ≡ some (recovered t)
            → (x : Completes n
                (apply_update (recovered t).state_update s)
                s
                (commit_prepared n (recovered t) s))
              × (x.answer ≡ none)
              × ((ticket_of n x.shard).state ≡ TicketState.committed)
            → (u : Shard) × (cbs : List PendingCallback) × (commit n s ≡ returned (u, cbs, none))
              × ((k : Key) → value_of k u ≡ replicated_value k (replicated_commit n r).0)
        done c known (x, f, g) = (
          x.shard,
          x.callbacks,
          rw (commit, known, state-recovered t p, x.returns, f) refl,
          λ k.
              x.values k
              ∙ value_of-apply_update k (recovered t).state_update s
              ∙ rw (update-recovered t p) (
                  ap
                    (λ x. elim (updates k t.state_update) as (λ y. Value) [ none ↦ x | some v ↦ v ])
                    (c.values k))
              ∙ sym (value-replicated_commit k n t r e),
        )
