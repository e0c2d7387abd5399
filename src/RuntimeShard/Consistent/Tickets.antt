-- ===== src/RuntimeShard/Consistent/Tickets.antt =====
-- Changes to the tickets alone that keep the shard consistent.
use opencbdc_tx.Common.{
  ==_refl, ℕ, ◌≡◌, refl, sym, ap, ◌∙◌, true, false, List, [], ◌∷◌, none, ◌==◌, if◌then◌else◌,
  contains, lookup, lookup-remove, arith, Bool-cases, inl, inr, AreDistinct,
}
use opencbdc_tx.RuntimeShard.{
  element_of, Key, begun, prepared, Ticket, Shard, lock_of, ticket_of, set_ticket, held_keys,
  new_ticket,
}
use opencbdc_tx.RuntimeShard.Operations.{erase_ticket}
use opencbdc_tx.RuntimeShard.Views.{
  value_of, is_write, held, lock_of-set_ticket, ticket_of-set_ticket,
}
use opencbdc_tx.RuntimeShard.Consistent.{Consistent, is_live}
use opencbdc_tx.RuntimeShard.Consistent.Loop.{IsSettled}

-- A ticket by itself: its locks are listed once, and its state allows them.
pub record Proper (t : Ticket) : Type 0 where
  pub held_once : AreDistinct (held_keys t.locks_held)
  pub queued_once : AreDistinct t.queued_locks
  pub idle : (k : Key) → is_live t.state ≡ false → lookup k t.locks_held ≡ none
  pub ready : (k : Key) → contains k t.queued_locks ≡ true → t.state ≡ begun
  pub needy :
      (k : Key) → contains k t.queued_locks ≡ true → is_write (lookup k t.locks_held) ≡ false

pub Consistent-Proper : (n : ℕ) (s : Shard) → Consistent s → Proper (ticket_of n s)
unfolding held
Consistent-Proper n s c = record {
  held_once = c.held_once n;
  queued_once = c.queued_once n;
  idle = c.idle n;
  ready = c.ready n;
  needy = c.needy n;
}

-- The new tickets say the same of the locks.
restate :
    (r s : Shard)
    → Consistent r
    → ((k : Key) → lock_of k s ≡ lock_of k r)
    → ((m : ℕ) (k : Key)
        → lookup k (ticket_of m s).locks_held ≡ lookup k (ticket_of m r).locks_held)
    → ((m : ℕ) (k : Key)
        → contains k (ticket_of m s).queued_locks ≡ contains k (ticket_of m r).queued_locks)
    → ((m : ℕ) → Proper (ticket_of m s))
    → Consistent s
unfolding held
restate r s c locks holds queues proper = record {
  writer = λ m k. rw (locks k, holds m k) (c.writer m k);
  readers = λ m k. rw (locks k, holds m k) (c.readers m k);
  queue = λ m k. rw (locks k, queues m k) (c.queue m k);
  exclusive = λ l m k. rw (locks k) (c.exclusive l m k);
  readers_once = λ k. rw (locks k) (c.readers_once k);
  held_once = λ m. (proper m).held_once;
  queued_once = λ m. (proper m).queued_once;
  idle = λ m. (proper m).idle;
  ready = λ m. (proper m).ready;
  needy = λ m. (proper m).needy;
}

pub ticket_of-erase_ticket :
    (m n : ℕ) (s : Shard)
    → ticket_of m (erase_ticket n s) ≡ (if n == m then new_ticket else ticket_of m s)
unfolding ticket_of erase_ticket
ticket_of-erase_ticket m n s = ground (arith, lookup-remove m n s.tickets)

lock_of-erase_ticket : (k : Key) (n : ℕ) (s : Shard) → lock_of k (erase_ticket n s) ≡ lock_of k s
unfolding lock_of erase_ticket element_of
lock_of-erase_ticket k n s = refl

-- One ticket is another, which says the same of the locks.
one_ticket :
    (n : ℕ) (t : Ticket) (r s : Shard)
    → Consistent r
    → ((k : Key) → lock_of k s ≡ lock_of k r)
    → ((m : ℕ) → ticket_of m s ≡ (if n == m then t else ticket_of m r))
    → ((k : Key) → lookup k t.locks_held ≡ lookup k (ticket_of n r).locks_held)
    → ((k : Key) → contains k t.queued_locks ≡ contains k (ticket_of n r).queued_locks)
    → Proper t
    → Consistent s
one_ticket n t r s c locks tickets holds queues proper =
    restate r s c locks
      (λ m k. elim (Bool-cases (n == m)) [
        | inl e ↦
            let same : n ≡ m = ground arith in
            rw (tickets m, e) (holds k ∙ ap (λ l. lookup k (ticket_of l r).locks_held) same)
        | inr e ↦ rw (tickets m, e) refl
      ])
      (λ m k. elim (Bool-cases (n == m)) [
        | inl e ↦
            let same : n ≡ m = ground arith in
            rw (tickets m, e) (queues k ∙ ap (λ l. contains k (ticket_of l r).queued_locks) same)
        | inr e ↦ rw (tickets m, e) refl
      ])
      (λ m. elim (Bool-cases (n == m)) [
        | inl e ↦ rw (tickets m, e) proper
        | inr e ↦ rw (tickets m, e) (Consistent-Proper m r c)
      ])

pub set_ticket-Consistent :
    (n : ℕ) (t : Ticket) (s : Shard)
    → Consistent s
    → t.locks_held ≡ (ticket_of n s).locks_held
    → t.queued_locks ≡ (ticket_of n s).queued_locks
    → Proper t
    → Consistent (set_ticket n t s)
set_ticket-Consistent n t s c h q p =
    one_ticket n t s (set_ticket n t s) c (λ k. lock_of-set_ticket k n t s)
      (λ m. ticket_of-set_ticket m n t s) (λ k. ap (lookup k) h) (λ k. ap (contains k) q) p

pub value_of-erase_ticket :
    (j : Key) (n : ℕ) (s : Shard) → value_of j (erase_ticket n s) ≡ value_of j s
unfolding value_of element_of erase_ticket
value_of-erase_ticket j n s = refl

-- The ticket holds and awaits nothing.
pub record Unlocked (n : ℕ) (s : Shard) : Type 0 where
  pub unheld : (k : Key) → lookup k (ticket_of n s).locks_held ≡ none
  pub unqueued : (k : Key) → contains k (ticket_of n s).queued_locks ≡ false

pub erase_ticket-Consistent :
    (n : ℕ) (s : Shard) → Consistent s → Unlocked n s → Consistent (erase_ticket n s)
unfolding lookup contains is_live held_keys
erase_ticket-Consistent n s c u =
    one_ticket n new_ticket s (erase_ticket n s) c (λ k. lock_of-erase_ticket k n s)
      (λ m. ticket_of-erase_ticket m n s) (λ k. sym (u.unheld k)) (λ k. sym (u.unqueued k))
      (record {
        held_once = tt;
        queued_once = tt;
        idle = λ k h. refl;
        ready = λ k h. refl;
        needy = λ k h. absurd (ground arith);
      })

-- A shard between two calls: consistent, and no queued ticket could be granted its lock.
pub record Sound (s : Shard) : Type 0 where
  pub consistent : Consistent s
  pub settled : IsSettled [] s

pub set_ticket-IsSettled :
    (ks : List Key) (n : ℕ) (t : Ticket) (s : Shard)
    → IsSettled ks s
    → IsSettled ks (set_ticket n t s)
unfolding IsSettled
set_ticket-IsSettled ks n t s h j = rw (lock_of-set_ticket j n t s) (h j)

pub erase_ticket-IsSettled :
    (ks : List Key) (n : ℕ) (s : Shard) → IsSettled ks s → IsSettled ks (erase_ticket n s)
unfolding IsSettled
erase_ticket-IsSettled ks n s h j = rw (lock_of-erase_ticket j n s) (h j)

nothing : (ks : List Key) → ((k : Key) → contains k ks ≡ true → ⊥) → ks ≡ []
unfolding contains
nothing [] h = refl
nothing (k ∷ ks) h = absurd (h k (rw (==_refl k) refl))

pub begun≢prepared : begun ≡ prepared → ⊥
begun≢prepared h = ground arith

-- A prepared ticket waits for no lock.
pub prepared-queued_locks :
    (n : ℕ) (s : Shard)
    → Consistent s
    → (ticket_of n s).state ≡ prepared
    → (ticket_of n s).queued_locks ≡ []
prepared-queued_locks n s c e =
    nothing (ticket_of n s).queued_locks (λ k h. apart (sym e ∙ c.ready n k h))
  where
    apart : prepared ≡ begun → ⊥
    apart f = ground arith
