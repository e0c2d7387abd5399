-- ===== src/RuntimeShard/Withdraw.antt =====
-- A rollback on a server leaves the ticket in neither of its shards: server.cpp and impl.cpp.
use opencbdc_tx.RuntimeShard.{
  Ticket, prepared, PendingCallback, Shard, ShardError, ticket_of, release_locks, acquire_locks,
}
use opencbdc_tx.RuntimeShard.Operations.{rollback, erase_ticket}
use opencbdc_tx.RuntimeShard.Server.{replied, Server, serve_rollback}
use opencbdc_tx.Common.{
  ℕ, ◌≡◌, refl, sym, ap, ◌∙◌, true, List, Option, none, some, ◌==◌, ==_refl, lookup, lookup-remove,
  arith, Bool-cases, inl, inr, Outcome, returned, terminated, >>=-returned,
}
use opencbdc_tx.RuntimeShard.Replicated.{ReplicatedTicket, replicated_finish}
use opencbdc_tx.RuntimeShard.Consistent.Tickets.{begun≢prepared}
use opencbdc_tx.RuntimeShard.Consistent.Calls.{Completes, rollback-Completes}
use opencbdc_tx.RuntimeShard.Takeover.{replicated_value}
use opencbdc_tx.RuntimeShard.Mirror.{Mirrors}

abbrev Answer : Type 0
Answer = Shard × List PendingCallback × Option ShardError

abbrev shard_or : Shard → Outcome Answer → Shard
shard_or s (returned a) = a.0
shard_or s terminated = s

erased : (n : ℕ) (s : Shard) → lookup n (erase_ticket n s).tickets ≡ none
unfolding erase_ticket
erased n s = rw (erase_ticket, lookup-remove n n s.tickets, ==_refl n) refl

rollback_erases :
    (n : ℕ) (s : Shard) (a : Answer) → rollback n s ≡ returned a → lookup n a.0.tickets ≡ none
unfolding rollback
rollback_erases n s a h = go (lookup n s.tickets) refl h
  where
    go :
        (r : Option Ticket)
        → lookup n s.tickets ≡ r
        → rollback n s ≡ returned a
        → lookup n a.0.tickets ≡ none
    go none e = rw (rollback, e) (λ g. ap (λ x. lookup n (shard_or s x).tickets) (sym g) ∙ e)
    go (some t) e =
        rw (rollback, e)
          (λ g.
            let (r, f, k) = >>=-returned (release_locks n s) _ g in
            ap (λ x. lookup n (shard_or s x).tickets) (sym k) ∙ erased n (acquire_locks r.2 r.0).0)

-- A rollback request returns with the ticket in neither shard of the server, and if the replicated
-- shard mirrored the shard before, it does so after.
pub serve_rollback-Mirrors :
    (n : ℕ) (sv : Server)
    → Mirrors sv
    → (w : Server) × (e : Option ShardError) × (serve_rollback true n sv ≡ returned (w, replied e))
      × (lookup n w.shard.tickets ≡ none)
      × (lookup n w.replica.tickets ≡ none)
      × Mirrors w
unfolding serve_rollback replicated_finish replicated_value ticket_of
serve_rollback-Mirrors n sv m = go (rollback-Completes n sv.shard m.sound)
  where
    go :
        Completes n sv.shard sv.shard (rollback n sv.shard)
        → (w : Server) × (e : Option ShardError) × (serve_rollback true n sv
            ≡ returned (w, replied e))
          × (lookup n w.shard.tickets ≡ none)
          × (lookup n w.replica.tickets ≡ none)
          × Mirrors w
    go c = (
      record { shard = c.shard; replica = replicated_finish n sv.replica },
      c.answer,
      rw (serve_rollback, c.returns) refl,
      gone,
      rw (lookup-remove n n sv.replica.tickets, ==_refl n) refl,
      record { sound = c.sound; values = λ k. c.values k ∙ m.values k; records = recorded },
    )
      where
        gone : lookup n c.shard.tickets ≡ none
        gone = rollback_erases n sv.shard (c.shard, c.callbacks, c.answer) c.returns

        unprepared : (ticket_of n c.shard).state ≡ prepared → ⊥
        unprepared = rw (ticket_of, gone) begun≢prepared

        recorded :
            (i : ℕ)
            → (ticket_of i c.shard).state ≡ prepared
            → (r : ReplicatedTicket) × (lookup i (replicated_finish n sv.replica).tickets ≡ some r)
              × (r.state_update ≡ (ticket_of i c.shard).state_update)
        recorded i h = elim (Bool-cases (n == i)) [
          | inl e ↦
              let same : n ≡ i = ground arith in
              absurd (unprepared (ap (λ l. (ticket_of l c.shard).state) same ∙ h))
          | inr e ↦
              let kept = c.prepared_before i h in
              let (r, f, g) = m.records i (ap (λ x. x.state) (sym kept) ∙ h) in
              (
                r,
                rw (lookup-remove i n sv.replica.tickets, e) f,
                g ∙ ap (λ x. x.state_update) (sym kept),
              )
        ]
