-- ===== src/RuntimeShard/Finish.antt =====
-- The finish request of server.cpp, which erases the ticket from the replicated shard in any case.
use opencbdc_tx.RuntimeShard.{prepared, ticket_of}
use opencbdc_tx.RuntimeShard.Server.{Server, serve_finish}
use opencbdc_tx.Common.{
  ℕ, ◌≡◌, refl, sym, ap, ◌∙◌, ◌↔◌, true, none, ◌==◌, ==_refl, lookup, lookup-remove, arith,
  Bool-cases, inl, inr,
}
use opencbdc_tx.RuntimeShard.Replicated.{replicated_finish}
use opencbdc_tx.RuntimeShard.Consistent.Phases.{finish-Sound}
use opencbdc_tx.RuntimeShard.Isolation.{value_of-finish, finish-prepared}
use opencbdc_tx.RuntimeShard.Durability.{lasts-finish}
use opencbdc_tx.RuntimeShard.Mirror.{Mirrors}
use opencbdc_tx.RuntimeShard.Takeover.{replicated_value}

module _ (n : ℕ) (sv : Server) (m : Mirrors sv) where
  abbrev served : Server
  served = (serve_finish true n sv).0

  finish-Mirrors : ¬ ((ticket_of n sv.shard).state ≡ prepared) → Mirrors served
  unfolding serve_finish replicated_finish replicated_value
  finish-Mirrors other = record {
    sound = finish-Sound n sv.shard m.sound;
    values = λ k. value_of-finish k n sv.shard ∙ m.values k;
    records = λ i p.
        let same = finish-prepared n sv.shard i p in
        let before : (ticket_of i sv.shard).state ≡ prepared = ap (λ t. t.state) (sym same) ∙ p in
        let (r, e, u) = m.records i before in
        elim (Bool-cases (n == i)) [
          | inl d ↦
              let here : n ≡ i = ground arith in
              absurd (other (ap (λ l. (ticket_of l sv.shard).state) here ∙ before))
          | inr d ↦ (
            r,
            rw (lookup-remove i n sv.replica.tickets, d) e,
            u ∙ ap (λ t. t.state_update) (sym same),
          )
        ];
  }

  prepared_lost : (ticket_of n sv.shard).state ≡ prepared → ¬ (Mirrors served)
  unfolding serve_finish replicated_finish
  prepared_lost p after =
      let still : (ticket_of n served.shard).state ≡ prepared =
        ap (λ t. t.state) (lasts-finish n sv.shard n p) ∙ p in
      let (r, e, u) = after.records n still in
      let gone : lookup n served.replica.tickets ≡ none =
        rw (lookup-remove n n sv.replica.tickets, ==_refl n) refl in
      absurd (ground (arith, e, gone))

  -- Of a shard that the replicated shard mirrors, let a finish request be replicated. The replicated
  -- shard mirrors the shard after it exactly if the ticket was not prepared: of a prepared ticket,
  -- which the shard keeps, the replicated shard has lost the record.
  pub serve_finish-Mirrors :
      Mirrors (serve_finish true n sv).0 ↔ (¬ ((ticket_of n sv.shard).state ≡ prepared))
  serve_finish-Mirrors = (λ after p. prepared_lost p after, finish-Mirrors)
