-- ===== src/RuntimeShard/Mirror.antt =====
-- The replicated shard follows the shard: the same values, and every prepared ticket with its update.
use opencbdc_tx.RuntimeShard.{
  unknown_ticket, Key, Value, TicketState, prepared, Ticket, Shard, ShardError, ticket_of,
  set_ticket,
}
use opencbdc_tx.RuntimeShard.Operations.{
  prepare, prepare_error, commit, commit_prepared, apply_update,
}
use opencbdc_tx.RuntimeShard.Server.{replied, handle_prepare, Server, serve_prepare, serve_commit}
use opencbdc_tx.Common.{
  ℕ, ◌≡◌, refl, sym, ap, ◌∙◌, true, false, List, none, some, ◌==◌, lookup, lookup-emplace,
  lookup-assign, arith, Bool-cases, Option-cases, inl, inr, returned,
}
use opencbdc_tx.RuntimeShard.Views.{value_of, ticket_of-set_ticket, value_of-set_ticket}
use opencbdc_tx.RuntimeShard.Replicated.{
  ReplicatedTicket, ReplicatedState, replicated_prepare, replicated_commit, moved,
}
use opencbdc_tx.RuntimeShard.Consistent.Tickets.{Sound}
use opencbdc_tx.RuntimeShard.Consistent.Calls.{
  Completes, commit_prepared-Completes, committed≢prepared,
}
use opencbdc_tx.RuntimeShard.Consistent.Phases.{prepare-Sound}
use opencbdc_tx.RuntimeShard.Isolation.{updates, value_of-apply_update}
use opencbdc_tx.RuntimeShard.Takeover.{replicated_value, value-replicated_commit, known_ticket}

-- The two shards of a server agree.
pub record Mirrors (sv : Server) : Type 0 where
  pub sound : Sound sv.shard
  pub values : (k : Key) → value_of k sv.shard ≡ replicated_value k sv.replica
  pub records :
      (n : ℕ)
      → (ticket_of n sv.shard).state ≡ prepared
      → (t : ReplicatedTicket) × (lookup n sv.replica.tickets ≡ some t)
        × (t.state_update ≡ (ticket_of n sv.shard).state_update)

module _ (n : ℕ) (sv : Server) (m : Mirrors sv) (p : (ticket_of n sv.shard).state ≡ prepared) where
  abbrev t : Ticket
  t = ticket_of n sv.shard

  known : lookup n sv.shard.tickets ≡ some t
  known = known_ticket n t sv.shard refl p

  commits :
      (c : Completes n
        (apply_update t.state_update sv.shard)
        sv.shard
        (commit_prepared n t sv.shard))
      × (c.answer ≡ none)
      × ((ticket_of n c.shard).state ≡ TicketState.committed)
  commits = commit_prepared-Completes n t sv.shard m.sound known p

  committed_values :
      (r : ReplicatedTicket)
      → lookup n sv.replica.tickets ≡ some r
      → r.state_update ≡ t.state_update
      → (k : Key)
      → value_of k commits.0.shard ≡ replicated_value k (replicated_commit n sv.replica).0
  committed_values r e same k =
      commits.0.values k
      ∙ value_of-apply_update k t.state_update sv.shard
      ∙ ap (λ x. elim (updates k t.state_update) as (λ y. Value) [ none ↦ x | some v ↦ v ])
          (m.values k)
      ∙ ap
          (λ x. elim (updates k x) as (λ y. Value) [
            | none ↦ replicated_value k sv.replica
            | some v ↦ v
          ])
          (sym same)
      ∙ sym (value-replicated_commit k n r sv.replica e)

  -- The other records stay.
  lookup-other :
      (i : ℕ)
      → (n == i) ≡ false
      → lookup i (replicated_commit n sv.replica).0.tickets ≡ lookup i sv.replica.tickets
  unfolding replicated_commit
  lookup-other i d = elim (Option-cases (lookup n sv.replica.tickets)) [
    | inl e ↦ rw (replicated_commit, e) refl
    | inr (r, e) ↦
        rw
          (
            replicated_commit,
            e,
            lookup-assign i n
                (record r {
                  state = ReplicatedState.committed;
                  state_update = moved r.state_update;
                })
                sv.replica.tickets,
            d,
          )
          refl
  ]

  replies :
      (r : ReplicatedTicket)
      → lookup n sv.replica.tickets ≡ some r
      → (replicated_commit n sv.replica).1 ≡ none
  unfolding replicated_commit
  replies r e = rw (replicated_commit, e) refl

  committing :
      commit_prepared n t sv.shard
        ≡ returned (commits.0.shard, commits.0.callbacks, commits.0.answer)
      → commit n sv.shard ≡ returned (commits.0.shard, commits.0.callbacks, none)
  unfolding commit
  committing ret =
      rw (commit, known, p)
        (ret ∙ ap (λ x. returned (commits.0.shard, commits.0.callbacks, x)) commits.1)

  -- A commit request for a prepared ticket succeeds, and if the replicated shard mirrored the shard
  -- before, it does so after: the same values, and a record with its update of each prepared ticket.
  pub serve_commit-Mirrors :
      (w : Server) × (serve_commit true n sv ≡ returned (w, replied none)) × Mirrors w
  unfolding serve_commit
  serve_commit-Mirrors = go (m.records n p) commits.0.returns
    where
      next : Server
      next = record { shard = commits.0.shard; replica = (replicated_commit n sv.replica).0 }

      recorded :
          (i : ℕ)
          → (ticket_of i commits.0.shard).state ≡ prepared
          → (r : ReplicatedTicket) × (lookup i (replicated_commit n sv.replica).0.tickets ≡ some r)
            × (r.state_update ≡ (ticket_of i commits.0.shard).state_update)
      recorded i h = elim (Bool-cases (n == i)) [
        | inl e ↦
            let same : n ≡ i = ground arith in
            absurd (
              committed≢prepared
                (sym commits.2 ∙ ap (λ l. (ticket_of l commits.0.shard).state) same ∙ h))
        | inr e ↦
            let kept = commits.0.prepared_before i h in
            let (r, f, g) = m.records i (ap (λ x. x.state) (sym kept) ∙ h) in
            (r, lookup-other i e ∙ f, g ∙ ap (λ x. x.state_update) (sym kept))
      ]

      served :
          (r : ReplicatedTicket)
          → lookup n sv.replica.tickets ≡ some r
          → commit_prepared n t sv.shard
            ≡ returned (commits.0.shard, commits.0.callbacks, commits.0.answer)
          → serve_commit true n sv ≡ returned (next, replied none)
      served r e ret = rw (serve_commit, replies r e, committing ret) refl

      go :
          (r : ReplicatedTicket) × (lookup n sv.replica.tickets ≡ some r)
            × (r.state_update ≡ t.state_update)
          → commit_prepared n t sv.shard
            ≡ returned (commits.0.shard, commits.0.callbacks, commits.0.answer)
          → (w : Server) × (serve_commit true n sv ≡ returned (w, replied none)) × Mirrors w
      go (r, e, same) ret = (
        next,
        served r e ret,
        record { sound = commits.0.sound; values = committed_values r e same; records = recorded },
      )

same-Sound : (s t : Shard) → s ≡ t → Sound s → Sound t
same-Sound s t e x = rw (sym e) x

module _ (n broker : ℕ) (u : List (Key × Value)) (sv : Server) (m : Mirrors sv)
    (new : lookup n sv.replica.tickets ≡ none) where
  abbrev prepared_ticket : Ticket → Ticket
  prepared_ticket t = record t { state_update = u; state = prepared }

  unchanged-Mirrors :
      (e : ShardError)
      → prepare n u sv.shard ≡ (sv.shard, some e)
      → Mirrors (serve_prepare true n broker u sv).0
  unfolding serve_prepare handle_prepare
  unchanged-Mirrors e f = rw (serve_prepare, f) m

  recorded-Mirrors :
      (t : Ticket)
      → prepare n u sv.shard ≡ (set_ticket n (prepared_ticket t) sv.shard, none)
      → Mirrors (serve_prepare true n broker u sv).0
  unfolding serve_prepare handle_prepare replicated_prepare replicated_value
  recorded-Mirrors t f =
      rw (serve_prepare, f)
        (record {
          sound =
              same-Sound (prepare n u sv.shard).0 (set_ticket n (prepared_ticket t) sv.shard)
                (ap (λ x. x.0) f) (prepare-Sound n u sv.shard m.sound);
          values = λ k. value_of-set_ticket k n (prepared_ticket t) sv.shard ∙ m.values k;
          records = λ i.
              rw
                (
                  ticket_of-set_ticket i n (prepared_ticket t) sv.shard,
                  lookup-emplace i n
                      (record {
                        broker_id = broker;
                        state_update = u;
                        state = ReplicatedState.prepared;
                      })
                      sv.replica.tickets,
                  new,
                )
                (elim (Bool-cases (n == i)) [
                  | inl e ↦ rw e (λ p. (
                    record {
                      broker_id = broker;
                      state_update = u;
                      state = ReplicatedState.prepared;
                    },
                    refl,
                    refl,
                  ))
                  | inr e ↦ rw e (m.records i)
                ]);
        })

  -- A prepare request for a ticket that is not in the replicated shard, answered with an error or not,
  -- leaves a replicated shard that mirrors the shard if it did so before, where raft replicates it.
  pub serve_prepare-Mirrors : Mirrors (serve_prepare true n broker u sv).0
  unfolding prepare
  serve_prepare-Mirrors = elim (Option-cases (lookup n sv.shard.tickets)) [
    | inl e ↦
        unchanged-Mirrors (record { error_code = unknown_ticket; wounded_details = none })
          (rw (prepare, e) refl)
    | inr (t, e) ↦ elim (Option-cases (prepare_error t u)) [
      | inl f ↦ recorded-Mirrors t (rw (prepare, e, f) refl)
      | inr (x, f) ↦ unchanged-Mirrors x (rw (prepare, e, f) refl)
    ]
  ]
