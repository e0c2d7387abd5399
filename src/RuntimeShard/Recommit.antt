-- ===== src/RuntimeShard/Recommit.antt =====
-- A second commit of a ticket in the replicated shard, which `server.cpp` asks for before the shard
-- itself is asked.
use opencbdc_tx.Common.{
  ℕ, ◌≡◌, refl, ◌∙◌, false, List, [], ◌∷◌, none, some, ==_refl, if◌then◌else◌, lookup,
  lookup-assign, arith,
}
use opencbdc_tx.RuntimeShard.{Key, Value}
use opencbdc_tx.RuntimeShard.Replicated.{
  ReplicatedShard, ReplicatedTicket, committed, moved, replicated_commit,
}
use opencbdc_tx.RuntimeShard.Isolation.{updates}
use opencbdc_tx.RuntimeShard.Recovery.{writes}
use opencbdc_tx.RuntimeShard.Takeover.{replicated_value, value-replicated_commit}

updates-moved :
    (k : Key) (u : List (Key × Value))
    → updates k (moved u) ≡ (if writes k u then some [] else none)
unfolding updates moved writes
updates-moved k [] = refl
updates-moved k ((j, v) ∷ u) = ground (arith, updates-moved k u)

updates-writes : (k : Key) (u : List (Key × Value)) → writes k u ≡ false → updates k u ≡ none
unfolding updates writes
updates-writes k [] h = refl
updates-writes k ((j, v) ∷ u) h = ground (arith, updates-writes k u)

-- The ticket that a commit leaves has the keys of its update, with the values moved out.
lookup-replicated_commit :
    (n : ℕ) (t : ReplicatedTicket) (r : ReplicatedShard)
    → lookup n r.tickets ≡ some t
    → lookup n (replicated_commit n r).0.tickets
      ≡ some (record t { state = committed; state_update = moved t.state_update })
unfolding replicated_commit
lookup-replicated_commit n t r e =
    rw
      (
        replicated_commit,
        e,
        lookup-assign n n (record t { state = committed; state_update = moved t.state_update })
            r.tickets,
        ==_refl n,
      )
      refl

-- A second commit of a ticket empties the keys of its update, and leaves the others.
pub replicated_commit_twice :
    (k : Key) (n : ℕ) (t : ReplicatedTicket) (r : ReplicatedShard)
    → lookup n r.tickets ≡ some t
    → replicated_value k (replicated_commit n (replicated_commit n r).0).0
      ≡ (if writes k t.state_update then [] else replicated_value k r)
replicated_commit_twice k n t r e =
    value-replicated_commit k n
      (record t { state = committed; state_update = moved t.state_update })
      (replicated_commit n r).0 (lookup-replicated_commit n t r e)
    ∙ ground (
      arith,
      updates-moved k t.state_update,
      updates-writes k t.state_update,
      value-replicated_commit k n t r e,
    )
