-- ===== src/RuntimeShard/Server.antt =====
-- src/parsec/runtime_locking_shard/server.cpp: the server of a shard asks the shard and the
-- replicated shard one after the other. Raft is left out: a request that it replicates is applied, and
-- whether it replicates one is an argument. The answer is the error, if any; a handler that returns
-- false gives none. The callbacks of locks that a call grants are those of the shard.
use opencbdc_tx.Common.{ℕ, Bool, true, false, List, Option, none, some, Outcome, returned, ◌>>=◌}
use opencbdc_tx.RuntimeShard.{Key, Value, internal_error, ShardError, Shard}
use opencbdc_tx.RuntimeShard.Operations.{failed, prepare, commit, rollback, finish}
use opencbdc_tx.RuntimeShard.Replicated.{
  ReplicatedShard, replicated_prepare, replicated_commit, replicated_finish,
}

pub record Server : Type 0 where
  pub shard : Shard
  pub replica : ReplicatedShard

-- What the callback of a request is called with, if it is called.
pub data Answer : Type 0 where
  replied : Option ShardError → Answer
  no_reply : Answer

unfoldable pub handle_prepare :
    Bool
    → ℕ
    → ℕ
    → List (Key × Value)
    → Shard × Option ShardError
    → ReplicatedShard
    → Server × Option ShardError
handle_prepare replicates n broker update (t, some e) r =
    (record { shard = t; replica = r }, some e)
handle_prepare false n broker update (t, none) r =
    (record { shard = t; replica = r }, failed internal_error)
handle_prepare true n broker update (t, none) r =
    (record { shard = t; replica = replicated_prepare n broker update r }, none)

-- The prepare request: the shard first.
unfoldable pub serve_prepare :
    Bool → ℕ → ℕ → List (Key × Value) → Server → Server × Option ShardError
serve_prepare replicates n broker update sv =
    handle_prepare replicates n broker update (prepare n update sv.shard) sv.replica

-- The commit request: the replicated shard first, then `handle_commit`.
unfoldable pub serve_commit : Bool → ℕ → Server → Outcome (Server × Answer)
serve_commit false n sv = returned (sv, no_reply)
serve_commit true n sv =
    let (r, err) = replicated_commit n sv.replica in
    elim err [
      | some e ↦ returned (record sv { replica = r }, replied (failed internal_error))
      | none ↦ do
        (t, cbs, answer) ← commit n sv.shard
        returned (record { shard = t; replica = r }, replied answer)
    ]

unfoldable pub serve_rollback : Bool → ℕ → Server → Outcome (Server × Answer)
serve_rollback false n sv = returned (sv, no_reply)
serve_rollback true n sv = do
  (t, cbs, answer) ← rollback n sv.shard
  returned (record { shard = t; replica = replicated_finish n sv.replica }, replied answer)

unfoldable pub serve_finish : Bool → ℕ → Server → Server × Answer
serve_finish false n sv = (sv, no_reply)
serve_finish true n sv =
    let (t, answer) = finish n sv.shard in
    (record { shard = t; replica = replicated_finish n sv.replica }, replied answer)
