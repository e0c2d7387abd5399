-- ===== src/Coordinator/Attempt.antt =====
-- An attempt to recover, by `recovery_func` of controller.cpp: the command that reads the state.
use opencbdc_tx.Common.{
  ◌≡◌, refl, ap, ◌⊎◌, inl, inr, ℕ, suc, ◌+◌, ◌%◌, ◌^◌, Bool, false, List, Option, none, some,
  ==_refl, Outcome, returned,
}
use opencbdc_tx.DistributedTx.{Interface}
use opencbdc_tx.CoordinatorLog.{get, apply_command, commit_log}
use opencbdc_tx.Coordinator.{
  no_data, Raft, State, World, Fate, recover_batches, recovery_func, replicate_sm_command, answered,
  apply_log,
}

module _ {S : Type 0} (I : Interface S) (shards : List S) where
  -- An attempt from a cluster that works ends where the state is not read, or goes on with the batches
  -- of the state; the state is as it was.
  pub recovery_func_lem :
      (r : Raft)
      → (u : Raft) × (u.machine.state ≡ r.machine.state)
        × ((recovery_func I shards (returned r) ≡ returned (shards, returned u, false))
            ⊎ (recovery_func I shards (returned r)
                ≡ recover_batches I u.machine.state shards (returned u)))
  unfolding recovery_func replicate_sm_command answered apply_log commit_log apply_command
  recovery_func_lem r = go (r.fate r.sent) refl
    where
      i : ℕ
      i = (r.machine.last_committed_idx + 1) % 2 ^ 64

      next : Raft
      next = record r { machine = record r.machine { last_committed_idx = i }; sent = suc r.sent }

      read : apply_log get no_data r ≡ returned (next, some r.machine.state)
      read = rw (apply_log, commit_log, ==_refl i) refl

      from : World × Option (Option State) → Outcome (List S × World × Bool)
      from res = elim res.1 [
        | none ↦ returned (shards, res.0, false)
        | some reply ↦ elim reply [
          | none ↦ returned (shards, res.0, false)
          | some state ↦ recover_batches I state shards res.0
        ]
      ]

      sends :
          (res : World × Option (Option State))
          → replicate_sm_command get no_data (returned r) ≡ res
          → recovery_func I shards (returned r) ≡ from res
      sends res e = ap from e

      go :
          (x : Fate)
          → r.fate r.sent ≡ x
          → (u : Raft) × (u.machine.state ≡ r.machine.state)
            × ((recovery_func I shards (returned r) ≡ returned (shards, returned u, false))
                ⊎ (recovery_func I shards (returned r)
                    ≡ recover_batches I u.machine.state shards (returned u)))
      go Fate.acknowledged x = (
        next,
        refl,
        inr (
            sends (returned next, some (some r.machine.state))
              (rw (replicate_sm_command, x, read) refl)),
      )
      go Fate.unacknowledged x =
          (next, refl, inl (sends (returned next, none) (rw (replicate_sm_command, x, read) refl)))
      go Fate.dropped x = (
        record r { sent = suc r.sent },
        refl,
        inl (
            sends (returned (record r { sent = suc r.sent }), none)
              (rw (replicate_sm_command, x) refl)),
      )
