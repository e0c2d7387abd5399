-- ===== src/DistributedTx/Execution.antt =====
-- Executions whose callbacks and calls succeed, over any shards: the state after each phase.
use opencbdc_tx.Common.{
  ℕ, ◌≡◌, refl, Bool, true, List, Option, some, length, replicate, returned, ==_refl,
}
use opencbdc_tx.Transaction.{CompactTx}
use opencbdc_tx.DistributedTx.{
  Interface, DistributedTx, Run, collect, all_true, called, lock_shards, apply_shards,
  discard_shards, prepare_dtx, commit_dtx, discard_all, execute_prepare, execute_commit,
  execute_discard, execute_start, execute, start, commit, discard, done,
}

-- Each callback is not set, or succeeds.
pub record Agrees {W : Type 0} (d : DistributedTx W) : Type 0 where
  pub prepares : (w : W) → (called d.prepare_cb (λ cb. cb d.dtx_id d.full_txs) w).1 ≡ true
  pub commits :
      (flags : List Bool) (w : W)
      → (called d.commit_cb (λ cb. cb d.dtx_id flags d.tx_idxs) w).1 ≡ true
  pub discards : (w : W) → (called d.discard_cb (λ cb. cb d.dtx_id) w).1 ≡ true
  pub finishes : (w : W) → (called d.done_cb (λ cb. cb d.dtx_id) w).1 ≡ true

-- The phases of an execution whose callbacks and calls succeed.
module _ {S W : Type 0} (I : Interface S) where
  unfoldable pub prepared : Run S W → List S → List (List CompactTx) → List Bool → Run S W
  prepared r shards txs flags = record {
    dtx = record r.dtx { txs = txs; state = commit; complete_txs = flags };
    shards = shards;
    world = (called r.dtx.prepare_cb (λ cb. cb r.dtx.dtx_id r.dtx.full_txs) r.world).0;
  }

  pub execute-prepared :
      (r : Run S W) (shards : List S) (txs : List (List CompactTx))
      (answers : List (Option (List Bool) × List ℕ)) (flags : List Bool)
      → r.dtx.state ≡ start
      → Agrees r.dtx
      → lock_shards I r.dtx.dtx_id r.dtx.tx_idxs r.dtx.txs r.shards
        ≡ returned (shards, txs, answers)
      → collect answers (replicate (length r.dtx.full_txs) true) ≡ returned (some flags)
      → length flags ≡ length r.dtx.full_txs
      → execute I r ≡ execute_commit I (prepared r shards txs flags)
  unfolding execute execute_start execute_prepare prepare_dtx prepared
  execute-prepared r shards txs answers flags at agrees e c l =
      rw
        (
          execute,
          at,
          execute_start,
          execute_prepare,
          prepare_dtx,
          agrees.prepares r.world,
          e,
          c,
          l,
          ==_refl (length r.dtx.full_txs),
        )
        refl

  unfoldable pub committed : Run S W → List S → Run S W
  committed r shards = record {
    dtx = record r.dtx { state = discard };
    shards = shards;
    world =
        (called r.dtx.commit_cb (λ cb. cb r.dtx.dtx_id r.dtx.complete_txs r.dtx.tx_idxs) r.world).0;
  }

  pub execute-committed :
      (r : Run S W) (shards : List S) (oks : List Bool)
      → r.dtx.state ≡ commit
      → Agrees r.dtx
      → apply_shards I r.dtx.dtx_id r.dtx.complete_txs r.dtx.tx_idxs r.shards
        ≡ returned (shards, oks)
      → all_true oks ≡ true
      → execute_commit I r ≡ execute_discard I (committed r shards)
  unfolding execute_commit commit_dtx committed
  execute-committed r shards oks at agrees p y =
      rw (execute_commit, at, commit_dtx, agrees.commits r.dtx.complete_txs r.world, p, y) refl

  pub execute-discarded :
      (r : Run S W) (shards : List S) (oks : List Bool)
      → r.dtx.state ≡ discard
      → Agrees r.dtx
      → discard_shards I r.dtx.dtx_id r.dtx.tx_idxs r.shards ≡ returned (shards, oks)
      → all_true oks ≡ true
      → (u : Run S W) × (execute_discard I r ≡ returned (u, some r.dtx.complete_txs))
        × (u.dtx.state ≡ done)
        × (u.shards ≡ shards)
  unfolding execute_discard discard_all
  execute-discarded r shards oks at agrees d y = (
    record {
      dtx = record r.dtx { state = done };
      shards = shards;
      world =
          (called r.dtx.done_cb (λ cb. cb r.dtx.dtx_id)
            (called r.dtx.discard_cb (λ cb. cb r.dtx.dtx_id) r.world).0).0;
    },
    rw
        (
          execute_discard,
          at,
          discard_all,
          agrees.discards r.world,
          d,
          y,
          agrees.finishes (called r.dtx.discard_cb (λ cb. cb r.dtx.dtx_id) r.world).0,
        )
        refl,
    refl,
    refl,
  )
