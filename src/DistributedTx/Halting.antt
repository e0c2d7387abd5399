-- ===== src/DistributedTx/Halting.antt =====
-- Executions over in-memory locking shards whose callbacks may fail: a coordinator's command that is
-- not replicated ends the execution before the shards are called for the phase.
use opencbdc_tx.Common.{
  ◌==◌, ◌≡◌, refl, ◌∙◌, ℕ, Bool, true, false, List, Option, none, some, length, length-replicate,
  replicate, returned, ==_refl, Bool-cases, inl, inr, arith,
}
use opencbdc_tx.Transaction.{CompactTx}
use opencbdc_tx.DistributedTx.{
  Run, DtxState, start, done, failed, called, collect, all_true, lock_shards, apply_shards,
  discard_shards, fail, prepare_dtx, commit_dtx, discard_all, execute_prepare, execute_commit,
  execute_discard, execute_start, execute,
}
use opencbdc_tx.DistributedTx.Prepare.{collect-refused}
use opencbdc_tx.DistributedTx.Commit.{
  Shard, in_memory, IsReady, Committed, Phases, lock_shards-Phases, get_or-replicate,
}

module _ {W : Type 0} (r : Run Shard W) where
  -- The calls to the callbacks of the phases, one after the other.
  abbrev pub preparing : W × Bool
  preparing = called r.dtx.prepare_cb (λ cb. cb r.dtx.dtx_id r.dtx.full_txs) r.world

  abbrev pub committing : List Bool → W × Bool
  committing flags = called r.dtx.commit_cb (λ cb. cb r.dtx.dtx_id flags r.dtx.tx_idxs) preparing.0

  abbrev pub discarding : List Bool → W × Bool
  discarding flags = called r.dtx.discard_cb (λ cb. cb r.dtx.dtx_id) (committing flags).0

  abbrev pub finishing : List Bool → W × Bool
  finishing flags = called r.dtx.done_cb (λ cb. cb r.dtx.dtx_id) (discarding flags).0

  -- How the batch ends: by the first callback that fails, with the shards as the phases before it have
  -- left them, all of them; or with no such callback, with the flags and done.
  pub data Halts (u : Run Shard W) : Option (List Bool) → Type 0 where
    unprepared : preparing.1 ≡ false → u.dtx.state ≡ failed → u.shards ≡ r.shards → Halts u none
    uncommitted :
        (flags : List Bool) (txss : List (List CompactTx))
        (answers : List (Option (List Bool) × List ℕ))
        → preparing.1 ≡ true
        → (committing flags).1 ≡ false
        → u.dtx.state ≡ failed
        → lock_shards in_memory r.dtx.dtx_id r.dtx.tx_idxs r.dtx.txs r.shards
          ≡ returned (u.shards, txss, answers)
        → collect answers (replicate (length r.dtx.full_txs) true) ≡ returned (some flags)
        → Halts u none
    undiscarded :
        (flags oks : List Bool) (locked : List Shard) (txss : List (List CompactTx))
        (answers : List (Option (List Bool) × List ℕ))
        → preparing.1 ≡ true
        → (committing flags).1 ≡ true
        → (discarding flags).1 ≡ false
        → u.dtx.state ≡ failed
        → lock_shards in_memory r.dtx.dtx_id r.dtx.tx_idxs r.dtx.txs r.shards
          ≡ returned (locked, txss, answers)
        → collect answers (replicate (length r.dtx.full_txs) true) ≡ returned (some flags)
        → apply_shards in_memory r.dtx.dtx_id flags r.dtx.tx_idxs locked ≡ returned (u.shards, oks)
        → all_true oks ≡ true
        → Halts u none
    unfinished :
        (flags : List Bool)
        → preparing.1 ≡ true
        → (committing flags).1 ≡ true
        → (discarding flags).1 ≡ true
        → (finishing flags).1 ≡ false
        → u.dtx.state ≡ failed
        → length flags ≡ length r.dtx.full_txs
        → Committed flags r.dtx.tx_idxs r.dtx.txs r.shards u.shards
        → Halts u none
    finished :
        (flags : List Bool)
        → preparing.1 ≡ true
        → (committing flags).1 ≡ true
        → (discarding flags).1 ≡ true
        → (finishing flags).1 ≡ true
        → u.dtx.state ≡ done
        → length flags ≡ length r.dtx.full_txs
        → Committed flags r.dtx.tx_idxs r.dtx.txs r.shards u.shards
        → Halts u (some flags)

  abbrev Halted : Type 0
  Halted =
      (u : Run Shard W) × (res : Option (List Bool)) × (execute in_memory r ≡ returned (u, res))
      × Halts u res

  by_callbacks :
      (p : Phases (length r.dtx.full_txs) r.dtx.dtx_id r.dtx.tx_idxs r.dtx.txs r.shards)
      (flags : List Bool)
      → r.dtx.state ≡ start
      → collect p.2 (replicate (length r.dtx.full_txs) true) ≡ returned (some flags)
      → length flags ≡ length r.dtx.full_txs
      → (applied : List Shard) (oks : List Bool) (shards' : List Shard) (oks' : List Bool)
      → apply_shards in_memory r.dtx.dtx_id flags r.dtx.tx_idxs p.0 ≡ returned (applied, oks)
      → all_true oks ≡ true
      → discard_shards in_memory r.dtx.dtx_id r.dtx.tx_idxs applied ≡ returned (shards', oks')
      → all_true oks' ≡ true
      → Committed flags r.dtx.tx_idxs r.dtx.txs r.shards shards'
      → Halted
  unfolding execute execute_start execute_prepare prepare_dtx execute_commit commit_dtx
      execute_discard discard_all fail
  by_callbacks (locked, txss, answers, e, a, next) flags at c l applied oks shards' oks' p y d y'
        all =
      elim (Bool-cases preparing.1) [
        | inr f ↦ (
          ended r.dtx.txs r.shards preparing.0 failed r.dtx.complete_txs,
          none,
          rw (execute, at, execute_start, execute_prepare, prepare_dtx, f) refl,
          unprepared f refl refl,
        )
        | inl f ↦ elim (Bool-cases (committing flags).1) [
          | inr g ↦ (
            ended txss locked (committing flags).0 failed flags,
            none,
            rw
                (
                  execute, at, execute_start, execute_prepare, prepare_dtx, f, e, c, long,
                  execute_commit, commit_dtx, g,
                )
                refl,
            uncommitted flags txss answers f g refl e c,
          )
          | inl g ↦ elim (Bool-cases (discarding flags).1) [
            | inr h ↦ (
              ended txss applied (discarding flags).0 failed flags,
              none,
              rw
                  (
                    execute, at, execute_start, execute_prepare, prepare_dtx, f, e, c, long,
                    execute_commit, commit_dtx, g, p, y, execute_discard, discard_all, h,
                  )
                  refl,
              undiscarded flags oks locked txss answers f g h refl e c p y,
            )
            | inl h ↦ elim (Bool-cases (finishing flags).1) [
              | inr k ↦ (
                ended txss shards' (finishing flags).0 failed flags,
                none,
                rw
                    (
                      execute, at, execute_start, execute_prepare, prepare_dtx, f, e, c, long,
                      execute_commit, commit_dtx, g, p, y, execute_discard, discard_all, h, d, y',
                      k,
                    )
                    refl,
                unfinished flags f g h k refl l all,
              )
              | inl k ↦ (
                ended txss shards' (finishing flags).0 done flags,
                some flags,
                rw
                    (
                      execute, at, execute_start, execute_prepare, prepare_dtx, f, e, c, long,
                      execute_commit, commit_dtx, g, p, y, execute_discard, discard_all, h, d, y',
                      k,
                    )
                    refl,
                finished flags f g h k refl l all,
              )
            ]
          ]
        ]
      ]
    where
      long : (length flags == length r.dtx.full_txs) ≡ true
      long = rw l (==_refl (length r.dtx.full_txs))

      ended : List (List CompactTx) → List Shard → W → DtxState → List Bool → Run Shard W
      ended txs ss w state flags = record {
        dtx = record r.dtx { txs = txs; state = state; complete_txs = flags };
        shards = ss;
        world = w;
      }

-- Let each shard run, not know the batch's identifier, and have for each transaction of its part an
-- index in the batch; let the part spend distinct inputs, none of them in two transactions or locked.
-- Whatever the callbacks answer, an execution of the batch from the start returns. If the callback of
-- a phase is the first to fail, the batch is failed and no flags are returned: of the prepare phase,
-- with each shard as it was; of the commit phase, with every shard's part locked; of the discard
-- phase, with every shard's part applied by the flags that the shards answered; of the end, with
-- exactly the flagged transactions done on every shard. If none fails, the batch is done and the
-- flags are returned, with exactly the flagged transactions done on every shard.
pub execute-Halts :
    {W : Type 0} (r : Run Shard W)
    → r.dtx.state ≡ start
    → IsReady (length r.dtx.full_txs) r.dtx.dtx_id r.dtx.tx_idxs r.dtx.txs r.shards
    → (u : Run Shard W) × (res : Option (List Bool)) × (execute in_memory r ≡ returned (u, res))
      × Halts r u res
execute-Halts r at ready =
    let n = length r.dtx.full_txs in
    let ph = lock_shards-Phases n r.dtx.dtx_id r.dtx.tx_idxs r.dtx.txs r.shards ready in
    let (flags, c, l, only) =
      collect-refused ph.2 (replicate n true) (rw (length-replicate n true) ph.4) in
    let l' : length flags ≡ n = l ∙ length-replicate n true in
    let (applied, oks, shards', oks', p, y, d, y', all) =
      ph.5 flags l' (λ k q g. ground (arith, only k, get_or-replicate n k)) in
    by_callbacks r ph flags at c l' applied oks shards' oks' p y d y' all
