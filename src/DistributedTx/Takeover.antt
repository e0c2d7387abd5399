-- ===== src/DistributedTx/Takeover.antt =====
-- A batch over in-memory locking shards that another coordinator takes over in the middle of the
-- prepare or of the commit phase of distributed_tx.cpp.
use opencbdc_tx.Common.{
  ◌≡◌, refl, sym, ap, ◌∙◌, ℕ, Bool, true, List, Option, none, some, length, length-replicate,
  replicate, get_or, returned, returned_injective, arith,
}
use opencbdc_tx.Transaction.{CompactTx}
use opencbdc_tx.DistributedTx.{
  Run, start, prepare, commit, done, collect, lock_shards, execute, execute_start, execute_prepare,
  prepare_dtx, fail,
}
use opencbdc_tx.DistributedTx.Prepare.{collect-refused}
use opencbdc_tx.DistributedTx.Execution.{Agrees, committed, execute-committed, execute-discarded}
use opencbdc_tx.DistributedTx.Commit.{
  Shard, in_memory, IsReady, Committed, Phases, lock_shards-Phases, get_or-replicate,
  execute-Committed,
}
use opencbdc_tx.DistributedTx.Resume.{
  PartlyLocked, PartlyApplied, execute_resumed, in_memory-Repeats,
}

-- Where the first coordinator of a batch of `n` transactions has stopped, over shards that were
-- `shards` before the batch: in the prepare phase, after some shards have locked their parts; or in
-- the commit phase, with the flags of the prepare phase, after some shards have applied theirs. The
-- command of the phase is replicated.
pub data Stopped {W : Type 0} (n : ℕ) (txss : List (List CompactTx)) (shards : List Shard)
    (r : Run Shard W) : Type 0 where
  in_prepare :
      r.dtx.state ≡ prepare
      → r.dtx.prepare_cb ≡ none
      → length r.dtx.full_txs ≡ n
      → r.dtx.txs ≡ txss
      → PartlyLocked in_memory r.dtx.dtx_id r.dtx.tx_idxs r.dtx.txs shards r.shards
      → Stopped n txss shards r
  in_commit :
      (locked : List Shard) (txss' : List (List CompactTx))
      (answers : List (Option (List Bool) × List ℕ))
      → r.dtx.state ≡ commit
      → r.dtx.commit_cb ≡ none
      → lock_shards in_memory r.dtx.dtx_id r.dtx.tx_idxs txss shards
        ≡ returned (locked, txss', answers)
      → collect answers (replicate n true) ≡ returned (some r.dtx.complete_txs)
      → PartlyApplied in_memory r.dtx.dtx_id r.dtx.complete_txs r.dtx.tx_idxs locked r.shards
      → Stopped n txss shards r

module _ {W : Type 0} (n : ℕ) (txss : List (List CompactTx)) (shards : List Shard)
    (r : Run Shard W) where
  -- The batch ends with its flags, and with the shards changed by exactly the flagged transactions.
  abbrev pub Settles : Type 0
  Settles =
      (u : Run Shard W) × (flags : List Bool) × (execute in_memory r ≡ returned (u, some flags))
      × (u.dtx.state ≡ done)
      × (length flags ≡ n)
      × Committed flags r.dtx.tx_idxs txss shards u.shards

-- Over shards as they were before the batch, an execution from the prepare phase is one from the start.
execute-prepare :
    {W : Type 0} (r : Run Shard W)
    → r.dtx.state ≡ prepare
    → execute in_memory r ≡ execute in_memory (record r { dtx = record r.dtx { state = start } })
unfolding execute execute_start execute_prepare prepare_dtx fail
execute-prepare r at = rw (execute, at) refl

Settles-prepare :
    {W : Type 0} (n : ℕ) (shards : List Shard) (r : Run Shard W)
    → Agrees r.dtx
    → IsReady n r.dtx.dtx_id r.dtx.tx_idxs r.dtx.txs shards
    → r.dtx.state ≡ prepare
    → r.dtx.prepare_cb ≡ none
    → length r.dtx.full_txs ≡ n
    → PartlyLocked in_memory r.dtx.dtx_id r.dtx.tx_idxs r.dtx.txs shards r.shards
    → Settles n r.dtx.txs shards r
Settles-prepare n shards r agrees ready at c l p =
    let fresh : Run Shard _ = record r { dtx = record r.dtx { state = start }; shards = shards } in
    let (u, flags, e, fin, count, all) =
      execute-Committed fresh refl
        (record {
          prepares = agrees.prepares;
          commits = agrees.commits;
          discards = agrees.discards;
          finishes = agrees.finishes;
        })
        (rw l ready) in
    (u, flags, resumed ∙ execute-prepare (record r { shards = shards }) at ∙ e, fin, count ∙ l, all)
  where
    resumed : execute in_memory r ≡ execute in_memory (record r { shards = shards })
    resumed =
        execute_resumed in_memory in_memory-Repeats (record r { shards = shards }) r.shards
          (rw at (c, p))

-- What the commit phase makes of shards that have all locked.
module _ {W : Type 0} (n : ℕ) (txss : List (List CompactTx)) (shards : List Shard)
    (r : Run Shard W) where
  Settles-locked :
      (p : Phases n r.dtx.dtx_id r.dtx.tx_idxs txss shards)
      → Agrees r.dtx
      → r.dtx.state ≡ commit
      → r.shards ≡ p.0
      → collect p.2 (replicate n true) ≡ returned (some r.dtx.complete_txs)
      → Settles n txss shards r
  unfolding execute committed
  Settles-locked (locked, txss', answers, e, a, next) agrees at s c =
      let (flags, c', l, only) =
        collect-refused answers (replicate n true) (rw (length-replicate n true) a) in
      let same : flags ≡ r.dtx.complete_txs =
        let q : returned (some flags) ≡ returned (some r.dtx.complete_txs) = sym c' ∙ c in
        ground arith in
      let l' : length r.dtx.complete_txs ≡ n = ap length (sym same) ∙ l ∙ length-replicate n true in
      let (applied, oks, shards', oks', p, y, d, y', all_done) =
        next r.dtx.complete_txs l' (λ k q g.
          let g' : get_or flags k true ≡ true = ap (λ f. get_or f k true) same ∙ g in
          ground (arith, only k, get_or-replicate n k)) in
      let (u, ex, fin, there) =
        execute-discarded in_memory (committed in_memory r applied) shards' oks' refl
          (record {
            prepares = agrees.prepares;
            commits = agrees.commits;
            discards = agrees.discards;
            finishes = agrees.finishes;
          })
          d y' in
      (
        u,
        r.dtx.complete_txs,
        rw (execute, at) (execute-committed in_memory r applied oks at agrees (rw s p) y ∙ ex),
        fin,
        l',
        rw there all_done,
      )

Settles-commit :
    {W : Type 0} (n : ℕ) (txss txss' : List (List CompactTx)) (shards locked : List Shard)
    (answers : List (Option (List Bool) × List ℕ)) (r : Run Shard W)
    → Agrees r.dtx
    → IsReady n r.dtx.dtx_id r.dtx.tx_idxs txss shards
    → r.dtx.state ≡ commit
    → r.dtx.commit_cb ≡ none
    → lock_shards in_memory r.dtx.dtx_id r.dtx.tx_idxs txss shards
      ≡ returned (locked, txss', answers)
    → collect answers (replicate n true) ≡ returned (some r.dtx.complete_txs)
    → PartlyApplied in_memory r.dtx.dtx_id r.dtx.complete_txs r.dtx.tx_idxs locked r.shards
    → Settles n txss shards r
Settles-commit n txss txss' shards locked answers r agrees ready at cb e c p =
    let ph = lock_shards-Phases n r.dtx.dtx_id r.dtx.tx_idxs txss shards ready in
    let same = returned_injective (locked, txss', answers) (ph.0, ph.1, ph.2) (sym e ∙ ph.3) in
    let (u, flags, x, fin, count, all) =
      Settles-locked n txss shards (record r { shards = locked }) ph agrees at (ap (λ y. y.0) same)
        (ap (λ y. collect y.2 (replicate n true)) (sym same) ∙ c) in
    (
      u,
      flags,
      execute_resumed in_memory in_memory-Repeats (record r { shards = locked }) r.shards
            (rw at (cb, p))
          ∙ x,
      fin,
      count,
      all,
    )

-- Let each shard, before a batch, run, not know the batch's identifier, and have for each transaction
-- of its part an index in the batch; let the part spend distinct inputs, none of them in two
-- transactions or locked. Let a coordinator stop in the prepare phase, after any of the shards have
-- locked, or in the commit phase, after any of the shards have applied, with the command of the phase
-- replicated; and let the callbacks of another coordinator succeed. Then its execution of the batch
-- from that phase on returns one flag for each transaction and the batch is done, and on every shard
-- exactly the flagged transactions of its part have their inputs removed and their outputs added,
-- once, from the unspent hashes that the shard had before the batch; no other unspent hash and no
-- lock has changed.
pub execute-Settles :
    {W : Type 0} (n : ℕ) (txss : List (List CompactTx)) (shards : List Shard) (r : Run Shard W)
    → Agrees r.dtx
    → IsReady n r.dtx.dtx_id r.dtx.tx_idxs txss shards
    → Stopped n txss shards r
    → Settles n txss shards r
execute-Settles n txss shards r agrees ready (in_prepare at cb l e p) =
    rw (sym e) (Settles-prepare n shards r agrees (rw e ready) at cb l p)
execute-Settles n txss shards r agrees ready (in_commit locked txss' answers at cb e c p) =
    Settles-commit n txss txss' shards locked answers r agrees ready at cb e c p
