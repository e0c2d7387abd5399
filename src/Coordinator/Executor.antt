-- ===== src/Coordinator/Executor.antt =====
-- controller.cpp: `execute_transaction`, which adds a transaction to the current batch, and
-- `batch_executor_func`, which takes the batch, executes it and answers the senders. A callback of a
-- sender is a value of a type `C`; the answers are the list of the calls to the callbacks.
use opencbdc_tx.Common.{
  ℕ, Bool, true, false, not, ◌||◌, ltb, List, [], ◌∷◌, Option, none, some, is_empty, length,
  get_elem?, emplace, if◌then◌else◌, Outcome, returned, terminated, ◌>>=◌,
}
use opencbdc_tx.Crypto.{Hash, Pubkey, Crypto}
use opencbdc_tx.Transaction.{CompactTx}
use opencbdc_tx.Transaction.Validation.{check_attestations}
use opencbdc_tx.CoordinatorLog.{has_key}
use opencbdc_tx.DistributedTx.{Interface, DistributedTx, distributed_tx, add_tx, execute}
use opencbdc_tx.Coordinator.{World, batch_set_cbs}

pub record Controller (S C : Type 0) : Type 0 where
  pub running : Bool
  pub shards : List S
  pub current_batch : DistributedTx World
  pub current_txs : List (Hash × (C × ℕ))
  pub batch_size : ℕ
  pub sentinel_public_keys : List Pubkey
  pub attestation_threshold : ℕ

-- The calls to the callbacks of a batch, with the flag at the index of each transaction.
unfoldable pub respond :
    {C : Type 0} → Option (List Bool) → List (Hash × (C × ℕ)) → Outcome (List (C × Option Bool))
respond res [] = returned []
respond none ((id, (cb, idx)) ∷ txs) = respond none txs >>= λ rs. returned ((cb, none) ∷ rs)
respond (some flags) ((id, (cb, idx)) ∷ txs) = elim (get_elem? flags idx) [
  | none ↦ terminated
  | some b ↦ respond (some flags) txs >>= λ rs. returned ((cb, some b) ∷ rs)
]

module _ {S C : Type 0} (I : Interface S) where
  -- The transaction in the current batch, with its index and its callback.
  unfoldable pub add_to_batch : CompactTx → C → World → Controller S C → Controller S C
  add_to_batch tx cb w ctl =
      let (r, idx) =
        add_tx I tx (record { dtx = ctl.current_batch; shards = ctl.shards; world = w }) in
      record ctl { current_batch = r.dtx; current_txs = emplace tx.id (cb, idx) ctl.current_txs }

  -- `none` where the call waits for space in the current batch.
  unfoldable pub execute_transaction :
      Crypto → Bool → CompactTx → C → World → Controller S C → Option (Controller S C × Bool)
  execute_transaction c is_leader tx cb w ctl =
      if not is_leader
      then some (ctl, false)
      else if not (check_attestations c tx ctl.sentinel_public_keys ctl.attestation_threshold)
      then some (ctl, false)
      else if not (ltb (length ctl.current_txs) ctl.batch_size || not ctl.running)
      then none
      else if not ctl.running
      then some (ctl, false)
      else if has_key tx.id ctl.current_txs
      then some (ctl, false)
      else some (add_to_batch tx cb w ctl, true)

  -- `start` and the executor: a new batch, with its identifier drawn at random.
  unfoldable pub new_batch : Hash → World → Controller S C → Outcome (Controller S C)
  new_batch id w ctl = distributed_tx I id ctl.shards w >>= λ r.
      returned (record ctl { current_batch = batch_set_cbs r.dtx; current_txs = [] })

  -- The lambda that executes a batch and answers the senders.
  unfoldable pub execute_batch :
      DistributedTx World
      → List (Hash × (C × ℕ))
      → List S
      → World
      → Outcome (List S × World × List (C × Option Bool))
  execute_batch batch txs shards w = do
    (r, res) ← execute I (record { dtx = batch; shards = shards; world = w })
    answers ← respond res txs
    returned (r.shards, r.world, answers)

  -- A round of the loop; `none` where it waits for a transaction, or has stopped.
  unfoldable pub batch_executor :
      Hash
      → World
      → Controller S C
      → Option (Outcome (Controller S C × World × List (C × Option Bool)))
  batch_executor id w ctl =
      if not ctl.running || is_empty ctl.current_txs
      then none
      else some (do
        fresh ← new_batch id w ctl
        (shards', w', answers) ← execute_batch ctl.current_batch ctl.current_txs ctl.shards w
        returned (record fresh { shards = shards' }, w', answers))
