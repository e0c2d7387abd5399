-- ===== src/LockingShard/Shared.antt =====
-- Two transactions of one batch that share an input: what `apply_outputs` does with it.
use opencbdc_tx.Common.{
  Outcome-cases, ◌≡◌, Bool, true, false, ◌||◌, List, [], ◌∷◌, none, some, returned, contains,
  insert, erase, lookup, remove, lookup-emplace, contains-insert, arith, inl, inr,
}
use opencbdc_tx.LockingShard.{
  check_and_lock_tx, Config, Coins, LockingShard, lock_inputs, lock_txs, lock_outputs, apply_tx,
  apply_txs, complete_ids, apply_outputs,
}
use opencbdc_tx.Crypto.{Hash}
use opencbdc_tx.Transaction.{CompactTx}
use opencbdc_tx.LockingShard.Moves.{listed}
use opencbdc_tx.LockingShard.Batch.{apply_tx_lem}

module _ (c : Config) where
  -- Whatever order the inputs come in, those of this shard are locked if the call returns.
  lock_inputs_holds :
      (ids : List Hash) (s t : Coins) (j : Hash)
      → lock_inputs c ids s ≡ returned t
      → contains j t.locked ≡ (listed c j ids || contains j s.locked)
  unfolding lock_inputs listed contains
  lock_inputs_holds [] s t j h = ground arith
  lock_inputs_holds (id ∷ ids) s t j h = ground (
    arith,
    lock_inputs_holds ids s t j,
    lock_inputs_holds ids (record { uhs = erase id s.uhs; locked = insert id s.locked }) t j,
    contains-insert j id s.locked,
  )

  apply_tx_grows :
      (f : Bool) (tx : CompactTx) (s : Coins) (j : Hash)
      → contains j s.uhs ≡ true
      → contains j (apply_tx c f tx s).uhs ≡ true
  apply_tx_grows f tx s j h = let a = apply_tx_lem c f tx s in ground (arith, a.gained j)

  apply_txs_grows :
      (fs : List Bool) (txs : List CompactTx) (s : Coins) (j : Hash)
      → contains j s.uhs ≡ true
      → contains j (apply_txs c fs txs s).uhs ≡ true
  unfolding apply_txs
  apply_txs_grows [] txs s j h = h
  apply_txs_grows (f ∷ fs) [] s j h = h
  apply_txs_grows (f ∷ fs) (tx ∷ txs) s j h =
      apply_txs_grows fs txs (apply_tx c f tx s) j (apply_tx_grows f tx s j h)

  -- The lock call refused `t1` and locked `t2`.
  lock_txs_holds :
      (t1 t2 : CompactTx) (s t : Coins) (x : Hash)
      → lock_txs c (t1 ∷ t2 ∷ []) s ≡ returned (t, false ∷ true ∷ [])
      → listed c x t2.inputs ≡ true
      → contains x t.locked ≡ true
  unfolding lock_txs check_and_lock_tx
  lock_txs_holds t1 t2 s t x h l =
      ground (arith, lock_inputs_holds t1.inputs s t x, lock_inputs_holds t2.inputs s t x)

  prepared_state :
      (t1 t2 : CompactTx) (dtx_id : Hash) (s t : LockingShard) (rs : List Bool)
      → lookup dtx_id s.prepared_dtxs ≡ none
      → lock_outputs c (t1 ∷ t2 ∷ []) dtx_id s ≡ returned (t, some rs)
      → (lock_txs c (t1 ∷ t2 ∷ []) s.coins ≡ returned (t.coins, rs))
        × (t.running ≡ true)
        × (lookup dtx_id t.prepared_dtxs ≡ some (record { txs = t1 ∷ t2 ∷ []; results = rs }))
  unfolding lock_outputs
  prepared_state t1 t2 dtx_id s t rs new h =
      elim (Outcome-cases (lock_txs c (t1 ∷ t2 ∷ []) s.coins)) [
        | inl l ↦ absurd (ground arith)
        | inr ((coins', ret), l) ↦ ground (
          arith,
          lookup-emplace dtx_id dtx_id (record { txs = t1 ∷ t2 ∷ []; results = ret })
              s.prepared_dtxs,
        )
      ]

  -- Where the lock call refused the first transaction of a batch and locked the second, and both
  -- list an input `x` of this shard, applying the batch with those flags returns true, adds the
  -- outputs of the second transaction to the unspent set, and leaves its input `x` unspent too.
  pub apply_outputs_respends :
      (t1 t2 : CompactTx) (dtx_id : Hash) (s t : LockingShard) (x : Hash)
      → lookup dtx_id s.prepared_dtxs ≡ none
      → lock_outputs c (t1 ∷ t2 ∷ []) dtx_id s ≡ returned (t, some (false ∷ true ∷ []))
      → listed c x t1.inputs ≡ true
      → listed c x t2.inputs ≡ true
      → (u : LockingShard) × (apply_outputs c (false ∷ true ∷ []) dtx_id t ≡ returned (u, true))
        × ((j : Hash) → listed c j t2.uhs_outputs ≡ true → contains j u.uhs ≡ true)
        × (contains x u.uhs ≡ true)
  unfolding apply_outputs apply_txs
  apply_outputs_respends t1 t2 dtx_id s t x new h l1 l2 =
      let p = prepared_state t1 t2 dtx_id s t (false ∷ true ∷ []) new h in
      let freed : contains x (apply_tx c false t1 t.coins).uhs ≡ true = ground (
        arith,
        (apply_tx_lem c false t1 t.coins).gained x,
        lock_txs_holds t1 t2 s.coins t.coins x p.0 l2,
      ) in
      (
        record t {
          coins = apply_txs c (false ∷ true ∷ []) (t1 ∷ t2 ∷ []) t.coins;
          prepared_dtxs = remove dtx_id t.prepared_dtxs;
          applied_dtxs = insert dtx_id t.applied_dtxs;
          completed_txs = complete_ids c (t1 ∷ t2 ∷ []) t.completed_txs;
        },
        ground (arith, p.1, p.2),
        (λ j o. ground (arith, (apply_tx_lem c true t2 (apply_tx c false t1 t.coins)).gained j)),
        apply_tx_grows true t2 (apply_tx c false t1 t.coins) x freed,
      )
