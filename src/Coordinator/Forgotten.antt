-- ===== src/Coordinator/Forgotten.antt =====
-- A batch that is recovered in the discard phase: `recover_discard` of distributed_tx.cpp keeps the
-- empty indexes that the constructor has made, by which `discard` finds the shards to call.
use opencbdc_tx.Common.{
  if◌then◌else◌, ◌≡◌, refl, inl, inr, Bool, List, [], ◌∷◌, Option, some, none, length, replicate,
  returned, Bool-cases,
}
use opencbdc_tx.Crypto.{Hash}
use opencbdc_tx.DistributedTx.{
  Interface, Run, DtxState, start, discard, done, failed, distributed_tx, recover_discard,
  discard_shards, discard_all, execute, execute_commit, execute_discard, called, fail, all_true,
  set_prepare_cb, set_commit_cb, set_done_cb,
}
use opencbdc_tx.Coordinator.{World, batch_set_cbs, set_cbs_in, done_cb}

module _ {S : Type 0} (I : Interface S) where
  nothing_discarded :
      (id : Hash) (shards : List S)
      → discard_shards I id (replicate (length shards) []) shards ≡ returned (shards, [])
  unfolding discard_shards
  nothing_discarded id [] = refl
  nothing_discarded id (s ∷ shards) = rw (nothing_discarded id shards) refl

  -- A batch that a coordinator makes for recovery in the discard phase is executed without a call to
  -- any shard: the execution returns with the shards as they are, and it returns flags exactly if the
  -- state machine has acknowledged that the batch is done.
  pub recover_discard_silent :
      (id : Hash) (s : S) (ss : List S) (w : World)
      → (r : Run S World) × (distributed_tx I id (s ∷ ss) w ≡ returned r)
        × ((u : Run S World) × (res : Option (List Bool)) × (execute I
                (record r { dtx = batch_set_cbs (recover_discard r.dtx) })
              ≡ returned (u, res))
            × (u.shards ≡ s ∷ ss)
            × (u.world ≡ (done_cb id w).0)
            × (res ≡ (if (done_cb id w).1 then some [] else none)))
  unfolding distributed_tx recover_discard batch_set_cbs set_cbs_in set_prepare_cb set_commit_cb
      set_done_cb execute execute_commit execute_discard discard_all called fail all_true
      discard_shards
  recover_discard_silent id s ss w = elim (Bool-cases (done_cb id w).1) [
    | inl e ↦ (
      made start w,
      refl,
      (ended done, some [], rw (nothing_discarded id ss, e) refl, refl, refl, rw e refl),
    )
    | inr e ↦ (
      made start w,
      refl,
      (ended failed, none, rw (nothing_discarded id ss, e) refl, refl, refl, rw e refl),
    )
  ]
    where
      made : DtxState → World → Run S World
      made state w = record {
        dtx = record {
          dtx_id = id;
          txs = replicate (length (s ∷ ss)) [];
          full_txs = [];
          tx_idxs = replicate (length (s ∷ ss)) [];
          prepare_cb = none;
          commit_cb = none;
          discard_cb = none;
          done_cb = none;
          state = state;
          complete_txs = [];
        };
        shards = s ∷ ss;
        world = w;
      }

      ended : DtxState → Run S World
      ended state = record (made state (done_cb id w).0) {
        dtx = record (set_cbs_in discard (made discard w).dtx) { state = state };
      }
