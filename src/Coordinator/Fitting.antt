-- ===== src/Coordinator/Fitting.antt =====
-- Batches that `recovery_func` of controller.cpp makes and that fit their shards.
use opencbdc_tx.Common.{
  ◌≡◌, refl, ap, ◌<◌, ℕ, zero, suc, List, [], ◌∷◌, some, length, get_elem?, replicate, arith,
}
use opencbdc_tx.Transaction.{CompactTx}
use opencbdc_tx.DistributedTx.{
  Interface, DistributedTx, DtxState, start, prepare, commit, discard, done, failed, set_prepare_cb,
  set_commit_cb, set_discard_cb, set_done_cb,
}
use opencbdc_tx.DistributedTx.Batch.{Refers, IsSpread}
use opencbdc_tx.DistributedTx.Prepare.{Below}
use opencbdc_tx.DistributedTx.Answering.{Fits, Pairs, Fits-length}
use opencbdc_tx.DistributedTx.Total.{IsFit}
use opencbdc_tx.Coordinator.{World, set_cbs_in, batch_set_cbs}

Below-Refers :
    (full : List CompactTx) (idxs : List ℕ) (txs : List CompactTx)
    → Refers full idxs txs
    → Below (length full) idxs × (length idxs ≡ length txs)
Below-Refers full [] [] r = (tt, refl)
Below-Refers full [] (tx ∷ txs) r = absurd r
Below-Refers full (i ∷ idxs) [] r = absurd r
Below-Refers full (i ∷ idxs) (tx ∷ txs) (h, r) =
    let (b, l) = Below-Refers full idxs txs r in ((within full i tx h, b), ap suc l)
  where
    within : (xs : List CompactTx) (i : ℕ) (x : CompactTx) → get_elem? xs i ≡ some x → i < length xs
    within [] i x h = absurd (ground arith)
    within (y ∷ xs) zero x h = omega arith
    within (y ∷ xs) (suc i) x h = let k = within xs i x h in omega arith

module _ {S : Type 0} where
  pub spread-Fits :
      (I : Interface S) (full : List CompactTx) (idxss : List (List ℕ))
      (txss : List (List CompactTx)) (shards : List S)
      → IsSpread I full idxss txss shards
      → Fits (length full) idxss shards × Pairs idxss txss
  spread-Fits I full [] [] [] h = (tt, tt)
  spread-Fits I full [] [] (s ∷ shards) h = absurd h
  spread-Fits I full [] (txs ∷ txss) shards h = absurd h
  spread-Fits I full (idxs ∷ idxss) [] shards h = absurd h
  spread-Fits I full (idxs ∷ idxss) (txs ∷ txss) [] h = absurd h
  spread-Fits I full (idxs ∷ idxss) (txs ∷ txss) (s ∷ shards) ((e, r), h) =
      let (f, p) = spread-Fits I full idxss txss shards h in
      let (b, l) = Below-Refers full idxs txs r in ((b, f), (l, p))

  pub no_indexes-Fits : (n : ℕ) (shards : List S) → Fits n (replicate (length shards) []) shards
  no_indexes-Fits n [] = tt
  no_indexes-Fits n (s ∷ shards) = (tt, no_indexes-Fits n shards)

  pub IsFit-length :
      (s : DtxState) (d : DistributedTx World) (shards ss : List S)
      → length ss ≡ length shards
      → IsFit s d shards
      → IsFit s d ss
  IsFit-length start d shards ss l (f, p) =
      (Fits-length (length d.full_txs) d.tx_idxs shards ss l f, p)
  IsFit-length prepare d shards ss l (f, p) =
      (Fits-length (length d.full_txs) d.tx_idxs shards ss l f, p)
  IsFit-length commit d shards ss l f = Fits-length (length d.complete_txs) d.tx_idxs shards ss l f
  IsFit-length discard d shards ss l f = Fits-length (length d.complete_txs) d.tx_idxs shards ss l f
  IsFit-length done d shards ss l f = tt
  IsFit-length failed d shards ss l f = tt

  pub IsFit-state :
      (s t : DtxState)
      → s ≡ t
      → (d : DistributedTx World) (shards : List S) → IsFit t d shards
      → IsFit s d shards
  IsFit-state s t e d shards f = rw e f

  -- The callbacks are of no matter.
  pub IsFit-set :
      (d : DistributedTx World) (shards : List S)
      → IsFit d.state d shards
      → IsFit (batch_set_cbs d).state (batch_set_cbs d) shards
  unfolding batch_set_cbs set_cbs_in set_prepare_cb set_commit_cb set_discard_cb set_done_cb
  IsFit-set d shards f = go d.state refl f
    where
      go :
          (s : DtxState)
          → d.state ≡ s
          → IsFit s d shards
          → IsFit (batch_set_cbs d).state (batch_set_cbs d) shards
      go s at f = rw (ap (λ t. set_cbs_in t d) at) (in_state s at f)
        where
          in_state :
              (s : DtxState)
              → d.state ≡ s
              → IsFit s d shards
              → IsFit (set_cbs_in s d).state (set_cbs_in s d) shards
          in_state start at f = IsFit-state d.state start at (set_cbs_in start d) shards f
          in_state prepare at f = IsFit-state d.state prepare at (set_cbs_in prepare d) shards f
          in_state commit at f = IsFit-state d.state commit at (set_cbs_in commit d) shards f
          in_state discard at f = IsFit-state d.state discard at (set_cbs_in discard d) shards f
          in_state done at f = IsFit-state d.state done at (set_cbs_in done d) shards f
          in_state failed at f = IsFit-state d.state failed at (set_cbs_in failed d) shards f

abbrev pub AreFit : {S : Type 0} → List S → List (DistributedTx World) → Type 0
AreFit shards [] = Unit
AreFit shards (d ∷ ds) = IsFit d.state d shards × AreFit shards ds
