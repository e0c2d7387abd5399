-- ===== src/Coordinator/Complete.antt =====
-- A recovery, by `recovery_func` of controller.cpp, over shards that answer.
use opencbdc_tx.Common.{
  ◌≡◌, refl, ◌∙◌, inl, inr, ℕ, Bool, true, false, List, [], ◌∷◌, ◌++◌, none, some, length, All,
  returned, arith,
}
use opencbdc_tx.Crypto.{Hash}
use opencbdc_tx.Transaction.{CompactTx}
use opencbdc_tx.DistributedTx.{
  Interface, DistributedTx, Run, DtxState, start, prepare, distributed_tx, add_txs, recover_prepare,
  recover_commit, recover_discard,
}
use opencbdc_tx.DistributedTx.Batch.{add_txs-IsSpread, empty-IsSpread}
use opencbdc_tx.DistributedTx.Answering.{Returns, Answers, Fits}
use opencbdc_tx.DistributedTx.Total.{IsFit, execute-Returns}
use opencbdc_tx.DistributedTx.Lengths.{length-execute}
use opencbdc_tx.Coordinator.Log.{Entry, absent, Holds}
use opencbdc_tx.Coordinator.Attempt.{recovery_func_lem}
use opencbdc_tx.Coordinator.Takeover.{IsOnce, Recovered, recovery_func-Recovered}
use opencbdc_tx.Coordinator.Remade.{add_txs-Extends, blank}
use opencbdc_tx.Coordinator.{
  Payload, prepare_tx, commit_tx, no_data, Raft, State, World, batch_set_cbs, prepare_coordinators,
  commit_coordinators, discard_coordinators, execute_all, recover_batches, recovery_func,
}
use opencbdc_tx.Coordinator.Fitting.{
  spread-Fits, no_indexes-Fits, IsFit-length, IsFit-state, IsFit-set, AreFit,
}

-- The payloads decode: to transactions in the prepare phase, and in the commit phase to flags and
-- to a list of indexes for each shard, all of them below the number of the flags.
pub record Decodes {S : Type 0} (shards : List S) (s : State) : Type 0 where
  pub prepares : All (λ p. (txs : List CompactTx) × (p.1 ≡ prepare_tx txs)) s.prepare_txs
  pub commits :
      All
        (λ p.
          (flags : List Bool) × (idxs : List (List ℕ)) × (p.1 ≡ commit_tx flags idxs)
          × Fits (length flags) idxs shards)
        s.commit_txs

module _ {S : Type 0} (I : Interface S) where
  AreFit-length :
      (ds : List (DistributedTx World)) (shards ss : List S)
      → length ss ≡ length shards
      → AreFit shards ds
      → AreFit ss ds
  AreFit-length [] shards ss l f = tt
  AreFit-length (d ∷ ds) shards ss l (f, fs) =
      (IsFit-length d.state d shards ss l f, AreFit-length ds shards ss l fs)

  AreFit-append :
      (shards : List S) (ds es : List (DistributedTx World))
      → AreFit shards ds
      → AreFit shards es
      → AreFit shards (ds ++ es)
  AreFit-append shards [] es f g = g
  AreFit-append shards (d ∷ ds) es (f, fs) g = (f, AreFit-append shards ds es fs g)

  execute_all-Returns :
      (ds : List (DistributedTx World)) (shards : List S) (w : World)
      → Answers I
      → AreFit shards ds
      → Returns (execute_all I ds shards w)
  unfolding execute_all
  execute_all-Returns [] shards w ans f = ((shards, w, true), refl)
  execute_all-Returns (d ∷ ds) shards w ans (f, fs) =
      let run : Run S World = record { dtx = batch_set_cbs d; shards = shards; world = w } in
      let ((u, res), e) = execute-Returns I ans run (IsFit-set d shards f) in
      let l = length-execute I run u res e in
      let ((ss, v, ok), q) =
        execute_all-Returns ds u.shards u.world ans (AreFit-length ds shards u.shards l fs) in
      ((ss, v, elim res [ none ↦ false | some flags ↦ ok ]), rw (execute_all, e, q) refl)

  module _ (s : S) (ss : List S) (w : World) where
    abbrev remade : Hash → DtxState → Run S World
    remade id state = blank I s ss w (λ j. absent) id state

    prepared-IsFit :
        (id : Hash) (txs : List CompactTx)
        → IsFit
            (add_txs I txs (remade id prepare)).dtx.state
            (add_txs I txs (remade id prepare)).dtx
            (s ∷ ss)
    prepared-IsFit id txs =
        let x = add_txs-Extends I txs (remade id prepare) in
        let (full, same, spread) =
          add_txs-IsSpread I txs [] (s ∷ ss) (remade id prepare)
            (refl, refl, empty-IsSpread I (s ∷ ss)) in
        let u = add_txs I txs (remade id prepare) in
        IsFit-state u.dtx.state prepare x.same_state u.dtx (s ∷ ss)
          (rw full (spread-Fits I txs u.dtx.tx_idxs u.dtx.txs (s ∷ ss) spread))

    prepare_coordinators-AreFit :
        (m : List (Hash × Payload))
        → All (λ p. (txs : List CompactTx) × (p.1 ≡ prepare_tx txs)) m
        → (ds : List (DistributedTx World)) × (prepare_coordinators I (s ∷ ss) w m ≡ returned ds)
          × AreFit (s ∷ ss) ds
    unfolding prepare_coordinators distributed_tx recover_prepare
    prepare_coordinators-AreFit [] a = ([], refl, tt)
    prepare_coordinators-AreFit ((id, no_data) ∷ m) ((txs, e), a) = absurd (ground arith)
    prepare_coordinators-AreFit ((id, commit_tx flags idxs) ∷ m) ((txs, e), a) =
        absurd (ground arith)
    prepare_coordinators-AreFit ((id, prepare_tx txs) ∷ m) (e, a) =
        let (ds, q, f) = prepare_coordinators-AreFit m a in
        ((add_txs I txs (remade id prepare)).dtx ∷ ds, rw q refl, (prepared-IsFit id txs, f))

    commit_coordinators-AreFit :
        (m : List (Hash × Payload))
        → All
            (λ p.
              (flags : List Bool) × (idxs : List (List ℕ)) × (p.1 ≡ commit_tx flags idxs)
              × Fits (length flags) idxs (s ∷ ss))
            m
        → (ds : List (DistributedTx World)) × (commit_coordinators I (s ∷ ss) w m ≡ returned ds)
          × AreFit (s ∷ ss) ds
    unfolding commit_coordinators distributed_tx recover_commit
    commit_coordinators-AreFit [] a = ([], refl, tt)
    commit_coordinators-AreFit ((id, no_data) ∷ m) ((fl, ix, e, f), a) = absurd (ground arith)
    commit_coordinators-AreFit ((id, prepare_tx txs) ∷ m) ((fl, ix, e, f), a) =
        absurd (ground arith)
    commit_coordinators-AreFit ((id, commit_tx flags idxs) ∷ m) ((fl, ix, e, f), a) =
        let (ds, q, fs) = commit_coordinators-AreFit m a in
        let same_flags : flags ≡ fl = ground arith in
        let same_idxs : idxs ≡ ix = ground arith in
        (
          recover_commit flags idxs (remade id start).dtx ∷ ds,
          rw q refl,
          (rw (same_flags, same_idxs) f, fs),
        )

    discard_coordinators-AreFit :
        (hs : List Hash)
        → (ds : List (DistributedTx World)) × (discard_coordinators I (s ∷ ss) w hs ≡ returned ds)
          × AreFit (s ∷ ss) ds
    unfolding discard_coordinators distributed_tx recover_discard
    discard_coordinators-AreFit [] = ([], refl, tt)
    discard_coordinators-AreFit (id ∷ hs) =
        let (ds, q, fs) = discard_coordinators-AreFit hs in
        (recover_discard (remade id start).dtx ∷ ds, rw q refl, (no_indexes-Fits 0 (s ∷ ss), fs))

    recover_batches-Returns :
        (st : State) → Answers I → Decodes (s ∷ ss) st → Returns (recover_batches I st (s ∷ ss) w)
    unfolding recover_batches
    recover_batches-Returns st ans h =
        let (ps, e, f) = prepare_coordinators-AreFit st.prepare_txs h.prepares in
        let (cs, e2, f2) = commit_coordinators-AreFit st.commit_txs h.commits in
        let (ds, e3, f3) = discard_coordinators-AreFit st.discard_txs in
        let (x, q) =
          execute_all-Returns ((ps ++ cs) ++ ds) (s ∷ ss) w ans
            (AreFit-append (s ∷ ss) (ps ++ cs) ds (AreFit-append (s ∷ ss) ps cs f f2) f3) in
        (x, rw (recover_batches, e, e2, e3) q)

  -- Let the shards answer every call, with a flag for each transaction of a batch that they lock; let
  -- there be at least one; let the replicated state hold each batch once, with one entry, and its
  -- payloads decode, those of the commit phase to flags and to a list of indexes for each shard, all
  -- below the number of the flags. Whatever becomes of the commands that are sent, a recovery returns,
  -- has sent no command that the state machine refuses and has made no entry of a batch that was not
  -- there; if it reports success, the replicated state has no batch left.
  pub recovery_func-Completes :
      (s : S) (ss : List S) (f : Hash → Entry) (r : Raft)
      → Answers I
      → Decodes (s ∷ ss) r.machine.state
      → Holds r.machine.state f
      → IsOnce r.machine.state
      → (shards : List S) × (w : World) × (ok : Bool) × (recovery_func I (s ∷ ss) (returned r)
          ≡ returned (shards, w, ok))
        × Recovered f (returned (shards, w, ok))
  recovery_func-Completes s ss f r ans d h o =
      let (u, e, attempt) = recovery_func_lem I (s ∷ ss) r in
      elim attempt [
        | inl q ↦ ends (s ∷ ss, returned u, false) q
        | inr q ↦
            let (x, p) = recover_batches-Returns s ss (returned u) u.machine.state ans (rw e d) in
            ends x (q ∙ p)
      ]
    where
      ends :
          (x : List S × World × Bool)
          → recovery_func I (s ∷ ss) (returned r) ≡ returned x
          → (shards : List S) × (w : World) × (ok : Bool) × (recovery_func I (s ∷ ss) (returned r)
              ≡ returned (shards, w, ok))
            × Recovered f (returned (shards, w, ok))
      ends (shards, w, ok) e = (shards, w, ok, e, rw e at (recovery_func-Recovered I s ss f r h o))
