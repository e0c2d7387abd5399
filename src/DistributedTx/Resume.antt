-- ===== src/DistributedTx/Resume.antt =====
-- A batch that another coordinator takes over in the middle of a phase: distributed_tx.cpp, with the
-- answers of a shard to a repeated call.
use opencbdc_tx.Common.{
  ◌≡◌, refl, ap, sym, ◌⊎◌, inl, inr, ℕ, Bool, true, List, [], ◌∷◌, none, some, returned, ◌∙◌,
  >>=-returned, returned_injective,
}
use opencbdc_tx.Crypto.{Hash}
use opencbdc_tx.Transaction.{CompactTx}
use opencbdc_tx.LockingShard.{lock_outputs, apply_outputs, discard_dtx}
use opencbdc_tx.LockingShard.Replay.{lock_outputs_again, apply_outputs_again, discard_dtx_again}
use opencbdc_tx.DistributedTx.{
  Interface, Run, select, lock_shards, apply_shards, discard_shards, called, prepare_dtx,
  commit_dtx, discard_all, execute_prepare, execute_start, execute_commit, execute_discard, execute,
  DtxState, start, prepare, commit, discard, done, failed,
}
use opencbdc_tx.DistributedTx.Commit.{in_memory}

-- What a coordinator relies on when it repeats a call that a shard has answered.
pub record Repeats {S : Type 0} (I : Interface S) : Type 0 where
  pub locks :
      (txs : List CompactTx) (id : Hash) (s t : S) (rs : List Bool)
      → I.lock_outputs txs id s ≡ returned (t, some rs)
      → I.lock_outputs txs id t ≡ returned (t, some rs)
  pub applies :
      (flags : List Bool) (id : Hash) (s t : S)
      → I.apply_outputs flags id s ≡ returned (t, true)
      → I.apply_outputs flags id t ≡ returned (t, true)
  pub discards :
      (id : Hash) (s t : S) → I.discard_dtx id s ≡ (t, true) → I.discard_dtx id t ≡ (t, true)

module _ {S : Type 0} (I : Interface S) where
  -- Each shard is as before the calls of a phase, or as its own call has left it.
  abbrev pub PartlyLocked : Hash → List (List ℕ) → List (List CompactTx) → List S → List S → Type 0
  PartlyLocked id ((i ∷ idxs) ∷ idxss) (txs ∷ txss) (s ∷ ss) (m ∷ ms) =
      ((m ≡ s) ⊎ ((rs : List Bool) × (I.lock_outputs txs id s ≡ returned (m, some rs))))
      × PartlyLocked id idxss txss ss ms
  PartlyLocked id ([] ∷ idxss) (txs ∷ txss) (s ∷ ss) (m ∷ ms) =
      (m ≡ s) × PartlyLocked id idxss txss ss ms
  PartlyLocked id idxss txss ss ms = ms ≡ ss

  abbrev pub PartlyApplied : Hash → List Bool → List (List ℕ) → List S → List S → Type 0
  PartlyApplied id flags ((i ∷ idxs) ∷ idxss) (s ∷ ss) (m ∷ ms) =
      ((m ≡ s)
        ⊎ ((fs : List Bool) × (select flags (i ∷ idxs) ≡ returned fs)
            × (I.apply_outputs fs id s ≡ returned (m, true))))
      × PartlyApplied id flags idxss ss ms
  PartlyApplied id flags ([] ∷ idxss) (s ∷ ss) (m ∷ ms) =
      (m ≡ s) × PartlyApplied id flags idxss ss ms
  PartlyApplied id flags idxss ss ms = ms ≡ ss

  abbrev pub PartlyDiscarded : Hash → List (List ℕ) → List S → List S → Type 0
  PartlyDiscarded id ((i ∷ idxs) ∷ idxss) (s ∷ ss) (m ∷ ms) =
      ((m ≡ s) ⊎ (I.discard_dtx id s ≡ (m, true))) × PartlyDiscarded id idxss ss ms
  PartlyDiscarded id ([] ∷ idxss) (s ∷ ss) (m ∷ ms) = (m ≡ s) × PartlyDiscarded id idxss ss ms
  PartlyDiscarded id idxss ss ms = ms ≡ ss

  module _ (again : Repeats I) where
    lock_shards_resumed :
        (id : Hash) (idxss : List (List ℕ)) (txss : List (List CompactTx)) (ss ms : List S)
        → PartlyLocked id idxss txss ss ms
        → lock_shards I id idxss txss ms ≡ lock_shards I id idxss txss ss
    unfolding lock_shards
    lock_shards_resumed id ((i ∷ idxs) ∷ idxss) (txs ∷ txss) (s ∷ ss) (m ∷ ms) (inl e, p) =
        rw (e, lock_shards_resumed id idxss txss ss ms p) refl
    lock_shards_resumed id ((i ∷ idxs) ∷ idxss) (txs ∷ txss) (s ∷ ss) (m ∷ ms) (inr (rs, e), p) =
        rw (e, again.locks txs id s m rs e, lock_shards_resumed id idxss txss ss ms p) refl
    lock_shards_resumed id ([] ∷ idxss) (txs ∷ txss) (s ∷ ss) (m ∷ ms) (e, p) =
        rw (e, lock_shards_resumed id idxss txss ss ms p) refl
    lock_shards_resumed id idxss txss ss ms p = ap (lock_shards I id idxss txss) p

    apply_shards_resumed :
        (id : Hash) (flags : List Bool) (idxss : List (List ℕ)) (ss ms : List S)
        → PartlyApplied id flags idxss ss ms
        → apply_shards I id flags idxss ms ≡ apply_shards I id flags idxss ss
    unfolding apply_shards
    apply_shards_resumed id flags ((i ∷ idxs) ∷ idxss) (s ∷ ss) (m ∷ ms) (inl e, p) =
        rw (e, apply_shards_resumed id flags idxss ss ms p) refl
    apply_shards_resumed id flags ((i ∷ idxs) ∷ idxss) (s ∷ ss) (m ∷ ms) (inr (fs, c, e), p) =
        rw (c, e, again.applies fs id s m e, apply_shards_resumed id flags idxss ss ms p) refl
    apply_shards_resumed id flags ([] ∷ idxss) (s ∷ ss) (m ∷ ms) (e, p) =
        rw (e, apply_shards_resumed id flags idxss ss ms p) refl
    apply_shards_resumed id flags idxss ss ms p = ap (apply_shards I id flags idxss) p

    discard_shards_resumed :
        (id : Hash) (idxss : List (List ℕ)) (ss ms : List S)
        → PartlyDiscarded id idxss ss ms
        → discard_shards I id idxss ms ≡ discard_shards I id idxss ss
    unfolding discard_shards
    discard_shards_resumed id ((i ∷ idxs) ∷ idxss) (s ∷ ss) (m ∷ ms) (inl e, p) =
        rw (e, discard_shards_resumed id idxss ss ms p) refl
    discard_shards_resumed id ((i ∷ idxs) ∷ idxss) (s ∷ ss) (m ∷ ms) (inr e, p) =
        rw (e, again.discards id s m e, discard_shards_resumed id idxss ss ms p) refl
    discard_shards_resumed id ([] ∷ idxss) (s ∷ ss) (m ∷ ms) (e, p) =
        rw (e, discard_shards_resumed id idxss ss ms p) refl
    discard_shards_resumed id idxss ss ms p = ap (discard_shards I id idxss) p

    -- The batch is in a phase whose command is replicated, as a recovered batch is, and some of the
    -- shards have answered the call of the phase.
    abbrev pub Interrupted : {W : Type 0} → DtxState → Run S W → List S → Type 0
    Interrupted prepare r ms =
        (r.dtx.prepare_cb ≡ none) × PartlyLocked r.dtx.dtx_id r.dtx.tx_idxs r.dtx.txs r.shards ms
    Interrupted commit r ms =
        (r.dtx.commit_cb ≡ none)
        × PartlyApplied r.dtx.dtx_id r.dtx.complete_txs r.dtx.tx_idxs r.shards ms
    Interrupted discard r ms =
        (r.dtx.discard_cb ≡ none) × PartlyDiscarded r.dtx.dtx_id r.dtx.tx_idxs r.shards ms
    Interrupted start r ms = ms ≡ r.shards
    Interrupted done r ms = ms ≡ r.shards
    Interrupted failed r ms = ms ≡ r.shards

    prepare_resumed :
        {W : Type 0} (r : Run S W) (ms : List S)
        → Interrupted prepare r ms
        → prepare_dtx I (record r { shards = ms }) ≡ prepare_dtx I r
    unfolding prepare_dtx called
    prepare_resumed r ms (c, p) =
        rw (prepare_dtx, c, lock_shards_resumed r.dtx.dtx_id r.dtx.tx_idxs r.dtx.txs r.shards ms p)
          refl

    commit_resumed :
        {W : Type 0} (r : Run S W) (ms : List S)
        → Interrupted commit r ms
        → commit_dtx I r.dtx.complete_txs (record r { shards = ms })
          ≡ commit_dtx I r.dtx.complete_txs r
    unfolding commit_dtx called
    commit_resumed r ms (c, p) =
        rw
          (
            commit_dtx,
            c,
            apply_shards_resumed r.dtx.dtx_id r.dtx.complete_txs r.dtx.tx_idxs r.shards ms p,
          )
          refl

    discard_resumed :
        {W : Type 0} (r : Run S W) (ms : List S)
        → Interrupted discard r ms
        → discard_all I (record r { shards = ms }) ≡ discard_all I r
    unfolding discard_all called
    discard_resumed r ms (c, p) =
        rw (discard_all, c, discard_shards_resumed r.dtx.dtx_id r.dtx.tx_idxs r.shards ms p) refl

    -- Over shards that repeat an answer: let a batch be in one of its phases, and let each shard be as
    -- it was before the calls of the phase, or as its own call has left it. Then an execution from the
    -- phase on has the same result, down to the state of every shard and of the callbacks, as one that
    -- finds all the shards as they were before.
    pub execute_resumed :
        {W : Type 0} (r : Run S W) (ms : List S)
        → Interrupted r.dtx.state r ms
        → execute I (record r { shards = ms }) ≡ execute I r
    unfolding execute execute_start execute_commit execute_discard execute_prepare
    execute_resumed r ms h = go r.dtx.state refl h
      where
        go :
            (s : DtxState)
            → r.dtx.state ≡ s
            → Interrupted s r ms
            → execute I (record r { shards = ms }) ≡ execute I r
        go prepare at p =
            rw (execute, at, execute_start, execute_prepare, prepare_resumed r ms p) refl
        go commit at p = rw (execute, at, execute_commit, at, commit_resumed r ms p) refl
        go discard at p =
            rw (execute, at, execute_commit, at, execute_discard, at, discard_resumed r ms p) refl
        go start at e = ap (λ x. execute I (record r { shards = x })) e
        go done at e = ap (λ x. execute I (record r { shards = x })) e
        go failed at e = ap (λ x. execute I (record r { shards = x })) e

-- The in-memory shard repeats its answers.
pub in_memory-Repeats : Repeats in_memory
unfolding in_memory
in_memory-Repeats = record {
  locks = λ txs id s t rs h.
      let (x, e, k) = >>=-returned (lock_outputs s.0 txs id s.1) _ h in
      let k' = returned_injective ((s.0, x.0), x.1) (t, some rs) k in
      let same : t ≡ (s.0, x.0) = sym (ap (λ y. y.0) k') in
      let e' = e ∙ ap (λ y. returned (x.0, y)) (ap (λ y. y.1) k') in
      rw (same, lock_outputs_again s.0 txs txs id s.1 x.0 rs e') refl;
  applies = λ flags id s t h.
      let (x, e, k) = >>=-returned (apply_outputs s.0 flags id s.1) _ h in
      let k' = returned_injective ((s.0, x.0), x.1) (t, true) k in
      let same : t ≡ (s.0, x.0) = sym (ap (λ y. y.0) k') in
      let e' = e ∙ ap (λ y. returned (x.0, y)) (ap (λ y. y.1) k') in
      rw (same, apply_outputs_again s.0 flags flags id s.1 x.0 e') refl;
  discards = λ id s t h.
      let same : t ≡ (s.0, (discard_dtx id s.1).0) = sym (ap (λ y. y.0) h) in
      let again : discard_dtx id (discard_dtx id s.1).0 ≡ ((discard_dtx id s.1).0, true) =
        discard_dtx_again id s.1 (discard_dtx id s.1).0
          (ap (λ y. ((discard_dtx id s.1).0, y)) (ap (λ y. y.1) h)) in
      rw (same, again) refl;
}
