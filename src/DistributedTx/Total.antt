-- ===== src/DistributedTx/Total.antt =====
-- Batches for which an execution returns.
use opencbdc_tx.Common.{
  ◌≡◌, refl, ℕ, Bool, true, List, Option, none, some, length, replicate, length-replicate, ==_refl,
  ◌⊎◌, Outcome-cases, inl, inr, returned, Bool-cases, arith,
}
use opencbdc_tx.Transaction.{CompactTx}
use opencbdc_tx.DistributedTx.{
  Interface, DistributedTx, Run, DtxState, start, prepare, commit, discard, done, failed, fail,
  collect, lock_shards, prepare_dtx, commit_dtx, discard_all, execute_prepare, execute_commit,
  execute_discard, execute_start, execute,
}
use opencbdc_tx.DistributedTx.Answering.{
  Returns, Flags, Answers, Fits, Pairs, collect-Returns, lock_shards-Returns, apply_shards-Returns,
  discard_shards-Returns,
}

-- The batch fits its shards, as far as the phases that are left read it.
abbrev pub IsFit : {S W : Type 0} → DtxState → DistributedTx W → List S → Type 0
IsFit start d shards = Fits (length d.full_txs) d.tx_idxs shards × Pairs d.tx_idxs d.txs
IsFit prepare d shards = Fits (length d.full_txs) d.tx_idxs shards × Pairs d.tx_idxs d.txs
IsFit commit d shards = Fits (length d.complete_txs) d.tx_idxs shards
IsFit discard d shards = Fits (length d.complete_txs) d.tx_idxs shards
IsFit done d shards = Unit
IsFit failed d shards = Unit

module _ {S W : Type 0} (I : Interface S) (ans : Answers I) where
  discard_all-Returns :
      (n : ℕ) (r : Run S W) → Fits n r.dtx.tx_idxs r.shards → Returns (discard_all I r)
  unfolding discard_all
  discard_all-Returns n r f =
      let ((ss, oks), e) = discard_shards-Returns I ans r.dtx.dtx_id n r.dtx.tx_idxs r.shards f in
      elim (Outcome-cases (discard_all I r)) [ inl t ↦ absurd (ground arith) | inr t ↦ t ]

  execute_discard-Returns :
      (n : ℕ) (r : Run S W) → Fits n r.dtx.tx_idxs r.shards → Returns (execute_discard I r)
  unfolding execute_discard
  execute_discard-Returns n r f =
      let ((u, ok), e) = discard_all-Returns n r f in
      elim (Outcome-cases (execute_discard I r)) [ inl t ↦ absurd (ground arith) | inr t ↦ t ]

  commit_dtx-Returns :
      (flags : List Bool) (r : Run S W)
      → Fits (length flags) r.dtx.tx_idxs r.shards
      → (u : Run S W) × (ok : Bool) × (commit_dtx I flags r ≡ returned (u, ok))
        × Fits (length flags) u.dtx.tx_idxs u.shards
  unfolding commit_dtx fail
  commit_dtx-Returns flags r f =
      let (ss, oks, e, f') =
        apply_shards-Returns I ans r.dtx.dtx_id flags r.dtx.tx_idxs r.shards f in
      elim (Outcome-cases (commit_dtx I flags r)) [
        | inl t ↦ absurd (ground arith)
        | inr ((u, ok), t) ↦
            let same : u.dtx.tx_idxs ≡ r.dtx.tx_idxs = ground arith in
            let there : (u.shards ≡ r.shards) ⊎ (u.shards ≡ ss) = ground arith in
            (u, ok, t, elim there [ inl x ↦ rw (same, x) f | inr x ↦ rw (same, x) f' ])
      ]

  execute_commit-Returns :
      (r : Run S W)
      → Fits (length r.dtx.complete_txs) r.dtx.tx_idxs r.shards
      → Returns (execute_commit I r)
  unfolding execute_commit
  execute_commit-Returns r f =
      let (u, ok, e, f') = commit_dtx-Returns r.dtx.complete_txs r f in
      let (x, q) = execute_discard-Returns (length r.dtx.complete_txs) u f' in
      let (y, p) = execute_discard-Returns (length r.dtx.complete_txs) r f in
      elim (Outcome-cases (execute_commit I r)) [ inl t ↦ absurd (ground arith) | inr t ↦ t ]

  execute_prepare-Returns :
      (r : Run S W)
      → Fits (length r.dtx.full_txs) r.dtx.tx_idxs r.shards
      → Pairs r.dtx.tx_idxs r.dtx.txs
      → (u : Run S W) × (ok : Bool) × (execute_prepare I r ≡ returned (u, ok))
        × (ok ≡ true → Fits (length u.dtx.complete_txs) u.dtx.tx_idxs u.shards)
  unfolding execute_prepare prepare_dtx fail
  execute_prepare-Returns r f p =
      let (ss, txss, answers, e, a, f') =
        lock_shards-Returns I ans r.dtx.dtx_id n r.dtx.tx_idxs r.dtx.txs r.shards f p in
      let (c, q, l) = collect-Returns n answers (replicate n true) (length-replicate n true) a in
      go ss txss answers c e q l f'
    where
      n : ℕ
      n = length r.dtx.full_txs

      go :
          (ss : List S) (txss : List (List CompactTx))
          (answers : List (Option (List Bool) × List ℕ)) (c : Option (List Bool))
          → lock_shards I r.dtx.dtx_id r.dtx.tx_idxs r.dtx.txs r.shards
            ≡ returned (ss, txss, answers)
          → collect answers (replicate n true) ≡ returned c
          → Flags n c
          → Fits n r.dtx.tx_idxs ss
          → (u : Run S W) × (ok : Bool) × (execute_prepare I r ≡ returned (u, ok))
            × (ok ≡ true → Fits (length u.dtx.complete_txs) u.dtx.tx_idxs u.shards)
      go ss txss answers none e q l f' = elim (Outcome-cases (execute_prepare I r)) [
        | inl t ↦ absurd (ground arith)
        | inr ((u, ok), t) ↦ (u, ok, t, λ o. absurd (ground arith))
      ]
      go ss txss answers (some flags) e q l f' = elim (Outcome-cases (execute_prepare I r)) [
        | inl t ↦ absurd (ground (arith, ==_refl n))
        | inr ((u, ok), t) ↦ (
          u,
          ok,
          t,
          λ o.
              let same : u.dtx.tx_idxs ≡ r.dtx.tx_idxs = ground arith in
              let there : u.shards ≡ ss = ground arith in
              let long : u.dtx.complete_txs ≡ flags = ground arith in rw (same, there, long, l) f',
        )
      ]

  execute_start-Returns :
      (r : Run S W)
      → Fits (length r.dtx.full_txs) r.dtx.tx_idxs r.shards
      → Pairs r.dtx.tx_idxs r.dtx.txs
      → Returns (execute_start I r)
  unfolding execute_start
  execute_start-Returns r f p =
      let (u, ok, e, f') = execute_prepare-Returns r f p in
      elim (Bool-cases ok) [
        | inl o ↦ let (x, q) = execute_commit-Returns u (f' o) in (x, rw (execute_start, e, o) q)
        | inr o ↦ ((u, none), rw (execute_start, e, o) refl)
      ]

  at_end-Returns :
      (r : Run S W) → (r.dtx.state ≡ done) ⊎ (r.dtx.state ≡ failed) → Returns (execute I r)
  unfolding execute execute_commit execute_discard
  at_end-Returns r at = ((r, some r.dtx.complete_txs), ground arith)

  pub execute-Returns : (r : Run S W) → IsFit r.dtx.state r.dtx r.shards → Returns (execute I r)
  unfolding execute
  execute-Returns r f = go r.dtx.state refl f
    where
      in_start :
          (r.dtx.state ≡ start) ⊎ (r.dtx.state ≡ prepare)
          → Returns (execute_start I r)
          → Returns (execute I r)
      in_start at (x, e) = (x, ground arith)

      in_commit :
          (r.dtx.state ≡ commit) ⊎ (r.dtx.state ≡ discard)
          → Returns (execute_commit I r)
          → Returns (execute I r)
      in_commit at (x, e) = (x, ground arith)

      go : (s : DtxState) → r.dtx.state ≡ s → IsFit s r.dtx r.shards → Returns (execute I r)
      go start at (f, p) = in_start (inl at) (execute_start-Returns r f p)
      go prepare at (f, p) = in_start (inr at) (execute_start-Returns r f p)
      go commit at f = in_commit (inl at) (execute_commit-Returns r f)
      go discard at f = in_commit (inr at) (execute_commit-Returns r f)
      go done at f = at_end-Returns r (inl at)
      go failed at f = at_end-Returns r (inr at)
