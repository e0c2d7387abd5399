-- ===== src/DistributedTx/Counts.antt =====
-- How many flags an execution from the start returns.
use opencbdc_tx.Common.{
  ◌≡◌, ap, ◌∙◌, inl, inr, Bool, true, false, List, some, length, returned, arith, Outcome-cases,
}
use opencbdc_tx.DistributedTx.{
  Interface, Run, prepare_dtx, commit_dtx, discard_all, execute_prepare, execute_commit,
  execute_discard, execute_start, execute, start, commit, discard, fail,
}

module _ {S W : Type 0} (I : Interface S) where
  discard_keeps :
      (r u : Run S W)
      → discard_all I r ≡ returned (u, true)
      → u.dtx.complete_txs ≡ r.dtx.complete_txs
  unfolding discard_all fail
  discard_keeps r u h = ground arith

  commit_keeps :
      (r u : Run S W)
      → commit_dtx I r.dtx.complete_txs r ≡ returned (u, true)
      → (u.dtx.complete_txs ≡ r.dtx.complete_txs) × (u.dtx.state ≡ discard)
  unfolding commit_dtx fail
  commit_keeps r u h = ground arith

  prepare_counts :
      (r u : Run S W)
      → execute_prepare I r ≡ returned (u, true)
      → (length u.dtx.complete_txs ≡ length r.dtx.full_txs) × (u.dtx.state ≡ commit)
  unfolding execute_prepare prepare_dtx fail
  prepare_counts r u h = ground arith

  discard_counts :
      (r u : Run S W) (flags : List Bool)
      → r.dtx.state ≡ discard
      → execute_discard I r ≡ returned (u, some flags)
      → flags ≡ r.dtx.complete_txs
  unfolding execute_discard
  discard_counts r u flags at h = elim (Outcome-cases (discard_all I r)) [
    | inl e ↦ absurd (ground arith)
    | inr ((v, true), e) ↦ let k = discard_keeps r v e in ground arith
    | inr ((v, false), e) ↦ absurd (ground arith)
  ]

  commit_counts :
      (r u : Run S W) (flags : List Bool)
      → r.dtx.state ≡ commit
      → execute_commit I r ≡ returned (u, some flags)
      → flags ≡ r.dtx.complete_txs
  unfolding execute_commit
  commit_counts r u flags at h = elim (Outcome-cases (commit_dtx I r.dtx.complete_txs r)) [
    | inl e ↦ absurd (ground arith)
    | inr ((v, true), e) ↦
        let k = commit_keeps r v e in discard_counts v u flags k.1 (ground arith) ∙ k.0
    | inr ((v, false), e) ↦ absurd (ground arith)
  ]

  pub execute_counts :
      (r u : Run S W) (flags : List Bool)
      → r.dtx.state ≡ start
      → execute I r ≡ returned (u, some flags)
      → length flags ≡ length r.dtx.full_txs
  unfolding execute execute_start
  execute_counts r u flags at h = elim (Outcome-cases (execute_prepare I r)) [
    | inl e ↦ absurd (ground arith)
    | inr ((v, true), e) ↦
        let k = prepare_counts r v e in ap length (commit_counts v u flags k.1 (ground arith)) ∙ k.0
    | inr ((v, false), e) ↦ absurd (ground arith)
  ]
