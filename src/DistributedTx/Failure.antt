-- ===== src/DistributedTx/Failure.antt =====
-- How an execution ends.
use opencbdc_tx.Common.{
  ◌≡◌, refl, Bool, true, false, List, Option, none, some, ◌⊎◌, inl, inr, returned, Outcome-cases,
  arith,
}
use opencbdc_tx.DistributedTx.{
  Interface, Run, fail, prepare_dtx, commit_dtx, discard_all, execute_prepare, execute_commit,
  execute_discard, execute_start, execute, start, prepare, commit, discard, done, failed, DtxState,
}

module _ {S W : Type 0} (I : Interface S) where
  -- A phase that returns has gone over to the next state or failed.
  Goes : DtxState → Run S W → Bool → Type 0
  Goes next u ok = ((ok ≡ true) × (u.dtx.state ≡ next)) ⊎ ((ok ≡ false) × (u.dtx.state ≡ failed))

  discard_all-Goes :
      (r u : Run S W) (ok : Bool) → discard_all I r ≡ returned (u, ok) → Goes done u ok
  unfolding discard_all Goes fail
  discard_all-Goes r u ok h = ground arith

  commit_dtx-Goes :
      (flags : List Bool) (r u : Run S W) (ok : Bool)
      → commit_dtx I flags r ≡ returned (u, ok)
      → Goes discard u ok
  unfolding commit_dtx Goes fail
  commit_dtx-Goes flags r u ok h = ground arith

  -- How a call of `execute` or of one of its parts ends.
  abbrev pub Ends : Run S W → Option (List Bool) → Type 0
  Ends u res =
      ((res ≡ some u.dtx.complete_txs) × (u.dtx.state ≡ done))
      ⊎ ((res ≡ none) × (u.dtx.state ≡ failed))

  execute_prepare-Goes :
      (r u : Run S W) (ok : Bool) → execute_prepare I r ≡ returned (u, ok) → Goes commit u ok
  unfolding execute_prepare prepare_dtx Goes fail
  execute_prepare-Goes r u ok h = ground arith

  execute_discard-Ends :
      (r u : Run S W) (res : Option (List Bool))
      → r.dtx.state ≡ discard
      → execute_discard I r ≡ returned (u, res)
      → Ends u res
  unfolding execute_discard Goes
  execute_discard-Ends r u res at h = elim (Outcome-cases (discard_all I r)) [
    | inl e ↦ absurd (ground arith)
    | inr ((v, ok), e) ↦ let g = discard_all-Goes r v ok e in ground arith
  ]

  execute_commit-Ends :
      (r u : Run S W) (res : Option (List Bool))
      → (r.dtx.state ≡ commit) ⊎ (r.dtx.state ≡ discard)
      → execute_commit I r ≡ returned (u, res)
      → Ends u res
  unfolding execute_commit Goes
  execute_commit-Ends r u res (inr at) h = execute_discard-Ends r u res at (ground arith)
  execute_commit-Ends r u res (inl at) h =
      elim (Outcome-cases (commit_dtx I r.dtx.complete_txs r)) [
        | inl e ↦ absurd (ground arith)
        | inr ((v, true), e) ↦
            let g = commit_dtx-Goes r.dtx.complete_txs r v true e in
            execute_discard-Ends v u res (ground arith) (ground arith)
        | inr ((v, false), e) ↦
            let g = commit_dtx-Goes r.dtx.complete_txs r v false e in ground arith
      ]

  execute_start-Ends :
      (r u : Run S W) (res : Option (List Bool))
      → execute_start I r ≡ returned (u, res)
      → Ends u res
  unfolding execute_start Goes
  execute_start-Ends r u res h = elim (Outcome-cases (execute_prepare I r)) [
    | inl e ↦ absurd (ground arith)
    | inr ((v, true), e) ↦
        let g = execute_prepare-Goes r v true e in
        execute_commit-Ends v u res (inl (ground arith)) (ground arith)
    | inr ((v, false), e) ↦ let g = execute_prepare-Goes r v false e in ground arith
  ]

  -- An execution that returns, over any shards, with any callbacks and from any state: of a batch
  -- that is neither done nor failed it returns the batch's flags and the batch is done, or it
  -- returns nothing and the batch is failed; of a batch that is done or failed it changes nothing
  -- and returns the flags that the batch has.
  pub execute-Ends :
      (r u : Run S W) (res : Option (List Bool))
      → execute I r ≡ returned (u, res)
      → Ends u res
        ⊎ (((r.dtx.state ≡ done) ⊎ (r.dtx.state ≡ failed))
            × (u ≡ r)
            × (res ≡ some r.dtx.complete_txs))
  unfolding execute execute_commit execute_discard
  execute-Ends r u res h = go r.dtx.state refl
    where
      go :
          (s : DtxState)
          → r.dtx.state ≡ s
          → Ends u res
            ⊎ (((r.dtx.state ≡ done) ⊎ (r.dtx.state ≡ failed))
                × (u ≡ r)
                × (res ≡ some r.dtx.complete_txs))
      go start e = inl (execute_start-Ends r u res (ground arith))
      go prepare e = inl (execute_start-Ends r u res (ground arith))
      go commit e = inl (execute_commit-Ends r u res (inl e) (ground arith))
      go discard e = inl (execute_commit-Ends r u res (inr e) (ground arith))
      go done e = inr (ground arith)
      go failed e = inr (ground arith)
