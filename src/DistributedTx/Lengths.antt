-- ===== src/DistributedTx/Lengths.antt =====
-- An execution has as many shards at its end as at its start.
use opencbdc_tx.Common.{
  ◌≡◌, inl, inr, ℕ, Bool, List, [], ◌∷◌, Option, length, returned, Outcome-cases, arith,
}
use opencbdc_tx.Crypto.{Hash}
use opencbdc_tx.Transaction.{CompactTx}
use opencbdc_tx.DistributedTx.{
  Interface, Run, select, lock_shards, apply_shards, discard_shards, fail, prepare_dtx, commit_dtx,
  discard_all, execute_prepare, execute_commit, execute_discard, execute_start, execute,
}

module _ {S : Type 0} (I : Interface S) (id : Hash) where
  length-lock_shards :
      (idxss : List (List ℕ)) (txss txss' : List (List CompactTx)) (shards ss : List S)
      (answers : List (Option (List Bool) × List ℕ))
      → lock_shards I id idxss txss shards ≡ returned (ss, txss', answers)
      → length ss ≡ length shards
  unfolding lock_shards
  length-lock_shards idxss txss txss' [] ss answers e = ground arith
  length-lock_shards [] txss txss' (s ∷ shards) ss answers e = absurd (ground arith)
  length-lock_shards ([] ∷ idxss) [] txss' (s ∷ shards) ss answers e = absurd (ground arith)
  length-lock_shards ((i ∷ idxs) ∷ idxss) [] txss' (s ∷ shards) ss answers e = absurd (ground arith)
  length-lock_shards ([] ∷ idxss) (txs ∷ txss) txss' (s ∷ shards) ss answers e =
      elim (Outcome-cases (lock_shards I id idxss txss shards)) [
        | inl t ↦ absurd (ground arith)
        | inr ((ss2, txss2, answers2), t) ↦
            let h = length-lock_shards idxss txss txss2 shards ss2 answers2 t in ground arith
      ]
  length-lock_shards ((i ∷ idxs) ∷ idxss) (txs ∷ txss) txss' (s ∷ shards) ss answers e =
      elim (Outcome-cases (I.lock_outputs txs id s)) [
        | inl q ↦ absurd (ground arith)
        | inr ((u, res), q) ↦ elim (Outcome-cases (lock_shards I id idxss txss shards)) [
          | inl t ↦ absurd (ground arith)
          | inr ((ss2, txss2, answers2), t) ↦
              let h = length-lock_shards idxss txss txss2 shards ss2 answers2 t in ground arith
        ]
      ]

  length-apply_shards :
      (flags : List Bool) (idxss : List (List ℕ)) (shards ss : List S) (oks : List Bool)
      → apply_shards I id flags idxss shards ≡ returned (ss, oks)
      → length ss ≡ length shards
  unfolding apply_shards
  length-apply_shards flags idxss [] ss oks e = ground arith
  length-apply_shards flags [] (s ∷ shards) ss oks e = absurd (ground arith)
  length-apply_shards flags ([] ∷ idxss) (s ∷ shards) ss oks e =
      elim (Outcome-cases (apply_shards I id flags idxss shards)) [
        | inl t ↦ absurd (ground arith)
        | inr ((ss2, oks2), t) ↦
            let h = length-apply_shards flags idxss shards ss2 oks2 t in ground arith
      ]
  length-apply_shards flags ((i ∷ idxs) ∷ idxss) (s ∷ shards) ss oks e =
      elim (Outcome-cases (select flags (i ∷ idxs))) [
        | inl q ↦ absurd (ground arith)
        | inr (fs, q) ↦ elim (Outcome-cases (I.apply_outputs fs id s)) [
          | inl a ↦ absurd (ground arith)
          | inr ((u, ok), a) ↦ elim (Outcome-cases (apply_shards I id flags idxss shards)) [
            | inl t ↦ absurd (ground arith)
            | inr ((ss2, oks2), t) ↦
                let h = length-apply_shards flags idxss shards ss2 oks2 t in ground arith
          ]
        ]
      ]

  length-discard_shards :
      (idxss : List (List ℕ)) (shards ss : List S) (oks : List Bool)
      → discard_shards I id idxss shards ≡ returned (ss, oks)
      → length ss ≡ length shards
  unfolding discard_shards
  length-discard_shards idxss [] ss oks e = ground arith
  length-discard_shards [] (s ∷ shards) ss oks e = absurd (ground arith)
  length-discard_shards ([] ∷ idxss) (s ∷ shards) ss oks e =
      elim (Outcome-cases (discard_shards I id idxss shards)) [
        | inl t ↦ absurd (ground arith)
        | inr ((ss2, oks2), t) ↦
            let h = length-discard_shards idxss shards ss2 oks2 t in ground arith
      ]
  length-discard_shards ((i ∷ idxs) ∷ idxss) (s ∷ shards) ss oks e =
      elim (Outcome-cases (discard_shards I id idxss shards)) [
        | inl t ↦ absurd (ground arith)
        | inr ((ss2, oks2), t) ↦
            let h = length-discard_shards idxss shards ss2 oks2 t in ground arith
      ]

module _ {S W : Type 0} (I : Interface S) where
  length-discard_all :
      (r u : Run S W) (ok : Bool)
      → discard_all I r ≡ returned (u, ok)
      → length u.shards ≡ length r.shards
  unfolding discard_all fail
  length-discard_all r u ok e =
      elim (Outcome-cases (discard_shards I r.dtx.dtx_id r.dtx.tx_idxs r.shards)) [
        | inl t ↦ ground arith
        | inr ((ss, oks), t) ↦
            let h = length-discard_shards I r.dtx.dtx_id r.dtx.tx_idxs r.shards ss oks t in
            ground arith
      ]

  length-execute_discard :
      (r u : Run S W) (res : Option (List Bool))
      → execute_discard I r ≡ returned (u, res)
      → length u.shards ≡ length r.shards
  unfolding execute_discard
  length-execute_discard r u res e = elim (Outcome-cases (discard_all I r)) [
    | inl t ↦ ground arith
    | inr ((v, ok), t) ↦ let h = length-discard_all r v ok t in ground arith
  ]

  length-commit_dtx :
      (flags : List Bool) (r u : Run S W) (ok : Bool)
      → commit_dtx I flags r ≡ returned (u, ok)
      → length u.shards ≡ length r.shards
  unfolding commit_dtx fail
  length-commit_dtx flags r u ok e =
      elim (Outcome-cases (apply_shards I r.dtx.dtx_id flags r.dtx.tx_idxs r.shards)) [
        | inl t ↦ ground arith
        | inr ((ss, oks), t) ↦
            let h = length-apply_shards I r.dtx.dtx_id flags r.dtx.tx_idxs r.shards ss oks t in
            ground arith
      ]

  length-execute_commit :
      (r u : Run S W) (res : Option (List Bool))
      → execute_commit I r ≡ returned (u, res)
      → length u.shards ≡ length r.shards
  unfolding execute_commit
  length-execute_commit r u res e =
      let d : execute_discard I r ≡ returned (u, res) → length u.shards ≡ length r.shards =
        length-execute_discard r u res in
      elim (Outcome-cases (commit_dtx I r.dtx.complete_txs r)) [
        | inl t ↦ ground arith
        | inr ((v, ok), t) ↦
            let h = length-commit_dtx r.dtx.complete_txs r v ok t in
            let k : execute_discard I v ≡ returned (u, res) → length u.shards ≡ length v.shards =
              length-execute_discard v u res in
            ground arith
      ]

  length-execute_prepare :
      (r u : Run S W) (ok : Bool)
      → execute_prepare I r ≡ returned (u, ok)
      → length u.shards ≡ length r.shards
  unfolding execute_prepare prepare_dtx fail
  length-execute_prepare r u ok e =
      elim (Outcome-cases (lock_shards I r.dtx.dtx_id r.dtx.tx_idxs r.dtx.txs r.shards)) [
        | inl t ↦ ground arith
        | inr ((ss, txss, answers), t) ↦
            let h =
              length-lock_shards I r.dtx.dtx_id r.dtx.tx_idxs r.dtx.txs txss r.shards ss answers
                t in
            ground arith
      ]

  pub length-execute :
      (r u : Run S W) (res : Option (List Bool))
      → execute I r ≡ returned (u, res)
      → length u.shards ≡ length r.shards
  unfolding execute execute_start
  length-execute r u res e =
      let c = length-execute_commit r u res in
      elim (Outcome-cases (execute_prepare I r)) [
        | inl t ↦ ground arith
        | inr ((v, ok), t) ↦
            let h = length-execute_prepare r v ok t in
            let k = length-execute_commit v u res in ground arith
      ]
