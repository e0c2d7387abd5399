-- ===== src/LockingShard/Replay.antt =====
-- A coordinator that repeats a call after a failure gets the same answer, and changes nothing.
use opencbdc_tx.Common.{
  Outcome-cases, ◌≡◌, refl, ap, sym, ◌∙◌, ℕ, [], ◌∷◌, erase, ◌==◌, Bool, true, List, some, returned,
  lookup, lookup-emplace, lookup-remove, contains-insert, arith, Bool-cases, Option-cases, inl, inr,
}
use opencbdc_tx.Crypto.{Hash}
use opencbdc_tx.Transaction.{CompactTx}
use opencbdc_tx.LockingShard.{
  Config, LockingShard, lock_txs, lock_outputs, apply_outputs, discard_dtx,
}

module _ (c : Config) where
  -- Once a batch is locked under an identifier, every further lock call with that identifier,
  -- whatever transactions it carries, returns the same flags and changes nothing.
  pub lock_outputs_again :
      (txs txs' : List CompactTx) (dtx_id : Hash) (s t : LockingShard) (rs : List Bool)
      → lock_outputs c txs dtx_id s ≡ returned (t, some rs)
      → lock_outputs c txs' dtx_id t ≡ returned (t, some rs)
  unfolding lock_outputs
  lock_outputs_again txs txs' dtx_id s t rs h = elim (Bool-cases s.running) [
    | inr off ↦ absurd (ground arith)
    | inl on ↦ elim (Option-cases (lookup dtx_id s.prepared_dtxs)) [
      | inr (p, e) ↦ ground arith
      | inl e ↦ elim (Outcome-cases (lock_txs c txs s.coins)) [
        | inl l ↦ absurd (ground arith)
        | inr ((coins', ret), l) ↦ ground (
          arith,
          lookup-emplace dtx_id dtx_id (record { txs = txs; results = ret }) s.prepared_dtxs,
        )
      ]
    ]
  ]

  -- Once an apply call has returned true for an identifier, every further apply call with it,
  -- whatever flags it carries, returns true and changes nothing.
  pub apply_outputs_again :
      (fs fs' : List Bool) (dtx_id : Hash) (s t : LockingShard)
      → apply_outputs c fs dtx_id s ≡ returned (t, true)
      → apply_outputs c fs' dtx_id t ≡ returned (t, true)
  unfolding apply_outputs
  apply_outputs_again fs fs' dtx_id s t h = elim (Option-cases (lookup dtx_id s.prepared_dtxs)) [
    | inl e ↦ ground arith
    | inr (p, e) ↦ ground (
      arith,
      lookup-remove dtx_id dtx_id s.prepared_dtxs,
      contains-insert dtx_id dtx_id s.applied_dtxs,
    )
  ]

erase_again : (k : ℕ) (s : List ℕ) → erase k (erase k s) ≡ erase k s
unfolding erase
erase_again k [] = refl
erase_again k (x ∷ xs) = elim (Bool-cases (x == k)) [
  | inl e ↦ rw (erase, e) (erase_again k xs)
  | inr e ↦ rw (erase, e, erase, e, erase_again k xs) refl
]

pub discard_dtx_again :
    (dtx_id : Hash) (s t : LockingShard)
    → discard_dtx dtx_id s ≡ (t, true)
    → discard_dtx dtx_id t ≡ (t, true)
unfolding discard_dtx
discard_dtx_again dtx_id s t h = elim (Bool-cases s.running) [
  | inr off ↦ absurd (ground arith)
  | inl on ↦
      let took : discard_dtx dtx_id s
          ≡ (record s { applied_dtxs = erase dtx_id s.applied_dtxs }, true) =
        rw (discard_dtx, on) refl in
      let same : t ≡ record s { applied_dtxs = erase dtx_id s.applied_dtxs } =
        ap (λ x. x.0) (sym h ∙ took) in
      rw (same, discard_dtx, on, erase_again dtx_id s.applied_dtxs) refl
]
