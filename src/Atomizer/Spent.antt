-- ===== src/Atomizer/Spent.antt =====
-- `check_stxo_cache` against the window: which inputs it finds spent.
use opencbdc_tx.Common.{
  ℕ, zero, suc, ◌≤◌, ◌≡◌, refl, Bool, true, false, ◌||◌, ◌&&◌, List, [], ◌∷◌, Option, none, some,
  is_empty, length, take, contains, contains-insert, insert, arith, Bool-cases, inl, inr,
}
use opencbdc_tx.Crypto.{Hash}
use opencbdc_tx.Transaction.{CompactTx}
use opencbdc_tx.TxErrors.{TxError, inputs_spent}
use opencbdc_tx.Atomizer.{Atomizer, spent_in, spent_inputs, check_stxo_cache}
use opencbdc_tx.Atomizer.Window.{spends_any, Caches, Tracks}

held : Hash → List (List Hash) → Bool
held j [] = false
held j (cache ∷ caches) = contains j cache || held j caches

spent_in_lem :
    (j : Hash) (cache inputs err : List Hash)
    → contains j (spent_in cache inputs err)
      ≡ ((contains j inputs && contains j cache) || contains j err)
unfolding spent_in contains
spent_in_lem j cache [] err = refl
spent_in_lem j cache (inp ∷ inputs) err = ground (
  arith,
  spent_in_lem j cache inputs err,
  spent_in_lem j cache inputs (insert inp err),
  contains-insert j inp err,
)

spent_inputs_lem :
    (j : Hash) (caches : List (List Hash)) (inputs err : List Hash)
    → contains j (spent_inputs caches inputs err)
      ≡ ((contains j inputs && held j caches) || contains j err)
unfolding spent_inputs held
spent_inputs_lem j [] inputs err = ground arith
spent_inputs_lem j (cache ∷ caches) inputs err = ground (
  arith,
  spent_inputs_lem j caches inputs (spent_in cache inputs err),
  spent_in_lem j cache inputs err,
)

held-spends_any :
    (j : Hash) (n : ℕ) (ss : List (List Hash)) (gs : List (List CompactTx))
    → n ≤ length ss
    → Caches ss gs
    → held j (take n ss) ≡ spends_any j (take n gs)
unfolding held spends_any
held-spends_any j zero ss gs le c = refl
held-spends_any j (suc n) [] gs le c = absurd (omega arith)
held-spends_any j (suc n) (s ∷ ss) [] le c = ground (arith, c.0 j, none_held n ss c.1)
  where
    none_held : (n : ℕ) (ss : List (List Hash)) → Caches ss [] → held j (take n ss) ≡ false
    none_held zero ss c = refl
    none_held (suc n) [] c = refl
    none_held (suc n) (s ∷ ss) c = ground (arith, c.0 j, none_held n ss c.1)
held-spends_any j (suc n) (s ∷ ss) (g ∷ gs) le c =
    ground (arith, c.0 j, held-spends_any j n ss gs (omega arith) c.1)

-- The error set holds the inputs that were spent by a pending transaction or one of the last
-- `range` blocks.
pub window_spent :
    (a : Atomizer) (blocks : List (List CompactTx)) (inputs : List Hash) (range : ℕ) (j : Hash)
    → Tracks a blocks
    → range ≤ a.spent_cache_depth
    → contains j (spent_inputs (take (suc range) a.spent) inputs [])
      ≡ (contains j inputs && spends_any j (take (suc range) (a.complete_txs ∷ blocks)))
unfolding contains
window_spent a blocks inputs range j t le = ground (
  arith,
  spent_inputs_lem j (take (suc range) a.spent) inputs [],
  held-spends_any j (suc range) a.spent (a.complete_txs ∷ blocks) (omega (arith, t.spent_count))
      t.caches,
)

empty_contains : (s : List Hash) (j : Hash) → is_empty s ≡ true → contains j s ≡ false
unfolding contains
empty_contains [] j h = refl
empty_contains (x ∷ s) j h = absurd (ground arith)

-- What the check reports, in terms of the window.
pub data Checked (tx : CompactTx) (window : List (List CompactTx)) : Option TxError → Type 0 where
  unspent :
      ((j : Hash) → contains j tx.inputs ≡ true → spends_any j window ≡ false)
      → Checked tx window none
  conflict :
      (errs : List Hash)
      → ((j : Hash) → contains j errs ≡ (contains j tx.inputs && spends_any j window))
      → is_empty errs ≡ false
      → Checked tx window (some (record { tx_id = tx.id; info = inputs_spent errs }))

pub check_stxo_cache-Checked :
    (a : Atomizer) (blocks : List (List CompactTx)) (tx : CompactTx) (range : ℕ)
    → Tracks a blocks
    → range ≤ a.spent_cache_depth
    → Checked tx (take (suc range) (a.complete_txs ∷ blocks)) (check_stxo_cache a tx range)
unfolding check_stxo_cache
check_stxo_cache-Checked a blocks tx range t le =
    let errs = spent_inputs (take (suc range) a.spent) tx.inputs [] in
    elim (Bool-cases (is_empty errs)) [
      | inl e ↦ rw e (
          unspent λ j h.
            ground (arith, window_spent a blocks tx.inputs range j t le, empty_contains errs j e))
      | inr e ↦ rw e (conflict errs (λ j. window_spent a blocks tx.inputs range j t le) e)
    ]
