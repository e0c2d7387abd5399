-- ===== src/Atomizer/Complete.antt =====
-- `insert_complete` and `make_block` against the window of recent blocks.
use opencbdc_tx.Atomizer.{
  complete_at, Atomizer, shift, make_block, get_notification_offset, check_notification_offset,
  add_tx_to_stxo_cache, insert_complete,
}
use opencbdc_tx.Common.{
  ℕ, zero, suc, ◌+◌, ◌-◌, ◌%◌, ◌^◌, ◌≤◌, ◌<◌, ◌≡◌, refl, true, false, ◌&&◌, not, inl, inr, ◌≢◌,
  List, [], ◌∷◌, ◌++◌, Option, none, some, is_empty, ltb, length, length-set, set, get_or, take,
  contains, insert_all, contains-insert_all, arith, Bool-cases,
}
use opencbdc_tx.Crypto.{Hash}
use opencbdc_tx.Transaction.{CompactTx}
use opencbdc_tx.TxErrors.{TxError, stxo_range, inputs_spent}
use opencbdc_tx.Atomizer.Window.{
  spends, spends_any, IsConflictFree, Caches, Tracks, Caches-take, shift_window, spends-snoc,
  IsConflictFree-snoc,
}
use opencbdc_tx.Atomizer.Spent.{Checked, unspent, conflict, check_stxo_cache-Checked}

offset_lem :
    (a : Atomizer) (height : ℕ)
    → height ≤ a.best_height
    → a.best_height < 2 ^ 64
    → get_notification_offset a height ≡ a.best_height - height
unfolding get_notification_offset
offset_lem a height le lt = omega arith

-- The pending transactions and the blocks made above a height.
abbrev pub since : Atomizer → List (List CompactTx) → ℕ → List (List CompactTx)
since a blocks height = take (suc (a.best_height - height)) (a.complete_txs ∷ blocks)

Caches-snoc :
    (tx : CompactTx) (txs : List CompactTx) (ss : List (List Hash)) (gs : List (List CompactTx))
    → Caches ss (txs ∷ gs)
    → Caches (set ss 0 (insert_all tx.inputs (get_or ss 0 []))) ((txs ++ tx ∷ []) ∷ gs)
Caches-snoc tx txs [] gs c = tt
Caches-snoc tx txs (s ∷ ss) gs c =
    ((λ j. ground (arith, contains-insert_all j tx.inputs s, c.0 j, spends-snoc j txs tx)), c.1)

-- A transaction that spends nothing of the pending ones is settled.
pub settle-Tracks :
    (a : Atomizer) (blocks : List (List CompactTx)) (tx : CompactTx)
    → Tracks a blocks
    → ((j : Hash) → contains j tx.inputs ≡ true → spends j a.complete_txs ≡ false)
    → Tracks
        (record (add_tx_to_stxo_cache tx a) { complete_txs = a.complete_txs ++ tx ∷ [] })
        blocks
unfolding add_tx_to_stxo_cache
settle-Tracks a blocks tx t h = record {
  caches = Caches-snoc tx a.complete_txs a.spent blocks t.caches;
  spent_count =
      omega
        (arith, length-set a.spent 0 (insert_all tx.inputs (get_or a.spent 0 [])), t.spent_count);
  txs_count = t.txs_count;
  pending = IsConflictFree-snoc a.complete_txs tx t.pending h;
  past = t.past;
}

-- What `insert_complete` does with a transaction that has inputs.
pub data Inserted (a : Atomizer) (blocks : List (List CompactTx)) (height : ℕ) (tx : CompactTx)
    : Atomizer × Option TxError → Type 0 where
  too_old :
      a.spent_cache_depth < a.best_height - height
      → Inserted a blocks height tx (a, some (record { tx_id = tx.id; info = stxo_range }))
  spent :
      (errs : List Hash)
      → a.best_height - height ≤ a.spent_cache_depth
      → ((j : Hash)
          → contains j errs ≡ (contains j tx.inputs && spends_any j (since a blocks height)))
      → is_empty errs ≡ false
      → Inserted a blocks height tx (a, some (record { tx_id = tx.id; info = inputs_spent errs }))
  settled :
      (b : Atomizer)
      → a.best_height - height ≤ a.spent_cache_depth
      → ((j : Hash) → contains j tx.inputs ≡ true → spends_any j (since a blocks height) ≡ false)
      → b.complete_txs ≡ a.complete_txs ++ tx ∷ []
      → Tracks b blocks
      → Inserted a blocks height tx (b, none)

Inserted-of_Checked :
    (a : Atomizer) (blocks : List (List CompactTx)) (height : ℕ) (tx : CompactTx)
    (r : Option TxError)
    → Tracks a blocks
    → a.best_height - height ≤ a.spent_cache_depth
    → Checked tx (since a blocks height) r
    → Inserted a blocks height tx (elim r [
      | some err ↦ (a, some err)
      | none ↦
          (record (add_tx_to_stxo_cache tx a) { complete_txs = a.complete_txs ++ tx ∷ [] }, none)
    ])
unfolding spends_any
Inserted-of_Checked a blocks height tx r t le (unspent free) =
    settled _ le free refl (settle-Tracks a blocks tx t (λ j h. ground (arith, free j h)))
Inserted-of_Checked a blocks height tx r t le (conflict errs same found) = spent errs le same found

complete_at-Inserted :
    (a : Atomizer) (blocks : List (List CompactTx)) (height : ℕ) (tx : CompactTx)
    → Tracks a blocks
    → tx.inputs ≢ []
    → Inserted a blocks height tx (complete_at (a.best_height - height) tx a)
unfolding complete_at check_notification_offset
complete_at-Inserted a blocks height tx t some_input =
    elim (Bool-cases
      (ltb a.spent_cache_depth (a.best_height - height) && not (is_empty tx.inputs))) [
        | inl e ↦ rw (e, complete_at, check_notification_offset) (too_old (ground arith))
        | inr e ↦
            let near : a.best_height - height ≤ a.spent_cache_depth = ground arith in
            rw (e, complete_at, check_notification_offset)
              (Inserted-of_Checked a blocks height tx _ t near
                (check_stxo_cache-Checked a blocks tx (a.best_height - height) t near))
      ]

-- A transaction with inputs, whose oldest attestation is from a height that is no later than the
-- best one, is refused as out of range exactly when more than `spent_cache_depth` blocks were made
-- above that height; otherwise it is refused with exactly those of its inputs that a pending
-- transaction or a block made above that height spends; and if there are none it is appended to
-- the pending transactions. A refusal changes nothing, and the caches keep standing for the window.
pub insert_complete-Inserted :
    (a : Atomizer) (blocks : List (List CompactTx)) (height : ℕ) (tx : CompactTx)
    → Tracks a blocks
    → height ≤ a.best_height
    → a.best_height < 2 ^ 64
    → tx.inputs ≢ []
    → Inserted a blocks height tx (insert_complete height tx a)
unfolding insert_complete
insert_complete-Inserted a blocks height tx t le lt some_input =
    rw (offset_lem a height le lt) (complete_at-Inserted a blocks height tx t some_input)

length-take_lem {ℓ} : {A : Type ℓ} (n : ℕ) (v : List A) → n ≤ length v → length (take n v) ≡ n
length-take_lem zero v h = refl
length-take_lem (suc n) [] h = absurd (omega arith)
length-take_lem (suc n) (x ∷ v) h = omega (arith, length-take_lem n v (omega arith))

window_count {ℓ} :
    {A : Type ℓ} (n : ℕ) (v : List (List A))
    → length v ≡ suc n
    → length (set (shift n v) 0 []) ≡ suc n
window_count n v h = rw (shift_window n v h) (omega (arith, length-take_lem n v (omega arith)))

-- The block holds the pending transactions in their order, no two of which spend the same hash, at
-- the next height; nothing is pending after it, and the window moves on by one block.
pub make_block-Tracks :
    (a : Atomizer) (blocks : List (List CompactTx))
    → Tracks a blocks
    → let (b, blk, errs) = make_block a in
      (blk.transactions ≡ a.complete_txs)
      × IsConflictFree blk.transactions
      × (blk.height ≡ (a.best_height + 1) % 2 ^ 64)
      × (b.complete_txs ≡ [])
      × (b.best_height ≡ blk.height)
      × Tracks b (blk.transactions ∷ blocks)
unfolding make_block contains spends
make_block-Tracks a blocks t = (
  refl,
  t.pending,
  refl,
  refl,
  refl,
  record {
    caches =
        rw (shift_window a.spent_cache_depth a.spent t.spent_count)
          ((λ j. refl), Caches-take a.spent_cache_depth a.spent (a.complete_txs ∷ blocks) t.caches);
    spent_count = window_count a.spent_cache_depth a.spent t.spent_count;
    txs_count = window_count a.spent_cache_depth a.txs t.txs_count;
    pending = tt;
    past = (t.pending, t.past);
  },
)
