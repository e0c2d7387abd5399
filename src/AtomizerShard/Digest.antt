-- ===== src/AtomizerShard/Digest.antt =====
-- Following the blocks.
use opencbdc_tx.Common.{
  ◌⊎◌, ℕ, ◌+◌, ◌%◌, ◌^◌, ◌≡◌, refl, ◌≢◌, Bool, true, false, not, ◌&&◌, ◌||◌, List, [], ◌∷◌, ◌++◌,
  Option, some, ◌==◌, if◌then◌else◌, contains, arith, Bool-cases, inl, inr, ◌∙◌,
}
use opencbdc_tx.Crypto.{Hash}
use opencbdc_tx.Transaction.{CompactTx}
use opencbdc_tx.Atomizer.{Block}
use opencbdc_tx.Atomizer.Window.{spends}
use opencbdc_tx.AtomizerShard.{
  Update, put, delete, put_height, present, stored_height, Database, Shard, update_snapshot,
  is_output_on_shard, put_outputs, delete_inputs, block_updates, digest_block, open_db,
}

-- Some transaction creates the hash.
unfoldable pub creates : Hash → List CompactTx → Bool
creates j [] = false
creates j (tx ∷ txs) = contains j tx.uhs_outputs || creates j txs

-- No transaction creates a hash that an earlier one spends.
abbrev pub IsOrdered : List CompactTx → Type 0
IsOrdered [] = Unit
IsOrdered (tx ∷ txs) =
    ((j : Hash) → contains j tx.inputs ≡ true → creates j txs ≡ false) × IsOrdered txs

pub present-append :
    (j : Hash) (xs ys : List Update) (b : Bool)
    → present j (xs ++ ys) b ≡ present j ys (present j xs b)
unfolding present
present-append j [] ys b = refl
present-append j (put h ∷ xs) ys b = present-append j xs ys _
present-append j (delete h ∷ xs) ys b = present-append j xs ys _
present-append j (put_height n ∷ xs) ys b = present-append j xs ys b

pub stored_height-append :
    (xs ys : List Update) (m : Option ℕ)
    → stored_height (xs ++ ys) m ≡ stored_height ys (stored_height xs m)
unfolding stored_height
stored_height-append [] ys m = refl
stored_height-append (put h ∷ xs) ys m = stored_height-append xs ys m
stored_height-append (delete h ∷ xs) ys m = stored_height-append xs ys m
stored_height-append (put_height n ∷ xs) ys m = stored_height-append xs ys (some n)

module _ {D : Type 0} (s : Shard D) where
  put_outputs_lem :
      (j : Hash) (outs : List Hash) (b : Bool)
      → present j (put_outputs s outs) b ≡ ((contains j outs && is_output_on_shard s j) || b)
  unfolding put_outputs present contains
  put_outputs_lem j [] b = refl
  put_outputs_lem j (out ∷ outs) b =
      ground (arith, put_outputs_lem j outs b, put_outputs_lem j outs true)

  delete_inputs_lem :
      (j : Hash) (inps : List Hash) (b : Bool)
      → present j (delete_inputs s inps) b ≡ (not (contains j inps && is_output_on_shard s j) && b)
  unfolding delete_inputs present contains
  delete_inputs_lem j [] b = refl
  delete_inputs_lem j (inp ∷ inps) b =
      ground (arith, delete_inputs_lem j inps b, delete_inputs_lem j inps false)

  block_updates_lem :
      (j : Hash) (txs : List CompactTx) (b : Bool)
      → IsOrdered txs
      → present j (block_updates s txs) b
        ≡ (if is_output_on_shard s j then not (spends j txs) && (creates j txs || b) else b)
  unfolding block_updates present spends creates
  block_updates_lem j [] b o = ground arith
  block_updates_lem j (tx ∷ txs) b o = ground (
    arith,
    present-append j (put_outputs s tx.uhs_outputs)
        (delete_inputs s tx.inputs ++ block_updates s txs) b,
    present-append j (delete_inputs s tx.inputs) (block_updates s txs)
        (present j (put_outputs s tx.uhs_outputs) b),
    put_outputs_lem j tx.uhs_outputs b,
    delete_inputs_lem j tx.inputs (present j (put_outputs s tx.uhs_outputs) b),
    block_updates_lem j txs
        (present j (delete_inputs s tx.inputs) (present j (put_outputs s tx.uhs_outputs) b)) o.1,
    o.0 j,
  )

module _ {D : Type 0} (L : Database D) where
  -- What following a block does.
  pub record Follows (s : Shard D) (blk : Block) (t : Shard D) : Type 0 where
    pub coins :
        (j : Hash)
        → L.has t.db j ≡ (
            if is_output_on_shard s j
            then not (spends j blk.transactions) && (creates j blk.transactions || L.has s.db j)
            else L.has s.db j)
    pub reopened : open_db L s.prefix_range t.db ≡ t
    pub best : t.best_block_height ≡ blk.height

  taken : Block → Shard D → Shard D
  taken blk s =
      let height = (s.best_block_height + 1) % 2 ^ 64 in
      let db = L.write (block_updates s blk.transactions ++ put_height height ∷ []) s.db in
      record {
        db = db;
        best_block_height = height;
        snp = db;
        snp_height = height;
        prefix_range = s.prefix_range;
      }

  reopen :
      (range : ℕ × ℕ) (db : D) (height : ℕ)
      → L.height db ≡ some height
      → open_db L range db ≡ record {
        db = db;
        best_block_height = height;
        snp = db;
        snp_height = height;
        prefix_range = range;
      }
  unfolding open_db
  reopen range db height e = rw (open_db, e) refl

  -- A block of the next height, no transaction of which creates a hash that an earlier one spends,
  -- is taken: of the shard's range, what it spends is gone and what else it creates is there, and
  -- nothing of another range has changed; the snapshot is of the new state, and the shard that is
  -- opened again on the database is the same. A block of another height is refused, with nothing
  -- changed.
  pub digest_block-Follows :
      (blk : Block) (s : Shard D)
      → IsOrdered blk.transactions
      → ((blk.height ≡ (s.best_block_height + 1) % 2 ^ 64)
          × (t : Shard D) × (digest_block L blk s ≡ (t, true))
          × Follows s blk t)
        ⊎ ((blk.height ≢ (s.best_block_height + 1) % 2 ^ 64) × (digest_block L blk s ≡ (s, false)))
  unfolding digest_block update_snapshot present stored_height taken
  digest_block-Follows blk s o =
      let height = (s.best_block_height + 1) % 2 ^ 64 in
      let ops = block_updates s blk.transactions ++ put_height height ∷ [] in
      elim (Bool-cases (blk.height == height)) [
        | inr e ↦ inr (ground arith, rw (digest_block, e) refl)
        | inl e ↦ inl (
          ground arith,
          taken blk s,
          rw (digest_block, e) refl,
          record {
            coins = λ j.
                L.has-write j ops s.db
                ∙ present-append j (block_updates s blk.transactions) (put_height height ∷ [])
                    (L.has s.db j)
                ∙ block_updates_lem s j blk.transactions (L.has s.db j) o;
            reopened = reopen s.prefix_range _ height (
                L.height-write ops s.db
                ∙ stored_height-append (block_updates s blk.transactions) (put_height height ∷ [])
                    (L.height s.db));
            best = ground arith;
          },
        )
      ]
