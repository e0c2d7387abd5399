-- ===== src/Atomizer/Insert.antt =====
-- `insert`: a shard's notification is recorded, and a transaction that is fully attested settles.
use opencbdc_tx.Atomizer.Window.{shift_window, spends, spends_any, Tracks}
use opencbdc_tx.Common.{
  length-replicate, ◌∙◌, ℕ, suc, ◌≡◌, refl, sym, ◌&&◌, not, ◌⊎◌, inl, inr, ◌≢◌, List, [], ◌∷◌, ◌++◌,
  map, Option, none, some, is_empty, ltb, ◌==◌, length, length-set, length-map, get_elem?, take,
  contains, remove, All, arith, Bool-cases, Option-cases, returned,
}
use opencbdc_tx.Atomizer.Complete.{make_block-Tracks, settle-Tracks}
use opencbdc_tx.Atomizer.{
  init, make_block, Atomizer, Pending, check_notification_offset, add_tx_to_stxo_cache, gather,
  notify, settle, insert_at, complete_at,
}
use opencbdc_tx.Crypto.{Hash}
use opencbdc_tx.Transaction.{CompactTx}
use opencbdc_tx.TxErrors.{TxError}
use opencbdc_tx.Atomizer.Spent.{Checked, unspent, conflict, check_stxo_cache-Checked}
use opencbdc_tx.Atomizer.Known.{
  gather_oldest, get_elem?-none, replicate-Caches, IsKnown, gather_key, get_elem?-IsKnown,
  set-IsKnown, remove-IsKnown, merge_key, assign-IsKnown, empty-IsKnown, take-IsKnown,
  replicate-IsKnown,
}

-- An identifier determines its transaction.
module _ (canon : Hash → CompactTx) where
  -- The state follows the window, and each stored key is the transaction of its identifier.
  pub record Follows (a : Atomizer) (blocks : List (List CompactTx)) : Type 0 where
    pub tracks : Tracks a blocks
    pub known : All (IsKnown canon) a.txs

  -- Either nothing settles, or the transaction of the key does.
  abbrev pub Settles : CompactTx → Atomizer → Atomizer → Type 0
  Settles tx a b = (b.complete_txs ≡ a.complete_txs) ⊎ (b.complete_txs ≡ a.complete_txs ++ tx ∷ [])

  -- An accepted transaction keeps what is stored, a refused one too.
  completed :
      (k : ℕ) (tx : CompactTx) (a : Atomizer) (blocks : List (List CompactTx)) (r : Option TxError)
      → Follows a blocks
      → Checked tx (take (suc k) (a.complete_txs ∷ blocks)) r
      → Follows
          (elim r as (λ x. Atomizer × Option TxError) [
            | some err ↦ (a, some err)
            | none ↦ (
              record (add_tx_to_stxo_cache tx a) { complete_txs = a.complete_txs ++ tx ∷ [] },
              none,
            )
          ]).0
          blocks
  unfolding spends_any add_tx_to_stxo_cache
  completed k tx a blocks r f (unspent free) = record {
    tracks = settle-Tracks a blocks tx f.tracks (λ j h. ground (arith, free j h));
    known = f.known;
  }
  completed k tx a blocks r f (conflict errs same found) = f

  pub complete_at-Follows :
      (k : ℕ) (tx : CompactTx) (a : Atomizer) (blocks : List (List CompactTx))
      → tx.inputs ≢ []
      → Follows a blocks
      → Follows (complete_at k tx a).0 blocks
  unfolding complete_at check_notification_offset
  complete_at-Follows k tx a blocks some_input f =
      elim (Bool-cases (ltb a.spent_cache_depth k && not (is_empty tx.inputs))) [
        | inl e ↦ rw (e, complete_at, check_notification_offset) f
        | inr e ↦
            rw (e, complete_at, check_notification_offset)
              (completed k tx a blocks _ f
                (check_stxo_cache-Checked a blocks tx k f.tracks (ground arith)))
      ]

  settled :
      (key stored : CompactTx) (oldest : ℕ) (a : Atomizer) (blocks : List (List CompactTx))
      (r : Option TxError)
      → stored ≡ key
      → Follows a blocks
      → Checked key (take (suc oldest) (a.complete_txs ∷ blocks)) r
      → let (b, err) = elim r as (λ x. Atomizer × Option TxError) [
        | some err ↦ (a, some err)
        | none ↦ (
          record (add_tx_to_stxo_cache key a) {
            txs = map (remove key.id) a.txs;
            complete_txs = a.complete_txs ++ stored ∷ [];
          },
          none,
        )
      ] in
        Follows b blocks × Settles key a b
  unfolding spends_any add_tx_to_stxo_cache
  settled key stored oldest a blocks r same f (unspent free) =
      let t = settle-Tracks a blocks key f.tracks (λ j h. ground (arith, free j h)) in
      rw same (
        record {
          tracks = record {
            caches = t.caches;
            spent_count = t.spent_count;
            txs_count = length-map (remove key.id) a.txs ∙ t.txs_count;
            pending = t.pending;
            past = t.past;
          };
          known = remove-IsKnown canon key.id a.txs f.known;
        },
        inr refl,
      )
  settled key stored oldest a blocks r same f (conflict errs matched found) = (f, inl refl)

  settle-Follows :
      (key : CompactTx) (a : Atomizer) (blocks : List (List CompactTx))
      → key ≡ canon key.id
      → Follows a blocks
      → Follows (settle key a).0 blocks × Settles key a (settle key a).0
  unfolding settle
  settle-Follows key a blocks c f =
      let g = gather key.id 0 a.txs (record { total = []; oldest = 0; key = key }) in
      elim (Bool-cases (length g.total == length key.inputs)) [
        | inl e ↦
            rw (e, settle)
              (settled key g.key g.oldest a blocks _
                (gather_key canon key.id 0 a.txs _ f.known c ∙ sym c) f
                (check_stxo_cache-Checked a blocks key g.oldest f.tracks (
                  gather_oldest key.id 0 a.spent_cache_depth a.txs _ (omega arith)
                    (omega (arith, f.tracks.txs_count)))))
        | inr e ↦ rw (e, settle) (f, inl refl)
      ]

  -- A notification that is recorded keeps the state and leaves the pending transactions.
  notify-Follows :
      (k : ℕ) (tx : CompactTx) (atts : List ℕ) (m : Pending) (a : Atomizer)
      (blocks : List (List CompactTx))
      → tx ≡ canon tx.id
      → get_elem? a.txs k ≡ some m
      → Follows a blocks
      → let (b, key) = notify k tx atts m a in
        Follows b blocks × (key ≡ tx) × (b.complete_txs ≡ a.complete_txs)
  unfolding notify
  notify-Follows k tx atts m a blocks c found f =
      let is_known = get_elem?-IsKnown canon a.txs k m f.known found in
      let same = merge_key canon tx atts m c is_known in
      (
        record {
          tracks = record {
            caches = f.tracks.caches;
            spent_count = f.tracks.spent_count;
            txs_count = length-set a.txs k _ ∙ f.tracks.txs_count;
            pending = f.tracks.pending;
            past = f.tracks.past;
          };
          known =
              set-IsKnown canon a.txs k _ f.known (assign-IsKnown canon tx.id _ m same is_known);
        },
        same ∙ sym c,
        refl,
      )

  Settles-of_key :
      (key tx : CompactTx) (a b d : Atomizer)
      → key ≡ tx
      → b.complete_txs ≡ a.complete_txs
      → Settles key b d
      → Settles tx a d
  Settles-of_key key tx a b d same kept (inl e) = inl (e ∙ kept)
  Settles-of_key key tx a b d same kept (inr e) = inr (rw (sym kept, sym same) e)

  -- A notification returns, and at most its transaction settles.
  pub insert_at-Follows :
      (k : ℕ) (tx : CompactTx) (atts : List ℕ) (a : Atomizer) (blocks : List (List CompactTx))
      → tx.inputs ≢ []
      → tx ≡ canon tx.id
      → Follows a blocks
      → (b : Atomizer) × (r : Option TxError) × (insert_at k tx atts a ≡ returned (b, r))
        × Follows b blocks
        × Settles tx a b
  unfolding insert_at check_notification_offset
  insert_at-Follows k tx atts a blocks some_input c f =
      elim (Bool-cases (ltb a.spent_cache_depth k && not (is_empty tx.inputs))) [
        | inl e ↦ rw (e, insert_at, check_notification_offset) (a, _, refl, f, inl refl)
        | inr e ↦ elim (Option-cases (get_elem? a.txs k)) [
          | inl missing ↦
              absurd (ground (arith, get_elem?-none a.txs k missing, f.tracks.txs_count))
          | inr (m, found) ↦
              let (f', same, kept) = notify-Follows k tx atts m a blocks c found f in
              let (b, key) = notify k tx atts m a in
              let (f'', s) = settle-Follows key b blocks (rw same c) f' in
              rw (e, found, insert_at, check_notification_offset)
                (
                  (settle key b).0,
                  (settle key b).1,
                  refl,
                  f'',
                  Settles-of_key key tx a b (settle key b).0 same kept s,
                )
        ]
      ]

  pub make_block-Follows :
      (a : Atomizer) (blocks : List (List CompactTx))
      → Follows a blocks
      → Follows (make_block a).0 (a.complete_txs ∷ blocks)
  unfolding make_block
  make_block-Follows a blocks f =
      let (moved, free, numbered, none_left, best, t) = make_block-Tracks a blocks f.tracks in
      record {
        tracks = t;
        known =
            rw (shift_window a.spent_cache_depth a.txs f.tracks.txs_count)
              (empty-IsKnown canon, take-IsKnown canon a.spent_cache_depth a.txs f.known);
      }

  pub init-Follows : (height depth : ℕ) → Follows (init height depth) []
  unfolding init contains spends
  init-Follows height depth = record {
    tracks = record {
      caches = ((λ j. refl), replicate-Caches depth);
      spent_count = length-replicate (suc depth) [];
      txs_count = length-replicate (suc depth) [];
      pending = tt;
      past = tt;
    };
    known = replicate-IsKnown canon (suc depth);
  }
