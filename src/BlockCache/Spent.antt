-- ===== src/BlockCache/Spent.antt =====
-- The index of the spent hashes against the blocks of the cache.
use opencbdc_tx.Common.{
  sym, ℕ, suc, ◌≤◌, ◌≡◌, refl, ◌≢◌, true, false, not, ◌&&◌, List, [], ◌∷◌, ◌++◌, Option, none, some,
  ◌==◌, length, length-append, if◌then◌else◌, contains, lookup, emplace, remove, lookup-emplace,
  lookup-remove, arith, Bool-cases, inl, inr, ◌∙◌, ap,
}
use opencbdc_tx.Crypto.{Hash}
use opencbdc_tx.Transaction.{CompactTx}
use opencbdc_tx.Atomizer.{Block}
use opencbdc_tx.Atomizer.Window.{spends}
use opencbdc_tx.BlockCache.{
  BlockCacheResult, BlockCache, block_cache, remove_all, emplace_all, forget_txs, evict_block,
  index_txs, push_block, check_spent,
}

-- The first transaction that spends the hash, with the height of its block.
unfoldable pub spender_in : Hash → ℕ → List CompactTx → Option BlockCacheResult
spender_in j height [] = none
spender_in j height (tx ∷ txs) =
    if contains j tx.inputs then some (height, tx.id) else spender_in j height txs

abbrev pub or_else : {A : Type 0} → Option A → Option A → Option A
or_else none y = y
or_else (some x) y = some x

unfoldable pub spender : Hash → List Block → Option BlockCacheResult
spender j [] = none
spender j (b ∷ bs) = or_else (spender_in j b.height b.transactions) (spender j bs)

-- What a block spends, no later block of the list spends.
abbrev pub IsDisjoint : List Block → Type 0
IsDisjoint [] = Unit
IsDisjoint (b ∷ bs) =
    ((j : Hash) → spends j b.transactions ≡ true → spender j bs ≡ none) × IsDisjoint bs

pub lookup-remove_all :
    {V : Type 0} (j : Hash) (hs : List Hash) (m : List (Hash × V))
    → lookup j (remove_all hs m) ≡ (if contains j hs then none else lookup j m)
unfolding remove_all contains
lookup-remove_all j [] m = refl
lookup-remove_all j (h ∷ hs) m =
    ground (arith, lookup-remove_all j hs (remove h m), lookup-remove j h m)

pub lookup-emplace_all :
    {V : Type 0} (j : Hash) (hs : List Hash) (v : V) (m : List (Hash × V))
    → lookup j (emplace_all hs v m) ≡ or_else (lookup j m) (if contains j hs then some v else none)
unfolding emplace_all contains
lookup-emplace_all j [] v m = ground arith
lookup-emplace_all j (h ∷ hs) v m =
    ground (arith, lookup-emplace_all j hs v (emplace h v m), lookup-emplace j h v m)

forget_txs-spent :
    (j : Hash) (txs : List CompactTx) (c : BlockCache)
    → lookup j (forget_txs txs c).spent_ids ≡ (if spends j txs then none else lookup j c.spent_ids)
unfolding forget_txs spends
forget_txs-spent j [] c = refl
forget_txs-spent j (tx ∷ txs) c =
    forget_txs-spent j txs _ ∙ ground (arith, lookup-remove_all j tx.inputs c.spent_ids)

index_txs-spent :
    (j : Hash) (height : ℕ) (txs : List CompactTx) (c : BlockCache)
    → lookup j (index_txs height txs c).spent_ids
      ≡ or_else (lookup j c.spent_ids) (spender_in j height txs)
unfolding index_txs spender_in
index_txs-spent j height [] c = ground arith
index_txs-spent j height (tx ∷ txs) c =
    index_txs-spent j height txs _
    ∙ ground (arith, lookup-emplace_all j tx.inputs (height, tx.id) c.spent_ids)

spender-append :
    (j : Hash) (bs : List Block) (b : Block)
    → spender j (bs ++ b ∷ []) ≡ or_else (spender j bs) (spender_in j b.height b.transactions)
unfolding spender
spender-append j [] b = ground arith
spender-append j (x ∷ bs) b = ground (arith, spender-append j bs b)

forget_txs-blks : (txs : List CompactTx) (c : BlockCache) → (forget_txs txs c).blks ≡ c.blks
unfolding forget_txs
forget_txs-blks [] c = refl
forget_txs-blks (tx ∷ txs) c = forget_txs-blks txs _

index_txs-blks :
    (height : ℕ) (txs : List CompactTx) (c : BlockCache)
    → ((index_txs height txs c).blks ≡ c.blks) × ((index_txs height txs c).k_blks ≡ c.k_blks)
unfolding index_txs
index_txs-blks height [] c = (refl, refl)
index_txs-blks height (tx ∷ txs) c = index_txs-blks height txs _

forget_txs-k : (txs : List CompactTx) (c : BlockCache) → (forget_txs txs c).k_blks ≡ c.k_blks
unfolding forget_txs
forget_txs-k [] c = refl
forget_txs-k (tx ∷ txs) c = forget_txs-k txs _

-- The index is that of the blocks in the cache, of which there are no more than the limit.
pub record Indexes (c : BlockCache) : Type 0 where
  pub bound : c.k_blks ≢ 0 → length c.blks ≤ c.k_blks
  pub spent : (j : Hash) → check_spent j c ≡ spender j c.blks

pub block_cache-Indexes : (k : ℕ) → Indexes (block_cache k)
unfolding block_cache check_spent spender lookup
block_cache-Indexes k = record { bound = λ h. omega arith; spent = λ j. refl }

spender_in-none :
    (j : Hash) (height : ℕ) (txs : List CompactTx)
    → spends j txs ≡ false
    → spender_in j height txs ≡ none
unfolding spends spender_in
spender_in-none j height [] h = refl
spender_in-none j height (tx ∷ txs) h = ground (arith, spender_in-none j height txs)

-- Making room: the index stays that of the blocks that are kept.
MakesRoom : BlockCache → BlockCache → Type 0
MakesRoom c e = Indexes e × (c.k_blks ≢ 0 → suc (length e.blks) ≤ c.k_blks) × (e.k_blks ≡ c.k_blks)

forget-Indexes :
    (c : BlockCache) (b : Block) (rest : List Block)
    → IsDisjoint (b ∷ rest)
    → c.blks ≡ b ∷ rest
    → Indexes c
    → Indexes (record (forget_txs b.transactions c) { blks = rest })
unfolding check_spent spender
forget-Indexes c b rest d e i = record {
  bound = λ h. omega (
    arith,
    i.bound (rw (sym (forget_txs-k b.transactions c)) h),
    ap length e,
    forget_txs-k b.transactions c,
  );
  spent = λ j. ground (
    arith,
    forget_txs-spent j b.transactions c,
    i.spent j ∙ ap (spender j) e,
    d.0 j,
    spender_in-none j b.height b.transactions,
  );
}

evict_block-MakesRoom :
    (c : BlockCache) (bs : List Block)
    → c.blks ≡ bs
    → IsDisjoint bs
    → Indexes c
    → MakesRoom c (evict_block c)
unfolding evict_block MakesRoom
evict_block-MakesRoom c [] e d i = rw (evict_block, e) (i, (λ h. ground (arith, ap length e)), refl)
evict_block-MakesRoom c (b ∷ rest) e d i =
    elim (Bool-cases (not (c.k_blks == 0) && length c.blks == c.k_blks)) [
      | inl full ↦
          rw (evict_block, e, full)
            (
              forget-Indexes c b rest d e i,
              (λ h. ground (arith, ap length e)),
              forget_txs-k b.transactions c,
            )
      | inr room ↦ rw (evict_block, e, room) (i, (λ h. ground (arith, ap length e, i.bound)), refl)
    ]

-- If no block of the cache spends what a later one of it spends, then after a block is pushed the
-- cache holds no more blocks than its limit, if it has one, and `check_spent` answers for each hash
-- with the first transaction of the blocks in the cache that spends it and the height of its block.
pub push_block-Indexes :
    (blk : Block) (c : BlockCache) → IsDisjoint c.blks → Indexes c → Indexes (push_block blk c)
unfolding push_block check_spent MakesRoom
push_block-Indexes blk c d i =
    let (j, room, same) = evict_block-MakesRoom c c.blks refl d i in
    let e : BlockCache = record (evict_block c) { blks = (evict_block c).blks ++ blk ∷ [] } in
    let (blks_same, k_same) = index_txs-blks blk.height blk.transactions e in
    record {
      bound = λ h. omega (
        arith,
        room (rw (sym same, sym k_same) h),
        ap length blks_same,
        k_same,
        same,
        length-append (evict_block c).blks (blk ∷ []),
      );
      spent = λ h.
          index_txs-spent h blk.height blk.transactions e
          ∙ ap (λ m. or_else m (spender_in h blk.height blk.transactions)) (j.spent h)
          ∙ sym (spender-append h (evict_block c).blks blk)
          ∙ ap (spender h) (sym blks_same);
    }
