-- ===== src/BlockCache/Seen.antt =====
-- The indexes of the block cache against all the blocks that were pushed.
use opencbdc_tx.Common.{
  ℕ, ◌≡◌, refl, sym, Bool, true, false, not, ◌&&◌, ◌||◌, List, [], ◌∷◌, ◌++◌, Option, none, some,
  ◌==◌, ==_refl, length, contains, lookup, arith, Bool-cases, inl, inr, if◌then◌else◌,
}
use opencbdc_tx.Crypto.{Hash}
use opencbdc_tx.Transaction.{CompactTx}
use opencbdc_tx.Atomizer.{Block}
use opencbdc_tx.BlockCache.{
  BlockCacheResult, BlockCache, block_cache, remove_all, emplace_all, forget_txs, evict_block,
  index_txs, push_block,
}
use opencbdc_tx.BlockCache.Spent.{lookup-remove_all, lookup-emplace_all, or_else}

-- Some transaction of this identifier has the hash among those that `f` gives.
unfoldable pub among : (CompactTx → List Hash) → Hash → Hash → List CompactTx → Bool
among f j id [] = false
among f j id (tx ∷ txs) = (tx.id == id && contains j (f tx)) || among f j id txs

-- Some block of this height has such a transaction.
unfoldable pub reported : (CompactTx → List Hash) → Hash → ℕ → Hash → List Block → Bool
reported f j height id [] = false
reported f j height id (b ∷ bs) =
    (b.height == height && among f j id b.transactions) || reported f j height id bs

abbrev Reports : (CompactTx → List Hash) → List Block → List (Hash × BlockCacheResult) → Type 0
Reports f seen m =
    (j : Hash) (height : ℕ) (id : Hash)
    → lookup j m ≡ some (height, id)
    → reported f j height id seen ≡ true

-- Each entry of an index is of a transaction of a block that was seen.
pub record HasSeen (seen : List Block) (c : BlockCache) : Type 0 where
  pub spent : Reports (λ tx. tx.inputs) seen c.spent_ids
  pub unspent : Reports (λ tx. tx.uhs_outputs) seen c.unspent_ids

Reports-remove_all :
    (f : CompactTx → List Hash) (seen : List Block) (hs : List Hash)
    (m : List (Hash × BlockCacheResult))
    → Reports f seen m
    → Reports f seen (remove_all hs m)
Reports-remove_all f seen hs m r j height id e =
    r j height id (ground (arith, lookup-remove_all j hs m))

Reports-emplace_all :
    (f : CompactTx → List Hash) (seen : List Block) (hs : List Hash) (height : ℕ) (id : Hash)
    (m : List (Hash × BlockCacheResult))
    → ((j : Hash) → contains j hs ≡ true → reported f j height id seen ≡ true)
    → Reports f seen m
    → Reports f seen (emplace_all hs (height, id) m)
Reports-emplace_all f seen hs height id m new r j height' id' e =
    go (lookup j m) refl (contains j hs) refl
  where
    put :
        lookup j (emplace_all hs (height, id) m)
        ≡ or_else (lookup j m) (if contains j hs then some (height, id) else none)
    put = lookup-emplace_all j hs (height, id) m

    go :
        (x : Option BlockCacheResult)
        → lookup j m ≡ x
        → (b : Bool) → contains j hs ≡ b
        → reported f j height' id' seen ≡ true
    go (some y) a b c = r j height' id' (ground (arith, put))
    go none a true c =
        let at : height ≡ height' = ground (arith, put) in
        let of_it : id ≡ id' = ground (arith, put) in rw (sym at, sym of_it) (new j c)
    go none a false c = absurd (ground (arith, put))

forget_txs-HasSeen :
    (seen : List Block) (txs : List CompactTx) (c : BlockCache)
    → HasSeen seen c
    → HasSeen seen (forget_txs txs c)
unfolding forget_txs
forget_txs-HasSeen seen [] c h = h
forget_txs-HasSeen seen (tx ∷ txs) c h = forget_txs-HasSeen seen txs _ (record {
  spent = Reports-remove_all _ seen tx.inputs c.spent_ids h.spent;
  unspent = Reports-remove_all _ seen tx.uhs_outputs c.unspent_ids h.unspent;
})

evict_block-HasSeen :
    (seen : List Block) (c : BlockCache) → HasSeen seen c → HasSeen seen (evict_block c)
unfolding evict_block
evict_block-HasSeen seen c h = go c.blks refl
  where
    go : (bs : List Block) → c.blks ≡ bs → HasSeen seen (evict_block c)
    go [] e = rw (evict_block, e) h
    go (b ∷ rest) e = elim (Bool-cases (not (c.k_blks == 0) && length c.blks == c.k_blks)) [
      | inl full ↦
          let k = forget_txs-HasSeen seen b.transactions c h in
          rw (evict_block, e, full) (record { spent = k.spent; unspent = k.unspent })
      | inr room ↦ rw (evict_block, e, room) h
    ]

-- What is reported of the transactions of a block.
abbrev Covers : List Block → ℕ → List CompactTx → Type 0
Covers seen height txs =
    (f : CompactTx → List Hash) (j id : Hash)
    → among f j id txs ≡ true
    → reported f j height id seen ≡ true

index_txs-HasSeen :
    (seen : List Block) (height : ℕ) (txs : List CompactTx) (c : BlockCache)
    → Covers seen height txs
    → HasSeen seen c
    → HasSeen seen (index_txs height txs c)
unfolding index_txs among
index_txs-HasSeen seen height [] c cov h = h
index_txs-HasSeen seen height (tx ∷ txs) c cov h =
    index_txs-HasSeen seen height txs _ (λ f j id a. cov f j id (ground (arith, a)))
      (record {
        spent =
            Reports-emplace_all (λ t. t.inputs) seen tx.inputs height tx.id c.spent_ids
              (λ j e. cov (λ t. t.inputs) j tx.id (ground (arith, ==_refl tx.id, e))) h.spent;
        unspent =
            Reports-emplace_all (λ t. t.uhs_outputs) seen tx.uhs_outputs height tx.id
              (remove_all tx.inputs c.unspent_ids)
              (λ j e. cov (λ t. t.uhs_outputs) j tx.id (ground (arith, ==_refl tx.id, e)))
              (Reports-remove_all _ seen tx.inputs c.unspent_ids h.unspent);
      })

-- An entry that the blocks report stays reported after a further one.
Reports-more :
    (f : CompactTx → List Hash) (seen : List Block) (blk : Block)
    (m : List (Hash × BlockCacheResult))
    → Reports f seen m
    → Reports f (blk ∷ seen) m
unfolding reported
Reports-more f seen blk m r j height id e = ground (arith, r j height id e)

pub push_block-HasSeen :
    (seen : List Block) (blk : Block) (c : BlockCache)
    → HasSeen seen c
    → HasSeen (blk ∷ seen) (push_block blk c)
unfolding push_block reported
push_block-HasSeen seen blk c h =
    let e = evict_block-HasSeen seen c h in
    let k =
      index_txs-HasSeen (blk ∷ seen) blk.height blk.transactions
        (record (evict_block c) { blks = (evict_block c).blks ++ blk ∷ [] })
        (λ f j id a. ground (arith, a, ==_refl blk.height))
        (record {
          spent = Reports-more _ seen blk (evict_block c).spent_ids e.spent;
          unspent = Reports-more _ seen blk (evict_block c).unspent_ids e.unspent;
        }) in
    record { spent = k.spent; unspent = k.unspent }

pub block_cache-HasSeen : (k : ℕ) → HasSeen [] (block_cache k)
unfolding block_cache lookup
block_cache-HasSeen k = record {
  spent = λ j height id e. absurd (ground arith);
  unspent = λ j height id e. absurd (ground arith);
}
