-- ===== src/BlockCache.antt =====
-- src/uhs/atomizer/watchtower/block_cache.hpp and block_cache.cpp: the last blocks, and an index of
-- the hashes that they spend and create.
pub mod Spent
pub mod Seen
use opencbdc_tx.Common.{
  ℕ, Bool, true, false, not, ◌&&◌, List, [], ◌∷◌, ◌++◌, Option, none, some, ◌==◌, length, max,
  if◌then◌else◌, lookup, emplace, remove,
}
use opencbdc_tx.Crypto.{Hash}
use opencbdc_tx.Transaction.{CompactTx}
use opencbdc_tx.Atomizer.{Block}

-- The height of the block and the transaction.
abbrev pub BlockCacheResult : Type 0
BlockCacheResult = ℕ × Hash

-- The queue of blocks has the oldest at the front; `k_blks` is the limit, 0 for none.
pub record BlockCache : Type 0 where
  pub k_blks : ℕ
  pub blks : List Block
  pub best_blk_height : ℕ
  pub unspent_ids : List (Hash × BlockCacheResult)
  pub spent_ids : List (Hash × BlockCacheResult)

unfoldable pub block_cache : ℕ → BlockCache
block_cache k = record {
  k_blks = k;
  blks = [];
  best_blk_height = 0;
  unspent_ids = [];
  spent_ids = [];
}

unfoldable pub remove_all : {V : Type 0} → List Hash → List (Hash × V) → List (Hash × V)
remove_all [] m = m
remove_all (h ∷ hs) m = remove_all hs (remove h m)

unfoldable pub emplace_all : {V : Type 0} → List Hash → V → List (Hash × V) → List (Hash × V)
emplace_all [] v m = m
emplace_all (h ∷ hs) v m = emplace_all hs v (emplace h v m)

-- The loop over the transactions of the block that is evicted.
unfoldable pub forget_txs : List CompactTx → BlockCache → BlockCache
forget_txs [] c = c
forget_txs (tx ∷ txs) c = forget_txs txs (record c {
  spent_ids = remove_all tx.inputs c.spent_ids;
  unspent_ids = remove_all tx.uhs_outputs c.unspent_ids;
})

unfoldable pub evict_block : BlockCache → BlockCache
evict_block c = elim c.blks [
  | [] ↦ c
  | old_blk ∷ rest ↦
      if not (c.k_blks == 0) && length c.blks == c.k_blks
      then record (forget_txs old_blk.transactions c) { blks = rest }
      else c
]

-- The loop over the transactions of the new block.
unfoldable pub index_txs : ℕ → List CompactTx → BlockCache → BlockCache
index_txs blk_height [] c = c
index_txs blk_height (tx ∷ txs) c = index_txs blk_height txs (record c {
  unspent_ids = emplace_all tx.uhs_outputs (blk_height, tx.id) (remove_all tx.inputs c.unspent_ids);
  spent_ids = emplace_all tx.inputs (blk_height, tx.id) c.spent_ids;
})

unfoldable pub push_block : Block → BlockCache → BlockCache
push_block blk c =
    let kept = evict_block c in
    let indexed =
      index_txs blk.height blk.transactions (record kept { blks = kept.blks ++ blk ∷ [] }) in
    record indexed { best_blk_height = max indexed.best_blk_height blk.height }

unfoldable pub check_unspent : Hash → BlockCache → Option BlockCacheResult
check_unspent uhs_id c = lookup uhs_id c.unspent_ids

unfoldable pub check_spent : Hash → BlockCache → Option BlockCacheResult
check_spent uhs_id c = lookup uhs_id c.spent_ids

unfoldable pub best_block_height : BlockCache → ℕ
best_block_height c = c.best_blk_height
