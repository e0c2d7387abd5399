-- ===== src/Tests/Atomizers.antt =====
-- The atomizer, its shards and the watchtower: runs, and instances of the theorems.
use opencbdc_tx.ErrorCache.{evict_error, add_error, error_cache, push_errors, check_tx_id}
use opencbdc_tx.Common.{
  emplace, ◌≢◌, ◌⊎◌, ◌+◌, ◌≡◌, refl, List, [], ◌∷◌, ◌++◌, true, false, none, arith, contains,
  lookup, returned,
}
use opencbdc_tx.AtomizerShard.{
  put_height, put, Update, Database, Shard, present, stored_height, digest_block,
  digest_transaction,
}
use opencbdc_tx.AtomizerShard.Attest.{Attests, digest_transaction-Attests}
use opencbdc_tx.AtomizerShard.Digest.{
  stored_height-append, present-append, creates, IsOrdered, digest_block-Follows, Follows,
}
use opencbdc_tx.BlockCache.Spent.{
  IsDisjoint, Indexes, block_cache-Indexes, push_block-Indexes, spender, spender_in,
}
use opencbdc_tx.Watchtower.Truth.{Event, block_sent, errors_sent}
use opencbdc_tx.Crypto.{Hash}
use opencbdc_tx.Transaction.{CompactTx}
use opencbdc_tx.TxErrors.{sync, inputs_spent}
use opencbdc_tx.Atomizer.{Atomizer, Block, init, make_block, insert_complete}
use opencbdc_tx.Atomizer.Window.{Tracks, spends, IsConflictFree}
use opencbdc_tx.Atomizer.Complete.{Inserted, insert_complete-Inserted, make_block-Tracks}
use opencbdc_tx.Atomizer.Run.{
  notified, aggregated, block_made, run, AreConflictFree, run-AreConflictFree,
}
use opencbdc_tx.BlockCache.{block_cache, push_block, index_txs, emplace_all, evict_block}
use opencbdc_tx.ErrorCache.Sound.{IsSound, error_cache-IsSound, push_errors-IsSound}
use opencbdc_tx.Tests.Sample.{compact}

program : Unit {0}
unfolding contains lookup emplace spends creates spender spender_in block_cache push_block index_txs
    evict_block emplace_all error_cache push_errors add_error evict_error check_tx_id
program = tt

-- The transaction of an identifier, and one that spends the same hash as it.
abbrev canonical : Hash → CompactTx
canonical id = compact id ((id + 100) ∷ []) ((id + 200) ∷ [])

abbrev rival : Hash → CompactTx
rival id = compact (id + 50) ((id + 100) ∷ []) []

run-AreConflictFree_example :
    (b : Atomizer) × (made : List Block) × (run
        (notified 3 (canonical 1) (0 ∷ []) ∷ aggregated 3 (rival 1) ∷ block_made ∷ [])
        (init 3 2)
      ≡ returned (b, made))
    × AreConflictFree canonical made
run-AreConflictFree_example =
    run-AreConflictFree canonical 3 2 _
      (((λ e. ground arith), refl), ((λ e. ground arith), (tt, tt)))

-- One transaction is pending after a block that held another.
abbrev pending : Atomizer
pending = record {
  txs = [] ∷ [] ∷ [];
  complete_txs = canonical 2 ∷ [];
  spent = (102 ∷ []) ∷ (101 ∷ []) ∷ [];
  best_height = 4;
  spent_cache_depth = 1;
}

abbrev made_blocks : List (List CompactTx)
made_blocks = (canonical 1 ∷ []) ∷ []

pending-Tracks : Tracks pending made_blocks
unfolding program
pending-Tracks = record {
  caches = ((λ j. ground arith), ((λ j. ground arith), tt));
  spent_count = refl;
  txs_count = refl;
  pending = ((λ j h. refl), tt);
  past = (((λ j h. refl), tt), tt);
}

insert_complete-Inserted_example :
    Inserted pending made_blocks 3 (rival 1) (insert_complete 3 (rival 1) pending)
insert_complete-Inserted_example =
    insert_complete-Inserted pending made_blocks 3 (rival 1) pending-Tracks (ground arith)
      (ground arith) (λ e. ground arith)

make_block-Tracks_example :
    let (b, blk, errs) = make_block pending in
    (blk.transactions ≡ canonical 2 ∷ [])
    × IsConflictFree blk.transactions
    × (blk.height ≡ 5)
    × (b.complete_txs ≡ [])
    × (b.best_height ≡ blk.height)
    × Tracks b (blk.transactions ∷ made_blocks)
make_block-Tracks_example = make_block-Tracks pending made_blocks pending-Tracks

-- The database as the updates that were written.
abbrev log : Database (List Update)
log = record {
  has = λ d j. present j d false;
  height = λ d. stored_height d none;
  write = λ ops d. d ++ ops;
  has-write = λ j ops d. present-append j d ops false;
  height-write = λ ops d. stored_height-append d ops none;
}

-- A shard of half of the hashes, at height 4, on which 101 is unspent.
abbrev half : Shard (List Update)
half = record {
  db = put 101 ∷ put_height 4 ∷ [];
  best_block_height = 4;
  snp = put 101 ∷ put_height 4 ∷ [];
  snp_height = 4;
  prefix_range = (0, 127);
}

abbrev block_5 : Block
block_5 = record { height = 5; transactions = canonical 1 ∷ canonical 2 ∷ [] }

block_5-IsOrdered : IsOrdered block_5.transactions
unfolding program
block_5-IsOrdered = ((λ j h. ground arith), ((λ j h. refl), tt))

digest_block-Follows_example :
    ((block_5.height ≡ 5)
      × (t : Shard (List Update)) × (digest_block log block_5 half ≡ (t, true))
      × Follows log half block_5 t)
    ⊎ ((block_5.height ≢ 5) × (digest_block log block_5 half ≡ (half, false)))
digest_block-Follows_example = digest_block-Follows log block_5 half block_5-IsOrdered

digest_transaction-Attests_example :
    Attests log half
      (compact 9 (101 ∷ 102 ∷ 200 ∷ []) [])
      (digest_transaction log (compact 9 (101 ∷ 102 ∷ 200 ∷ []) []) half)
digest_transaction-Attests_example =
    digest_transaction-Attests log (compact 9 (101 ∷ 102 ∷ 200 ∷ []) []) half (ground arith)
      (λ e. ground arith)

empty-IsDisjoint : IsDisjoint (block_cache 2).blks
unfolding program
empty-IsDisjoint = tt

push_block-Indexes_example : Indexes (push_block block_5 (block_cache 2))
push_block-Indexes_example =
    push_block-Indexes block_5 (block_cache 2) empty-IsDisjoint (block_cache-Indexes 2)

push_errors-IsSound_example : IsSound (
    push_errors
      (record { tx_id = 1; info = sync } ∷ record { tx_id = 2; info = inputs_spent (8 ∷ []) } ∷ [])
      (error_cache 1))
push_errors-IsSound_example = push_errors-IsSound _ (error_cache 1) (error_cache-IsSound 1)

-- A watchtower is sent a block, and an error about another transaction.
abbrev sent : List Event
sent = block_sent block_5 ∷ errors_sent (record { tx_id = 7; info = sync } ∷ []) ∷ []
