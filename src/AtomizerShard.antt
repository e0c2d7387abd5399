-- ===== src/AtomizerShard.antt =====
-- src/uhs/atomizer/shard/shard.hpp and shard.cpp: the part of the UHS that attests to the atomizer
-- which inputs are unspent, and follows its blocks. The database, LevelDB, is third-party code: an
-- interface, with the documented behaviour of a batch of updates as its laws. Opening the files,
-- and a read error, are not modelled. The key of the height is shorter than a hash.
pub mod Digest
pub mod Attest
use opencbdc_tx.Common.{
  ℕ, zero, suc, ◌+◌, ◌%◌, ◌^◌, ◌≡◌, Bool, true, false, not, ◌&&◌, List, [], ◌∷◌, ◌++◌, Option, none,
  some, ◌==◌, is_empty, if◌then◌else◌, insert,
}
use opencbdc_tx.Crypto.{Hash, hash_in_shard_range}
use opencbdc_tx.Transaction.{CompactTx}
use opencbdc_tx.TxErrors.{TxError, sync, inputs_dne}
use opencbdc_tx.Atomizer.{Block}

-- An update of a `WriteBatch`.
pub data Update : Type 0 where
  put : Hash → Update
  delete : Hash → Update
  put_height : ℕ → Update

-- Whether a key is present, and the stored height, after the updates in their order.
unfoldable pub present : Hash → List Update → Bool → Bool
present j [] b = b
present j (put h ∷ ops) b = present j ops (if h == j then true else b)
present j (delete h ∷ ops) b = present j ops (if h == j then false else b)
present j (put_height n ∷ ops) b = present j ops b

unfoldable pub stored_height : List Update → Option ℕ → Option ℕ
stored_height [] m = m
stored_height (put h ∷ ops) m = stored_height ops m
stored_height (delete h ∷ ops) m = stored_height ops m
stored_height (put_height n ∷ ops) m = stored_height ops (some n)

-- leveldb::DB: a write applies a batch atomically, in order. A snapshot is the database as it was.
pub record Database (D : Type 0) : Type 0 where
  pub has : D → Hash → Bool
  pub height : D → Option ℕ
  pub write : List Update → D → D
  pub has-write :
      (j : Hash) (ops : List Update) (d : D) → has (write ops d) j ≡ present j ops (has d j)
  pub height-write :
      (ops : List Update) (d : D) → height (write ops d) ≡ stored_height ops (height d)

pub record Shard (D : Type 0) : Type 0 where
  pub db : D
  pub best_block_height : ℕ
  pub snp : D
  pub snp_height : ℕ
  pub prefix_range : ℕ × ℕ

-- The message that a shard sends to the atomizer, or the error that goes to the watchtower.
pub data Digested : Type 0 where
  tx_notify_request : CompactTx → List ℕ → ℕ → Digested
  tx_error : TxError → Digested

unfoldable pub update_snapshot : {D : Type 0} → Shard D → Shard D
update_snapshot s = record s { snp = s.db; snp_height = s.best_block_height }

unfoldable pub is_output_on_shard : {D : Type 0} → Shard D → Hash → Bool
is_output_on_shard s uhs_hash = hash_in_shard_range s.prefix_range uhs_hash

-- The updates of a transaction: its outputs are put, then its inputs are deleted.
unfoldable pub put_outputs : {D : Type 0} → Shard D → List Hash → List Update
put_outputs s [] = []
put_outputs s (out ∷ outs) =
    let rest = put_outputs s outs in if is_output_on_shard s out then put out ∷ rest else rest

unfoldable pub delete_inputs : {D : Type 0} → Shard D → List Hash → List Update
delete_inputs s [] = []
delete_inputs s (inp ∷ inps) =
    let rest = delete_inputs s inps in if is_output_on_shard s inp then delete inp ∷ rest else rest

unfoldable pub block_updates : {D : Type 0} → Shard D → List CompactTx → List Update
block_updates s [] = []
block_updates s (tx ∷ txs) =
    put_outputs s tx.uhs_outputs ++ (delete_inputs s tx.inputs ++ block_updates s txs)

module _ {D : Type 0} (L : Database D) where
  -- The end of `open_db`, on an open database.
  unfoldable pub open_db : ℕ × ℕ → D → Shard D
  open_db prefix_range db = elim (L.height db) [
    | none ↦
        let db' = L.write (put_height 0 ∷ []) db in
        record {
          db = db';
          best_block_height = 0;
          snp = db';
          snp_height = 0;
          prefix_range = prefix_range;
        }
    | some height ↦ record {
      db = db;
      best_block_height = height;
      snp = db;
      snp_height = height;
      prefix_range = prefix_range;
    }
  ]

  unfoldable pub digest_block : Block → Shard D → Shard D × Bool
  digest_block blk s =
      let height = (s.best_block_height + 1) % 2 ^ 64 in
      if blk.height == height
      then (
        update_snapshot (record s {
          db = L.write (block_updates s blk.transactions ++ put_height height ∷ []) s.db;
          best_block_height = height;
        }),
        true,
      )
      else (s, false)

  -- The loop over the inputs: the attested indexes, and the inputs that do not exist.
  unfoldable pub check_inputs : Shard D → ℕ → List Hash → List ℕ → List Hash → List ℕ × List Hash
  check_inputs s i [] attestations dne = (attestations, dne)
  check_inputs s i (inp ∷ inps) attestations dne =
      if not (is_output_on_shard s inp)
      then check_inputs s (i + 1) inps attestations dne
      else if L.has s.snp inp
      then check_inputs s (i + 1) inps (insert i attestations) dne
      else check_inputs s (i + 1) inps attestations (dne ++ inp ∷ [])

  unfoldable pub digest_transaction : CompactTx → Shard D → Digested
  digest_transaction tx s =
      if s.snp_height == 0
      then tx_error (record { tx_id = tx.id; info = sync })
      else if is_empty tx.inputs
      then tx_error (record { tx_id = tx.id; info = inputs_dne [] })
      else (let (attestations, dne) = check_inputs s 0 tx.inputs [] [] in
          if not (is_empty dne)
          then tx_error (record { tx_id = tx.id; info = inputs_dne dne })
          else tx_notify_request tx attestations s.snp_height)
