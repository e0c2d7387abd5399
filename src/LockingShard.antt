-- ===== src/LockingShard.antt =====
-- src/uhs/twophase/locking_shard/locking_shard.hpp and locking_shard.cpp: one shard of the UHS,
-- which locks the inputs of a batch of transactions (a `dtx`) and then applies or cancels them.
-- Every call holds `m_mut`, so a call is one step; `log::fatal` and a failed `assert` end the
-- process. A `locking_shard::tx` wraps a compact transaction and nothing else.
pub mod Moves
pub mod Batch
pub mod Replay
pub mod Atomic
pub mod Shared
use opencbdc_tx.Common.{
  ℕ, suc, Bool, true, false, ◌&&◌, ◌||◌, not, List, [], ◌∷◌, Option, none, some, ◌==◌, length,
  if◌then◌else◌, Outcome, returned, terminated, ◌>>=◌, contains, insert, erase, lookup, emplace,
  remove,
}
use opencbdc_tx.Crypto.{Hash, Pubkey, Crypto, hash_in_shard_range}
use opencbdc_tx.CacheSet.{CacheSet, empty, add, has}
use opencbdc_tx.Transaction.{CompactTx}
use opencbdc_tx.Transaction.Validation.{check_attestations}

-- The parts of `m_opts` that the shard reads, the output range and the cryptography it calls.
pub record Config : Type 0 where
  pub crypto : Crypto
  pub output_range : ℕ × ℕ
  pub sentinel_public_keys : List Pubkey
  pub attestation_threshold : ℕ

-- `m_uhs` and `m_locked`.
pub record Coins : Type 0 where
  pub uhs : List Hash
  pub locked : List Hash

pub record PreparedDtx : Type 0 where
  pub txs : List CompactTx
  pub results : List Bool

pub record LockingShard : Type 0 where
  pub running : Bool
  pub coins : Coins
  pub open coins use *
  pub prepared_dtxs : List (Hash × PreparedDtx)
  pub applied_dtxs : List Hash
  pub completed_txs : CacheSet

-- The constructor, without a preseed file.
unfoldable pub init : ℕ → LockingShard
init completed_txs_cache_size = record {
  running = true;
  coins = record { uhs = []; locked = [] };
  prepared_dtxs = [];
  applied_dtxs = [];
  completed_txs = empty completed_txs_cache_size;
}

module _ (c : Config) where
  abbrev pub in_range : Hash → Bool
  in_range h = hash_in_shard_range c.output_range h

  -- The first loop of `check_and_lock_tx`.
  unfoldable pub all_unspent : List Hash → List Hash → Bool
  all_unspent uhs [] = true
  all_unspent uhs (id ∷ ids) =
      if in_range id && not (contains id uhs) then false else all_unspent uhs ids

  -- The second loop: `m_uhs.extract` must find each input, which moves to `m_locked`.
  unfoldable pub lock_inputs : List Hash → Coins → Outcome Coins
  lock_inputs [] s = returned s
  lock_inputs (id ∷ ids) s =
      let next = lock_inputs ids (record { uhs = erase id s.uhs; locked = insert id s.locked }) in
      let skip = lock_inputs ids s in
      if in_range id then (if contains id s.uhs then next else terminated) else skip

  unfoldable pub check_and_lock_tx : CompactTx → Coins → Outcome (Coins × Bool)
  check_and_lock_tx tx s =
      if check_attestations c.crypto tx c.sentinel_public_keys c.attestation_threshold
        && all_unspent s.uhs tx.inputs
      then (do s' ← lock_inputs tx.inputs s; returned (s', true))
      else returned (s, false)

  -- The loop of `lock_outputs`.
  unfoldable pub lock_txs : List CompactTx → Coins → Outcome (Coins × List Bool)
  lock_txs [] s = returned (s, [])
  lock_txs (tx ∷ txs) s = do
    (s', success) ← check_and_lock_tx tx s
    (s'', ret) ← lock_txs txs s'
    returned (s'', success ∷ ret)

  unfoldable pub lock_outputs :
      List CompactTx → Hash → LockingShard → Outcome (LockingShard × Option (List Bool))
  lock_outputs txs dtx_id s =
      if not s.running then returned (s, none) else elim (lookup dtx_id s.prepared_dtxs) [
        | some p ↦ returned (s, some p.results)
        | none ↦ do
          (coins', ret) ← lock_txs txs s.coins
          returned (
            record s {
              coins = coins';
              prepared_dtxs = emplace dtx_id (record { txs = txs; results = ret }) s.prepared_dtxs;
            },
            some ret,
          )
      ]

  -- The loops of `apply_outputs` over the outputs and the inputs of a transaction.
  unfoldable pub create_outputs : Bool → List Hash → Coins → Coins
  create_outputs complete [] s = s
  create_outputs complete (id ∷ ids) s =
      create_outputs complete ids
        (if in_range id && complete then record s { uhs = insert id s.uhs } else s)

  unfoldable pub release_input : Bool → Hash → Coins → Coins
  release_input complete id s =
      if in_range id
      then record {
        uhs = if not complete && contains id s.locked then insert id s.uhs else s.uhs;
        locked = erase id s.locked;
      }
      else s

  unfoldable pub release_inputs : Bool → List Hash → Coins → Coins
  unfolding release_input
  release_inputs complete [] s = s
  release_inputs complete (id ∷ ids) s = release_inputs complete ids (release_input complete id s)

  unfoldable pub apply_tx : Bool → CompactTx → Coins → Coins
  apply_tx complete tx s =
      release_inputs complete tx.inputs (create_outputs complete tx.uhs_outputs s)

  unfoldable pub apply_txs : List Bool → List CompactTx → Coins → Coins
  apply_txs (complete ∷ flags) (tx ∷ txs) s = apply_txs flags txs (apply_tx complete tx s)
  apply_txs flags txs s = s

  unfoldable pub complete_ids : List CompactTx → CacheSet → CacheSet
  complete_ids [] cache = cache
  complete_ids (tx ∷ txs) cache =
      complete_ids txs (if in_range tx.id then (add cache tx.id).0 else cache)

  unfoldable pub apply_outputs : List Bool → Hash → LockingShard → Outcome (LockingShard × Bool)
  apply_outputs complete_txs dtx_id s =
      if not s.running then returned (s, false) else elim (lookup dtx_id s.prepared_dtxs) [
        | none ↦ if contains dtx_id s.applied_dtxs then returned (s, true) else terminated
        | some dtx ↦
            if length complete_txs == length dtx.txs
            then returned (
              record s {
                coins = apply_txs complete_txs dtx.txs s.coins;
                prepared_dtxs = remove dtx_id s.prepared_dtxs;
                applied_dtxs = insert dtx_id s.applied_dtxs;
                completed_txs = complete_ids dtx.txs s.completed_txs;
              },
              true,
            )
            else terminated
      ]

unfoldable pub discard_dtx : Hash → LockingShard → LockingShard × Bool
discard_dtx dtx_id s =
    if s.running
    then (record s { applied_dtxs = erase dtx_id s.applied_dtxs }, true)
    else (s, false)

unfoldable pub stop : LockingShard → LockingShard
stop s = record s { running = false }

unfoldable pub check_unspent : Hash → LockingShard → Option Bool
check_unspent uhs_id s = some (contains uhs_id s.uhs || contains uhs_id s.locked)

unfoldable pub check_tx_id : Hash → LockingShard → Option Bool
check_tx_id tx_id s = some (has s.completed_txs tx_id)
