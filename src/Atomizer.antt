-- ===== src/Atomizer.antt =====
-- src/uhs/atomizer/atomizer/atomizer.hpp and atomizer.cpp: the component that orders compact
-- transactions into blocks and refuses an input that was spent within its cache of recent blocks.
-- An entry of `m_txs` is a map keyed by compact transactions, which are hashed and compared by
-- their identifier: here by that number, with the stored key beside the attestations. Heights are
-- `uint64_t` and wrap. Undefined behaviour (an index past the end) is `terminated`.
pub mod Window
pub mod Spent
pub mod Complete
pub mod Known
pub mod Insert
pub mod Run
use opencbdc_tx.Common.{
  ℕ, zero, suc, ◌+◌, ◌-◌, ◌%◌, ◌^◌, Bool, true, false, ◌&&◌, not, List, [], ◌∷◌, ◌++◌, map, Option,
  none, some, ◌==◌, ltb, if◌then◌else◌, length, is_empty, get_elem?, get_or, set, take, replicate,
  contains, insert as add_hash, insert_all, lookup, assign, remove, Outcome, returned, terminated,
}
use opencbdc_tx.Crypto.{Hash}
use opencbdc_tx.Transaction.{CompactTx}
use opencbdc_tx.TxErrors.{TxError, stxo_range, incomplete, inputs_spent}

-- src/uhs/atomizer/atomizer/block.hpp.
pub record Block : Type 0 where
  pub height : ℕ
  pub transactions : List CompactTx

abbrev pub Pending : Type 0
Pending = List (Hash × (CompactTx × List ℕ))

pub record Atomizer : Type 0 where
  pub txs : List Pending
  pub complete_txs : List CompactTx
  pub spent : List (List Hash)
  pub best_height : ℕ
  pub spent_cache_depth : ℕ

unfoldable pub init : ℕ → ℕ → Atomizer
init best_height stxo_cache_depth = record {
  txs = replicate (suc stxo_cache_depth) [];
  complete_txs = [];
  spent = replicate (suc stxo_cache_depth) [];
  best_height = best_height;
  spent_cache_depth = stxo_cache_depth;
}

-- `for(i = depth; i > 0; i--) v[i] = std::move(v[i - 1]);`
unfoldable pub shift {ℓ} : {A : Type ℓ} → ℕ → List (List A) → List (List A)
shift zero v = v
shift (suc i) v = shift i (set v (suc i) (get_or v i []))

unfoldable pub incomplete_errors : Pending → List TxError
incomplete_errors [] = []
incomplete_errors ((_, (tx, _)) ∷ rest) =
    record { tx_id = tx.id; info = incomplete } ∷ incomplete_errors rest

unfoldable pub make_block : Atomizer → Atomizer × Block × List TxError
make_block a =
    let height : ℕ = (a.best_height + 1) % 2 ^ 64 in
    (
      record a {
        txs = set (shift a.spent_cache_depth a.txs) 0 [];
        complete_txs = [];
        spent = set (shift a.spent_cache_depth a.spent) 0 [];
        best_height = height;
      },
      record { height = height; transactions = a.complete_txs },
      incomplete_errors (get_or a.txs a.spent_cache_depth []),
    )

unfoldable pub get_notification_offset : Atomizer → ℕ → ℕ
get_notification_offset a block_height = (a.best_height + 2 ^ 64 - block_height) % 2 ^ 64

unfoldable pub check_notification_offset : Atomizer → ℕ → CompactTx → Option TxError
check_notification_offset a height_offset tx =
    if ltb a.spent_cache_depth height_offset && not (is_empty tx.inputs)
    then some (record { tx_id = tx.id; info = stxo_range })
    else none

-- The loops of `check_stxo_cache`: the inputs that a set holds, and those that some set holds.
unfoldable pub spent_in : List Hash → List Hash → List Hash → List Hash
spent_in cache [] err_set = err_set
spent_in cache (inp ∷ inputs) err_set =
    spent_in cache inputs (if contains inp cache then add_hash inp err_set else err_set)

unfoldable pub spent_inputs : List (List Hash) → List Hash → List Hash → List Hash
spent_inputs [] inputs err_set = err_set
spent_inputs (cache ∷ caches) inputs err_set =
    spent_inputs caches inputs (spent_in cache inputs err_set)

unfoldable pub check_stxo_cache : Atomizer → CompactTx → ℕ → Option TxError
check_stxo_cache a tx cache_check_range =
    let err_set = spent_inputs (take (suc cache_check_range) a.spent) tx.inputs [] in
    if is_empty err_set then none else some (record { tx_id = tx.id; info = inputs_spent err_set })

unfoldable pub add_tx_to_stxo_cache : CompactTx → Atomizer → Atomizer
add_tx_to_stxo_cache tx a = record a {
  spent = set a.spent 0 (insert_all tx.inputs (get_or a.spent 0 []));
}

-- `insert_complete` from the height offset on: the range and the caches are checked, and the
-- transaction is spent and settled.
unfoldable pub complete_at : ℕ → CompactTx → Atomizer → Atomizer × Option TxError
complete_at height_offset tx a = elim (check_notification_offset a height_offset tx) [
  | some err ↦ (a, some err)
  | none ↦ elim (check_stxo_cache a tx height_offset) [
    | some err ↦ (a, some err)
    | none ↦ (record (add_tx_to_stxo_cache tx a) { complete_txs = a.complete_txs ++ tx ∷ [] }, none)
  ]
]

unfoldable pub insert_complete : ℕ → CompactTx → Atomizer → Atomizer × Option TxError
unfolding complete_at
insert_complete oldest_attestation tx a =
    complete_at (get_notification_offset a oldest_attestation) tx a

-- The stored key and the attestations after a notification: new, or merged.
unfoldable pub merge : CompactTx → List ℕ → Option (CompactTx × List ℕ) → CompactTx × List ℕ
merge tx attestations none = (tx, attestations)
merge tx attestations (some (key, known)) = (key, insert_all attestations known)

-- What the loop over the height offsets gathers: all attestations, the oldest offset that has the
-- transaction, and the key that is stored there.
pub record Gathered : Type 0 where
  pub total : List ℕ
  pub oldest : ℕ
  pub key : CompactTx

unfoldable pub gather : Hash → ℕ → List Pending → Gathered → Gathered
gather id offset [] g = g
gather id offset (tx_map ∷ rest) g = gather id (offset + 1) rest (elim (lookup id tx_map) [
  | none ↦ g
  | some (key, known) ↦ record { total = insert_all known g.total; oldest = offset; key = key }
])

-- The notification is recorded; `it` is the stored key.
unfoldable pub notify : ℕ → CompactTx → List ℕ → Pending → Atomizer → Atomizer × CompactTx
notify height_offset tx attestations tx_map a =
    let (key, atts) = merge tx attestations (lookup tx.id tx_map) in
    (record a { txs = set a.txs height_offset (assign tx.id (key, atts) tx_map) }, key)

-- The transaction is settled if every input is attested: its notifications go, at every offset
-- that has one, and the oldest one's key is the transaction that is settled.
unfoldable pub settle : CompactTx → Atomizer → Atomizer × Option TxError
settle key a =
    let g = gather key.id 0 a.txs (record { total = []; oldest = 0; key = key }) in
    if length g.total == length key.inputs
    then elim (check_stxo_cache a key g.oldest) [
      | some err ↦ (a, some err)
      | none ↦ (
        record (add_tx_to_stxo_cache key a) {
          txs = map (remove key.id) a.txs;
          complete_txs = a.complete_txs ++ g.key ∷ [];
        },
        none,
      )
    ]
    else (a, none)

-- `insert` from the height offset on.
unfoldable pub insert_at : ℕ → CompactTx → List ℕ → Atomizer → Outcome (Atomizer × Option TxError)
insert_at height_offset tx attestations a = elim (check_notification_offset a height_offset tx) [
  | some err ↦ returned (a, some err)
  | none ↦ elim (get_elem? a.txs height_offset) [
    | none ↦ terminated
    | some tx_map ↦
        let (a', key) = notify height_offset tx attestations tx_map a in returned (settle key a')
  ]
]

unfoldable pub insert : ℕ → CompactTx → List ℕ → Atomizer → Outcome (Atomizer × Option TxError)
unfolding insert_at
insert block_height tx attestations a =
    insert_at (get_notification_offset a block_height) tx attestations a

unfoldable pub pending_transactions : Atomizer → ℕ
pending_transactions a = length a.complete_txs

unfoldable pub height : Atomizer → ℕ
height a = a.best_height
