-- ===== src/Watchtower.antt =====
-- src/uhs/atomizer/watchtower/watchtower.hpp and watchtower.cpp: the component that answers for the
-- status of a transaction's hashes from the last blocks and errors. Each operation holds the locks
-- of the caches that it uses, so it is one step. The wire format of requests is not modelled.
pub mod Truth
use opencbdc_tx.Common.{
  ℕ, Bool, true, false, not, ◌&&◌, ◌||◌, List, [], ◌∷◌, ◌++◌, Option, none, some, ◌==◌,
  if◌then◌else◌, lookup, emplace,
}
use opencbdc_tx.Crypto.{Hash}
use opencbdc_tx.TxErrors.{
  TxErrorInfo, TxError, sync, inputs_dne, stxo_range, incomplete, inputs_spent,
}
use opencbdc_tx.Atomizer.{Block}
use opencbdc_tx.BlockCache.{
  BlockCache, BlockCacheResult, block_cache, push_block, check_unspent, check_spent,
  best_block_height,
}
use opencbdc_tx.ErrorCache.{ErrorCache, error_cache, push_errors, check_tx_id, check_uhs_id}

pub data SearchStatus : Type 0 where
  no_history : SearchStatus
  unspent : SearchStatus
  spent : SearchStatus
  tx_rejected : SearchStatus
  invalid_input : SearchStatus
  internal_error : SearchStatus

pub record StatusUpdateState : Type 0 where
  pub status : SearchStatus
  pub block_height : ℕ
  pub uhs_id : Hash

pub record Watchtower : Type 0 where
  pub bc : BlockCache
  pub ec : ErrorCache

unfoldable pub watchtower : ℕ → ℕ → Watchtower
watchtower block_cache_size error_cache_size = record {
  bc = block_cache block_cache_size;
  ec = error_cache error_cache_size;
}

unfoldable pub add_block : Block → Watchtower → Watchtower
add_block blk w = record w { bc = push_block blk w.bc }

-- The entry is of the transaction.
unfoldable pub is_of : Hash → Option BlockCacheResult → Bool
is_of tx_id none = false
is_of tx_id (some (height, id)) = tx_id == id

-- `check_uhs`: the blocks have the transaction that the error is about.
unfoldable pub check_uhs : BlockCache → Hash → List Hash → Bool
check_uhs bc err_tx_id [] = false
check_uhs bc err_tx_id (uhs ∷ ids) =
    is_of err_tx_id (check_spent uhs bc)
    || is_of err_tx_id (check_unspent uhs bc)
    || check_uhs bc err_tx_id ids

unfoldable pub repeated_tx_filter : BlockCache → TxError → Bool
repeated_tx_filter bc err = elim err.info [
  | inputs_spent ids ↦ check_uhs bc err.tx_id ids
  | inputs_dne ids ↦ check_uhs bc err.tx_id ids
  | sync ↦ false
  | stxo_range ↦ false
  | incomplete ↦ false
]

unfoldable pub remove_repeated : BlockCache → List TxError → List TxError
remove_repeated bc [] = []
remove_repeated bc (err ∷ errs) =
    let rest = remove_repeated bc errs in if repeated_tx_filter bc err then rest else err ∷ rest

unfoldable pub add_errors : List TxError → Watchtower → Watchtower
add_errors errs w = record w { ec = push_errors (remove_repeated w.bc errs) w.ec }

abbrev pub state_of : SearchStatus → ℕ → Hash → List StatusUpdateState
state_of status height uhs_id =
    record { status = status; block_height = height; uhs_id = uhs_id } ∷ []

-- The states that the errors give, and those that the blocks give.
unfoldable pub error_states : Watchtower → Bool → Bool → ℕ → Hash → List StatusUpdateState
error_states w internal_err tx_err best_height uhs_id =
    if internal_err
    then state_of internal_error best_height uhs_id
    else if tx_err
    then elim (check_uhs_id uhs_id w.ec) [
      | some uhs_err ↦ state_of invalid_input best_height uhs_id
      | none ↦ state_of tx_rejected best_height uhs_id
    ]
    else []

unfoldable pub block_states : Watchtower → Hash → Hash → List StatusUpdateState
block_states w tx_id uhs_id = elim (check_spent uhs_id w.bc) [
  | some (height, s_tx_id) ↦ if s_tx_id == tx_id then state_of spent height uhs_id else []
  | none ↦ elim (check_unspent uhs_id w.bc) [
    | some (height, us_tx_id) ↦ if us_tx_id == tx_id then state_of unspent height uhs_id else []
    | none ↦ []
  ]
]

unfoldable pub check_uhs_id_status :
    Watchtower → Hash → Bool → Bool → ℕ → Hash → List StatusUpdateState
check_uhs_id_status w tx_id internal_err tx_err best_height uhs_id =
    elim (error_states w internal_err tx_err best_height uhs_id ++ block_states w tx_id uhs_id) [
      | [] ↦ state_of no_history best_height uhs_id
      | state ∷ states ↦ state ∷ states
    ]

unfoldable pub check_uhs_id_statuses :
    Watchtower → List Hash → Hash → Bool → Bool → ℕ → List StatusUpdateState
check_uhs_id_statuses w [] tx_id internal_err tx_err best_height = []
check_uhs_id_statuses w (uhs_id ∷ uhs_ids) tx_id internal_err tx_err best_height =
    check_uhs_id_status w tx_id internal_err tx_err best_height uhs_id
    ++ check_uhs_id_statuses w uhs_ids tx_id internal_err tx_err best_height

unfoldable pub is_internal : Option TxError → Bool
is_internal none = false
is_internal (some err) = elim err.info [
  | sync ↦ true
  | stxo_range ↦ true
  | inputs_dne ids ↦ false
  | inputs_spent ids ↦ false
  | incomplete ↦ false
]

unfoldable pub has_value : {A : Type 0} → Option A → Bool
has_value none = false
has_value (some x) = true

-- The answer for one transaction of the request, and for all of them.
unfoldable pub statuses_of : Watchtower → Hash → List Hash → List StatusUpdateState
statuses_of w tx_id uhs_ids =
    let tx_err = check_tx_id tx_id w.ec in
    check_uhs_id_statuses w uhs_ids tx_id (is_internal tx_err) (has_value tx_err)
      (best_block_height w.bc)

unfoldable pub handle_status_update_request :
    List (Hash × List Hash) → Watchtower → List (Hash × List StatusUpdateState)
handle_status_update_request req w = go req []
  where
    go :
        List (Hash × List Hash)
        → List (Hash × List StatusUpdateState)
        → List (Hash × List StatusUpdateState)
    go [] chks = chks
    go ((tx_id, uhs_ids) ∷ rest) chks = go rest (emplace tx_id (statuses_of w tx_id uhs_ids) chks)

unfoldable pub handle_best_block_height_request : Watchtower → ℕ
handle_best_block_height_request w = best_block_height w.bc
