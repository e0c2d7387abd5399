-- ===== src/ErrorCache.antt =====
-- src/uhs/atomizer/watchtower/error_cache.hpp and error_cache.cpp: the last errors, and the indexes
-- of them by transaction and by hash. The errors are shared and not changed, so the indexes hold
-- their values.
pub mod Sound
use opencbdc_tx.Common.{
  ℕ, Bool, not, ◌&&◌, List, [], ◌∷◌, ◌++◌, Option, none, some, ◌==◌, length, if◌then◌else◌, lookup,
  emplace,
}
use opencbdc_tx.Crypto.{Hash}
use opencbdc_tx.TxErrors.{
  TxErrorInfo, TxError, sync, inputs_dne, stxo_range, incomplete, inputs_spent,
}
use opencbdc_tx.BlockCache.{remove_all, emplace_all}

-- The hashes that an error is about, by the visitors.
unfoldable pub input_uhs_ids : TxErrorInfo → List Hash
input_uhs_ids sync = []
input_uhs_ids (inputs_dne ids) = ids
input_uhs_ids (inputs_spent ids) = ids
input_uhs_ids stxo_range = []
input_uhs_ids incomplete = []

-- The queue has the oldest error at the front; `k_errs` is the limit, 0 for none.
pub record ErrorCache : Type 0 where
  pub k_errs : ℕ
  pub errs : List TxError
  pub tx_id_errs : List (Hash × TxError)
  pub uhs_errs : List (Hash × TxError)

unfoldable pub error_cache : ℕ → ErrorCache
error_cache k = record { k_errs = k; errs = []; tx_id_errs = []; uhs_errs = [] }

unfoldable pub evict_error : ErrorCache → ErrorCache
evict_error c = elim c.errs [
  | [] ↦ c
  | old_err ∷ rest ↦
      if not (c.k_errs == 0) && length c.errs == c.k_errs
      then record c {
        errs = rest;
        tx_id_errs = remove_all (old_err.tx_id ∷ []) c.tx_id_errs;
        uhs_errs = remove_all (input_uhs_ids old_err.info) c.uhs_errs;
      }
      else c
]

unfoldable pub add_error : TxError → ErrorCache → ErrorCache
add_error err c = record c {
  errs = c.errs ++ err ∷ [];
  tx_id_errs = emplace_all (err.tx_id ∷ []) err c.tx_id_errs;
  uhs_errs = emplace_all (input_uhs_ids err.info) err c.uhs_errs;
}

unfoldable pub push_errors : List TxError → ErrorCache → ErrorCache
push_errors [] c = c
push_errors (err ∷ errs) c = push_errors errs (add_error err (evict_error c))

unfoldable pub check_tx_id : Hash → ErrorCache → Option TxError
check_tx_id tx_id c = lookup tx_id c.tx_id_errs

unfoldable pub check_uhs_id : Hash → ErrorCache → Option TxError
check_uhs_id uhs_id c = lookup uhs_id c.uhs_errs
