-- ===== src/TxErrors.antt =====
-- src/uhs/atomizer/watchtower/tx_error_messages.hpp: why a transaction failed. A set of hashes is
-- a list without repetition.
use opencbdc_tx.Common.{List}
use opencbdc_tx.Crypto.{Hash}

pub data TxErrorInfo : Type 0 where
  sync : TxErrorInfo
  inputs_dne : List Hash → TxErrorInfo
  stxo_range : TxErrorInfo
  incomplete : TxErrorInfo
  inputs_spent : List Hash → TxErrorInfo

pub record TxError : Type 0 where
  pub tx_id : Hash
  pub info : TxErrorInfo
