-- ===== src/Watchtower/Truth.antt =====
-- The answers of the watchtower against all the blocks that it was sent.
use opencbdc_tx.Common.{ℕ, ◌≡◌, ◌≢◌, true, List, [], ◌∷◌, ◌++◌, Option, none, some, All}
use opencbdc_tx.Crypto.{Hash}
use opencbdc_tx.TxErrors.{TxError}
use opencbdc_tx.Atomizer.{Block}
use opencbdc_tx.BlockCache.{check_spent, best_block_height}
use opencbdc_tx.BlockCache.Seen.{reported}
use opencbdc_tx.ErrorCache.{check_tx_id, check_uhs_id}
use opencbdc_tx.Watchtower.{
  Watchtower, StatusUpdateState, SearchStatus, no_history, unspent, spent, tx_rejected,
  invalid_input, internal_error, add_block, add_errors, is_internal, has_value,
}

-- What a watchtower is sent.
pub data Event : Type 0 where
  block_sent : Block → Event
  errors_sent : List TxError → Event

unfoldable pub observe : List Event → Watchtower → Watchtower
observe [] w = w
observe (block_sent blk ∷ es) w = observe es (add_block blk w)
observe (errors_sent errs ∷ es) w = observe es (add_errors errs w)

-- The blocks among what it is sent, the last one first, after earlier ones.
unfoldable pub blocks_in : List Event → List Block → List Block
blocks_in [] seen = seen
blocks_in (block_sent blk ∷ es) seen = blocks_in es (blk ∷ seen)
blocks_in (errors_sent errs ∷ es) seen = blocks_in es seen

module _ (seen : List Block) (w : Watchtower) (tx_id : Hash) where
  -- What a status says of a hash of the transaction, at a height.
  abbrev pub Says : SearchStatus → ℕ → Hash → Type 0
  Says spent height u = reported (λ tx. tx.inputs) u height tx_id seen ≡ true
  Says unspent height u =
      (reported (λ tx. tx.uhs_outputs) u height tx_id seen ≡ true) × (check_spent u w.bc ≡ none)
  Says no_history height u =
      (check_tx_id tx_id w.ec ≡ none) × ((h : ℕ) → check_spent u w.bc ≢ some (h, tx_id))
  Says internal_error height u =
      (err : TxError) × (check_tx_id tx_id w.ec ≡ some err) × (is_internal (some err) ≡ true)
  Says tx_rejected height u =
      (err : TxError) × (check_tx_id tx_id w.ec ≡ some err) × (check_uhs_id u w.ec ≡ none)
  Says invalid_input height u =
      (err : TxError) × (check_tx_id tx_id w.ec ≡ some err)
      × (has_value (check_uhs_id u w.ec) ≡ true)

  abbrev pub IsTrue : Hash → StatusUpdateState → Type 0
  IsTrue u s = (s.uhs_id ≡ u) × Says s.status s.block_height u

  -- The hashes are answered one by one, in order, each with at least one state and only with true ones.
  abbrev pub Replies : List Hash → List StatusUpdateState → Type 0
  Replies [] states = states ≡ []
  Replies (u ∷ us) states =
      (xs : List StatusUpdateState) × (ys : List StatusUpdateState) × (states ≡ xs ++ ys)
      × (xs ≢ [])
      × All (IsTrue u) xs
      × Replies us ys

  abbrev best : ℕ
  best = best_block_height w.bc

  abbrev err : Option TxError
  err = check_tx_id tx_id w.ec
