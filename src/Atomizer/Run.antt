-- ===== src/Atomizer/Run.antt =====
-- Runs of the atomizer: the calls that the state machine makes of it, in any order.
use opencbdc_tx.Common.{
  ℕ, ◌≡◌, refl, ◌≢◌, List, [], ◌∷◌, Outcome, returned, ◌>>=◌, All, ◌++◌, All-append,
}
use opencbdc_tx.Crypto.{Hash}
use opencbdc_tx.Transaction.{CompactTx}
use opencbdc_tx.Atomizer.{
  Atomizer, Block, init, insert, insert_complete, make_block, get_notification_offset,
}
use opencbdc_tx.Atomizer.Window.{IsConflictFree}
use opencbdc_tx.Atomizer.Complete.{make_block-Tracks}
use opencbdc_tx.Atomizer.Insert.{
  Follows, complete_at-Follows, insert_at-Follows, make_block-Follows, init-Follows,
}

-- One call: a shard's notification, an aggregated transaction, or the end of a block.
pub data Call : Type 0 where
  notified : ℕ → CompactTx → List ℕ → Call
  aggregated : ℕ → CompactTx → Call
  block_made : Call

unfoldable pub step : Call → Atomizer → Outcome (Atomizer × List Block)
step (notified block_height tx attestations) a =
    insert block_height tx attestations a >>= λ r. returned (r.0, [])
step (aggregated oldest_attestation tx) a =
    returned ((insert_complete oldest_attestation tx a).0, [])
step block_made a = let (b, blk, errs) = make_block a in returned (b, blk ∷ [])

-- The blocks that the calls make, oldest first.
unfoldable pub run : List Call → Atomizer → Outcome (Atomizer × List Block)
run [] a = returned (a, [])
run (call ∷ calls) a = step call a >>= λ r. run calls r.0 >>= λ s. returned (s.0, r.1 ++ s.1)

module _ (canon : Hash → CompactTx) where
  -- The call's transaction has inputs and is the one that its identifier determines.
  abbrev pub IsCall : Call → Type 0
  IsCall (notified h tx atts) = (tx.inputs ≢ []) × (tx ≡ canon tx.id)
  IsCall (aggregated h tx) = tx.inputs ≢ []
  IsCall block_made = Unit

  abbrev pub AreConflictFree : List Block → Type 0
  AreConflictFree = All (λ blk. IsConflictFree blk.transactions)

  step-Follows :
      (call : Call) (a : Atomizer) (blocks : List (List CompactTx))
      → IsCall call
      → Follows canon a blocks
      → (b : Atomizer) × (made : List Block) × (blocks' : List (List CompactTx)) × (step call a
          ≡ returned (b, made))
        × Follows canon b blocks'
        × AreConflictFree made
  unfolding step insert insert_complete make_block
  step-Follows (notified h tx atts) a blocks (some_input, c) f =
      let (b, r, e, f', s) =
        insert_at-Follows canon (get_notification_offset a h) tx atts a blocks some_input c f in
      rw (e, step, insert) (b, [], blocks, refl, f', tt)
  step-Follows (aggregated h tx) a blocks some_input f = (
    _,
    [],
    blocks,
    refl,
    complete_at-Follows canon (get_notification_offset a h) tx a blocks some_input f,
    tt,
  )
  step-Follows block_made a blocks i f =
      let (moved, free, numbered, none_left, best, t) = make_block-Tracks a blocks f.tracks in
      (_, _ ∷ [], _, refl, make_block-Follows canon a blocks f, (free, tt))

  run-Follows :
      (calls : List Call) (a : Atomizer) (blocks : List (List CompactTx))
      → All IsCall calls
      → Follows canon a blocks
      → (b : Atomizer) × (made : List Block) × (run calls a ≡ returned (b, made))
        × AreConflictFree made
  unfolding run
  run-Follows [] a blocks i f = (a, [], refl, tt)
  run-Follows (call ∷ calls) a blocks (i, is) f =
      let (b, made, blocks', e, f', free) = step-Follows call a blocks i f in
      let (d, made', e', free') = run-Follows calls b blocks' is f' in
      rw (run, e, e') (d, made ++ made', refl, All-append _ made made' free free')

  -- From the initial state, the calls of any sequence return and each block that they make is free
  -- of conflicts, if each transaction has inputs and a notified one is the transaction that its
  -- identifier determines.
  pub run-AreConflictFree :
      (best_height stxo_cache_depth : ℕ) (calls : List Call)
      → All IsCall calls
      → (b : Atomizer) × (made : List Block) × (run calls (init best_height stxo_cache_depth)
          ≡ returned (b, made))
        × AreConflictFree made
  run-AreConflictFree best_height stxo_cache_depth calls i =
      run-Follows calls _ [] i (init-Follows canon best_height stxo_cache_depth)
