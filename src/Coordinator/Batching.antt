-- ===== src/Coordinator/Batching.antt =====
-- The current batch of controller.cpp and the senders of its transactions.
use opencbdc_tx.Common.{
  ℕ, zero, suc, ◌≡◌, refl, sym, ◌⊎◌, inl, inr, Bool, List, [], ◌∷◌, ◌++◌, Option, none, some,
  length, get_elem?, lookup, emplace, is_empty, All, All-mono, Outcome, returned, terminated,
  returned_injective, arith, Bool-cases, Option-cases,
}
use opencbdc_tx.Crypto.{Hash, Crypto}
use opencbdc_tx.Transaction.{CompactTx}
use opencbdc_tx.DistributedTx.{
  Interface, Run, distributed_tx, add_tx, execute, start, set_prepare_cb, set_commit_cb,
  set_discard_cb, set_done_cb,
}
use opencbdc_tx.DistributedTx.Counts.{execute_counts}
use opencbdc_tx.DistributedTx.Batch.{get_elem?-append, get_elem?-last}
use opencbdc_tx.Coordinator.{World, batch_set_cbs, set_cbs_in}
use opencbdc_tx.Coordinator.Executor.{
  Controller, respond, add_to_batch, execute_transaction, new_batch, execute_batch,
}

-- Each entry has its place in the batch, with a transaction of its identifier.
abbrev pub AreIndexed : {C : Type 0} → List CompactTx → List (Hash × (C × ℕ)) → Type 0
AreIndexed full txs =
    All (λ t. (tx : CompactTx) × (get_elem? full t.1.1 ≡ some tx) × (tx.id ≡ t.0)) txs

-- The calls to the callbacks: one for each entry, with the flag of its place.
abbrev pub AreAnswered :
    {C : Type 0} → Option (List Bool) → List (Hash × (C × ℕ)) → List (C × Option Bool) → Type 0
AreAnswered none ((id, (cb, idx)) ∷ txs) (a ∷ answers) =
    (a ≡ (cb, none)) × AreAnswered none txs answers
AreAnswered (some flags) ((id, (cb, idx)) ∷ txs) (a ∷ answers) =
    ((b : Bool) × (get_elem? flags idx ≡ some b) × (a ≡ (cb, some b)))
    × AreAnswered (some flags) txs answers
AreAnswered res [] [] = Unit
AreAnswered res txs answers = ⊥

flag_of :
    (full : List CompactTx) (flags : List Bool) (i : ℕ) (tx : CompactTx)
    → length flags ≡ length full
    → get_elem? full i ≡ some tx
    → (b : Bool) × (get_elem? flags i ≡ some b)
flag_of [] flags i tx l h = absurd (ground arith)
flag_of (t ∷ full) [] i tx l h = absurd (omega (arith, l))
flag_of (t ∷ full) (b ∷ flags) zero tx l h = (b, refl)
flag_of (t ∷ full) (b ∷ flags) (suc i) tx l h = flag_of full flags i tx (omega (arith, l)) h

answers_of_failed :
    {C : Type 0} (txs : List (Hash × (C × ℕ)))
    → (answers : List (C × Option Bool)) × (respond none txs ≡ returned answers)
      × AreAnswered none txs answers
unfolding respond
answers_of_failed [] = ([], refl, tt)
answers_of_failed ((id, (cb, idx)) ∷ txs) =
    let (answers, e, a) = answers_of_failed txs in
    ((cb, none) ∷ answers, rw (respond, e) refl, (refl, a))

answers_of_flagged :
    {C : Type 0} (full : List CompactTx) (flags : List Bool) (txs : List (Hash × (C × ℕ)))
    → length flags ≡ length full
    → AreIndexed full txs
    → (answers : List (C × Option Bool)) × (respond (some flags) txs ≡ returned answers)
      × AreAnswered (some flags) txs answers
unfolding respond
answers_of_flagged full flags [] l x = ([], refl, tt)
answers_of_flagged full flags ((id, (cb, idx)) ∷ txs) l ((tx, g, i), x) =
    let (answers, e, a) = answers_of_flagged full flags txs l x in
    let (b, h) = flag_of full flags idx tx l g in
    ((cb, some b) ∷ answers, rw (respond, h, e) refl, ((b, h, refl), a))

module _ {S C : Type 0} (I : Interface S) where
  -- The controllers whose current batch was made and filled by its own calls.
  pub data Filled : Controller S C → Type 0 where
    fresh :
        (id : Hash) (w : World) (ctl u : Controller S C)
        → new_batch I id w ctl ≡ returned u
        → Filled u
    added :
        (c : Crypto) (leads ok : Bool) (tx : CompactTx) (cb : C) (w : World)
        (ctl u : Controller S C)
        → Filled ctl
        → execute_transaction I c leads tx cb w ctl ≡ some (u, ok)
        → Filled u

  record IsOpen (ctl : Controller S C) : Type 0 where
    starts : ctl.current_batch.state ≡ start
    indexed : AreIndexed ctl.current_batch.full_txs ctl.current_txs

  IsOpened : Outcome (Controller S C) → Type 0
  IsOpened terminated = Unit
  IsOpened (returned u) = IsOpen u

  opened :
      (x : Outcome (Controller S C)) (u : Controller S C) → x ≡ returned u → IsOpened x → IsOpen u
  unfolding IsOpened
  opened (returned v) u h o = rw (sym (returned_injective v u h)) o
  opened terminated u h o = absurd (ground arith)

  new_batch-IsOpen :
      (id : Hash) (w : World) (ctl : Controller S C) → IsOpened (new_batch I id w ctl)
  unfolding IsOpened new_batch distributed_tx batch_set_cbs set_cbs_in set_prepare_cb set_commit_cb
      set_discard_cb set_done_cb
  new_batch-IsOpen id w ctl = elim (Bool-cases (is_empty ctl.shards)) [
    | inl e ↦ rw (new_batch, distributed_tx, e) tt
    | inr e ↦ rw (new_batch, distributed_tx, e) (record { starts = refl; indexed = tt })
  ]

  add-IsOpen :
      (tx : CompactTx) (cb : C) (w : World) (ctl : Controller S C)
      → IsOpen ctl
      → IsOpen (add_to_batch I tx cb w ctl)
  unfolding add_to_batch add_tx emplace
  add-IsOpen tx cb w ctl o = record {
    starts = o.starts;
    indexed = elim (Option-cases (lookup tx.id ctl.current_txs)) [
      | inl e ↦ rw (emplace, e) ((tx, get_elem?-last ctl.current_batch.full_txs tx, refl), kept)
      | inr (x, e) ↦ rw (emplace, e) kept
    ];
  }
    where
      kept : AreIndexed (ctl.current_batch.full_txs ++ tx ∷ []) ctl.current_txs
      kept =
          All-mono (λ t x. (x.0, get_elem?-append ctl.current_batch.full_txs tx x.0 t.1.1 x.1, x.2))
            ctl.current_txs o.indexed

  execute_transaction_cases :
      (c : Crypto) (leads ok : Bool) (tx : CompactTx) (cb : C) (w : World) (ctl u : Controller S C)
      → execute_transaction I c leads tx cb w ctl ≡ some (u, ok)
      → (u ≡ ctl) ⊎ (u ≡ add_to_batch I tx cb w ctl)
  unfolding execute_transaction
  execute_transaction_cases c leads ok tx cb w ctl u h = ground arith

  Filled-IsOpen : (ctl : Controller S C) → Filled ctl → IsOpen ctl
  Filled-IsOpen _ (fresh id w ctl u h) =
      opened (new_batch I id w ctl) u h (new_batch-IsOpen id w ctl)
  Filled-IsOpen _ (added c leads ok tx cb w ctl u f h) =
      let o = Filled-IsOpen ctl f in
      elim (execute_transaction_cases c leads ok tx cb w ctl u h) [
        | inl e ↦ rw e o
        | inr e ↦ rw e (add-IsOpen tx cb w ctl o)
      ]

  -- Take a batch that `execute_transaction` has filled since it was made. An execution of it that
  -- returns is followed by answers for all its senders, without an index past the end of the flags:
  -- each callback is called once, with nothing if the batch has failed and otherwise with the flag at
  -- its place, and the transaction at that place in the batch has the identifier of the callback.
  pub execute_batch-Answers :
      (ctl : Controller S C) (w : World) (u : Run S World) (res : Option (List Bool))
      → Filled ctl
      → execute I (record { dtx = ctl.current_batch; shards = ctl.shards; world = w })
        ≡ returned (u, res)
      → (answers : List (C × Option Bool)) × (execute_batch I ctl.current_batch ctl.current_txs
            ctl.shards w
          ≡ returned (u.shards, u.world, answers))
        × AreIndexed ctl.current_batch.full_txs ctl.current_txs
        × AreAnswered res ctl.current_txs answers
  unfolding execute_batch
  execute_batch-Answers ctl w u none f h =
      let (answers, e, a) = answers_of_failed ctl.current_txs in
      (answers, rw (execute_batch, h, e) refl, (Filled-IsOpen ctl f).indexed, a)
  execute_batch-Answers ctl w u (some flags) f h =
      let o = Filled-IsOpen ctl f in
      let r : Run S World = record { dtx = ctl.current_batch; shards = ctl.shards; world = w } in
      let (answers, e, a) =
        answers_of_flagged ctl.current_batch.full_txs flags ctl.current_txs
          (execute_counts I r u flags o.starts h) o.indexed in
      (answers, rw (execute_batch, h, e) refl, o.indexed, a)
