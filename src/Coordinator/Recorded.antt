-- ===== src/Coordinator/Recorded.antt =====
-- An execution of a batch with the callbacks of the controller, from any state of the batch.
use opencbdc_tx.Common.{◌≡◌, refl, sym, ap, inl, List, Bool, none, some, terminated}
use opencbdc_tx.Crypto.{Hash}
use opencbdc_tx.DistributedTx.{
  Interface, DistributedTx, Run, called, execute_start, execute_commit, execute_discard, execute,
  start, prepare, commit, discard, done, failed, DtxState, set_prepare_cb, set_commit_cb,
  set_discard_cb, set_done_cb,
}
use opencbdc_tx.Coordinator.{World, batch_set_cbs, set_cbs_in, commit_cb, discard_cb, done_cb}
use opencbdc_tx.Coordinator.Log.{
  Entry, absent, preparing, committing, discarding, Knows, prepare_Sends, commit_Sends,
  discard_Sends, done_Sends,
}
use opencbdc_tx.Coordinator.Tracked.{
  Logs, Attached, without_callbacks, execute_start-Logs, execute_commit-Logs, execute_discard-Logs,
}

-- No callback is set, as when a batch is made, with its transactions or by recovery.
pub record IsUnset (d : DistributedTx World) : Type 0 where
  pub prepares : d.prepare_cb ≡ none
  pub commits : d.commit_cb ≡ none
  pub discards : d.discard_cb ≡ none
  pub finishes : d.done_cb ≡ none

-- The entry that the state of a batch calls for.
abbrev pub IsDue : DtxState → DistributedTx World → Entry → Type 0
IsDue start d e = e ≡ absent
IsDue prepare d e = e ≡ preparing d.full_txs
IsDue commit d e = e ≡ committing d.complete_txs d.tx_idxs
IsDue discard d e = e ≡ discarding
IsDue done d e = e ≡ absent
IsDue failed d e = ⊥

module _ {S : Type 0} (I : Interface S) (f : Hash → Entry) where
  module _ (Ends : Type 0) where
    in_start :
        (d : DistributedTx World) (u : Run S World)
        → u.dtx.state ≡ start
        → Logs I f Ends d (execute_start I u)
        → Logs I f Ends d (execute I u)
    unfolding execute
    in_start d u at l = rw (execute, at) l

    in_prepare :
        (d : DistributedTx World) (u : Run S World)
        → u.dtx.state ≡ prepare
        → Logs I f Ends d (execute_start I u)
        → Logs I f Ends d (execute I u)
    unfolding execute
    in_prepare d u at l = rw (execute, at) l

    in_commit :
        (d : DistributedTx World) (u : Run S World)
        → u.dtx.state ≡ commit
        → Logs I f Ends d (execute_commit I u)
        → Logs I f Ends d (execute I u)
    unfolding execute
    in_commit d u at l = rw (execute, at) l

    in_discard :
        (d : DistributedTx World) (u : Run S World)
        → u.dtx.state ≡ discard
        → Logs I f Ends d (execute_discard I u)
        → Logs I f Ends d (execute I u)
    unfolding execute execute_commit
    in_discard d u at l = rw (execute, at, execute_commit, at) l

  set_in : (d : DistributedTx World) (s : DtxState) → d.state ≡ s → batch_set_cbs d ≡ set_cbs_in s d
  unfolding batch_set_cbs
  set_in d s at = ap (λ t. set_cbs_in t d) at

  attached :
      (d : DistributedTx World) (flags : List Bool)
      → d.commit_cb ≡ some commit_cb
      → d.discard_cb ≡ some discard_cb
      → d.done_cb ≡ some done_cb
      → Attached I f d (preparing d.full_txs) flags
  unfolding called
  attached d flags c b a = record {
    commits = λ w h. rw (called, c) (commit_Sends d.dtx_id f d.full_txs flags d.tx_idxs w h);
    discards = λ w h. rw (called, b) (discard_Sends d.dtx_id f flags d.tx_idxs w h);
    finishes = λ w h. rw (called, a) (done_Sends d.dtx_id f w h);
  }

  -- Let a batch have no callbacks, and let the replicated state have the entry that the state of the
  -- batch calls for. Whatever becomes of the commands that are sent, an execution of the batch with the
  -- callbacks of the controller ends the process only if the same execution without callbacks does.
  -- Otherwise it sends none that the state machine refuses, and changes the entry of no other batch. If it returns flags, the batch has no entry left; if it fails, the entry is none or
  -- one that the batch makes: its transactions, or its flags and the indexes of its shards, or the mark
  -- of the discard phase.
  pub execute-Logs :
      (r : Run S World) (e : Entry)
      → IsUnset r.dtx
      → IsDue r.dtx.state r.dtx e
      → Knows r.dtx.dtx_id f e r.world
      → Logs I f
          (execute I (without_callbacks r) ≡ terminated)
          r.dtx
          (execute I (record r { dtx = batch_set_cbs r.dtx }))
  unfolding set_cbs_in set_prepare_cb set_commit_cb set_discard_cb set_done_cb called execute
      execute_commit execute_discard batch_set_cbs
  execute-Logs r e unset due k = go r.dtx.state refl due
    where
      Ends : Type 0
      Ends = execute I (without_callbacks r) ≡ terminated

      id : Hash
      id = r.dtx.dtx_id

      set : DtxState → Run S World
      set s = record r { dtx = set_cbs_in s r.dtx }

      go :
          (s : DtxState)
          → r.dtx.state ≡ s
          → IsDue s r.dtx e
          → Logs I f Ends r.dtx (execute I (record r { dtx = batch_set_cbs r.dtx }))
      go start at due = rw (set_in r.dtx start at) (
          in_start Ends r.dtx (set start) at (
            execute_start-Logs I f Ends (set start) absent tt
              (λ w h. prepare_Sends id f r.dtx.full_txs w h)
              (λ fl. attached (set start).dtx fl refl refl refl) (rw (sym due) k)
              (λ x. rw (execute, at, x) refl)))
      go prepare at due = rw (set_in r.dtx prepare at) (
          in_prepare Ends r.dtx (set prepare) at (
            execute_start-Logs I f Ends (set prepare) (preparing r.dtx.full_txs) refl
              (λ w h. rw (called, unset.prepares) (inl (refl, h)))
              (λ fl. attached (set prepare).dtx fl refl refl refl) (rw (sym due) k)
              (λ x. rw (execute, at, x) refl)))
      go commit at due = rw (set_in r.dtx commit at) (
          in_commit Ends r.dtx (set commit) at (
            execute_commit-Logs I f Ends (set commit) (committing r.dtx.complete_txs r.dtx.tx_idxs)
              (refl, refl) at
              (record {
                commits = λ w h. rw (called, unset.commits) (inl (refl, h));
                discards = λ w h. discard_Sends id f r.dtx.complete_txs r.dtx.tx_idxs w h;
                finishes = λ w h. done_Sends id f w h;
              })
              (rw (sym due) k) (λ x. rw (execute, at, x) refl)))
      go discard at due = rw (set_in r.dtx discard at) (
          in_discard Ends r.dtx (set discard) at (
            execute_discard-Logs I f Ends (set discard) discarding tt at
              (λ w h. rw (called, unset.discards) (inl (refl, h))) (λ w h. done_Sends id f w h)
              (rw (sym due) k) (λ x. rw (execute, at, execute_commit, at, x) refl)))
      go done at due =
          rw (set_in r.dtx done at, execute, at, execute_commit, at, execute_discard, at)
            (refl, rw (sym due) k)
      go failed at due = absurd due
