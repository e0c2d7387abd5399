-- ===== src/Coordinator/Log.antt =====
-- The commands of a batch on the replicated state, which keeps one entry for each batch.
use opencbdc_tx.Common.{
  ◌≡◌, refl, ◌⊎◌, inl, inr, ℕ, suc, ◌+◌, ◌%◌, ◌^◌, Bool, true, false, List, Option, none, some,
  ◌==◌, ==_refl, if◌then◌else◌, contains, insert, erase, lookup, emplace, remove, returned,
  contains-insert, contains-erase, lookup-emplace, lookup-remove, arith,
}
use opencbdc_tx.Crypto.{Hash}
use opencbdc_tx.Transaction.{CompactTx}
use opencbdc_tx.CoordinatorLog.{
  Command, prepare, commit, discard, done, has_key, apply_command, commit_log,
}
use opencbdc_tx.Coordinator.{
  Payload, prepare_tx, commit_tx, no_data, Raft, State, World, apply_log, replicate_sm_command,
  replicated, Fate, answered, prepare_cb, commit_cb, discard_cb, done_cb,
}

-- What the replicated state has of a batch, with what its recovery needs.
pub data Entry : Type 0 where
  absent : Entry
  preparing : List CompactTx → Entry
  committing : List Bool → List (List ℕ) → Entry
  discarding : Entry

unfoldable pub in_prepare : Entry → Option Payload
in_prepare absent = none
in_prepare (preparing txs) = some (prepare_tx txs)
in_prepare (committing flags idxs) = none
in_prepare discarding = none

unfoldable pub in_commit : Entry → Option Payload
in_commit absent = none
in_commit (preparing txs) = none
in_commit (committing flags idxs) = some (commit_tx flags idxs)
in_commit discarding = none

unfoldable pub in_discard : Entry → Bool
in_discard absent = false
in_discard (preparing txs) = false
in_discard (committing flags idxs) = false
in_discard discarding = true

pub record Holds (s : State) (f : Hash → Entry) : Type 0 where
  pub prepares : (j : Hash) → lookup j s.prepare_txs ≡ in_prepare (f j)
  pub commits : (j : Hash) → lookup j s.commit_txs ≡ in_commit (f j)
  pub discards : (j : Hash) → contains j s.discard_txs ≡ in_discard (f j)

module _ (id : Hash) (f : Hash → Entry) where
  -- The entry of the batch is `e`, and that of another is as `f` says.
  abbrev pub entered : Entry → Hash → Entry
  entered e j = if id == j then e else f j

  -- The cluster works, and has this entry of the batch.
  abbrev pub Knows : Entry → World → Type 0
  Knows e w = (raft : Raft) × (w ≡ returned raft) × Holds raft.machine.state (entered e)

  -- A call that succeeds has moved the entry; one that fails may have moved it.
  abbrev pub Sends : Entry → Entry → World × Bool → Type 0
  Sends before after p =
      ((p.1 ≡ true) × Knows after p.0) ⊎ ((p.1 ≡ false) × (Knows before p.0 ⊎ Knows after p.0))

  abbrev Applies : Command → Payload → Entry → Entry → Type 0
  Applies comm buf before after =
      (s : State)
      → Holds s (entered before)
      → (t : State) × (apply_command comm buf s ≡ returned (t, none)) × Holds t (entered after)

  prepare-Applies :
      (txs : List CompactTx) → Applies (prepare id) (prepare_tx txs) absent (preparing txs)
  unfolding apply_command has_key in_prepare in_commit in_discard
  prepare-Applies txs s h = (
    record s { prepare_txs = emplace id (prepare_tx txs) s.prepare_txs },
    ground (arith, h.prepares id),
    record {
      prepares =
          λ j. ground (arith, h.prepares j, lookup-emplace j id (prepare_tx txs) s.prepare_txs);
      commits = λ j. ground (arith, h.commits j);
      discards = λ j. ground (arith, h.discards j);
    },
  )

  commit-Applies :
      (txs : List CompactTx) (flags : List Bool) (idxs : List (List ℕ))
      → Applies (commit id) (commit_tx flags idxs) (preparing txs) (committing flags idxs)
  unfolding apply_command has_key in_prepare in_commit in_discard
  commit-Applies txs flags idxs s h = (
    record s {
      prepare_txs = remove id s.prepare_txs;
      commit_txs = emplace id (commit_tx flags idxs) s.commit_txs;
    },
    ground (arith, h.prepares id),
    record {
      prepares = λ j. ground (arith, h.prepares j, lookup-remove j id s.prepare_txs);
      commits =
          λ j. ground (arith, h.commits j, lookup-emplace j id (commit_tx flags idxs) s.commit_txs);
      discards = λ j. ground (arith, h.discards j);
    },
  )

  discard-Applies :
      (flags : List Bool) (idxs : List (List ℕ))
      → Applies (discard id) no_data (committing flags idxs) discarding
  unfolding apply_command has_key in_prepare in_commit in_discard
  discard-Applies flags idxs s h = (
    record s { commit_txs = remove id s.commit_txs; discard_txs = insert id s.discard_txs },
    ground (arith, h.commits id),
    record {
      prepares = λ j. ground (arith, h.prepares j);
      commits = λ j. ground (arith, h.commits j, lookup-remove j id s.commit_txs);
      discards = λ j. ground (arith, h.discards j, contains-insert j id s.discard_txs);
    },
  )

  done-Applies : Applies (done id) no_data discarding absent
  unfolding apply_command has_key in_prepare in_commit in_discard
  done-Applies s h = (
    record s { discard_txs = erase id s.discard_txs },
    ground (arith, h.discards id),
    record {
      prepares = λ j. ground (arith, h.prepares j);
      commits = λ j. ground (arith, h.commits j);
      discards = λ j. ground (arith, h.discards j, contains-erase j id s.discard_txs);
    },
  )

  -- A command that is due for the entry, whatever becomes of it.
  send-Sends :
      (comm : Command) (buf : Payload) (before after : Entry)
      → Applies comm buf before after
      → (w : World) → Knows before w
      → Sends before after (replicated (replicate_sm_command comm buf w))
  unfolding replicate_sm_command replicated answered apply_log commit_log
  send-Sends comm buf before after app w (raft, same, h) =
      let (t, e, h') = app raft.machine.state h in
      let i = (raft.machine.last_committed_idx + 1) % 2 ^ 64 in
      let after_it : Raft = record raft {
        machine = record { last_committed_idx = i; state = t };
        sent = suc raft.sent;
      } in
      go (raft.fate raft.sent) refl after_it (rw (apply_log, commit_log, ==_refl i, e) refl) h'
    where
      go :
          (x : Fate)
          → raft.fate raft.sent ≡ x
          → (u : Raft) → apply_log comm buf raft ≡ returned (u, none)
          → Holds u.machine.state (entered after)
          → Sends before after (replicated (replicate_sm_command comm buf w))
      go Fate.acknowledged x u a k =
          rw (same, replicate_sm_command, x, a) (inl (refl, (u, refl, k)))
      go Fate.unacknowledged x u a k =
          rw (same, replicate_sm_command, x, a) (inr (refl, inr (u, refl, k)))
      go Fate.dropped x u a k =
          rw (same, replicate_sm_command, x)
            (inr (refl, inl (record raft { sent = suc raft.sent }, refl, h)))

  pub prepare_Sends :
      (txs : List CompactTx) (w : World)
      → Knows absent w
      → Sends absent (preparing txs) (prepare_cb id txs w)
  unfolding prepare_cb
  prepare_Sends txs w k =
      send-Sends (prepare id) (prepare_tx txs) absent (preparing txs) (prepare-Applies txs) w k

  pub commit_Sends :
      (txs : List CompactTx) (flags : List Bool) (idxs : List (List ℕ)) (w : World)
      → Knows (preparing txs) w
      → Sends (preparing txs) (committing flags idxs) (commit_cb id flags idxs w)
  unfolding commit_cb
  commit_Sends txs flags idxs w k =
      send-Sends (commit id) (commit_tx flags idxs) (preparing txs) (committing flags idxs)
        (commit-Applies txs flags idxs) w k

  pub discard_Sends :
      (flags : List Bool) (idxs : List (List ℕ)) (w : World)
      → Knows (committing flags idxs) w
      → Sends (committing flags idxs) discarding (discard_cb id w)
  unfolding discard_cb
  discard_Sends flags idxs w k =
      send-Sends (discard id) no_data (committing flags idxs) discarding
        (discard-Applies flags idxs) w k

  pub done_Sends : (w : World) → Knows discarding w → Sends discarding absent (done_cb id w)
  unfolding done_cb
  done_Sends w k = send-Sends (done id) no_data discarding absent done-Applies w k
