-- ===== src/Coordinator/Tracked.antt =====
-- The phases of a batch whose callbacks replicate them.
use opencbdc_tx.Common.{
  ◌≡◌, refl, inl, inr, Bool, true, false, ℕ, ◌==◌, List, Option, none, some, length, Bool-cases,
  Outcome, Outcome-cases, returned, terminated, replicate,
}
use opencbdc_tx.Crypto.{Hash}
use opencbdc_tx.Transaction.{CompactTx}
use opencbdc_tx.DistributedTx.{
  Interface, DistributedTx, Run, all_true, called, collect, lock_shards, apply_shards,
  discard_shards, prepare_dtx, commit_dtx, discard_all, execute_prepare, execute_commit,
  execute_discard, execute_start, commit, discard, fail,
}
use opencbdc_tx.Coordinator.{World}
use opencbdc_tx.Coordinator.Log.{Entry, absent, preparing, committing, discarding, Knows, Sends}

-- An entry that the batch makes: its transactions, or the flags and the indexes of its shards.
abbrev pub IsEntryOf : {W : Type 0} → DistributedTx W → List Bool → Entry → Type 0
IsEntryOf d complete_txs absent = Unit
IsEntryOf d complete_txs (preparing txs) = txs ≡ d.full_txs
IsEntryOf d complete_txs (committing flags idxs) = (flags ≡ complete_txs) × (idxs ≡ d.tx_idxs)
IsEntryOf d complete_txs discarding = Unit

module _ {S : Type 0} (I : Interface S) (f : Hash → Entry) where
  -- The batch has failed, and the entry is one that it makes.
  abbrev pub Left : DistributedTx World → Run S World → Type 0
  Left d u = (e : Entry) × IsEntryOf d u.dtx.complete_txs e × Knows d.dtx_id f e u.world

  -- The callbacks from the commit phase on take the entry from one phase to the next.
  pub record Attached (d : DistributedTx World) (before : Entry) (flags : List Bool) : Type 0 where
    pub commits :
        (w : World)
        → Knows d.dtx_id f before w
        → Sends d.dtx_id f before
            (committing flags d.tx_idxs)
            (called d.commit_cb (λ cb. cb d.dtx_id flags d.tx_idxs) w)
    pub discards :
        (w : World)
        → Knows d.dtx_id f (committing flags d.tx_idxs) w
        → Sends d.dtx_id f
            (committing flags d.tx_idxs)
            discarding
            (called d.discard_cb (λ cb. cb d.dtx_id) w)
    pub finishes :
        (w : World)
        → Knows d.dtx_id f discarding w
        → Sends d.dtx_id f discarding absent (called d.done_cb (λ cb. cb d.dtx_id) w)

-- The same run with no callbacks, and so with nothing that they could act on.
abbrev pub without_callbacks : {S : Type 0} → Run S World → Run S Unit
without_callbacks r = record {
  dtx = record {
    dtx_id = r.dtx.dtx_id;
    txs = r.dtx.txs;
    full_txs = r.dtx.full_txs;
    tx_idxs = r.dtx.tx_idxs;
    prepare_cb = none;
    commit_cb = none;
    discard_cb = none;
    done_cb = none;
    state = r.dtx.state;
    complete_txs = r.dtx.complete_txs;
  };
  shards = r.shards;
  world = tt;
}

-- `Ends` is what is known when the process ends.
module _ {S : Type 0} (I : Interface S) (f : Hash → Entry) (Ends : Type 0) where
  -- What a phase leaves behind: the next entry, or a failed batch.
  abbrev PhaseLogs : DistributedTx World → Entry → Outcome (Run S World × Bool) → Type 0
  PhaseLogs d next terminated = Ends
  PhaseLogs d next (returned (u, true)) = Knows d.dtx_id f next u.world
  PhaseLogs d next (returned (u, false)) = Left I f d u

  -- What an execution leaves behind: no entry and the flags, or a failed batch.
  abbrev pub Logs : DistributedTx World → Outcome (Run S World × Option (List Bool)) → Type 0
  Logs d terminated = Ends
  Logs d (returned (u, some flags)) = (flags ≡ u.dtx.complete_txs) × Knows d.dtx_id f absent u.world
  Logs d (returned (u, none)) = Left I f d u

  module _ (r : Run S World) where
    discard_all-Logs :
        (e : Entry)
        → IsEntryOf r.dtx r.dtx.complete_txs e
        → ((w : World)
            → Knows r.dtx.dtx_id f e w
            → Sends r.dtx.dtx_id f e discarding (called r.dtx.discard_cb (λ cb. cb r.dtx.dtx_id) w))
        → ((w : World)
            → Knows r.dtx.dtx_id f discarding w
            → Sends r.dtx.dtx_id f discarding absent
                (called r.dtx.done_cb (λ cb. cb r.dtx.dtx_id) w))
        → Knows r.dtx.dtx_id f e r.world
        → (discard_all I (without_callbacks r) ≡ terminated → Ends)
        → PhaseLogs r.dtx absent (discard_all I r)
    unfolding discard_all fail called
    discard_all-Logs e made discards finishes k ends = elim (discards r.world k) [
      | inr (ko, inl k') ↦ rw (discard_all, ko) (e, made, k')
      | inr (ko, inr k') ↦ rw (discard_all, ko) (discarding, tt, k')
      | inl (ok, k') ↦ elim (Outcome-cases (discard_shards I r.dtx.dtx_id r.dtx.tx_idxs r.shards)) [
        | inl t ↦ rw (discard_all, ok, t) (ends (rw (discard_all, called, t) refl))
        | inr ((shards', answers), t) ↦ elim (Bool-cases (all_true answers)) [
          | inr a ↦ rw (discard_all, ok, t, a) (discarding, tt, k')
          | inl a ↦ elim (finishes (called r.dtx.discard_cb (λ cb. cb r.dtx.dtx_id) r.world).0 k') [
            | inl (fin, k2) ↦ rw (discard_all, ok, t, a, fin) k2
            | inr (ko, inl k2) ↦ rw (discard_all, ok, t, a, ko) (discarding, tt, k2)
            | inr (ko, inr k2) ↦ rw (discard_all, ok, t, a, ko) (absent, tt, k2)
          ]
        ]
      ]
    ]

    pub execute_discard-Logs :
        (e : Entry)
        → IsEntryOf r.dtx r.dtx.complete_txs e
        → r.dtx.state ≡ discard
        → ((w : World)
            → Knows r.dtx.dtx_id f e w
            → Sends r.dtx.dtx_id f e discarding (called r.dtx.discard_cb (λ cb. cb r.dtx.dtx_id) w))
        → ((w : World)
            → Knows r.dtx.dtx_id f discarding w
            → Sends r.dtx.dtx_id f discarding absent
                (called r.dtx.done_cb (λ cb. cb r.dtx.dtx_id) w))
        → Knows r.dtx.dtx_id f e r.world
        → (execute_discard I (without_callbacks r) ≡ terminated → Ends)
        → Logs r.dtx (execute_discard I r)
    unfolding execute_discard
    execute_discard-Logs e made at discards finishes k ends =
        go (discard_all I r) refl (
          discard_all-Logs e made discards finishes k
            (λ x. ends (rw (execute_discard, at, x) refl)))
      where
        go :
            (x : Outcome (Run S World × Bool))
            → discard_all I r ≡ x
            → PhaseLogs r.dtx absent x
            → Logs r.dtx (execute_discard I r)
        go terminated x l = rw (execute_discard, at, x) l
        go (returned (u, true)) x l = rw (execute_discard, at, x) (refl, l)
        go (returned (u, false)) x l = rw (execute_discard, at, x) l

  -- The commit phase, once its command is due, and what follows.
  pub execute_commit-Logs :
      (r : Run S World) (e : Entry)
      → IsEntryOf r.dtx r.dtx.complete_txs e
      → r.dtx.state ≡ commit
      → Attached I f r.dtx e r.dtx.complete_txs
      → Knows r.dtx.dtx_id f e r.world
      → (execute_commit I (without_callbacks r) ≡ terminated → Ends)
      → Logs r.dtx (execute_commit I r)
  unfolding execute_commit commit_dtx fail called
  execute_commit-Logs r e made at a k ends = elim (a.commits r.world k) [
    | inr (ko, inl k') ↦ rw (execute_commit, at, commit_dtx, ko) (e, made, k')
    | inr (ko, inr k') ↦
        rw (execute_commit, at, commit_dtx, ko)
          (committing r.dtx.complete_txs r.dtx.tx_idxs, (refl, refl), k')
    | inl (ok, k') ↦
        elim (Outcome-cases
          (apply_shards I r.dtx.dtx_id r.dtx.complete_txs r.dtx.tx_idxs r.shards)) [
            | inl t ↦
                rw (execute_commit, at, commit_dtx, ok, t)
                  (ends (rw (execute_commit, at, commit_dtx, called, t) refl))
            | inr ((shards', answers), t) ↦ elim (Bool-cases (all_true answers)) [
              | inr b ↦
                  rw (execute_commit, at, commit_dtx, ok, t, b)
                    (committing r.dtx.complete_txs r.dtx.tx_idxs, (refl, refl), k')
              | inl b ↦
                  rw (execute_commit, at, commit_dtx, ok, t, b)
                    (execute_discard-Logs
                      (record {
                        dtx = record r.dtx { state = discard };
                        shards = shards';
                        world =
                            (called r.dtx.commit_cb
                              (λ cb. cb r.dtx.dtx_id r.dtx.complete_txs r.dtx.tx_idxs) r.world).0;
                      })
                      (committing r.dtx.complete_txs r.dtx.tx_idxs) (refl, refl) refl a.discards
                      a.finishes k'
                      (λ x. ends (rw (execute_commit, at, commit_dtx, called, t, b, x) refl)))
            ]
          ]
  ]

  pub execute_start-Logs :
      (r : Run S World) (e : Entry)
      → IsEntryOf r.dtx r.dtx.complete_txs e
      → ((w : World)
          → Knows r.dtx.dtx_id f e w
          → Sends r.dtx.dtx_id f e
              (preparing r.dtx.full_txs)
              (called r.dtx.prepare_cb (λ cb. cb r.dtx.dtx_id r.dtx.full_txs) w))
      → ((flags : List Bool) → Attached I f r.dtx (preparing r.dtx.full_txs) flags)
      → Knows r.dtx.dtx_id f e r.world
      → (execute_start I (without_callbacks r) ≡ terminated → Ends)
      → Logs r.dtx (execute_start I r)
  unfolding execute_start execute_prepare prepare_dtx fail called
  execute_start-Logs r e made prepares a k ends = elim (prepares r.world k) [
    | inr (ko, inl k') ↦ rw (execute_start, execute_prepare, prepare_dtx, ko) (e, made, k')
    | inr (ko, inr k') ↦
        rw (execute_start, execute_prepare, prepare_dtx, ko) (preparing r.dtx.full_txs, refl, k')
    | inl (ok, k') ↦
        elim (Outcome-cases (lock_shards I r.dtx.dtx_id r.dtx.tx_idxs r.dtx.txs r.shards)) [
          | inl t ↦
              rw (execute_start, execute_prepare, prepare_dtx, ok, t)
                (ends (rw (execute_start, execute_prepare, prepare_dtx, called, t) refl))
          | inr ((shards', txs', answers), t) ↦
              locked shards' txs' answers ok k' t
                (collect answers (replicate (length r.dtx.full_txs) true)) refl
        ]
  ]
    where
      w : World
      w = (called r.dtx.prepare_cb (λ cb. cb r.dtx.dtx_id r.dtx.full_txs) r.world).0

      locked :
          (shards' : List S) (txs' : List (List CompactTx))
          (answers : List (Option (List Bool) × List ℕ))
          → (called r.dtx.prepare_cb (λ cb. cb r.dtx.dtx_id r.dtx.full_txs) r.world).1 ≡ true
          → Knows r.dtx.dtx_id f (preparing r.dtx.full_txs) w
          → lock_shards I r.dtx.dtx_id r.dtx.tx_idxs r.dtx.txs r.shards
            ≡ returned (shards', txs', answers)
          → (c : Outcome (Option (List Bool)))
          → collect answers (replicate (length r.dtx.full_txs) true) ≡ c
          → Logs r.dtx (execute_start I r)
      locked shards' txs' answers ok k' t terminated x =
          rw (execute_start, execute_prepare, prepare_dtx, ok, t, x)
            (ends (rw (execute_start, execute_prepare, prepare_dtx, called, t, x) refl))
      locked shards' txs' answers ok k' t (returned none) x =
          rw (execute_start, execute_prepare, prepare_dtx, ok, t, x)
            (preparing r.dtx.full_txs, refl, k')
      locked shards' txs' answers ok k' t (returned (some flags)) x =
          elim (Bool-cases (length flags == length r.dtx.full_txs)) [
            | inr l ↦
                rw (execute_start, execute_prepare, prepare_dtx, ok, t, x, l)
                  (ends (rw (execute_start, execute_prepare, prepare_dtx, called, t, x, l) refl))
            | inl l ↦
                rw (execute_start, execute_prepare, prepare_dtx, ok, t, x, l)
                  (execute_commit-Logs
                    (record {
                      dtx = record r.dtx { txs = txs'; state = commit; complete_txs = flags };
                      shards = shards';
                      world = w;
                    })
                    (preparing r.dtx.full_txs) refl refl
                    (record {
                      commits = (a flags).commits;
                      discards = (a flags).discards;
                      finishes = (a flags).finishes;
                    })
                    k'
                    (λ y.
                      ends (
                        rw (execute_start, execute_prepare, prepare_dtx, called, t, x, l, y) refl)))
          ]
