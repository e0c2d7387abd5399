-- ===== src/LockingShard/Atomic.antt =====
-- Locking a batch and applying it, as one change of the set of unspent hashes.
use opencbdc_tx.LockingShard.{
  complete_ids, Config, Coins, LockingShard, lock_txs, lock_outputs, apply_txs, apply_outputs,
}
use opencbdc_tx.Common.{
  insert, remove, ◌≡◌, refl, Bool, true, false, ◌&&◌, ◌||◌, not, List, [], ◌∷◌, none, some,
  returned, contains, lookup, emplace, lookup-emplace, length, arith, Bool-cases, inl, inr,
}
use opencbdc_tx.Crypto.{Hash}
use opencbdc_tx.Transaction.{CompactTx}
use opencbdc_tx.LockingShard.Batch.{
  is_input, is_spent, is_cancelled, is_created, InputsDistinct, Unshared, not_cancelled, LocksTxs,
  lock_txs_lem, AppliesTxs, apply_txs_lem,
}

-- Flag by flag: what the coordinator completes, the shard had locked.
abbrev pub Within : List Bool → List Bool → Type 0
Within [] [] = Unit
Within (f ∷ fs) (r ∷ rs) = (f ≡ true → r ≡ true) × Within fs rs
Within fs rs = ⊥

Within-length : (fs rs : List Bool) → Within fs rs → length fs ≡ length rs
Within-length [] [] w = refl
Within-length [] (r ∷ rs) w = absurd w
Within-length (f ∷ fs) [] w = absurd w
Within-length (f ∷ fs) (r ∷ rs) w = omega (arith, Within-length fs rs w.1)

module _ (c : Config) where
  Within-is_spent :
      (fs rs : List Bool) (txs : List CompactTx) (j : Hash)
      → Within fs rs
      → is_spent c fs txs j ≡ true
      → is_spent c rs txs j ≡ true
  unfolding is_spent
  Within-is_spent [] [] txs j w h = h
  Within-is_spent [] (r ∷ rs) txs j w h = absurd w
  Within-is_spent (f ∷ fs) [] txs j w h = absurd w
  Within-is_spent (f ∷ fs) (r ∷ rs) [] j w h = h
  Within-is_spent (f ∷ fs) (r ∷ rs) (tx ∷ txs) j w h =
      ground (arith, w.0, Within-is_spent fs rs txs j w.1)

  not_spent :
      (fs : List Bool) (txs : List CompactTx) (j : Hash)
      → is_input c txs j ≡ false
      → is_spent c fs txs j ≡ false
  unfolding is_input is_spent
  not_spent [] txs j h = refl
  not_spent (f ∷ fs) [] j h = refl
  not_spent (f ∷ fs) (tx ∷ txs) j h = ground (arith, not_spent fs txs j)

  -- An input that is not shared is either spent or cancelled.
  cancelled_or_spent :
      (fs : List Bool) (txs : List CompactTx) (j : Hash)
      → length fs ≡ length txs
      → Unshared c txs
      → is_input c txs j ≡ true
      → is_cancelled c fs txs j ≡ not (is_spent c fs txs j)
  unfolding is_input is_spent is_cancelled
  cancelled_or_spent [] [] j n u h = absurd (ground arith)
  cancelled_or_spent [] (tx ∷ txs) j n u h = absurd (omega arith)
  cancelled_or_spent (f ∷ fs) [] j n u h = absurd (omega arith)
  cancelled_or_spent (f ∷ fs) (tx ∷ txs) j n u h = ground (
    arith,
    u.0 j,
    not_spent fs txs j,
    not_cancelled c fs txs j,
    cancelled_or_spent fs txs j (omega arith) u.1,
  )

  -- The change of the two sets: the inputs of completed transactions are gone, their outputs are
  -- unspent, and the locks are as they were.
  pub record Commits (fs : List Bool) (txs : List CompactTx) (s u : Coins) : Type 0 where
    pub uhs :
        (j : Hash)
        → contains j u.uhs
          ≡ (is_created c fs txs j || (not (is_spent c fs txs j) && contains j s.uhs))
    pub locked : (j : Hash) → contains j u.locked ≡ contains j s.locked

  commits_lem :
      (fs rs : List Bool) (txs : List CompactTx) (s t u : Coins)
      → length fs ≡ length txs
      → Within fs rs
      → Unshared c txs
      → ((j : Hash) → is_input c txs j ≡ true → contains j s.locked ≡ false)
      → LocksTxs c txs s t rs
      → AppliesTxs c fs txs t u
      → Commits fs txs s u
  commits_lem fs rs txs s t u n w un free l a = record {
    uhs = λ j. elim (Bool-cases (is_input c txs j)) [
      | inr out ↦ ground (
        arith,
        a.gained j,
        l.spent j,
        not_spent fs txs j out,
        not_spent rs txs j out,
        not_cancelled c fs txs j out,
      )
      | inl mine ↦ ground (
        arith,
        a.gained j,
        l.spent j,
        l.held j,
        l.sound j,
        free j mine,
        cancelled_or_spent fs txs j n un mine,
        Within-is_spent fs rs txs j w,
      )
    ];
    locked = λ j. elim (Bool-cases (is_input c txs j)) [
      | inr out ↦ ground (arith, a.unlocked j, l.held j, not_spent rs txs j out)
      | inl mine ↦ ground (arith, a.unlocked j, free j mine)
    ];
  }

  -- A batch that the shard can take in one piece.
  pub record IsFresh (txs : List CompactTx) (dtx_id : Hash) (s : LockingShard) : Type 0 where
    pub running : s.running ≡ true
    pub new : lookup dtx_id s.prepared_dtxs ≡ none
    pub distinct : InputsDistinct c txs
    pub unshared : Unshared c txs
    pub free : (j : Hash) → is_input c txs j ≡ true → contains j s.locked ≡ false

  locked_state : List CompactTx → Hash → LockingShard → Coins → List Bool → LockingShard
  locked_state txs dtx_id s t rs = record s {
    coins = t;
    prepared_dtxs = emplace dtx_id (record { txs = txs; results = rs }) s.prepared_dtxs;
  }

  lock_outputs_new :
      (txs : List CompactTx) (dtx_id : Hash) (s : LockingShard) (t : Coins) (rs : List Bool)
      → IsFresh txs dtx_id s
      → lock_txs c txs s.coins ≡ returned (t, rs)
      → lock_outputs c txs dtx_id s ≡ returned (locked_state txs dtx_id s t rs, some rs)
  unfolding lock_outputs locked_state
  lock_outputs_new txs dtx_id s t rs f e = ground (arith, f.running, f.new)

  apply_outputs_prepared :
      (fs : List Bool) (txs : List CompactTx) (dtx_id : Hash) (s : LockingShard) (t : Coins)
      (rs : List Bool)
      → IsFresh txs dtx_id s
      → length fs ≡ length txs
      → (u : LockingShard) × (apply_outputs c fs dtx_id (locked_state txs dtx_id s t rs)
          ≡ returned (u, true))
        × (u.coins ≡ apply_txs c fs txs t)
  unfolding apply_outputs locked_state
  apply_outputs_prepared fs txs dtx_id s t rs f n = (
    record (locked_state txs dtx_id s t rs) {
      coins = apply_txs c fs txs t;
      prepared_dtxs =
          remove dtx_id (emplace dtx_id (record { txs = txs; results = rs }) s.prepared_dtxs);
      applied_dtxs = insert dtx_id s.applied_dtxs;
      completed_txs = complete_ids c txs s.completed_txs;
    },
    ground (
      arith,
      f.running,
      f.new,
      lookup-emplace dtx_id dtx_id (record { txs = txs; results = rs }) s.prepared_dtxs,
    ),
    refl,
  )

  -- On a running shard, a new batch whose transactions spend distinct inputs, none of which is
  -- locked, is locked with one flag for each transaction; applying it with flags that complete only
  -- transactions which were locked returns true, removes exactly the inputs of the completed
  -- transactions from the unspent set, adds exactly their outputs, and leaves the locked set as it
  -- was before the batch.
  pub apply_outputs-lock_outputs :
      (txs : List CompactTx) (dtx_id : Hash) (s : LockingShard)
      → IsFresh txs dtx_id s
      → (t : LockingShard) × (rs : List Bool) × (lock_outputs c txs dtx_id s
          ≡ returned (t, some rs))
        × (length rs ≡ length txs)
        × ((fs : List Bool)
            → Within fs rs
            → (u : LockingShard) × (apply_outputs c fs dtx_id t ≡ returned (u, true))
              × Commits fs txs s.coins u.coins)
  apply_outputs-lock_outputs txs dtx_id s f =
      let (t, rs, e, l) = lock_txs_lem c txs s.coins f.distinct in
      (
        locked_state txs dtx_id s t rs,
        rs,
        lock_outputs_new txs dtx_id s t rs f e,
        l.count,
        λ fs w.
            let n : length fs ≡ length txs = omega (arith, Within-length fs rs w, l.count) in
            let a = apply_outputs_prepared fs txs dtx_id s t rs f n in
            (
              a.0,
              a.1,
              rw (a.2) (
                  commits_lem fs rs txs s.coins t (apply_txs c fs txs t) n w f.unshared f.free l
                    (apply_txs_lem c fs txs t n f.unshared)),
            ),
      )
