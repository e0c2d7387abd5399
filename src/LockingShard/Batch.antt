-- ===== src/LockingShard/Batch.antt =====
-- What the loops over a batch of transactions do to the two sets.
use opencbdc_tx.LockingShard.Moves.{
  unspent_listed, listed, AreDistinct, lock_inputs_lem, create_outputs_lem, release_inputs_lem,
}
use opencbdc_tx.Common.{
  suc, ◌≡◌, refl, Bool, true, false, ◌&&◌, ◌||◌, not, List, [], ◌∷◌, if◌then◌else◌, returned,
  contains, length, All, arith, Bool-cases, inl, inr, ap,
}
use opencbdc_tx.Crypto.{Hash}
use opencbdc_tx.Transaction.{CompactTx}
use opencbdc_tx.Transaction.Validation.{check_attestations}
use opencbdc_tx.LockingShard.{
  Config, Coins, all_unspent, check_and_lock_tx, lock_txs, create_outputs, apply_tx, apply_txs,
}

module _ (c : Config) where
  -- The hash is an input of some transaction of the batch; of one whose flag is true; of one whose
  -- flag is false; an output of one whose flag is true. Only hashes of this shard's range count.
  unfoldable pub is_input : List CompactTx → Hash → Bool
  is_input [] j = false
  is_input (tx ∷ txs) j = listed c j tx.inputs || is_input txs j

  unfoldable pub is_spent : List Bool → List CompactTx → Hash → Bool
  is_spent (f ∷ fs) (tx ∷ txs) j = (f && listed c j tx.inputs) || is_spent fs txs j
  is_spent fs txs j = false

  unfoldable pub is_cancelled : List Bool → List CompactTx → Hash → Bool
  is_cancelled (f ∷ fs) (tx ∷ txs) j = (not f && listed c j tx.inputs) || is_cancelled fs txs j
  is_cancelled fs txs j = false

  unfoldable pub is_created : List Bool → List CompactTx → Hash → Bool
  is_created (f ∷ fs) (tx ∷ txs) j = (f && listed c j tx.uhs_outputs) || is_created fs txs j
  is_created fs txs j = false

  -- No input stands twice in one transaction.
  abbrev pub InputsDistinct : List CompactTx → Type 0
  InputsDistinct txs = All (λ tx. AreDistinct c tx.inputs) txs

  -- No input is shared by two transactions of the batch.
  abbrev pub Unshared : List CompactTx → Type 0
  Unshared [] = Unit
  Unshared (tx ∷ txs) =
      ((j : Hash) → listed c j tx.inputs ≡ true → is_input txs j ≡ false) × Unshared txs

  pub not_cancelled :
      (fs : List Bool) (txs : List CompactTx) (j : Hash)
      → is_input txs j ≡ false
      → is_cancelled fs txs j ≡ false
  unfolding is_input is_cancelled
  not_cancelled [] txs j h = refl
  not_cancelled (f ∷ fs) [] j h = refl
  not_cancelled (f ∷ fs) (tx ∷ txs) j h = ground (arith, not_cancelled fs txs j)

  record LocksTx (tx : CompactTx) (s t : Coins) (b : Bool) : Type 0 where
    spent :
        (j : Hash)
        → contains j t.uhs ≡ (if b && listed c j tx.inputs then false else contains j s.uhs)
    held : (j : Hash) → contains j t.locked ≡ ((b && listed c j tx.inputs) || contains j s.locked)
    sound : (j : Hash) → (b && listed c j tx.inputs) ≡ true → contains j s.uhs ≡ true

  check_and_lock_tx_lem :
      (tx : CompactTx) (s : Coins)
      → AreDistinct c tx.inputs
      → (t : Coins) × (b : Bool) × (check_and_lock_tx c tx s ≡ returned (t, b)) × LocksTx tx s t b
  unfolding check_and_lock_tx
  check_and_lock_tx_lem tx s d =
      elim (Bool-cases (
        check_attestations c.crypto tx c.sentinel_public_keys c.attestation_threshold
        && all_unspent c s.uhs tx.inputs)) [
          | inr e ↦ (
            s,
            false,
            rw e,
            record { spent = λ j. refl; held = λ j. refl; sound = λ j h. absurd (ground arith) },
          )
          | inl e ↦
              let fine : all_unspent c s.uhs tx.inputs ≡ true = ground arith in
              let (t, le, l) = lock_inputs_lem c tx.inputs s d fine in
              (
                t,
                true,
                rw (e, le),
                record {
                  spent = l.spent;
                  held = l.held;
                  sound = λ j h. unspent_listed c s.uhs tx.inputs j fine h;
                },
              )
        ]

  pub record LocksTxs (txs : List CompactTx) (s t : Coins) (rs : List Bool) : Type 0 where
    pub count : length rs ≡ length txs
    pub spent :
        (j : Hash) → contains j t.uhs ≡ (if is_spent rs txs j then false else contains j s.uhs)
    pub held : (j : Hash) → contains j t.locked ≡ (is_spent rs txs j || contains j s.locked)
    pub sound : (j : Hash) → is_spent rs txs j ≡ true → contains j s.uhs ≡ true

  -- The inputs of the transactions that succeed move from the unspent to the locked set.
  pub lock_txs_lem :
      (txs : List CompactTx) (s : Coins)
      → InputsDistinct txs
      → (t : Coins) × (rs : List Bool) × (lock_txs c txs s ≡ returned (t, rs)) × LocksTxs txs s t rs
  unfolding lock_txs is_spent
  lock_txs_lem [] s d = (
    s,
    [],
    refl,
    record {
      count = refl;
      spent = λ j. refl;
      held = λ j. refl;
      sound = λ j h. absurd (ground arith);
    },
  )
  lock_txs_lem (tx ∷ txs) s d =
      let (t, b, e, l) = check_and_lock_tx_lem tx s d.0 in
      let (u, rs, e', l') = lock_txs_lem txs t d.1 in
      (
        u,
        b ∷ rs,
        rw (e, e'),
        record {
          count = ap suc l'.count;
          spent = λ j. ground (arith, l.spent j, l'.spent j);
          held = λ j. ground (arith, l.held j, l'.held j);
          sound = λ j h. ground (arith, l.spent j, l.sound j, l'.sound j);
        },
      )

  pub record AppliesTx (f : Bool) (tx : CompactTx) (s t : Coins) : Type 0 where
    pub gained :
        (j : Hash)
        → contains j t.uhs ≡ (
            (f && listed c j tx.uhs_outputs)
            || (((not f && listed c j tx.inputs) && contains j s.locked) || contains j s.uhs))
    pub unlocked :
        (j : Hash)
        → contains j t.locked ≡ (if listed c j tx.inputs then false else contains j s.locked)

  pub apply_tx_lem : (f : Bool) (tx : CompactTx) (s : Coins) → AppliesTx f tx s (apply_tx c f tx s)
  unfolding apply_tx
  apply_tx_lem f tx s =
      let made = create_outputs_lem c f tx.uhs_outputs s in
      let freed = release_inputs_lem c f tx.inputs (create_outputs c f tx.uhs_outputs s) in
      record {
        gained = λ j. ground (arith, freed.freed j, made.0 j, ap (contains j) made.1);
        unlocked = λ j. ground (arith, freed.unlocked j, ap (contains j) made.1);
      }

  pub record AppliesTxs (fs : List Bool) (txs : List CompactTx) (s t : Coins) : Type 0 where
    pub gained :
        (j : Hash)
        → contains j t.uhs ≡ (
            is_created fs txs j
            || ((is_cancelled fs txs j && contains j s.locked) || contains j s.uhs))
    pub unlocked :
        (j : Hash) → contains j t.locked ≡ (if is_input txs j then false else contains j s.locked)

  -- Where no input is shared: the outputs of the completed transactions and the locked inputs of
  -- the cancelled ones become unspent, and no input of the batch stays locked.
  pub apply_txs_lem :
      (fs : List Bool) (txs : List CompactTx) (s : Coins)
      → length fs ≡ length txs
      → Unshared txs
      → AppliesTxs fs txs s (apply_txs c fs txs s)
  unfolding apply_txs is_created is_cancelled is_input
  apply_txs_lem [] [] s n d = record { gained = λ j. refl; unlocked = λ j. refl }
  apply_txs_lem [] (tx ∷ txs) s n d = absurd (omega arith)
  apply_txs_lem (f ∷ fs) [] s n d = absurd (omega arith)
  apply_txs_lem (f ∷ fs) (tx ∷ txs) s n d =
      let one = apply_tx_lem f tx s in
      let ih = apply_txs_lem fs txs (apply_tx c f tx s) (omega arith) d.1 in
      record {
        gained = λ j.
            ground
              (arith, one.gained j, one.unlocked j, ih.gained j, d.0 j, not_cancelled fs txs j);
        unlocked = λ j. ground (arith, one.unlocked j, ih.unlocked j);
      }
