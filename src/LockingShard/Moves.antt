-- ===== src/LockingShard/Moves.antt =====
-- What the loops over a transaction's inputs and outputs do to the two sets.
use opencbdc_tx.LockingShard.{
  release_input, release_inputs, create_outputs, Config, Coins, in_range, all_unspent, lock_inputs,
}
use opencbdc_tx.Common.{
  not, ◌≡◌, refl, Bool, true, false, ◌&&◌, ◌||◌, List, [], ◌∷◌, ◌==◌, if◌then◌else◌, returned,
  contains, insert, erase, contains-insert, contains-erase, arith, Bool-cases, inl, inr,
}
use opencbdc_tx.Crypto.{Hash}

module _ (c : Config) where
  -- The hash is one of the list's that this shard manages.
  unfoldable pub listed : Hash → List Hash → Bool
  listed j ids = in_range c j && contains j ids

  -- The hashes of the list that this shard manages stand in it once.
  abbrev pub AreDistinct : List Hash → Type 0
  AreDistinct [] = Unit
  AreDistinct (id ∷ ids) = (listed id ids ≡ false) × AreDistinct ids

  pub record Locks (ids : List Hash) (s t : Coins) : Type 0 where
    pub spent : (j : Hash) → contains j t.uhs ≡ (if listed j ids then false else contains j s.uhs)
    pub held : (j : Hash) → contains j t.locked ≡ (listed j ids || contains j s.locked)

  pub all_unspent-erase :
      (id : Hash) (ids uhs : List Hash)
      → listed id ids ≡ false
      → all_unspent c uhs ids ≡ true
      → all_unspent c (erase id uhs) ids ≡ true
  unfolding all_unspent listed contains
  all_unspent-erase id [] uhs n h = refl
  all_unspent-erase id (k ∷ ks) uhs n h =
      ground (arith, contains-erase k id uhs, all_unspent-erase id ks uhs)

  not_listed :
      (j : Hash) (uhs : List Hash)
      → contains j uhs ≡ (if listed j [] then false else contains j uhs)
  unfolding listed contains
  not_listed j uhs = ground arith

  not_listed_or :
      (j : Hash) (locked : List Hash) → contains j locked ≡ (listed j [] || contains j locked)
  unfolding listed contains
  not_listed_or j locked = ground arith

  pub listed_out :
      (j id : Hash) (ids : List Hash) → in_range c id ≡ false → listed j (id ∷ ids) ≡ listed j ids
  unfolding listed contains
  listed_out j id ids out = ground arith

  pub listed_in :
      (j id : Hash) (ids : List Hash)
      → in_range c id ≡ true
      → listed j (id ∷ ids) ≡ (id == j || listed j ids)
  unfolding listed contains
  listed_in j id ids mine = ground arith

  unspent_tail :
      (id : Hash) (ids uhs : List Hash)
      → all_unspent c uhs (id ∷ ids) ≡ true
      → all_unspent c uhs ids ≡ true
  unfolding all_unspent
  unspent_tail id ids uhs h = ground arith

  unspent_head :
      (id : Hash) (ids uhs : List Hash)
      → in_range c id ≡ true
      → all_unspent c uhs (id ∷ ids) ≡ true
      → contains id uhs ≡ true
  unfolding all_unspent
  unspent_head id ids uhs mine h = ground arith

  -- Distinct inputs that are all unspent are moved, and nothing else.
  pub lock_inputs_lem :
      (ids : List Hash) (s : Coins)
      → AreDistinct ids
      → all_unspent c s.uhs ids ≡ true
      → (t : Coins) × (lock_inputs c ids s ≡ returned t) × Locks ids s t
  unfolding lock_inputs
  lock_inputs_lem [] s d h =
      (s, refl, record { spent = λ j. not_listed j s.uhs; held = λ j. not_listed_or j s.locked })
  lock_inputs_lem (id ∷ ids) s d h = elim (Bool-cases (in_range c id)) [
    | inr out ↦
        let (t, e, l) = lock_inputs_lem ids s d.1 (unspent_tail id ids s.uhs h) in
        (
          t,
          rw out e,
          record {
            spent = λ j. ground (arith, l.spent j, listed_out j id ids out);
            held = λ j. ground (arith, l.held j, listed_out j id ids out);
          },
        )
    | inl mine ↦
        let s' : Coins = record { uhs = erase id s.uhs; locked = insert id s.locked } in
        let (t, e, l) =
          lock_inputs_lem ids s' d.1
            (all_unspent-erase id ids s.uhs d.0 (unspent_tail id ids s.uhs h)) in
        (
          t,
          rw mine (rw (unspent_head id ids s.uhs mine h) e),
          record {
            spent =
                λ j. ground (arith, l.spent j, listed_in j id ids mine, contains-erase j id s.uhs);
            held = λ j.
                ground (arith, l.held j, listed_in j id ids mine, contains-insert j id s.locked);
          },
        )
  ]

  -- Creating the outputs of a completed transaction adds those that this shard manages.
  pub create_outputs_lem :
      (complete : Bool) (ids : List Hash) (s : Coins)
      → ((j : Hash)
          → contains j (create_outputs c complete ids s).uhs
            ≡ ((complete && listed j ids) || contains j s.uhs))
        × ((create_outputs c complete ids s).locked ≡ s.locked)
  unfolding create_outputs listed contains
  create_outputs_lem complete [] s = ((λ j. ground arith), refl)
  create_outputs_lem complete (id ∷ ids) s =
      let next : Coins =
        if in_range c id && complete then record s { uhs = insert id s.uhs } else s in
      let ih = create_outputs_lem complete ids next in
      ((λ j. ground (arith, ih.0 j, contains-insert j id s.uhs)), ground (arith, ih.1))

  pub record Releases (complete : Bool) (ids : List Hash) (s t : Coins) : Type 0 where
    pub freed :
        (j : Hash)
        → contains j t.uhs
          ≡ (((not complete && listed j ids) && contains j s.locked) || contains j s.uhs)
    pub unlocked :
        (j : Hash) → contains j t.locked ≡ (if listed j ids then false else contains j s.locked)

  -- The inputs leave the locked set; those of a cancelled transaction that were in it are unspent
  -- again.
  pub release_inputs_lem :
      (complete : Bool) (ids : List Hash) (s : Coins)
      → Releases complete ids s (release_inputs c complete ids s)
  unfolding release_inputs listed contains
  release_inputs_lem complete [] s = record {
    freed = λ j. ground arith;
    unlocked = λ j. ground arith;
  }
  release_inputs_lem complete (id ∷ ids) s =
      let next : Coins = release_input c complete id s in
      let ih = release_inputs_lem complete ids next in
      record {
        freed = λ j.
            ground (arith, ih.freed j, contains-insert j id s.uhs, contains-erase j id s.locked);
        unlocked = λ j. ground (arith, ih.unlocked j, contains-erase j id s.locked);
      }

  pub unspent_listed :
      (uhs ids : List Hash) (j : Hash)
      → all_unspent c uhs ids ≡ true
      → listed j ids ≡ true
      → contains j uhs ≡ true
  unfolding all_unspent listed contains
  unspent_listed uhs [] j h l = absurd (ground arith)
  unspent_listed uhs (id ∷ ids) j h l = ground (arith, unspent_listed uhs ids j)
