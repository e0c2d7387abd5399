-- ===== src/DistributedTx/Batch.antt =====
-- How a batch is spread over the shards: what `add_tx` keeps true of the lists of each shard.
use opencbdc_tx.Common.{
  ◌⊎◌, terminated, ℕ, zero, suc, ◌≡◌, refl, sym, ap, ◌∙◌, true, false, List, [], ◌∷◌, ◌++◌, map,
  some, length, get_elem?, replicate, if◌then◌else◌, returned, Bool-cases, inl, inr, arith,
}
use mathlib.Core.List.{append-nil, append_assoc}
use opencbdc_tx.Crypto.{Hash}
use opencbdc_tx.Transaction.{CompactTx}
use opencbdc_tx.DistributedTx.{
  Interface, Run, is_active, append_where, add_tx, add_txs, distributed_tx,
}

-- The index of each transaction is its place in the batch.
abbrev pub Refers : List CompactTx → List ℕ → List CompactTx → Type 0
Refers full [] [] = Unit
Refers full (i ∷ idxs) (tx ∷ txs) = (get_elem? full i ≡ some tx) × Refers full idxs txs
Refers full idxs txs = ⊥

pub get_elem?-append :
    (full : List CompactTx) (x tx : CompactTx) (i : ℕ)
    → get_elem? full i ≡ some tx
    → get_elem? (full ++ x ∷ []) i ≡ some tx
get_elem?-append [] x tx i h = absurd (ground arith)
get_elem?-append (y ∷ full) x tx zero h = h
get_elem?-append (y ∷ full) x tx (suc i) h = get_elem?-append full x tx i h

pub get_elem?-last :
    (full : List CompactTx) (x : CompactTx) → get_elem? (full ++ x ∷ []) (length full) ≡ some x
get_elem?-last [] x = refl
get_elem?-last (y ∷ full) x = get_elem?-last full x

Refers-grow :
    (full : List CompactTx) (x : CompactTx) (idxs : List ℕ) (txs : List CompactTx)
    → Refers full idxs txs
    → Refers (full ++ x ∷ []) idxs txs
Refers-grow full x [] [] r = tt
Refers-grow full x [] (tx ∷ txs) r = absurd r
Refers-grow full x (i ∷ idxs) [] r = absurd r
Refers-grow full x (i ∷ idxs) (tx ∷ txs) r =
    (get_elem?-append full x tx i r.0, Refers-grow full x idxs txs r.1)

Refers-snoc :
    (full : List CompactTx) (x : CompactTx) (idxs : List ℕ) (txs : List CompactTx)
    → Refers full idxs txs
    → Refers (full ++ x ∷ []) (idxs ++ length full ∷ []) (txs ++ x ∷ [])
Refers-snoc full x [] [] r = (get_elem?-last full x, tt)
Refers-snoc full x [] (tx ∷ txs) r = absurd r
Refers-snoc full x (i ∷ idxs) [] r = absurd r
Refers-snoc full x (i ∷ idxs) (tx ∷ txs) r =
    (get_elem?-append full x tx i r.0, Refers-snoc full x idxs txs r.1)

module _ {S : Type 0} (I : Interface S) where
  -- The transactions of the batch that a shard takes part in, in their order.
  unfoldable pub part_of : S → List CompactTx → List CompactTx
  part_of s [] = []
  part_of s (tx ∷ txs) = let rest = part_of s txs in if is_active I tx s then tx ∷ rest else rest

  -- Each shard has its part of the batch, with the place of each transaction.
  abbrev pub IsSpread : List CompactTx → List (List ℕ) → List (List CompactTx) → List S → Type 0
  IsSpread full [] [] [] = Unit
  IsSpread full (idxs ∷ idxss) (txs ∷ txss) (s ∷ shards) =
      ((txs ≡ part_of s full) × Refers full idxs txs) × IsSpread full idxss txss shards
  IsSpread full idxss txss shards = ⊥

  part_of-taken :
      (s : S) (full : List CompactTx) (x : CompactTx)
      → is_active I x s ≡ true
      → part_of s full ++ x ∷ [] ≡ part_of s (full ++ x ∷ [])
  unfolding part_of
  part_of-taken s [] x e = rw e refl
  part_of-taken s (y ∷ full) x e = elim (Bool-cases (is_active I y s)) [
    | inl a ↦ rw a (ap (◌∷◌ y) (part_of-taken s full x e))
    | inr a ↦ rw a (part_of-taken s full x e)
  ]

  part_of-skipped :
      (s : S) (full : List CompactTx) (x : CompactTx)
      → is_active I x s ≡ false
      → part_of s full ≡ part_of s (full ++ x ∷ [])
  unfolding part_of
  part_of-skipped s [] x e = rw e refl
  part_of-skipped s (y ∷ full) x e = elim (Bool-cases (is_active I y s)) [
    | inl a ↦ rw a (ap (◌∷◌ y) (part_of-skipped s full x e))
    | inr a ↦ rw a (part_of-skipped s full x e)
  ]

  IsSpread-append :
      (full : List CompactTx) (x : CompactTx) (idxss : List (List ℕ)) (txss : List (List CompactTx))
      (shards : List S)
      → IsSpread full idxss txss shards
      → IsSpread
          (full ++ x ∷ [])
          (append_where (map (is_active I x) shards) (length full) idxss)
          (append_where (map (is_active I x) shards) x txss)
          shards
  unfolding append_where
  IsSpread-append full x [] [] [] h = tt
  IsSpread-append full x [] [] (s ∷ shards) h = absurd h
  IsSpread-append full x [] (txs ∷ txss) shards h = absurd h
  IsSpread-append full x (idxs ∷ idxss) [] shards h = absurd h
  IsSpread-append full x (idxs ∷ idxss) (txs ∷ txss) [] h = absurd h
  IsSpread-append full x (idxs ∷ idxss) (txs ∷ txss) (s ∷ shards) ((same, refers), h) = (
    elim (Bool-cases (is_active I x s)) [
      | inl e ↦
          rw (e, append_where)
            (
              ap (λ t. t ++ x ∷ []) same ∙ part_of-taken s full x e,
              Refers-snoc full x idxs txs refers,
            )
      | inr e ↦
          rw (e, append_where)
            (same ∙ part_of-skipped s full x e, Refers-grow full x idxs txs refers)
    ],
    IsSpread-append full x idxss txss shards h,
  )

  pub empty-IsSpread :
      (shards : List S)
      → IsSpread [] (replicate (length shards) []) (replicate (length shards) []) shards
  unfolding part_of
  empty-IsSpread [] = tt
  empty-IsSpread (s ∷ shards) = ((refl, tt), empty-IsSpread shards)

module _ {S W : Type 0} (I : Interface S) where
  abbrev pub IsSpreadRun : List CompactTx → List S → Run S W → Type 0
  IsSpreadRun full shards r =
      (r.dtx.full_txs ≡ full) × (r.shards ≡ shards) × IsSpread I full r.dtx.tx_idxs r.dtx.txs shards

  pub add_txs-IsSpread :
      (txs full : List CompactTx) (shards : List S) (r : Run S W)
      → IsSpreadRun full shards r
      → IsSpreadRun (full ++ txs) shards (add_txs I txs r)
  unfolding add_txs add_tx
  add_txs-IsSpread [] full shards r h = rw (append-nil full) h
  add_txs-IsSpread (tx ∷ txs) full shards r (f, s, h) = rw (sym (append_assoc full (tx ∷ []) txs)) (
      add_txs-IsSpread txs (full ++ tx ∷ []) shards (add_tx I tx r).0 (
        ap (λ g. g ++ tx ∷ []) f,
        s,
        rw (s, f) (IsSpread-append I full tx r.dtx.tx_idxs r.dtx.txs shards h),
      ))

  -- A batch that is constructed for some shards and given transactions holds them in their order,
  -- and each shard has, in that order, exactly those transactions that it takes part in, each with
  -- its place in the batch; without a shard the process ends.
  pub add_txs-distributed_tx :
      (dtx_id : Hash) (shards : List S) (w : W) (txs : List CompactTx)
      → ((shards ≡ []) × (distributed_tx I dtx_id shards w ≡ terminated))
        ⊎ ((r : Run S W) × (distributed_tx I dtx_id shards w ≡ returned r)
            × IsSpreadRun txs shards (add_txs I txs r))
  unfolding distributed_tx
  add_txs-distributed_tx dtx_id [] w txs = inl (refl, refl)
  add_txs-distributed_tx dtx_id (s ∷ shards) w txs =
      inr (
        _,
        refl,
        add_txs-IsSpread txs [] (s ∷ shards) _ (refl, refl, empty-IsSpread I (s ∷ shards)),
      )
