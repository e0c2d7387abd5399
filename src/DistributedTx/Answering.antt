-- ===== src/DistributedTx/Answering.antt =====
-- Shards that answer every call, and what the calls of a phase to them give.
use opencbdc_tx.Common.{arith}
use opencbdc_tx.Common.{
  ◌≡◌, refl, sym, ◌∙◌, ℕ, Bool, true, List, [], ◌∷◌, Option, none, some, length, ==_refl, Outcome,
  get_or, returned,
}
use opencbdc_tx.Crypto.{Hash}
use opencbdc_tx.Transaction.{CompactTx}
use opencbdc_tx.DistributedTx.{
  Interface, collect, select, lock_shards, apply_shards, discard_shards,
}
use opencbdc_tx.DistributedTx.Prepare.{Below, get_elem?_in, mark_lem}

abbrev pub Returns : {A : Type 0} → Outcome A → Type 0
Returns {A} m = (a : A) × (m ≡ returned a)

abbrev pub Flags : ℕ → Option (List Bool) → Type 0
Flags n none = Unit
Flags n (some flags) = length flags ≡ n

-- Shards that answer each call; one that locks a batch has a flag for each of its transactions.
pub record Answers {S : Type 0} (I : Interface S) : Type 0 where
  pub locks :
      (txs : List CompactTx) (id : Hash) (s : S)
      → (u : S) × (res : Option (List Bool)) × (I.lock_outputs txs id s ≡ returned (u, res))
        × Flags (length txs) res
  pub applies :
      (flags : List Bool) (id : Hash) (s : S)
      → (u : S) × (ok : Bool) × (I.apply_outputs flags id s ≡ returned (u, ok))

-- Each shard has a list of indexes, all of them below `n`.
abbrev pub Fits : {S : Type 0} → ℕ → List (List ℕ) → List S → Type 0
Fits n [] [] = Unit
Fits n (idxs ∷ idxss) (s ∷ shards) = Below n idxs × Fits n idxss shards
Fits n idxss shards = ⊥

-- There is an index for each transaction of each shard.
abbrev pub Pairs : List (List ℕ) → List (List CompactTx) → Type 0
Pairs [] [] = Unit
Pairs (idxs ∷ idxss) (txs ∷ txss) = (length idxs ≡ length txs) × Pairs idxss txss
Pairs idxss txss = ⊥

pub Fits-length :
    {S : Type 0} (n : ℕ) (idxss : List (List ℕ)) (shards ss : List S)
    → length ss ≡ length shards
    → Fits n idxss shards
    → Fits n idxss ss
Fits-length n [] [] [] l f = tt
Fits-length n [] [] (u ∷ ss) l f = absurd (omega (arith, l))
Fits-length n [] (s ∷ shards) ss l f = absurd f
Fits-length n (idxs ∷ idxss) [] ss l f = absurd f
Fits-length n (idxs ∷ idxss) (s ∷ shards) [] l f = absurd (omega (arith, l))
Fits-length n (idxs ∷ idxss) (s ∷ shards) (u ∷ ss) l (b, f) =
    (b, Fits-length n idxss shards ss (omega (arith, l)) f)

abbrev pub Readable : ℕ → List (Option (List Bool) × List ℕ) → Type 0
Readable n [] = Unit
Readable n ((none, idxs) ∷ answers) = Readable n answers
Readable n ((some rs, idxs) ∷ answers) =
    (length rs ≡ length idxs) × Below n idxs × Readable n answers

pub collect-Returns :
    (n : ℕ) (answers : List (Option (List Bool) × List ℕ)) (ret : List Bool)
    → length ret ≡ n
    → Readable n answers
    → (c : Option (List Bool)) × (collect answers ret ≡ returned c) × Flags n c
unfolding collect
collect-Returns n [] ret l a = (some ret, refl, l)
collect-Returns n ((none, idxs) ∷ answers) ret l a = (none, refl, tt)
collect-Returns n ((some rs, idxs) ∷ answers) ret l (same, below, a) =
    let (ret', m, l', s) = mark_lem n rs idxs ret same below l in
    let (c, e, f) = collect-Returns n answers ret' l' a in
    (c, rw (collect, same, ==_refl (length idxs), m) e, f)

select-Returns :
    (flags : List Bool) (idxs : List ℕ) → Below (length flags) idxs → Returns (select flags idxs)
unfolding select
select-Returns flags [] b = ([], refl)
select-Returns flags (i ∷ idxs) (b, bs) =
    let (fs, e) = select-Returns flags idxs bs in
    (get_or flags i true ∷ fs, rw (select, get_elem?_in flags i true b, e) refl)

module _ {S : Type 0} (I : Interface S) (ans : Answers I) (id : Hash) where
  pub lock_shards-Returns :
      (n : ℕ) (idxss : List (List ℕ)) (txss : List (List CompactTx)) (shards : List S)
      → Fits n idxss shards
      → Pairs idxss txss
      → (ss : List S) × (txss' : List (List CompactTx)) × (answers : List
          (Option (List Bool) × List ℕ))
        × (lock_shards I id idxss txss shards ≡ returned (ss, txss', answers))
        × Readable n answers
        × Fits n idxss ss
  unfolding lock_shards
  lock_shards-Returns n [] [] [] f p = ([], [], [], refl, tt, tt)
  lock_shards-Returns n [] (txs ∷ txss) shards f p = absurd p
  lock_shards-Returns n (idxs ∷ idxss) [] shards f p = absurd p
  lock_shards-Returns n [] [] (s ∷ shards) f p = absurd f
  lock_shards-Returns n (idxs ∷ idxss) (txs ∷ txss) [] f p = absurd f
  lock_shards-Returns n ([] ∷ idxss) (txs ∷ txss) (s ∷ shards) (b, f) (l, p) =
      let (ss, txss', answers, e, r, f') = lock_shards-Returns n idxss txss shards f p in
      (s ∷ ss, txs ∷ txss', answers, rw (lock_shards, e) refl, r, (tt, f'))
  lock_shards-Returns n ((i ∷ idxs) ∷ idxss) (txs ∷ txss) (s ∷ shards) (b, f) (l, p) =
      let (ss, txss', answers, e, r, f') = lock_shards-Returns n idxss txss shards f p in
      let (u, res, q, k) = ans.locks txs id s in
      (
        u ∷ ss,
        [] ∷ txss',
        (res, i ∷ idxs) ∷ answers,
        rw (lock_shards, q, e) refl,
        read res answers k r,
        (b, f'),
      )
    where
      read :
          (res : Option (List Bool)) (answers : List (Option (List Bool) × List ℕ))
          → Flags (length txs) res
          → Readable n answers
          → Readable n ((res, i ∷ idxs) ∷ answers)
      read none answers k r = r
      read (some flags) answers k r = (k ∙ sym l, b, r)

  pub apply_shards-Returns :
      (flags : List Bool) (idxss : List (List ℕ)) (shards : List S)
      → Fits (length flags) idxss shards
      → (ss : List S) × (oks : List Bool) × (apply_shards I id flags idxss shards
          ≡ returned (ss, oks))
        × Fits (length flags) idxss ss
  unfolding apply_shards
  apply_shards-Returns flags [] [] f = ([], [], refl, tt)
  apply_shards-Returns flags [] (s ∷ shards) f = absurd f
  apply_shards-Returns flags (idxs ∷ idxss) [] f = absurd f
  apply_shards-Returns flags ([] ∷ idxss) (s ∷ shards) (b, f) =
      let (ss, oks, e, f') = apply_shards-Returns flags idxss shards f in
      (s ∷ ss, oks, rw (apply_shards, e) refl, (tt, f'))
  apply_shards-Returns flags ((i ∷ idxs) ∷ idxss) (s ∷ shards) (b, f) =
      let (ss, oks, e, f') = apply_shards-Returns flags idxss shards f in
      let (fs, q) = select-Returns flags (i ∷ idxs) b in
      let (u, ok, a) = ans.applies fs id s in
      (u ∷ ss, ok ∷ oks, rw (apply_shards, q, a, e) refl, (b, f'))

  pub discard_shards-Returns :
      (n : ℕ) (idxss : List (List ℕ)) (shards : List S)
      → Fits n idxss shards
      → Returns (discard_shards I id idxss shards)
  unfolding discard_shards
  discard_shards-Returns n [] [] f = (_, refl)
  discard_shards-Returns n [] (s ∷ shards) f = absurd f
  discard_shards-Returns n (idxs ∷ idxss) [] f = absurd f
  discard_shards-Returns n ([] ∷ idxss) (s ∷ shards) (b, f) =
      let (r, e) = discard_shards-Returns n idxss shards f in
      ((s ∷ r.0, r.1), rw (discard_shards, e) refl)
  discard_shards-Returns n ((i ∷ idxs) ∷ idxss) (s ∷ shards) (b, f) =
      let (r, e) = discard_shards-Returns n idxss shards f in
      let (u, ok) = I.discard_dtx id s in ((u ∷ r.0, ok ∷ r.1), rw (discard_shards, e) refl)
