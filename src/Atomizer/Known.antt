-- ===== src/Atomizer/Known.antt =====
-- The stored notifications: what keeps each stored key the transaction of its identifier.
use opencbdc_tx.Atomizer.{replicate, Pending, merge, Gathered, gather}
use opencbdc_tx.Atomizer.Window.{Caches}
use opencbdc_tx.Common.{
  ℕ, zero, suc, ◌+◌, ◌≤◌, ◌≡◌, refl, inl, inr, List, [], ◌∷◌, map, none, some, ◌==◌, length, set,
  get_elem?, take, contains, insert_all, lookup, assign, remove, lookup-assign, lookup-remove, All,
  arith, Bool-cases, Option-cases,
}
use opencbdc_tx.Crypto.{Hash}
use opencbdc_tx.Transaction.{CompactTx}

pub gather_oldest :
    (id : Hash) (offset n : ℕ) (maps : List Pending) (g : Gathered)
    → g.oldest ≤ n
    → offset + length maps ≤ suc n
    → (gather id offset maps g).oldest ≤ n
unfolding gather
gather_oldest id offset n [] g h le = h
gather_oldest id offset n (m ∷ maps) g h le =
    gather_oldest id (offset + 1) n maps _ (ground arith) (omega arith)

pub get_elem?-none : (maps : List Pending) (i : ℕ) → get_elem? maps i ≡ none → length maps ≤ i
get_elem?-none [] i e = omega arith
get_elem?-none (m ∷ maps) zero e = absurd (ground arith)
get_elem?-none (m ∷ maps) (suc i) e = omega (arith, get_elem?-none maps i e)

pub replicate-Caches : (n : ℕ) → Caches (replicate n []) []
unfolding contains
replicate-Caches zero = tt
replicate-Caches (suc n) = ((λ j. refl), replicate-Caches n)

-- An identifier determines its transaction.
module _ (canon : Hash → CompactTx) where
  abbrev pub IsKnown : Pending → Type 0
  IsKnown m = (id : Hash) (e : CompactTx × List ℕ) → lookup id m ≡ some e → e.0 ≡ canon id

  pub gather_key :
      (id : Hash) (offset : ℕ) (maps : List Pending) (g : Gathered)
      → All IsKnown maps
      → g.key ≡ canon id
      → (gather id offset maps g).key ≡ canon id
  unfolding gather
  gather_key id offset [] g k h = h
  gather_key id offset (m ∷ maps) g k h = elim (Option-cases (lookup id m)) [
    | inl e ↦ rw (e, gather) (gather_key id (offset + 1) maps g k.1 h)
    | inr (e, p) ↦
        rw (p, gather)
          (gather_key id (offset + 1) maps
            (record { total = insert_all e.1 g.total; oldest = offset; key = e.0 }) k.1
            (k.0 id e p))
  ]

  pub get_elem?-IsKnown :
      (maps : List Pending) (i : ℕ) (m : Pending)
      → All IsKnown maps
      → get_elem? maps i ≡ some m
      → IsKnown m
  get_elem?-IsKnown [] i m k e = absurd (ground arith)
  get_elem?-IsKnown (n ∷ maps) zero m k e = λ id x p. k.0 id x (ground arith)
  get_elem?-IsKnown (n ∷ maps) (suc i) m k e = get_elem?-IsKnown maps i m k.1 e

  pub set-IsKnown :
      (maps : List Pending) (i : ℕ) (m : Pending)
      → All IsKnown maps
      → IsKnown m
      → All IsKnown (set maps i m)
  set-IsKnown [] i m k h = tt
  set-IsKnown (n ∷ maps) zero m k h = (h, k.1)
  set-IsKnown (n ∷ maps) (suc i) m k h = (k.0, set-IsKnown maps i m k.1 h)

  pub remove-IsKnown :
      (id : Hash) (maps : List Pending) → All IsKnown maps → All IsKnown (map (remove id) maps)
  remove-IsKnown id [] k = tt
  remove-IsKnown id (m ∷ maps) k =
      ((λ j e p. k.0 j e (ground (arith, lookup-remove j id m))), remove-IsKnown id maps k.1)

  pub merge_key :
      (tx : CompactTx) (atts : List ℕ) (m : Pending)
      → tx ≡ canon tx.id
      → IsKnown m
      → (merge tx atts (lookup tx.id m)).0 ≡ canon tx.id
  unfolding merge
  merge_key tx atts m c k = elim (Option-cases (lookup tx.id m)) [
    | inl e ↦ rw (e, merge) c
    | inr (e, p) ↦ rw (p, merge) (k tx.id e p)
  ]

  pub assign-IsKnown :
      (id : Hash) (e : CompactTx × List ℕ) (m : Pending)
      → e.0 ≡ canon id
      → IsKnown m
      → IsKnown (assign id e m)
  assign-IsKnown id e m c k = λ j x p. elim (Bool-cases (id == j)) [
    | inl same ↦ ground (arith, lookup-assign j id e m)
    | inr other ↦ k j x (ground (arith, lookup-assign j id e m))
  ]

  pub empty-IsKnown : IsKnown []
  unfolding lookup
  empty-IsKnown = λ id e p. absurd (ground arith)

  pub take-IsKnown : (n : ℕ) (maps : List Pending) → All IsKnown maps → All IsKnown (take n maps)
  take-IsKnown zero maps k = tt
  take-IsKnown (suc n) [] k = tt
  take-IsKnown (suc n) (m ∷ maps) k = (k.0, take-IsKnown n maps k.1)

  pub replicate-IsKnown : (n : ℕ) → All IsKnown (replicate n [])
  replicate-IsKnown zero = tt
  replicate-IsKnown (suc n) = (empty-IsKnown, replicate-IsKnown n)
