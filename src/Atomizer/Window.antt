-- ===== src/Atomizer/Window.antt =====
-- The window of recent blocks that the caches of spent inputs stand for.
use opencbdc_tx.Common.{
  ℕ, zero, suc, ◌≤◌, ◌<◌, ◌≡◌, refl, ap, ◌∙◌, Bool, true, false, ◌||◌, List, [], ◌∷◌, ◌++◌, length,
  set, get_or, take, drop, contains, All, arith,
}
use mathlib.Core.Path.{ap₂}
use opencbdc_tx.Crypto.{Hash}
use opencbdc_tx.Transaction.{CompactTx}
use opencbdc_tx.Atomizer.{Atomizer, shift}

-- Some transaction of the group, or of one of the groups, spends the hash.
unfoldable pub spends : Hash → List CompactTx → Bool
spends j [] = false
spends j (tx ∷ txs) = contains j tx.inputs || spends j txs

unfoldable pub spends_any : Hash → List (List CompactTx) → Bool
spends_any j [] = false
spends_any j (g ∷ gs) = spends j g || spends_any j gs

-- No two transactions of the group spend the same hash.
abbrev pub IsConflictFree : List CompactTx → Type 0
IsConflictFree [] = Unit
IsConflictFree (tx ∷ txs) =
    ((j : Hash) → contains j tx.inputs ≡ true → spends j txs ≡ false) × IsConflictFree txs

-- Each cache holds the inputs of the group at its place; past the last group it is empty.
abbrev pub Caches : List (List Hash) → List (List CompactTx) → Type 0
Caches [] gs = Unit
Caches (s ∷ ss) [] = ((j : Hash) → contains j s ≡ false) × Caches ss []
Caches (s ∷ ss) (g ∷ gs) = ((j : Hash) → contains j s ≡ spends j g) × Caches ss gs

-- The state after `blocks` were made, newest first: the caches are those of the pending
-- transactions and of the blocks before them.
pub record Tracks (a : Atomizer) (blocks : List (List CompactTx)) : Type 0 where
  pub caches : Caches a.spent (a.complete_txs ∷ blocks)
  pub spent_count : length a.spent ≡ suc a.spent_cache_depth
  pub txs_count : length a.txs ≡ suc a.spent_cache_depth
  pub pending : IsConflictFree a.complete_txs
  pub past : All IsConflictFree blocks

pub Caches-take :
    (n : ℕ) (ss : List (List Hash)) (gs : List (List CompactTx))
    → Caches ss gs
    → Caches (take n ss) gs
Caches-take zero ss gs h = tt
Caches-take (suc n) [] gs h = tt
Caches-take (suc n) (s ∷ ss) [] h = (h.0, Caches-take n ss [] h.1)
Caches-take (suc n) (s ∷ ss) (g ∷ gs) h = (h.0, Caches-take n ss gs h.1)

module _ {ℓ} {A : Type ℓ} where
  take-set : (i : ℕ) (v : List A) (x : A) → take i (set v i x) ≡ take i v
  take-set zero v x = refl
  take-set (suc i) [] x = refl
  take-set (suc i) (y ∷ v) x = ap (◌∷◌ y) (take-set i v x)

  take_le : (i : ℕ) (v : List A) (x : A) → take i (set v (suc i) x) ≡ take i v
  take_le zero v x = refl
  take_le (suc i) [] x = refl
  take_le (suc i) (y ∷ v) x = ap (◌∷◌ y) (take_le i v x)

  drop-set : (i : ℕ) (v : List A) (x : A) → i < length v → drop i (set v i x) ≡ x ∷ drop (suc i) v
  drop-set i [] x h = absurd (omega arith)
  drop-set zero (y ∷ v) x h = refl
  drop-set (suc i) (y ∷ v) x h = drop-set i v x (omega arith)

  take_get :
      (i : ℕ) (v : List A) (d : A) (r : List A)
      → i < length v
      → take i v ++ get_or v i d ∷ r ≡ take (suc i) v ++ r
  take_get i [] d r h = absurd (omega arith)
  take_get zero (y ∷ v) d r h = refl
  take_get (suc i) (y ∷ v) d r h = ap (◌∷◌ y) (take_get i v d r (omega arith))

  length-set_lem : (v : List A) (i : ℕ) (x : A) → length (set v i x) ≡ length v
  length-set_lem [] i x = refl
  length-set_lem (y ∷ v) zero x = refl
  length-set_lem (y ∷ v) (suc i) x = ap suc (length-set_lem v i x)

  drop-length : (v : List A) → drop (length v) v ≡ []
  drop-length [] = refl
  drop-length (y ∷ v) = drop-length v

  append_nil : (v : List A) → v ++ [] ≡ v
  append_nil [] = refl
  append_nil (y ∷ v) = ap (◌∷◌ y) (append_nil v)

module _ {ℓ} {A : Type ℓ} where
  shift_lem :
      (i : ℕ) (x : List A) (v : List (List A))
      → i ≤ length v
      → shift i (x ∷ v) ≡ x ∷ (take i (x ∷ v) ++ drop i v)
  unfolding shift
  shift_lem zero x v h = refl
  shift_lem (suc i) x v h =
      shift_lem i x (set v i (get_or (x ∷ v) i []))
        (omega (arith, length-set_lem v i (get_or (x ∷ v) i [])))
      ∙ ap (◌∷◌ x) (
          ap₂ ◌++◌ (take_le i (x ∷ v) (get_or (x ∷ v) i [])) (drop-set i v (get_or (x ∷ v) i []) h)
          ∙ take_get i (x ∷ v) [] (drop (suc i) v) (omega arith))

  -- After the shift and the reset, the newest place is empty and the oldest entry is gone.
  pub shift_window :
      (n : ℕ) (v : List (List A)) → length v ≡ suc n → set (shift n v) 0 [] ≡ [] ∷ take n v
  shift_window n [] h = absurd (omega arith)
  shift_window n (x ∷ v) h =
      let k : n ≡ length v = omega arith in
      rw (shift_lem n x v (omega arith))
        (ap (◌∷◌ []) (rw k (rw (drop-length v) (append_nil (take (length v) (x ∷ v))))))

pub spends-snoc :
    (j : Hash) (txs : List CompactTx) (tx : CompactTx)
    → spends j (txs ++ tx ∷ []) ≡ (spends j txs || contains j tx.inputs)
unfolding spends
spends-snoc j [] tx = ground arith
spends-snoc j (x ∷ xs) tx = ground (arith, spends-snoc j xs tx)

pub IsConflictFree-snoc :
    (txs : List CompactTx) (tx : CompactTx)
    → IsConflictFree txs
    → ((j : Hash) → contains j tx.inputs ≡ true → spends j txs ≡ false)
    → IsConflictFree (txs ++ tx ∷ [])
unfolding spends
IsConflictFree-snoc [] tx c h = ((λ j e. refl), tt)
IsConflictFree-snoc (x ∷ xs) tx c h = (
  (λ j e. ground (arith, spends-snoc j xs tx, c.0 j, h j)),
  IsConflictFree-snoc xs tx c.1 (λ j e. ground (arith, h j)),
)
