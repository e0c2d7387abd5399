-- ===== src/Common/Sets.antt =====
-- `std::unordered_set` of hashes: a list without repetition, read through `contains`.
use Prim.Native.Nat.{ℕ}
use mathlib.Core.Path.{◌≡◌, refl}
use mathlib.Core.Bool.{Bool, false, ◌||◌}
use mathlib.Core.Logic.{inl, inr}
use mathlib.Core.List.{List, [], ◌∷◌}
use native.Mathlib.Omega.{arith}
use opencbdc_tx.Common.Tests.{Bool-cases, ◌==◌, if◌then◌else◌}

unfoldable pub contains : ℕ → List ℕ → Bool
contains k [] = false
contains k (x ∷ xs) = x == k || contains k xs

unfoldable pub insert : ℕ → List ℕ → List ℕ
insert k s = if contains k s then s else k ∷ s

unfoldable pub erase : ℕ → List ℕ → List ℕ
erase k [] = []
erase k (x ∷ xs) = let rest = erase k xs in if x == k then rest else x ∷ rest

-- Range insertion, and the removal of a range.
unfoldable pub insert_all : List ℕ → List ℕ → List ℕ
insert_all [] s = s
insert_all (k ∷ ks) s = insert_all ks (insert k s)

unfoldable pub erase_all : List ℕ → List ℕ → List ℕ
erase_all [] s = s
erase_all (k ∷ ks) s = erase_all ks (erase k s)

pub contains-insert : (j k : ℕ) (s : List ℕ) → contains j (insert k s) ≡ (k == j || contains j s)
unfolding contains insert
contains-insert j k s = ground arith

pub contains-erase :
    (j k : ℕ) (s : List ℕ) → contains j (erase k s) ≡ (if k == j then false else contains j s)
unfolding contains erase
contains-erase j k [] = ground arith
contains-erase j k (x ∷ xs) = ground (arith, contains-erase j k xs)

pub contains-insert_all :
    (j : ℕ) (ks s : List ℕ) → contains j (insert_all ks s) ≡ (contains j ks || contains j s)
unfolding contains insert_all
contains-insert_all j [] s = refl
contains-insert_all j (k ∷ ks) s =
    ground (arith, contains-insert_all j ks (insert k s), contains-insert j k s)

pub contains-erase_all :
    (j : ℕ) (ks s : List ℕ)
    → contains j (erase_all ks s) ≡ (if contains j ks then false else contains j s)
unfolding contains erase_all
contains-erase_all j [] s = refl
contains-erase_all j (k ∷ ks) s =
    ground (arith, contains-erase_all j ks (erase k s), contains-erase j k s)

-- Each value once.
abbrev pub AreDistinct : List ℕ → Type 0
AreDistinct [] = Unit
AreDistinct (x ∷ xs) = (contains x xs ≡ false) × AreDistinct xs

pub insert-AreDistinct : (k : ℕ) (s : List ℕ) → AreDistinct s → AreDistinct (insert k s)
unfolding insert
insert-AreDistinct k s d = elim (Bool-cases (contains k s)) [
  | inl e ↦ rw (insert, e) d
  | inr e ↦ rw (insert, e) (e, d)
]

pub erase-AreDistinct : (k : ℕ) (s : List ℕ) → AreDistinct s → AreDistinct (erase k s)
unfolding erase
erase-AreDistinct k [] d = tt
erase-AreDistinct k (x ∷ xs) d = elim (Bool-cases (x == k)) [
  | inl e ↦ rw (erase, e) (erase-AreDistinct k xs d.1)
  | inr e ↦ rw (erase, e) (ground (arith, contains-erase x k xs), erase-AreDistinct k xs d.1)
]
