-- ===== src/DistributedTx/Prepare.antt =====
-- The answers of the shards and the flags that are made of them.
use opencbdc_tx.Common.{
  ==_refl, ℕ, zero, suc, ◌<◌, ◌≡◌, refl, Bool, true, false, not, ◌&&◌, ◌||◌, List, [], ◌∷◌, Option,
  none, some, ◌==◌, length, get_elem?, get_or, set, length-set, All, returned, arith, if◌then◌else◌,
  ◌∙◌,
}
use opencbdc_tx.DistributedTx.{mark, collect, select}
use opencbdc_tx.LockingShard.Atomic.{Within}

-- Some answer of a shard, or of one of the shards, refuses the transaction at the index.
unfoldable pub refused_in : ℕ → List Bool → List ℕ → Bool
refused_in k (r ∷ rs) (i ∷ idxs) = (not r && i == k) || refused_in k rs idxs
refused_in k rs idxs = false

unfoldable pub refused : ℕ → List (Option (List Bool) × List ℕ) → Bool
refused k [] = false
refused k ((none, idxs) ∷ answers) = refused k answers
refused k ((some rs, idxs) ∷ answers) = refused_in k rs idxs || refused k answers

abbrev pub Below : ℕ → List ℕ → Type 0
Below n = All (λ i. i < n)

-- Every shard answered, with a flag for each of its transactions.
abbrev pub Answered : ℕ → List (Option (List Bool) × List ℕ) → Type 0
Answered n [] = Unit
Answered n ((none, idxs) ∷ answers) = ⊥
Answered n ((some rs, idxs) ∷ answers) =
    (length rs ≡ length idxs) × Below n idxs × Answered n answers

get_or-set :
    (ret : List Bool) (i k : ℕ) (d v : Bool)
    → i < length ret
    → get_or (set ret i v) k d ≡ (if i == k then v else get_or ret k d)
get_or-set [] i k d v h = absurd (omega arith)
get_or-set (b ∷ ret) zero zero d v h = ground arith
get_or-set (b ∷ ret) zero (suc k) d v h = ground arith
get_or-set (b ∷ ret) (suc i) zero d v h = ground arith
get_or-set (b ∷ ret) (suc i) (suc k) d v h = ground (arith, get_or-set ret i k d v (omega arith))

pub get_elem?_in :
    (ret : List Bool) (i : ℕ) (d : Bool) → i < length ret → get_elem? ret i ≡ some (get_or ret i d)
get_elem?_in [] i d h = absurd (omega arith)
get_elem?_in (b ∷ ret) zero d h = refl
get_elem?_in (b ∷ ret) (suc i) d h = get_elem?_in ret i d (omega arith)

pub mark_lem :
    (n : ℕ) (rs : List Bool) (idxs : List ℕ) (ret : List Bool)
    → length rs ≡ length idxs
    → Below n idxs
    → length ret ≡ n
    → (ret' : List Bool) × (mark rs idxs ret ≡ returned ret')
      × (length ret' ≡ n)
      × ((k : ℕ) → get_or ret' k true ≡ (get_or ret k true && not (refused_in k rs idxs)))
unfolding mark refused_in
mark_lem n [] [] ret e b l = (ret, refl, l, λ k. ground arith)
mark_lem n [] (i ∷ idxs) ret e b l = absurd (omega arith)
mark_lem n (r ∷ rs) [] ret e b l = absurd (omega arith)
mark_lem n (true ∷ rs) (i ∷ idxs) ret e b l =
    let (ret', m, l', s) = mark_lem n rs idxs ret (omega arith) b.1 l in
    (ret', m, l', λ k. ground (arith, s k))
mark_lem n (false ∷ rs) (i ∷ idxs) ret e b l =
    let below : i < length ret = omega (arith, b.0) in
    let (ret', m, l', s) =
      mark_lem n rs idxs (set ret i false) (omega arith) b.1 (length-set ret i false ∙ l) in
    (
      ret',
      rw (mark, get_elem?_in ret i true below) m,
      l',
      λ k. ground (arith, s k, get_or-set ret i k true false below),
    )

-- The answers of the shards, each with a flag for each of its transactions, are read without
-- failure: a transaction's flag stays set unless some shard that has the transaction refused it.
pub collect-refused :
    (answers : List (Option (List Bool) × List ℕ)) (ret : List Bool)
    → Answered (length ret) answers
    → (flags : List Bool) × (collect answers ret ≡ returned (some flags))
      × (length flags ≡ length ret)
      × ((k : ℕ) → get_or flags k true ≡ (get_or ret k true && not (refused k answers)))
unfolding collect refused
collect-refused [] ret a = (ret, refl, refl, λ k. ground arith)
collect-refused ((none, idxs) ∷ answers) ret a = absurd a
collect-refused ((some rs, idxs) ∷ answers) ret (same, below, a) =
    let (ret', m, l', s) = mark_lem (length ret) rs idxs ret same below refl in
    let (flags, c, l, t) = collect-refused answers ret' (rw l' a) in
    (flags, rw (collect, same, ==_refl (length idxs), m) c, l ∙ l', λ k. ground (arith, s k, t k))

-- The flags that a shard is sent complete only what it had locked.
pub select-Within :
    (n : ℕ) (flags : List Bool) (rs : List Bool) (idxs : List ℕ)
    → length flags ≡ n
    → length rs ≡ length idxs
    → Below n idxs
    → ((k : ℕ) → k < n → get_or flags k true ≡ true → refused_in k rs idxs ≡ false)
    → (fs : List Bool) × (select flags idxs ≡ returned fs) × Within fs rs
unfolding select refused_in
select-Within n flags [] [] l e b h = ([], refl, tt)
select-Within n flags [] (i ∷ idxs) l e b h = absurd (omega arith)
select-Within n flags (r ∷ rs) [] l e b h = absurd (omega arith)
select-Within n flags (r ∷ rs) (i ∷ idxs) l e b h =
    let (fs, s, w) =
      select-Within n flags rs idxs l (omega arith) b.1 (λ k q p. ground (arith, h k q)) in
    (
      get_or flags i true ∷ fs,
      rw (select, get_elem?_in flags i true (omega (arith, b.0)), s) refl,
      ((λ p. ground (arith, h i b.0, ==_refl i)), w),
    )
