-- ===== src/CacheSet/Window.antt =====
-- What the set remembers: the latest distinct values, always fewer than `max_size` of them.
use opencbdc_tx.Common.{
  AreDistinct, ℕ, ◌≤◌, ◌<◌, ◌≡◌, refl, false, ◌||◌, List, [], ◌∷◌, ◌++◌, leb, if◌then◌else◌, length,
  length-append, contains, insert, erase, contains-insert, contains-erase, arith, Bool-cases, inl,
  inr,
}
use opencbdc_tx.CacheSet.{CacheSet, empty, evict, push, add}

-- The queue holds the values of the set, each once, and fewer than `max_size` of them.
pub record IsWindow (s : CacheSet) : Type 0 where
  pub same : (k : ℕ) → contains k s.vals ≡ contains k s.queue
  pub distinct : AreDistinct s.queue
  pub bounded : length s.queue < s.max_size

contains-append :
    (k : ℕ) (xs ys : List ℕ) → contains k (xs ++ ys) ≡ (contains k xs || contains k ys)
unfolding contains
contains-append k [] ys = refl
contains-append k (x ∷ xs) ys = ground (arith, contains-append k xs ys)

distinct_snoc :
    (x : ℕ) (xs : List ℕ) → contains x xs ≡ false → AreDistinct xs → AreDistinct (xs ++ x ∷ [])
unfolding contains
distinct_snoc x [] n d = (refl, tt)
distinct_snoc x (y ∷ ys) n d =
    (ground (arith, contains-append y ys (x ∷ [])), distinct_snoc x ys (ground arith) d.1)

pub empty-IsWindow : (max_size : ℕ) → 0 < max_size → IsWindow (empty max_size)
unfolding empty
empty-IsWindow max_size h = record { same = λ k. refl; distinct = tt; bounded = h }

leb-false : (a b : ℕ) → b < a → leb a b ≡ false
leb-false a b h = ground arith

evict_same :
    (s : CacheSet) (front : ℕ) (rest : List ℕ)
    → ((k : ℕ) → contains k s.vals ≡ contains k (front ∷ rest))
    → contains front rest ≡ false
    → (k : ℕ) → contains k (erase front s.vals) ≡ contains k rest
unfolding contains
evict_same s front rest same fresh k = ground (arith, contains-erase k front s.vals, same k)

-- The queue after a value is pushed: as it stands, or with its front evicted.
pushed_IsWindow :
    (s : CacheSet) (q : List ℕ)
    → ((k : ℕ) → contains k s.vals ≡ contains k q)
    → AreDistinct q
    → length q ≤ s.max_size
    → 0 < s.max_size
    → IsWindow (if leb s.max_size (length q) then evict s q else record s { queue = q })
unfolding evict
pushed_IsWindow s [] same d le pos =
    rw (leb-false s.max_size 0 pos) (record { same = same; distinct = d; bounded = pos })
pushed_IsWindow s (front ∷ rest) same d le pos =
    elim (Bool-cases (leb s.max_size (length (front ∷ rest)))) [
      | inl e ↦ rw e (record {
        same = evict_same s front rest same d.0;
        distinct = d.1;
        bounded = omega arith;
      })
      | inr e ↦ rw e (record { same = same; distinct = d; bounded = ground arith })
    ]

push_same :
    (s : CacheSet) (val : ℕ)
    → IsWindow s
    → (k : ℕ) → contains k (insert val s.vals) ≡ contains k (s.queue ++ val ∷ [])
unfolding contains
push_same s val w k =
    ground (arith, contains-insert k val s.vals, contains-append k s.queue (val ∷ []), w.same k)

-- Adding a value keeps the window: what the set answers is what the queue holds, no value is
-- queued twice, and the set holds fewer than `max_size` values.
pub add-IsWindow : (s : CacheSet) (val : ℕ) → IsWindow s → IsWindow (add s val).0
unfolding add push
add-IsWindow s val w = elim (Bool-cases (contains val s.vals)) [
  | inl e ↦ rw e w
  | inr e ↦ rw e (
      pushed_IsWindow (record s { vals = insert val s.vals; queue = s.queue ++ val ∷ [] })
        (s.queue ++ val ∷ []) (push_same s val w)
        (distinct_snoc val s.queue (ground (arith, w.same val)) w.distinct)
        (omega (arith, length-append s.queue (val ∷ []), w.bounded)) (omega (arith, w.bounded)))
]

-- `add` over a list of values, first to last.
unfoldable pub add_all : CacheSet → List ℕ → CacheSet
add_all s [] = s
add_all s (v ∷ vs) = add_all (add s v).0 vs

pub add_all-IsWindow : (s : CacheSet) (vs : List ℕ) → IsWindow s → IsWindow (add_all s vs)
unfolding add_all
add_all-IsWindow s [] w = w
add_all-IsWindow s (v ∷ vs) w = add_all-IsWindow (add s v).0 vs (add-IsWindow s v w)
