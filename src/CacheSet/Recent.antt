-- ===== src/CacheSet/Recent.antt =====
-- Which values a cache set remembers, by one list and no set.
use opencbdc_tx.Common.{
  AreDistinct, ℕ, ◌-◌, ◌≤◌, ◌<◌, ◌≡◌, refl, sym, ap, ◌∙◌, List, [], ◌∷◌, ◌++◌, drop, leb,
  if◌then◌else◌, length, length-append, contains, insert, arith, Bool-cases, inl, inr,
}
use opencbdc_tx.CacheSet.{CacheSet, evict, push, add, has}
use opencbdc_tx.CacheSet.Window.{IsWindow, add_all, add-IsWindow, add_all-IsWindow}

-- The last values of a list, `n` of them if it has as many.
abbrev pub last : ℕ → List ℕ → List ℕ
last n xs = drop (length xs - n) xs

-- The values that are remembered after a list of values, oldest first: one that is remembered stays in
-- its place, and after another the last `n` are.
abbrev pub remembered : ℕ → List ℕ → List ℕ → List ℕ
remembered n xs [] = xs
remembered n xs (v ∷ vs) = remembered n (if contains v xs then xs else last n (xs ++ v ∷ [])) vs

-- The queue after a value that is new.
queue-push :
    (s : CacheSet) (v : ℕ) (q : List ℕ)
    → q ≡ s.queue ++ v ∷ []
    → length q ≤ s.max_size
    → 0 < s.max_size
    → ((if leb s.max_size (length q)
          then evict (record s { vals = insert v s.vals; queue = q }) q
          else record s { vals = insert v s.vals; queue = q }).queue
        ≡ last (s.max_size - 1) q)
unfolding evict
queue-push s v [] e le pos = ground arith
queue-push s v (x ∷ q) e le pos = elim (Bool-cases (leb s.max_size (length (x ∷ q)))) [
  | inl f ↦ let one : length (x ∷ q) - (s.max_size - 1) ≡ 1 = ground arith in rw (f, one) refl
  | inr f ↦
      let none_off : length (x ∷ q) - (s.max_size - 1) ≡ 0 = ground arith in rw (f, none_off) refl
]

queue-add :
    (s : CacheSet) (v : ℕ)
    → IsWindow s
    → (add s v).0.queue
      ≡ (if contains v s.queue then s.queue else last (s.max_size - 1) (s.queue ++ v ∷ []))
unfolding add push
queue-add s v w = elim (Bool-cases (contains v s.vals)) [
  | inl e ↦ rw (e, sym (w.same v) ∙ e) refl
  | inr e ↦
      rw (e, sym (w.same v) ∙ e)
        (queue-push s v (s.queue ++ v ∷ []) refl
          (omega (arith, length-append s.queue (v ∷ []), w.bounded)) (omega (arith, w.bounded)))
]

max_size-push :
    (s : CacheSet) (v : ℕ) (q : List ℕ)
    → ((if leb s.max_size (length q)
          then evict (record s { vals = insert v s.vals; queue = q }) q
          else record s { vals = insert v s.vals; queue = q }).max_size
        ≡ s.max_size)
unfolding evict
max_size-push s v [] = ground arith
max_size-push s v (x ∷ q) = elim (Bool-cases (leb s.max_size (length (x ∷ q)))) [
  | inl f ↦ rw f refl
  | inr f ↦ rw f refl
]

max_size-add : (s : CacheSet) (v : ℕ) → (add s v).0.max_size ≡ s.max_size
unfolding add push
max_size-add s v = elim (Bool-cases (contains v s.vals)) [
  | inl e ↦ rw e refl
  | inr e ↦ rw e (max_size-push s v (s.queue ++ v ∷ []))
]

queue-add_all :
    (s : CacheSet) (vs : List ℕ)
    → IsWindow s
    → ((add_all s vs).queue ≡ remembered (s.max_size - 1) s.queue vs)
      × ((add_all s vs).max_size ≡ s.max_size)
unfolding add_all
queue-add_all s [] w = (refl, refl)
queue-add_all s (v ∷ vs) w =
    let (q, m) = queue-add_all (add s v).0 vs (add-IsWindow s v w) in
    (
      q
          ∙ ap (λ n. remembered (n - 1) (add s v).0.queue vs) (max_size-add s v)
          ∙ ap (λ xs. remembered (s.max_size - 1) xs vs) (queue-add s v w),
      m ∙ max_size-add s v,
    )

-- Take a cache whose queue holds the values of its set, each once and fewer than `max_size` of them.
-- After any values are added, one after the other, it has exactly the remembered ones: a value that
-- it has keeps its place, and after a new one the last `max_size - 1` are left. They are fewer than
-- `max_size`, and each is queued once.
pub add_all-Remembers :
    (s : CacheSet) (vs : List ℕ)
    → IsWindow s
    → ((k : ℕ) → has (add_all s vs) k ≡ contains k (remembered (s.max_size - 1) s.queue vs))
      × (length (remembered (s.max_size - 1) s.queue vs) < s.max_size)
      × AreDistinct (remembered (s.max_size - 1) s.queue vs)
unfolding has
add_all-Remembers s vs w =
    let (q, m) = queue-add_all s vs w in
    let after = add_all-IsWindow s vs w in
    (
      λ k. after.same k ∙ ap (contains k) q,
      omega (arith, after.bounded, m, ap length q),
      rw q at after.distinct,
    )
