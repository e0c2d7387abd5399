-- ===== src/CacheSet.antt =====
-- src/util/common/cache_set.hpp: a set that forgets its oldest values. `queue` is the eviction
-- queue, front first.
pub mod Window
pub mod Recent
use opencbdc_tx.Common.{
  ℕ, ◌+◌, Bool, true, false, List, [], ◌∷◌, ◌++◌, leb, if◌then◌else◌, length, contains, insert,
  erase,
}

pub record CacheSet : Type 0 where
  pub vals : List ℕ
  pub queue : List ℕ
  pub max_size : ℕ

unfoldable pub empty : ℕ → CacheSet
empty max_size = record { vals = []; queue = []; max_size = max_size }

-- `m_vals.erase(front); pop()`.
unfoldable pub evict : CacheSet → List ℕ → CacheSet
evict s [] = s
evict s (front ∷ rest) = record s { vals = erase front s.vals; queue = rest }

unfoldable pub push : CacheSet → ℕ → CacheSet
unfolding evict
push s val =
    let pushed : CacheSet = record s { vals = insert val s.vals; queue = s.queue ++ val ∷ [] } in
    if leb s.max_size (length pushed.queue) then evict pushed pushed.queue else pushed

-- The set after the call, and whether the value is new.
unfoldable pub add : CacheSet → ℕ → CacheSet × Bool
unfolding push
add s val = if contains val s.vals then (s, false) else (push s val, true)

unfoldable pub has : CacheSet → ℕ → Bool
has s val = contains val s.vals
