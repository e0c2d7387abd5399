-- ===== src/Sentinel/Broadcast.antt =====
-- To which shards the atomizer's sentinel sends a transaction.
use opencbdc_tx.Common.{
  ℕ, zero, suc, ◌+◌, ◌%◌, ◌<◌, ◌≡◌, refl, ap, ◌∙◌, Bool, true, false, List, [], ◌∷◌, some, ◌==◌,
  ==_refl, length, get_elem?, contains, insert, contains-insert, returned, arith, Bool-cases, inl,
  inr,
}
use opencbdc_tx.Crypto.{Hash, hash_in_shard_range}
use opencbdc_tx.Transaction.{CompactTx}
use opencbdc_tx.Sentinel.{ShardInfo, indices_from, send_inputs, send_shards, send_compact_tx}

-- With the first input in the range, every index is marked.
send_all :
    (range : ℕ × ℕ) (h : Hash) (hs : List Hash) (n k : ℕ) (marked : List ℕ)
    → hash_in_shard_range range h ≡ true
    → ((m : ℕ) → contains m marked ≡ true → m < k)
    → (x : List ℕ) × (send_inputs 0 range (h ∷ hs) (indices_from k n) marked true
        ≡ returned (x, true))
      × (length x ≡ length marked + n)
unfolding send_inputs indices_from insert
send_all range h hs zero k marked e below = (marked, refl, omega arith)
send_all range h hs (suc n) k marked e below = elim (Bool-cases (contains k marked)) [
  | inl c ↦ let less = below k c in absurd (omega arith)
  | inr c ↦
      let (x, run, l) = send_all range h hs n (k + 1) (insert k marked) e (λ m d.
        elim (Bool-cases (contains m marked)) [
          | inl f ↦ let less = below m f in omega arith
          | inr f ↦ let g = contains-insert m k marked in ground arith
        ]) in
      (x, rw (send_inputs, c, e) run, ground (arith, l))
]

module _ (connected : ℕ → Bool) (shards : List ShardInfo) (offset : ℕ) where
  nothing_left :
      (inputs : List Hash) (idxs x : List ℕ)
      → length x ≡ length inputs
      → send_shards connected shards offset inputs idxs x ≡ returned []
  unfolding send_shards
  nothing_left inputs [] x l = refl
  nothing_left inputs (i ∷ idxs) x l = rw (send_shards, l, ==_refl (length inputs)) refl

  inhabited :
      (xs : List ShardInfo) (i : ℕ) (x : ShardInfo)
      → get_elem? xs i ≡ some x
      → (n : ℕ) × (length xs ≡ suc n)
  inhabited [] i x e = absurd (ground arith)
  inhabited (y ∷ xs) i x e = (length xs, refl)

  first_shard :
      (n : ℕ) (h : Hash) (hs : List Hash) (shard : ShardInfo)
      → get_elem? shards (offset % length shards) ≡ some shard
      → connected shard.peer_id ≡ true
      → hash_in_shard_range shard.range h ≡ true
      → send_shards connected shards offset (h ∷ hs) (indices_from 0 (suc n)) []
        ≡ returned (shard.peer_id ∷ [])
  unfolding send_shards send_inputs indices_from insert contains
  first_shard n h hs shard at up here =
      let unmarked : (0 == suc (length hs)) ≡ false = ground arith in
      let start : 0 + offset ≡ offset = omega arith in
      let (x, run, l) =
        send_all shard.range h hs (length hs) (0 + 1) (0 ∷ []) here (λ m d. ground arith) in
      let sends : send_inputs 0 shard.range (h ∷ hs) (indices_from 0 (suc (length hs))) [] false
          ≡ returned (x, true) =
        rw (send_inputs, here) run in
      rw
        (
          send_shards,
          unmarked,
          start,
          at,
          up,
          sends,
          nothing_left (h ∷ hs) (indices_from (0 + 1) n) x (l ∙ omega arith),
        )
        refl

  -- Let the shard at which the loop begins be connected and have the first input of a transaction in
  -- its range. Then the transaction is sent to that shard and to no other, in whose ranges ever its
  -- further inputs lie.
  pub send_compact_tx_first :
      (ctx : CompactTx) (h : Hash) (hs : List Hash) (shard : ShardInfo)
      → ctx.inputs ≡ h ∷ hs
      → get_elem? shards (offset % length shards) ≡ some shard
      → connected shard.peer_id ≡ true
      → hash_in_shard_range shard.range h ≡ true
      → send_compact_tx connected shards offset ctx ≡ returned (shard.peer_id ∷ [])
  unfolding send_compact_tx
  send_compact_tx_first ctx h hs shard e at up here =
      let (n, l) = inhabited shards (offset % length shards) shard at in
      rw (send_compact_tx, e, ap (indices_from 0) l) (first_shard n h hs shard at up here)
