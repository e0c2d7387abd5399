-- ===== src/RuntimeShard/Consistent/Loop.antt =====
-- The loops on `acquire_lock`: they end by its own answer, with the lock blocked.
use opencbdc_tx.RuntimeShard.Consistent.Acquire.{
  value_of-grant, head_queued, Granted, to_reader, to_writer, Granted-Consistent, is_blocked,
  Acquires, acquire_lock-Acquires, ticket_of-grant,
}
use opencbdc_tx.RuntimeShard.Consistent.{is_queued, Consistent}
use opencbdc_tx.RuntimeShard.{
  grant, LockQueueElement, Key, PendingCallback, Shard, lock_of, ticket_of, acquire_lock,
  acquire_loop, acquire_locks,
}
use opencbdc_tx.Common.{
  insert, ℕ, zero, suc, ◌<◌, ◌≡◌, refl, sym, ap, ◌∙◌, Bool, true, false, ◌||◌, List, [], ◌∷◌,
  Option, none, some, ◌==◌, contains, length, arith, Bool-cases, inl, inr,
}
use opencbdc_tx.RuntimeShard.Views.{value_of}

-- What the acquisition of locks on keys keeps: consistency, the states, and a ticket that waits for
-- no lock.
pub record Keeps (s t : Shard) : Type 0 where
  pub consistent : Consistent t
  pub states : (m : ℕ) → (ticket_of m t).state ≡ (ticket_of m s).state
  pub resting : (m : ℕ) → (ticket_of m s).queued_locks ≡ [] → ticket_of m t ≡ ticket_of m s
  pub values : (j : Key) → value_of j t ≡ value_of j s

pub Keeps-refl : {s : Shard} → Consistent s → Keeps s s
Keeps-refl c = record {
  consistent = c;
  states = λ m. refl;
  resting = λ m h. refl;
  values = λ j. refl;
}

pub Keeps-trans : {s t u : Shard} → Keeps s t → Keeps t u → Keeps s u
Keeps-trans {s} {t} {u} a b = record {
  consistent = b.consistent;
  states = λ m. b.states m ∙ a.states m;
  resting = λ m h. b.resting m (ap (λ x. x.queued_locks) (a.resting m h) ∙ h) ∙ a.resting m h;
  values = λ j. b.values j ∙ a.values j;
}

not_empty : (k : Key) (ks : List Key) → contains k ks ≡ true → ks ≡ [] → ⊥
unfolding contains
not_empty k [] h e = ground arith
not_empty k (j ∷ ks) h e = ground arith

-- A grant to a queued ticket.
grant-Keeps :
    (k : Key) (n : ℕ) (q : LockQueueElement) (w : Option ℕ) (rs : List ℕ) (s : Shard)
    → Consistent s
    → Consistent (grant k n q w rs s).0
    → is_queued n (lock_of k s).queue ≡ true
    → Keeps s (grant k n q w rs s).0
grant-Keeps k n q w rs s c d queued = record {
  consistent = d;
  states = λ m. elim (Bool-cases (n == m)) [
    | inl e ↦
        let same : n ≡ m = ground arith in
        rw (ticket_of-grant k n q w rs s m, e) (ap (λ l. (ticket_of l s).state) same)
    | inr e ↦ rw (ticket_of-grant k n q w rs s m, e) refl
  ];
  resting = λ m h. elim (Bool-cases (n == m)) [
    | inl e ↦
        let same : n ≡ m = ground arith in
        absurd (
          not_empty k (ticket_of n s).queued_locks (sym (c.queue n k) ∙ queued)
            (ap (λ l. (ticket_of l s).queued_locks) same ∙ h))
    | inr e ↦ rw (ticket_of-grant k n q w rs s m, e) refl
  ];
  values = λ j. value_of-grant j k n q w rs s;
}

Granted-Keeps : {k : Key} {s t : Shard} → Consistent s → Granted k s t → Keeps s t
Granted-Keeps {k} {s} c (to_reader n q rest e f g) =
    grant-Keeps k n q none (insert n (lock_of k s).readers) s c
      (Granted-Consistent (to_reader n q rest e f g) c) (head_queued k n q rest s c e f)
Granted-Keeps {k} {s} c (to_writer n q rest e f g h) =
    grant-Keeps k n q (some n) [] s c (Granted-Consistent (to_writer n q rest e f g h) c)
      (head_queued k n q rest s c e f)

-- The loop on one key: it ends with the lock blocked, and changes no other lock.
pub record Acquired (k : Key) (s t : Shard) : Type 0 where
  pub keeps : Keeps s t
  pub others : (j : Key) → (k == j) ≡ false → lock_of j t ≡ lock_of j s
  pub blocked : is_blocked (lock_of k t) ≡ true

-- On a consistent shard, with more fuel than there are tickets in the queue for the key, the loop
-- ends by its own test: it keeps the shard consistent with the states of all tickets and the values
-- of all keys, changes no lock but that on the key, and no queued ticket could be granted that.
pub acquire_loop-Acquired :
    (fuel : ℕ) (k : Key) (s : Shard)
    → Consistent s
    → length (lock_of k s).queue < fuel
    → Acquired k s (acquire_loop fuel k s).0
unfolding acquire_loop Acquires
acquire_loop-Acquired zero k s c h = absurd (ground arith)
acquire_loop-Acquired (suc fuel) k s c h =
    go (acquire_lock k s) refl (acquire_lock-Acquires k s)
      (λ t d l. acquire_loop-Acquired fuel k t d l)
  where
    go :
        (r : Option (Shard × PendingCallback × Bool))
        → acquire_lock k s ≡ r
        → Acquires k s r
        → ((t : Shard)
            → Consistent t
            → length (lock_of k t).queue < fuel
            → Acquired k t (acquire_loop fuel k t).0)
        → Acquired k s (acquire_loop (suc fuel) k s).0
    go none e a next =
        rw (acquire_loop, e) (record { keeps = Keeps-refl c; others = λ j d. refl; blocked = a })
    go (some (t, cb, false)) e (g, l, o, b) next =
        rw (acquire_loop, e) (record { keeps = Granted-Keeps c g; others = o; blocked = b refl })
    go (some (t, cb, true)) e (g, l, o, b) next =
        let kept = Granted-Keeps c g in
        let rest = next t kept.consistent (ground arith) in
        rw (acquire_loop, e)
          (record {
            keeps = Keeps-trans kept rest.keeps;
            others = λ j d. rest.others j d ∙ o j d;
            blocked = rest.blocked;
          })

-- Every lock but those on the listed keys is blocked.
unfoldable pub IsSettled : List Key → Shard → Type 0
IsSettled ks s = (j : Key) → (contains j ks || is_blocked (lock_of j s)) ≡ true

pub acquire_locks-Keeps :
    (ks : List Key) (s : Shard) → Consistent s → Keeps s (acquire_locks ks s).0
unfolding acquire_locks
acquire_locks-Keeps [] s c = Keeps-refl c
acquire_locks-Keeps (k ∷ ks) s c =
    let head = acquire_loop-Acquired (suc (length (lock_of k s).queue)) k s c (ground arith) in
    Keeps-trans head.keeps (
      acquire_locks-Keeps ks (acquire_loop (suc (length (lock_of k s).queue)) k s).0
        head.keeps.consistent)

pub acquire_locks-IsSettled :
    (ks : List Key) (s : Shard)
    → Consistent s
    → IsSettled ks s
    → IsSettled [] (acquire_locks ks s).0
unfolding acquire_locks IsSettled contains
acquire_locks-IsSettled [] s c h = h
acquire_locks-IsSettled (k ∷ ks) s c h =
    let t = (acquire_loop (suc (length (lock_of k s).queue)) k s).0 in
    let head : Acquired k s t =
      acquire_loop-Acquired (suc (length (lock_of k s).queue)) k s c (ground arith) in
    acquire_locks-IsSettled ks t head.keeps.consistent (λ j. settled t head j)
  where
    settled :
        (t : Shard)
        → Acquired k s t
        → (j : Key) → (contains j ks || is_blocked (lock_of j t)) ≡ true
    settled t a j = elim (Bool-cases (k == j)) [
      | inl e ↦
          let same : k ≡ j = ground arith in
          ground (arith, ap (λ i. is_blocked (lock_of i t)) same, a.blocked)
      | inr e ↦ ground (arith, h j, ap is_blocked (a.others j e))
    ]
