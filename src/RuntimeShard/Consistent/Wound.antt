-- ===== src/RuntimeShard/Consistent/Wound.antt =====
-- `wound_tickets` returns on a consistent shard; it wounds the blocking tickets that are not prepared.
use opencbdc_tx.Common.{
  ==_refl, ℕ, ◌≡◌, refl, sym, ap, ◌∙◌, true, false, List, [], ◌∷◌, ◌++◌, some, ◌==◌, contains,
  insert, insert_all, contains-insert, contains-insert_all, arith, Bool-cases, inl, inr, Outcome,
  returned,
}
use opencbdc_tx.RuntimeShard.{
  Key, wounded, prepared, Ticket, PendingCallback, Shard, lock_of, ticket_of, set_ticket,
  is_prepared, release_locks, wound_each, wound_tickets, acquire_locks,
}
use opencbdc_tx.RuntimeShard.Views.{
  value_of, value_of-set_ticket, lock_of-set_ticket, ticket_of-set_ticket,
}
use opencbdc_tx.RuntimeShard.Consistent.{Consistent}
use opencbdc_tx.RuntimeShard.Consistent.Acquire.{is_blocked}
use opencbdc_tx.RuntimeShard.Consistent.Loop.{
  IsSettled, acquire_locks-Keeps, acquire_locks-IsSettled,
}
use opencbdc_tx.RuntimeShard.Consistent.Tickets.{prepared-queued_locks}
use opencbdc_tx.RuntimeShard.Consistent.Free.{Resembles, Releases, release_locks-Releases}

pub Resembles-set_ticket :
    (n : ℕ) (t : Ticket) (s : Shard)
    → t.queued_locks ≡ (ticket_of n s).queued_locks
    → t.locks_held ≡ (ticket_of n s).locks_held
    → Resembles n s (set_ticket n t s)
Resembles-set_ticket n t s q h = record {
  same_lock = λ k. lock_of-set_ticket k n t s;
  same_queued = λ m. elim (Bool-cases (n == m)) [
    | inl e ↦
        let same : n ≡ m = ground arith in
        rw (ticket_of-set_ticket m n t s, e) (q ∙ ap (λ l. (ticket_of l s).queued_locks) same)
    | inr e ↦ rw (ticket_of-set_ticket m n t s, e) refl
  ];
  same_held = λ m. elim (Bool-cases (n == m)) [
    | inl e ↦
        let same : n ≡ m = ground arith in
        rw (ticket_of-set_ticket m n t s, e) (h ∙ ap (λ l. (ticket_of l s).locks_held) same)
    | inr e ↦ rw (ticket_of-set_ticket m n t s, e) refl
  ];
  same_state = λ m d. rw (ticket_of-set_ticket m n t s, d) refl;
}

abbrev wounded_ticket : Key → ℕ → Ticket → Ticket
wounded_ticket k blocked t = record t {
  state = wounded;
  wounded_details = some (record { wounding_ticket = blocked; wounding_key = k });
}

-- What the loop over the blocking tickets does. A lock that is not on a returned key did not change.
record Wounds (ns : List ℕ) (keys : List Key) (s : Shard)
    (o : Outcome (Shard × List PendingCallback × List Key)) : Type 0 where
  shard : Shard
  callbacks : List PendingCallback
  all_keys : List Key
  returns : o ≡ returned (shard, callbacks, all_keys)
  consistent : Consistent shard
  grows : (j : Key) → contains j keys ≡ true → contains j all_keys ≡ true
  others : (j : Key) → contains j all_keys ≡ false → lock_of j shard ≡ lock_of j s
  spares : (m : ℕ) → contains m ns ≡ false → ticket_of m shard ≡ ticket_of m s
  prepares : (m : ℕ) → is_prepared (ticket_of m s).state ≡ true → ticket_of m shard ≡ ticket_of m s
  values : (j : Key) → value_of j shard ≡ value_of j s
  wounds :
      (m : ℕ)
      → contains m ns ≡ true
      → is_prepared (ticket_of m s).state ≡ false
      → (ticket_of m shard).state ≡ wounded

-- One wound.
record Wounded (k : Key) (b n : ℕ) (s : Shard) : Type 0 where
  shard : Shard
  callbacks : List PendingCallback
  keys : List Key
  returns :
      release_locks n (set_ticket n (wounded_ticket k b (ticket_of n s)) s)
      ≡ returned (shard, callbacks, keys)
  consistent : Consistent shard
  others : (j : Key) → contains j keys ≡ false → lock_of j shard ≡ lock_of j s
  spares : (m : ℕ) → (n == m) ≡ false → ticket_of m shard ≡ ticket_of m s
  wounds : (ticket_of n shard).state ≡ wounded
  values : (j : Key) → value_of j shard ≡ value_of j s

wound_one : (k : Key) (b n : ℕ) (s : Shard) → Consistent s → Wounded k b n s
wound_one k b n s c =
    let t = wounded_ticket k b (ticket_of n s) in
    go (release_locks-Releases n s (set_ticket n t s) c (Resembles-set_ticket n t s refl refl))
  where
    go :
        (r : Releases n
          (set_ticket n (wounded_ticket k b (ticket_of n s)) s)
          (release_locks n (set_ticket n (wounded_ticket k b (ticket_of n s)) s)))
        → Wounded k b n s
    go r = record {
      shard = r.shard;
      callbacks = r.callbacks;
      keys = r.keys;
      returns = r.returns;
      consistent = r.consistent;
      others = λ j h. r.others j h ∙ lock_of-set_ticket j n (wounded_ticket k b (ticket_of n s)) s;
      spares = λ m h.
          rw (r.tickets m, h, ticket_of-set_ticket m n (wounded_ticket k b (ticket_of n s)) s, h)
            refl;
      wounds =
          rw
            (
              r.tickets n,
              ==_refl n,
              ticket_of-set_ticket n n (wounded_ticket k b (ticket_of n s)) s,
              ==_refl n,
            )
            refl;
      values = λ j. r.values j ∙ value_of-set_ticket j n (wounded_ticket k b (ticket_of n s)) s;
    }

module _ (k : Key) (b n : ℕ) (ns : List ℕ) (keys : List Key) (s : Shard) where
  wound_next :
      is_prepared (ticket_of n s).state ≡ false
      → (w : Wounded k b n s)
      → Wounds ns
          (insert_all w.keys keys)
          w.shard
          (wound_each k b ns (insert_all w.keys keys) w.shard)
      → Wounds (n ∷ ns) keys s (wound_each k b (n ∷ ns) keys s)
  unfolding wound_each contains is_prepared
  wound_next e w rest = record {
    shard = rest.shard;
    callbacks = w.callbacks ++ rest.callbacks;
    all_keys = rest.all_keys;
    returns = rw (wound_each, e, w.returns, rest.returns) refl;
    consistent = rest.consistent;
    grows = λ j h. rest.grows j (ground (arith, contains-insert_all j w.keys keys));
    others = λ j h.
        rest.others j h
        ∙ w.others j (ground (arith, contains-insert_all j w.keys keys, rest.grows j));
    spares = λ m h. rest.spares m (ground arith) ∙ w.spares m (ground arith);
    prepares = λ m h. elim (Bool-cases (n == m)) [
      | inl f ↦
          let same : n ≡ m = ground arith in
          absurd (ground (arith, ap (λ l. is_prepared (ticket_of l s).state) same, e, h))
      | inr f ↦
          let kept = w.spares m f in rest.prepares m (ap (λ t. is_prepared t.state) kept ∙ h) ∙ kept
    ];
    values = λ j. rest.values j ∙ w.values j;
    wounds = λ m h d. elim (Bool-cases (contains m ns)) [
      | inl f ↦ rest.wounds m f (elim (Bool-cases (n == m)) [
        | inl g ↦
            let same : n ≡ m = ground arith in
            ap (λ l. is_prepared (ticket_of l w.shard).state) (sym same) ∙ ap is_prepared w.wounds
        | inr g ↦ ap (λ t. is_prepared t.state) (w.spares m g) ∙ d
      ])
      | inr f ↦
          let same : n ≡ m = ground arith in
          ap (λ t. t.state) (rest.spares m f)
          ∙ ap (λ l. (ticket_of l w.shard).state) (sym same)
          ∙ w.wounds
    ];
  }

  wound_skip :
      is_prepared (ticket_of n s).state ≡ true
      → Wounds ns keys s (wound_each k b ns keys s)
      → Wounds (n ∷ ns) keys s (wound_each k b (n ∷ ns) keys s)
  unfolding wound_each contains
  wound_skip e rest = record {
    shard = rest.shard;
    callbacks = rest.callbacks;
    all_keys = rest.all_keys;
    returns = rw (wound_each, e) rest.returns;
    consistent = rest.consistent;
    grows = rest.grows;
    others = rest.others;
    spares = λ m h. rest.spares m (ground arith);
    prepares = rest.prepares;
    values = rest.values;
    wounds = λ m h d.
        rest.wounds m
          (elim (Bool-cases (n == m)) [
            | inl g ↦
                let same : n ≡ m = ground arith in
                absurd (ground (arith, ap (λ l. is_prepared (ticket_of l s).state) same, e, d))
            | inr g ↦ ground arith
          ])
          d;
  }

wound_each-Wounds :
    (k : Key) (blocked : ℕ) (ns : List ℕ) (keys : List Key) (s : Shard)
    → Consistent s
    → Wounds ns keys s (wound_each k blocked ns keys s)
unfolding wound_each contains
wound_each-Wounds k b [] keys s c = record {
  shard = s;
  callbacks = [];
  all_keys = keys;
  returns = refl;
  consistent = c;
  grows = λ j h. h;
  others = λ j h. refl;
  spares = λ m h. refl;
  prepares = λ m h. refl;
  wounds = λ m h. absurd (ground arith);
  values = λ j. refl;
}
wound_each-Wounds k b (n ∷ ns) keys s c =
    elim (Bool-cases (is_prepared (ticket_of n s).state))
      as (λ x. Wounds (n ∷ ns) keys s (wound_each k b (n ∷ ns) keys s)) [
        | inl e ↦ wound_skip k b n ns keys s e (wound_each-Wounds k b ns keys s c)
        | inr e ↦
            let w = wound_one k b n s c in
            wound_next k b n ns keys s e w
              (wound_each-Wounds k b ns (insert_all w.keys keys) w.shard w.consistent)
      ]

-- What `wound_tickets` does, on a shard where only the lock on `k` may not be blocked.
pub record WoundsAll (ns : List ℕ) (s : Shard) (o : Outcome (Shard × List PendingCallback))
    : Type 0 where
  pub shard : Shard
  pub callbacks : List PendingCallback
  pub returns : o ≡ returned (shard, callbacks)
  pub consistent : Consistent shard
  pub settled : IsSettled [] shard
  pub spares : (m : ℕ) → contains m ns ≡ false → (ticket_of m shard).state ≡ (ticket_of m s).state
  pub prepares : (m : ℕ) → (ticket_of m s).state ≡ prepared → ticket_of m shard ≡ ticket_of m s
  pub values : (j : Key) → value_of j shard ≡ value_of j s
  pub wounds :
      (m : ℕ)
      → contains m ns ≡ true
      → is_prepared (ticket_of m s).state ≡ false
      → (ticket_of m shard).state ≡ wounded

IsSettled-after :
    (k : Key) (ns : List ℕ) (s : Shard) (o : Outcome (Shard × List PendingCallback × List Key))
    → IsSettled (k ∷ []) s
    → (w : Wounds ns [] s o) → IsSettled (insert k w.all_keys) w.shard
unfolding IsSettled contains
IsSettled-after k ns s o h w j = elim (Bool-cases (contains j (insert k w.all_keys))) [
  | inl e ↦ rw e refl
  | inr e ↦ rw e (
      ground (
        arith,
        contains-insert j k w.all_keys,
        ap is_blocked (w.others j (ground (arith, contains-insert j k w.all_keys))),
        h j,
      ))
]

pub wound_tickets-WoundsAll :
    (k : Key) (ns : List ℕ) (blocked : ℕ) (s : Shard)
    → Consistent s
    → IsSettled (k ∷ []) s
    → WoundsAll ns s (wound_tickets k ns blocked s)
unfolding wound_tickets is_prepared
wound_tickets-WoundsAll k ns b s c h = go (wound_each-Wounds k b ns [] s c)
  where
    go : Wounds ns [] s (wound_each k b ns [] s) → WoundsAll ns s (wound_tickets k ns b s)
    go w =
        let keeps = acquire_locks-Keeps (insert k w.all_keys) w.shard w.consistent in
        record {
          shard = (acquire_locks (insert k w.all_keys) w.shard).0;
          callbacks = w.callbacks ++ (acquire_locks (insert k w.all_keys) w.shard).1;
          returns = rw (wound_tickets, w.returns) refl;
          consistent = keeps.consistent;
          settled =
              acquire_locks-IsSettled (insert k w.all_keys) w.shard w.consistent
                (IsSettled-after k ns s _ h w);
          spares = λ m d. keeps.states m ∙ ap (λ t. t.state) (w.spares m d);
          prepares = λ m p.
              let same = w.prepares m (ap is_prepared p) in
              keeps.resting m
                (prepared-queued_locks m w.shard w.consistent (ap (λ t. t.state) same ∙ p))
              ∙ same;
          values = λ j. keeps.values j ∙ w.values j;
          wounds = λ m d f. keeps.states m ∙ w.wounds m d f;
        }
