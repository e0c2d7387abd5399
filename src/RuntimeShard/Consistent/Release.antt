-- ===== src/RuntimeShard/Consistent/Release.antt =====
-- The two loops of `release_locks`: over the locks that a ticket is queued for, and over those it holds.
use opencbdc_tx.RuntimeShard.{
  ErrorCode, error, Key, LockType, WoundedDetails, LockQueueElement, RwLock, PendingCallback, Shard,
  lock_of, ticket_of, set_lock, unqueue, release_lock, release_held, held_keys,
}
use opencbdc_tx.Common.{
  ==_refl, ℕ, ◌≡◌, refl, sym, ap, ◌∙◌, Bool, true, false, List, [], ◌∷◌, Option, none, some, ◌==◌,
  contains, lookup, remove, arith, Bool-cases, inl, inr, Outcome, returned, AreDistinct,
}
use opencbdc_tx.RuntimeShard.Views.{
  value_of, value_of-set_lock, is_queued, lock_of-set_lock, ticket_of-set_lock,
}

unfoldable pub unqueued : ℕ → Bool → RwLock → RwLock
unqueued n false lk = lk
unqueued n true lk = record lk { queue = remove n lk.queue }

pub record Unqueues (n : ℕ) (ks : List Key) (s : Shard) (o : Outcome (Shard × List PendingCallback))
    : Type 0 where
  pub shard : Shard
  pub callbacks : List PendingCallback
  pub returns : o ≡ returned (shard, callbacks)
  pub locks : (j : Key) → lock_of j shard ≡ unqueued n (contains j ks) (lock_of j s)
  pub tickets : (m : ℕ) → ticket_of m shard ≡ ticket_of m s
  pub aborted : ks ≡ [] → callbacks ≡ []
  pub values : (j : Key) → value_of j shard ≡ value_of j s

not_none : (n : ℕ) (q : List (ℕ × LockQueueElement)) → is_queued n q ≡ true → lookup n q ≡ none → ⊥
unfolding is_queued
not_none n q h e = ground arith

pub unqueue-Unqueues :
    (n : ℕ) (details : Option WoundedDetails) (ks : List Key) (s : Shard)
    → AreDistinct ks
    → ((k : Key) → contains k ks ≡ true → is_queued n (lock_of k s).queue ≡ true)
    → Unqueues n ks s (unqueue n details ks s)
unfolding unqueue contains unqueued
unqueue-Unqueues n details [] s d h = record {
  shard = s;
  callbacks = [];
  returns = refl;
  locks = λ j. refl;
  tickets = λ m. refl;
  aborted = λ e. refl;
  values = λ j. refl;
}
unqueue-Unqueues n details (k ∷ ks) s d h =
    go (lookup n (lock_of k s).queue) refl (unqueue-Unqueues n details ks s' d.1 still)
  where
    out : RwLock
    out = record (lock_of k s) { queue = remove n (lock_of k s).queue }

    s' : Shard
    s' = set_lock k out s

    still : (j : Key) → contains j ks ≡ true → is_queued n (lock_of j s').queue ≡ true
    still j e = elim (Bool-cases (k == j)) [
      | inl f ↦
          let same : k ≡ j = ground arith in
          absurd (ground (arith, d.0, ap (λ i. contains i ks) same))
      | inr f ↦ rw (lock_of-set_lock j k out s, f) (h j (ground arith))
    ]

    locks :
        (j : Key)
        → unqueued n (contains j ks) (lock_of j s') ≡ unqueued n (contains j (k ∷ ks)) (lock_of j s)
    locks j = elim (Bool-cases (k == j)) [
      | inl f ↦
          let same : k ≡ j = ground arith in
          rw (lock_of-set_lock j k out s, f, ap (λ i. contains i ks) (sym same) ∙ d.0)
            (ap (λ i. unqueued n true (lock_of i s)) same)
      | inr f ↦ rw (lock_of-set_lock j k out s, f) refl
    ]

    go :
        (r : Option LockQueueElement)
        → lookup n (lock_of k s).queue ≡ r
        → Unqueues n ks s' (unqueue n details ks s')
        → Unqueues n (k ∷ ks) s (unqueue n details (k ∷ ks) s)
    go none e u = absurd (not_none n (lock_of k s).queue (h k (rw (==_refl k) refl)) e)
    go (some q) e u = record {
      shard = u.shard;
      callbacks =
          record {
            callback = q.callback;
            returning =
                error (record { error_code = ErrorCode.wounded; wounded_details = details });
            ticket_number = n;
          }
          ∷ u.callbacks;
      returns = rw (unqueue, e, u.returns) refl;
      locks = λ j. u.locks j ∙ locks j;
      tickets = λ m. u.tickets m ∙ ticket_of-set_lock m k out s;
      aborted = λ e. absurd (ground arith);
      values = λ j. u.values j ∙ value_of-set_lock j k out s;
    }

unfoldable pub released : ℕ → Option LockType → RwLock → RwLock
released n none lk = lk
released n (some lt) lk = release_lock n lt lk

pub not_held :
    (k : Key) (hs : List (Key × LockType)) → contains k (held_keys hs) ≡ false → lookup k hs ≡ none
unfolding contains held_keys lookup
not_held k [] h = refl
not_held k ((j, lt) ∷ hs) h = ground (arith, not_held k hs)

pub lock_of-release_held :
    (n : ℕ) (j : Key) (hs : List (Key × LockType)) (s : Shard)
    → AreDistinct (held_keys hs)
    → lock_of j (release_held n hs s) ≡ released n (lookup j hs) (lock_of j s)
unfolding release_held released lookup held_keys
lock_of-release_held n j [] s d = refl
lock_of-release_held n j ((k, lt) ∷ hs) s d = elim (Bool-cases (k == j)) [
  | inl e ↦
      let same : k ≡ j = ground arith in
      let after = set_lock k (release_lock n lt (lock_of k s)) s in
      lock_of-release_held n j hs after d.1
      ∙ ap (λ l. released n l (lock_of j after))
          (not_held j hs (ap (λ i. contains i (held_keys hs)) (sym same) ∙ d.0))
      ∙ rw (lock_of-set_lock j k (release_lock n lt (lock_of k s)) s, e)
          (ap (λ i. release_lock n lt (lock_of i s)) same)
  | inr e ↦
      let after = set_lock k (release_lock n lt (lock_of k s)) s in
      lock_of-release_held n j hs after d.1
      ∙ rw (lock_of-set_lock j k (release_lock n lt (lock_of k s)) s, e) refl
]

pub ticket_of-release_held :
    (n m : ℕ) (hs : List (Key × LockType)) (s : Shard)
    → ticket_of m (release_held n hs s) ≡ ticket_of m s
unfolding release_held
ticket_of-release_held n m [] s = refl
ticket_of-release_held n m ((k, lt) ∷ hs) s =
    ticket_of-release_held n m hs (set_lock k (release_lock n lt (lock_of k s)) s)
    ∙ ticket_of-set_lock m k (release_lock n lt (lock_of k s)) s

pub value_of-release_held :
    (n : ℕ) (j : Key) (hs : List (Key × LockType)) (s : Shard)
    → value_of j (release_held n hs s) ≡ value_of j s
unfolding release_held
value_of-release_held n j [] s = refl
value_of-release_held n j ((k, lt) ∷ hs) s =
    value_of-release_held n j hs (set_lock k (release_lock n lt (lock_of k s)) s)
    ∙ value_of-set_lock j k (release_lock n lt (lock_of k s)) s
