-- ===== src/Coordinator/Takeover.antt =====
-- What a new leader's `recovery_func` of controller.cpp leaves of the replicated state.
use opencbdc_tx.Common.{
  ◌≡◌, refl, ap, sym, ◌∙◌, inl, inr, ℕ, Bool, true, false, ◌||◌, List, [], ◌∷◌, ◌++◌, contains,
  AreDistinct, All, All-mono, Outcome, returned, terminated, arith, Bool-cases,
}
use opencbdc_tx.Crypto.{Hash}
use opencbdc_tx.CoordinatorLog.{has_key}
use opencbdc_tx.DistributedTx.{Interface, DistributedTx}
use opencbdc_tx.Coordinator.{Raft, State, World, execute_all, recover_batches, recovery_func}
use opencbdc_tx.Coordinator.Attempt.{recovery_func_lem}
use opencbdc_tx.Coordinator.Log.{
  Entry, absent, preparing, committing, discarding, in_prepare, in_commit, in_discard, Holds,
}
use opencbdc_tx.Coordinator.Recovery.{ids, AreDue, Settled, Recovers, execute_all-Recovers}
use opencbdc_tx.Coordinator.Remade.{
  keys, contains-keys, lookup-All, prepare_coordinators-Due, commit_coordinators-Due,
  discard_coordinators-Due,
}

contains-append :
    (j : ℕ) (xs ys : List ℕ) → contains j (xs ++ ys) ≡ (contains j xs || contains j ys)
unfolding contains
contains-append j [] ys = refl
contains-append j (x ∷ xs) ys = ground (arith, contains-append j xs ys)

append-AreDistinct :
    (xs ys : List ℕ)
    → AreDistinct xs
    → AreDistinct ys
    → ((j : ℕ) → contains j xs ≡ true → contains j ys ≡ false)
    → AreDistinct (xs ++ ys)
unfolding contains
append-AreDistinct [] ys dx dy apart = dy
append-AreDistinct (x ∷ xs) ys (new, dx) dy apart = (
  rw (contains-append x xs ys, new) (apart x (ground arith)),
  append-AreDistinct xs ys dx dy (λ j c. apart j (ground (arith, c))),
)

ids-append : {W : Type 0} (ds es : List (DistributedTx W)) → ids (ds ++ es) ≡ ids ds ++ ids es
ids-append [] es = refl
ids-append (d ∷ ds) es = ap (λ hs. d.dtx_id ∷ hs) (ids-append ds es)

AreDue-append :
    (f : Hash → Entry) (ds es : List (DistributedTx World))
    → AreDue f ds
    → AreDue f es
    → AreDue f (ds ++ es)
AreDue-append f [] es x y = y
AreDue-append f (d ∷ ds) es (u, due, x) y = (u, due, AreDue-append f ds es x y)

-- The maps and the set of the state have each key once.
pub record IsOnce (s : State) : Type 0 where
  pub prepares : AreDistinct (keys s.prepare_txs)
  pub commits : AreDistinct (keys s.commit_txs)
  pub discards : AreDistinct s.discard_txs

unfoldable is_present : Entry → Bool
is_present absent = false
is_present (preparing txs) = true
is_present (committing flags idxs) = true
is_present discarding = true

abbrev all_keys : State → List Hash
all_keys s = (keys s.prepare_txs ++ keys s.commit_txs) ++ s.discard_txs

module _ (s : State) (f : Hash → Entry) (h : Holds s f) where
  contains-all_keys : (j : Hash) → contains j (all_keys s) ≡ is_present (f j)
  unfolding is_present in_prepare in_commit in_discard has_key
  contains-all_keys j =
      let a = contains-append j (keys s.prepare_txs ++ keys s.commit_txs) s.discard_txs in
      let b = contains-append j (keys s.prepare_txs) (keys s.commit_txs) in
      let c = contains-keys j s.prepare_txs in
      let d = contains-keys j s.commit_txs in
      let p = h.prepares j in let q = h.commits j in let r = h.discards j in ground arith

  all_keys-AreDistinct : IsOnce s → AreDistinct (all_keys s)
  unfolding in_prepare in_commit in_discard has_key
  all_keys-AreDistinct o =
      append-AreDistinct (keys s.prepare_txs ++ keys s.commit_txs) s.discard_txs
        (append-AreDistinct (keys s.prepare_txs) (keys s.commit_txs) o.prepares o.commits (λ j c.
          let d = contains-keys j s.prepare_txs in
          let e = contains-keys j s.commit_txs in
          let p = h.prepares j in let q = h.commits j in ground arith))
        o.discards
        (λ j c.
          let b = contains-append j (keys s.prepare_txs) (keys s.commit_txs) in
          let d = contains-keys j s.prepare_txs in
          let e = contains-keys j s.commit_txs in
          let p = h.prepares j in let q = h.commits j in let r = h.discards j in ground arith)

contained : (hs : List Hash) → All (λ id. contains id hs ≡ true) hs
unfolding contains
contained [] = tt
contained (x ∷ hs) = (ground arith, All-mono (λ id e. ground arith) hs (contained hs))

-- What recovery leaves: nothing of a batch that was not there, and nothing at all if it succeeds.
abbrev pub Recovered : {S : Type 0} → (Hash → Entry) → Outcome (List S × World × Bool) → Type 0
Recovered f terminated = Unit
Recovered f (returned (shards, w, ok)) =
    (raft : Raft) × (g : Hash → Entry) × (w ≡ returned raft)
    × Holds raft.machine.state g
    × ((j : Hash) → f j ≡ absent → g j ≡ absent)
    × (ok ≡ true → (j : Hash) → g j ≡ absent)

module _ {S : Type 0} (I : Interface S) (s : S) (ss : List S) (f : Hash → Entry) where
  Settled-Recovered :
      (r : Raft) (w : World) (shards : List S) (ok : Bool)
      → Holds r.machine.state f
      → Settled (all_keys r.machine.state) f w ok
      → Recovered f (returned (shards, w, ok))
  unfolding is_present
  Settled-Recovered r w shards ok h (raft, g, e, k, others, gone) = (
    raft,
    g,
    e,
    k,
    λ j a. others j (contains-all_keys r.machine.state f h j ∙ ap is_present a) ∙ a,
    λ o j. elim (Bool-cases (contains j (all_keys r.machine.state))) [
      | inl c ↦ gone o j c
      | inr c ↦ others j c ∙ none_there (f j) (sym (contains-all_keys r.machine.state f h j) ∙ c)
    ],
  )
    where
      none_there : (e : Entry) → is_present e ≡ false → e ≡ absent
      none_there e p = ground arith

  recover_batches-Recovered :
      (r : Raft)
      → Holds r.machine.state f
      → IsOnce r.machine.state
      → Recovered f (recover_batches I r.machine.state (s ∷ ss) (returned r))
  unfolding recover_batches
  recover_batches-Recovered r h o =
      let st = r.machine.state in
      let (ps, e, i, due) = prepare_coordinators-Due I s ss (returned r) f st.prepare_txs (
        All-mono (λ p x. sym (h.prepares p.0) ∙ x) st.prepare_txs
          (lookup-All st.prepare_txs o.prepares)) in
      let (cs, e2, i2, due2) = commit_coordinators-Due I s ss (returned r) f st.commit_txs (
        All-mono (λ p x. sym (h.commits p.0) ∙ x) st.commit_txs
          (lookup-All st.commit_txs o.commits)) in
      let (ds, e3, i3, due3) =
        discard_coordinators-Due I s ss (returned r) f st.discard_txs
          (All-mono (λ id x. sym (h.discards id) ∙ x) st.discard_txs (contained st.discard_txs)) in
      let named : ids ((ps ++ cs) ++ ds) ≡ all_keys st =
        rw (ids-append (ps ++ cs) ds, ids-append ps cs, i, i2, i3) refl in
      rw (recover_batches, e, e2, e3)
        (go (execute_all I ((ps ++ cs) ++ ds) (s ∷ ss) (returned r)) (
          rw⁻¹ named (
            execute_all-Recovers I ((ps ++ cs) ++ ds) f r (s ∷ ss)
              (rw named (all_keys-AreDistinct st f h o))
              (AreDue-append f (ps ++ cs) ds (AreDue-append f ps cs due due2) due3) h)))
    where
      go :
          (x : Outcome (List S × World × Bool))
          → Recovers I (all_keys r.machine.state) f x
          → Recovered f x
      go terminated l = tt
      go (returned (shards, w, ok)) l = Settled-Recovered r w shards ok h l

  -- Take a replicated state that holds each batch once, with one entry, and at least one shard. Whatever
  -- becomes of the commands that are sent, and whatever the shards answer, a recovery that returns has
  -- sent no command that the state machine refuses and has made no entry of a batch that was not
  -- there; if it reports success, the replicated state has no batch left.
  pub recovery_func-Recovered :
      (r : Raft)
      → Holds r.machine.state f
      → IsOnce r.machine.state
      → Recovered f (recovery_func I (s ∷ ss) (returned r))
  recovery_func-Recovered r h o =
      let (u, e, attempt) = recovery_func_lem I (s ∷ ss) r in
      elim attempt [
        | inl q ↦ rw q (u, f, refl, rw e h, λ j a. a, λ x j. absurd (ground arith))
        | inr q ↦ rw q (recover_batches-Recovered u (rw e h) (rw e o))
      ]
