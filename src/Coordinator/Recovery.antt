-- ===== src/Coordinator/Recovery.antt =====
-- The recovery of the batches of a failed leader, by `recovery_func` of controller.cpp.
use opencbdc_tx.Common.{
  ◌≡◌, refl, ap, sym, ◌∙◌, inl, inr, Bool, true, false, List, [], ◌∷◌, Option, none, some, ◌==◌,
  contains, AreDistinct, Outcome, returned, terminated, arith, Bool-cases,
}
use opencbdc_tx.Crypto.{Hash}
use opencbdc_tx.DistributedTx.{Interface, DistributedTx, Run, execute}
use opencbdc_tx.Coordinator.{Raft, State, World, batch_set_cbs, execute_all}
use opencbdc_tx.Coordinator.Log.{Entry, absent, Holds, Knows, entered}
use opencbdc_tx.Coordinator.Tracked.{Logs, without_callbacks}
use opencbdc_tx.Coordinator.Recorded.{IsUnset, IsDue, execute-Logs}

abbrev pub ids : {W : Type 0} → List (DistributedTx W) → List Hash
ids [] = []
ids (d ∷ ds) = d.dtx_id ∷ ids ds

-- Each batch is new, and in the state that its entry calls for.
abbrev pub AreDue : (Hash → Entry) → List (DistributedTx World) → Type 0
AreDue f [] = Unit
AreDue f (d ∷ ds) = IsUnset d × IsDue d.state d (f d.dtx_id) × AreDue f ds

Holds-mono : (s : State) (f g : Hash → Entry) → ((j : Hash) → f j ≡ g j) → Holds s f → Holds s g
Holds-mono s f g e h = record {
  prepares = λ j. rw (sym (e j)) (h.prepares j);
  commits = λ j. rw (sym (e j)) (h.commits j);
  discards = λ j. rw (sym (e j)) (h.discards j);
}

-- The cluster works; the entries of other batches are as before, and those of the batches are gone if
-- the run has succeeded.
abbrev pub Settled : List Hash → (Hash → Entry) → World → Bool → Type 0
Settled hs f w ok =
    (raft : Raft) × (g : Hash → Entry) × (w ≡ returned raft)
    × Holds raft.machine.state g
    × ((j : Hash) → contains j hs ≡ false → g j ≡ f j)
    × (ok ≡ true → (j : Hash) → contains j hs ≡ true → g j ≡ absent)

module _ {S : Type 0} (I : Interface S) where
  abbrev pub Recovers : List Hash → (Hash → Entry) → Outcome (List S × World × Bool) → Type 0
  Recovers hs f terminated = Unit
  Recovers hs f (returned (shards, w, ok)) = Settled hs f w ok

  AreDue-entered :
      (id : Hash) (e : Entry) (f : Hash → Entry) (ds : List (DistributedTx World))
      → contains id (ids ds) ≡ false
      → AreDue f ds
      → AreDue (entered id f e) ds
  unfolding contains
  AreDue-entered id e f [] c a = tt
  AreDue-entered id e f (d ∷ ds) c (u, due, a) =
      let other : (id == d.dtx_id) ≡ false = ground arith in
      (u, rw other due, AreDue-entered id e f ds (ground arith) a)

  -- The first batch, if the others do as they should from its entry on.
  cons-Recovers :
      (d : DistributedTx World) (ds : List (DistributedTx World)) (f : Hash → Entry) (raft : Raft)
      (shards : List S)
      → IsUnset d
      → IsDue d.state d (f d.dtx_id)
      → Holds raft.machine.state f
      → ((e : Entry) (u : Run S World) (raft' : Raft)
          → u.world ≡ returned raft'
          → Holds raft'.machine.state (entered d.dtx_id f e)
          → Recovers (ids ds) (entered d.dtx_id f e) (execute_all I ds u.shards u.world))
      → Recovers (ids (d ∷ ds)) f (execute_all I (d ∷ ds) shards (returned raft))
  unfolding execute_all contains
  cons-Recovers d ds f raft shards unset now h rest =
      go (execute I run) refl
        (execute-Logs I f (record run { dtx = d }) (f d.dtx_id) unset now known)
    where
      run : Run S World
      run = record { dtx = batch_set_cbs d; shards = shards; world = returned raft }

      known : Knows d.dtx_id f (f d.dtx_id) (returned raft)
      known =
          (raft, refl, Holds-mono raft.machine.state f (entered d.dtx_id f (f d.dtx_id)) there h)
        where
          there : (j : Hash) → f j ≡ entered d.dtx_id f (f d.dtx_id) j
          there j = elim (Bool-cases (d.dtx_id == j)) [
            | inl e ↦ let same : d.dtx_id ≡ j = ground arith in rw e (ap f (sym same))
            | inr e ↦ rw e refl
          ]

      same :
          (e : Entry) (g : Hash → Entry) (j : Hash)
          → (contains j (ids ds) ≡ false → g j ≡ entered d.dtx_id f e j)
          → contains j (d.dtx_id ∷ ids ds) ≡ false
          → g j ≡ f j
      same e g j k c =
          let other : (d.dtx_id == j) ≡ false = ground arith in k (ground arith) ∙ rw other refl

      gone :
          (g : Hash → Entry) (j : Hash)
          → (contains j (ids ds) ≡ false → g j ≡ entered d.dtx_id f absent j)
          → (contains j (ids ds) ≡ true → g j ≡ absent)
          → contains j (d.dtx_id ∷ ids ds) ≡ true
          → g j ≡ absent
      gone g j k l c = elim (Bool-cases (contains j (ids ds))) [
        | inl e ↦ l e
        | inr e ↦ let here : (d.dtx_id == j) ≡ true = ground arith in k e ∙ rw here refl
      ]

      go :
          (x : Outcome (Run S World × Option (List Bool)))
          → execute I run ≡ x
          → Logs I f (execute I (without_callbacks (record run { dtx = d })) ≡ terminated) d x
          → Recovers (ids (d ∷ ds)) f (execute_all I (d ∷ ds) shards (returned raft))
      go terminated x l = rw (execute_all, x) tt
      go (returned (u, some flags)) x (fl, (raft', w, k)) =
          after (execute_all I ds u.shards u.world) refl (rest absent u raft' w k)
        where
          after :
              (y : Outcome (List S × World × Bool))
              → execute_all I ds u.shards u.world ≡ y
              → Recovers (ids ds) (entered d.dtx_id f absent) y
              → Recovers (ids (d ∷ ds)) f (execute_all I (d ∷ ds) shards (returned raft))
          after terminated y s = rw (execute_all, x, y) tt
          after (returned (ss, v, ok)) y (raft2, g, e, h2, others, all) =
              rw (execute_all, x, y)
                (
                  raft2,
                  g,
                  e,
                  h2,
                  λ j c. same absent g j (others j) c,
                  λ o j c. gone g j (others j) (all o j) c,
                )
      go (returned (u, none)) x (e', made, (raft', w, k)) =
          after (execute_all I ds u.shards u.world) refl (rest e' u raft' w k)
        where
          after :
              (y : Outcome (List S × World × Bool))
              → execute_all I ds u.shards u.world ≡ y
              → Recovers (ids ds) (entered d.dtx_id f e') y
              → Recovers (ids (d ∷ ds)) f (execute_all I (d ∷ ds) shards (returned raft))
          after terminated y s = rw (execute_all, x, y) tt
          after (returned (ss, v, ok)) y (raft2, g, e, h2, others, all) =
              rw (execute_all, x, y)
                (raft2, g, e, h2, λ j c. same e' g j (others j) c, λ o j c. absurd (ground arith))

  pub execute_all-Recovers :
      (ds : List (DistributedTx World)) (f : Hash → Entry) (raft : Raft) (shards : List S)
      → AreDistinct (ids ds)
      → AreDue f ds
      → Holds raft.machine.state f
      → Recovers (ids ds) f (execute_all I ds shards (returned raft))
  unfolding execute_all contains
  execute_all-Recovers [] f raft shards dis due h =
      (raft, f, refl, h, λ j c. refl, λ ok j c. absurd (ground arith))
  execute_all-Recovers (d ∷ ds) f raft shards (new, dis) (unset, now, due) h =
      cons-Recovers d ds f raft shards unset now h (λ e u raft' w k. rw w (
        execute_all-Recovers ds (entered d.dtx_id f e) raft' u.shards dis
          (AreDue-entered d.dtx_id e f ds new due) k))
