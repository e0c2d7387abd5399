-- ===== src/CoordinatorLog/Phases.antt =====
-- The replicated state as one phase for each batch.
use opencbdc_tx.Common.{
  ap, ◌⊎◌, ◌≡◌, refl, Bool, true, false, List, Option, none, some, ◌==◌, if◌then◌else◌, contains,
  insert, erase, emplace, remove, returned, terminated, contains-insert, contains-erase,
  lookup-emplace, lookup-remove, arith, inl, inr,
}
use opencbdc_tx.Crypto.{Hash}
use opencbdc_tx.CoordinatorLog.{
  Command, prepare, commit, discard, done, get, CoordinatorState, has_key, apply_command,
}

pub data Phase : Type 0 where
  absent : Phase
  prepared : Phase
  committed : Phase
  discarded : Phase

unfoldable pub is_prepared : Phase → Bool
is_prepared prepared = true
is_prepared absent = false
is_prepared committed = false
is_prepared discarded = false

unfoldable pub is_committed : Phase → Bool
is_committed committed = true
is_committed absent = false
is_committed prepared = false
is_committed discarded = false

unfoldable pub is_discarded : Phase → Bool
is_discarded discarded = true
is_discarded absent = false
is_discarded prepared = false
is_discarded committed = false

-- What each command does to the phase of its batch; `none` where it may not be given.
unfoldable pub next : Command → Phase → Option Phase
next (prepare id) absent = some prepared
next (prepare id) p = none
next (commit id) prepared = some committed
next (commit id) p = none
next (discard id) committed = some discarded
next (discard id) p = none
next (done id) discarded = some absent
next (done id) p = none
next get p = some p

abbrev pub subject : Command → Option Hash
subject (prepare id) = some id
subject (commit id) = some id
subject (discard id) = some id
subject (done id) = some id
subject get = none

-- Each batch is in the map or set of its phase and in no other.
pub record Represents {B : Type 0} (s : CoordinatorState B) (f : Hash → Phase) : Type 0 where
  pub prepares : (j : Hash) → has_key j s.prepare_txs ≡ is_prepared (f j)
  pub commits : (j : Hash) → has_key j s.commit_txs ≡ is_committed (f j)
  pub discards : (j : Hash) → contains j s.discard_txs ≡ is_discarded (f j)

abbrev pub moved : Hash → Phase → (Hash → Phase) → Hash → Phase
moved id p f j = if id == j then p else f j

has_key-emplace :
    {B : Type 0} (j k : Hash) (b : B) (m : List (Hash × B))
    → has_key j (emplace k b m) ≡ (if k == j then true else has_key j m)
unfolding has_key
has_key-emplace j k b m = ground (arith, lookup-emplace j k b m)

has_key-remove :
    {B : Type 0} (j k : Hash) (m : List (Hash × B))
    → has_key j (remove k m) ≡ (if k == j then false else has_key j m)
unfolding has_key
has_key-remove j k m = ground (arith, lookup-remove j k m)

-- The command ends the process, or moves its batch.
Takes : {B : Type 0} → Command → Hash → B → CoordinatorState B → (Hash → Phase) → Type 0
Takes {B} comm id b s f =
    ((next comm (f id) ≡ none) × (apply_command comm b s ≡ terminated))
    ⊎ ((p : Phase) × (t : CoordinatorState B) × (next comm (f id) ≡ some p)
        × (apply_command comm b s ≡ returned (t, none))
        × Represents t (moved id p f))

module _ {B : Type 0} (id : Hash) (b : B) (s : CoordinatorState B) (f : Hash → Phase)
    (r : Represents s f) where
  prepare-Takes :
      (p : Phase)
      → f id ≡ p
      → (is_committed (f id) ≡ false) × (is_discarded (f id) ≡ false)
      → Takes (prepare id) id b s f
  unfolding Takes next apply_command is_prepared is_committed is_discarded
  prepare-Takes absent e u = inr (
    prepared,
    record s { prepare_txs = emplace id b s.prepare_txs },
    ground arith,
    ground (arith, r.prepares id),
    record {
      prepares = λ j. ground (arith, r.prepares j, has_key-emplace j id b s.prepare_txs);
      commits = λ j. ground (arith, r.commits j);
      discards = λ j. ground (arith, r.discards j);
    },
  )
  prepare-Takes prepared e u = inl (ground (arith), ground (arith, r.prepares id))
  prepare-Takes committed e u = absurd (ground (arith))
  prepare-Takes discarded e u = absurd (ground (arith))

  commit-Takes : (p : Phase) → f id ≡ p → Takes (commit id) id b s f
  unfolding Takes next apply_command is_prepared is_committed is_discarded
  commit-Takes absent e = inl (ground (arith), ground (arith, r.prepares id))
  commit-Takes prepared e = inr (
    committed,
    record s { prepare_txs = remove id s.prepare_txs; commit_txs = emplace id b s.commit_txs },
    ground arith,
    ground (arith, r.prepares id),
    record {
      prepares = λ j. ground (arith, r.prepares j, has_key-remove j id s.prepare_txs);
      commits = λ j. ground (arith, r.commits j, has_key-emplace j id b s.commit_txs);
      discards = λ j. ground (arith, r.discards j);
    },
  )
  commit-Takes committed e = inl (ground (arith), ground (arith, r.prepares id))
  commit-Takes discarded e = inl (ground (arith), ground (arith, r.prepares id))

  discard-Takes : (p : Phase) → f id ≡ p → Takes (discard id) id b s f
  unfolding Takes next apply_command is_prepared is_committed is_discarded
  discard-Takes absent e = inl (ground (arith), ground (arith, r.commits id))
  discard-Takes prepared e = inl (ground (arith), ground (arith, r.commits id))
  discard-Takes committed e = inr (
    discarded,
    record s { commit_txs = remove id s.commit_txs; discard_txs = insert id s.discard_txs },
    ground arith,
    ground (arith, r.commits id),
    record {
      prepares = λ j. ground (arith, r.prepares j);
      commits = λ j. ground (arith, r.commits j, has_key-remove j id s.commit_txs);
      discards = λ j. ground (arith, r.discards j, contains-insert j id s.discard_txs);
    },
  )
  discard-Takes discarded e = inl (ground (arith), ground (arith, r.commits id))

  done-Takes : (p : Phase) → f id ≡ p → Takes (done id) id b s f
  unfolding Takes next apply_command is_prepared is_committed is_discarded
  done-Takes absent e = inl (ground (arith), ground (arith, r.discards id))
  done-Takes prepared e = inl (ground (arith), ground (arith, r.discards id))
  done-Takes committed e = inl (ground (arith), ground (arith, r.discards id))
  done-Takes discarded e = inr (
    absent,
    record s { discard_txs = erase id s.discard_txs },
    ground arith,
    ground (arith, r.discards id),
    record {
      prepares = λ j. ground (arith, r.prepares j);
      commits = λ j. ground (arith, r.commits j);
      discards = λ j. ground (arith, r.discards j, contains-erase j id s.discard_txs);
    },
  )

-- A command for a batch, on a state that holds each batch in one phase. One that is not due for the
-- phase of the batch ends the process, and one that is due moves that batch and no other. The
-- exception, which the state machine does not look for, is the preparation of a batch that is
-- already committed or discarded.
pub apply_command-Represents :
    {B : Type 0} (comm : Command) (id : Hash) (b : B) (s : CoordinatorState B) (f : Hash → Phase)
    → subject comm ≡ some id
    → (comm ≡ prepare id → (is_committed (f id) ≡ false) × (is_discarded (f id) ≡ false))
    → Represents s f
    → ((next comm (f id) ≡ none) × (apply_command comm b s ≡ terminated))
      ⊎ ((p : Phase) × (t : CoordinatorState B) × (next comm (f id) ≡ some p)
          × (apply_command comm b s ≡ returned (t, none))
          × Represents t (moved id p f))
unfolding Takes
apply_command-Represents (prepare k) id b s f e u r =
    let same : k ≡ id = ground arith in
    rw same (prepare-Takes id b s f r (f id) refl (u (ap prepare same)))
apply_command-Represents (commit k) id b s f e u r =
    let same : k ≡ id = ground arith in rw same (commit-Takes id b s f r (f id) refl)
apply_command-Represents (discard k) id b s f e u r =
    let same : k ≡ id = ground arith in rw same (discard-Takes id b s f r (f id) refl)
apply_command-Represents (done k) id b s f e u r =
    let same : k ≡ id = ground arith in rw same (done-Takes id b s f r (f id) refl)
apply_command-Represents get id b s f e u r = absurd (ground arith)
