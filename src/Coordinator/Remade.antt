-- ===== src/Coordinator/Remade.antt =====
-- The batches that `recovery_func` of controller.cpp makes from the replicated state.
use opencbdc_tx.Common.{
  ◌≡◌, refl, ap, sym, ◌∙◌, inl, inr, ℕ, Bool, true, List, [], ◌∷◌, ◌++◌, none, some, ◌==◌, ==_refl,
  contains, lookup, AreDistinct, replicate, length, All, All-mono, returned, arith, Bool-cases,
}
use opencbdc_tx.Crypto.{Hash}
use opencbdc_tx.Transaction.{CompactTx}
use opencbdc_tx.CoordinatorLog.{has_key}
use opencbdc_tx.DistributedTx.{
  Interface, DistributedTx, Run, distributed_tx, add_tx, add_txs, recover_prepare, recover_commit,
  recover_discard, prepare, start, DtxState,
}
use opencbdc_tx.Coordinator.{
  Payload, no_data, prepare_tx, commit_tx, World, prepare_coordinators, commit_coordinators,
  discard_coordinators,
}
use opencbdc_tx.Coordinator.Log.{
  Entry, preparing, committing, discarding, in_prepare, in_commit, in_discard,
}
use opencbdc_tx.Coordinator.Recorded.{IsUnset, IsDue}
use opencbdc_tx.Coordinator.Recovery.{ids, AreDue}

abbrev pub keys : {B : Type 0} → List (Hash × B) → List Hash
keys [] = []
keys ((k, b) ∷ m) = k ∷ keys m

pub contains-keys :
    {B : Type 0} (k : Hash) (m : List (Hash × B)) → contains k (keys m) ≡ has_key k m
unfolding contains has_key lookup
contains-keys k [] = refl
contains-keys k ((j, b) ∷ m) = ground (arith, contains-keys k m)

-- In a map each key is there with its value.
pub lookup-All :
    {B : Type 0} (m : List (Hash × B)) → AreDistinct (keys m) → All (λ p. lookup p.0 m ≡ some p.1) m
unfolding lookup has_key contains
lookup-All [] d = tt
lookup-All ((k, b) ∷ m) (new, d) =
    (rw (lookup, ==_refl k) refl, All-mono (λ p e. later p e) m (lookup-All m d))
  where
    later : (p : Hash × _) → lookup p.0 m ≡ some p.1 → lookup p.0 ((k, b) ∷ m) ≡ some p.1
    later p e = elim (Bool-cases (k == p.0)) [
      | inr f ↦ rw (lookup, f) e
      | inl f ↦
          let same : k ≡ p.0 = ground arith in
          let there = contains-keys k m in absurd (ground (arith, ap (λ x. lookup x m) same))
    ]

from_prepare :
    (e : Entry) (txs : List CompactTx) → in_prepare e ≡ some (prepare_tx txs) → e ≡ preparing txs
unfolding in_prepare
from_prepare e txs h = ground arith

from_commit :
    (e : Entry) (flags : List Bool) (idxs : List (List ℕ))
    → in_commit e ≡ some (commit_tx flags idxs)
    → e ≡ committing flags idxs
unfolding in_commit
from_commit e flags idxs h = ground arith

from_discard : (e : Entry) → in_discard e ≡ true → e ≡ discarding
unfolding in_discard
from_discard e h = ground arith

module _ {S : Type 0} (I : Interface S) where
  -- What the transactions add to a batch.
  pub record Extends (r u : Run S World) (txs : List CompactTx) : Type 0 where
    full : u.dtx.full_txs ≡ r.dtx.full_txs ++ txs
    same_id : u.dtx.dtx_id ≡ r.dtx.dtx_id
    pub same_state : u.dtx.state ≡ r.dtx.state
    unset : IsUnset r.dtx → IsUnset u.dtx

  append_nil : (xs : List CompactTx) → xs ≡ xs ++ []
  append_nil [] = refl
  append_nil (x ∷ xs) = ap (λ ys. x ∷ ys) (append_nil xs)

  append_cons :
      (xs : List CompactTx) (x : CompactTx) (ys : List CompactTx)
      → (xs ++ x ∷ []) ++ ys ≡ xs ++ x ∷ ys
  append_cons [] x ys = refl
  append_cons (z ∷ xs) x ys = ap (λ zs. z ∷ zs) (append_cons xs x ys)

  pub add_txs-Extends : (txs : List CompactTx) (r : Run S World) → Extends r (add_txs I txs r) txs
  unfolding add_txs add_tx
  add_txs-Extends [] r = record {
    full = append_nil r.dtx.full_txs;
    same_id = refl;
    same_state = refl;
    unset = λ u. u;
  }
  add_txs-Extends (tx ∷ txs) r =
      let e = add_txs-Extends txs (add_tx I tx r).0 in
      record {
        full = e.full ∙ append_cons r.dtx.full_txs tx txs;
        same_id = e.same_id;
        same_state = e.same_state;
        unset = λ u. e.unset (record {
          prepares = u.prepares;
          commits = u.commits;
          discards = u.discards;
          finishes = u.finishes;
        });
      }

  module _ (s : S) (ss : List S) (w : World) (f : Hash → Entry) where
    -- A new batch in a state of its recovery.
    abbrev pub blank : Hash → DtxState → Run S World
    blank id state = record {
      dtx = record {
        dtx_id = id;
        txs = replicate (length (s ∷ ss)) [];
        full_txs = [];
        tx_idxs = replicate (length (s ∷ ss)) [];
        prepare_cb = none;
        commit_cb = none;
        discard_cb = none;
        done_cb = none;
        state = state;
        complete_txs = [];
      };
      shards = s ∷ ss;
      world = w;
    }

    IsDue-recover_prepare :
        (id : Hash) (txs : List CompactTx) (e : Entry)
        → e ≡ preparing txs
        → IsDue
            (recover_prepare I txs (blank id start)).dtx.state
            (recover_prepare I txs (blank id start)).dtx
            e
    unfolding recover_prepare
    IsDue-recover_prepare id txs e h =
        let x = add_txs-Extends txs (blank id prepare) in
        rw x.same_state (h ∙ ap preparing (sym x.full))

    pub prepare_coordinators-Due :
        (m : List (Hash × Payload))
        → All (λ p. in_prepare (f p.0) ≡ some p.1) m
        → (ds : List (DistributedTx World)) × (prepare_coordinators I (s ∷ ss) w m ≡ returned ds)
          × (ids ds ≡ keys m)
          × AreDue f ds
    unfolding prepare_coordinators distributed_tx recover_prepare in_prepare
    prepare_coordinators-Due [] a = ([], refl, refl, tt)
    prepare_coordinators-Due ((id, no_data) ∷ m) (a, others) = absurd (ground arith)
    prepare_coordinators-Due ((id, commit_tx flags idxs) ∷ m) (a, others) = absurd (ground arith)
    prepare_coordinators-Due ((id, prepare_tx txs) ∷ m) (a, others) =
        let (ds, e, i, due) = prepare_coordinators-Due m others in
        let x = add_txs-Extends txs (blank id prepare) in
        (
          (recover_prepare I txs (blank id start)).dtx ∷ ds,
          rw e refl,
          rw (x.same_id, i) refl,
          (
            x.unset (record { prepares = refl; commits = refl; discards = refl; finishes = refl }),
            rw x.same_id (IsDue-recover_prepare id txs (f id) (from_prepare (f id) txs a)),
            due,
          ),
        )

    pub commit_coordinators-Due :
        (m : List (Hash × Payload))
        → All (λ p. in_commit (f p.0) ≡ some p.1) m
        → (ds : List (DistributedTx World)) × (commit_coordinators I (s ∷ ss) w m ≡ returned ds)
          × (ids ds ≡ keys m)
          × AreDue f ds
    unfolding commit_coordinators distributed_tx recover_commit in_commit
    commit_coordinators-Due [] a = ([], refl, refl, tt)
    commit_coordinators-Due ((id, no_data) ∷ m) (a, others) = absurd (ground arith)
    commit_coordinators-Due ((id, prepare_tx txs) ∷ m) (a, others) = absurd (ground arith)
    commit_coordinators-Due ((id, commit_tx flags idxs) ∷ m) (a, others) =
        let (ds, e, i, due) = commit_coordinators-Due m others in
        (
          recover_commit flags idxs (blank id start).dtx ∷ ds,
          rw e refl,
          ap (λ hs. id ∷ hs) i,
          (
            record { prepares = refl; commits = refl; discards = refl; finishes = refl },
            from_commit (f id) flags idxs a,
            due,
          ),
        )

    pub discard_coordinators-Due :
        (hs : List Hash)
        → All (λ id. in_discard (f id) ≡ true) hs
        → (ds : List (DistributedTx World)) × (discard_coordinators I (s ∷ ss) w hs ≡ returned ds)
          × (ids ds ≡ hs)
          × AreDue f ds
    unfolding discard_coordinators distributed_tx recover_discard
    discard_coordinators-Due [] a = ([], refl, refl, tt)
    discard_coordinators-Due (id ∷ hs) (a, others) =
        let (ds, e, i, due) = discard_coordinators-Due hs others in
        (
          recover_discard (blank id start).dtx ∷ ds,
          rw e refl,
          ap (λ x. id ∷ x) i,
          (
            record { prepares = refl; commits = refl; discards = refl; finishes = refl },
            from_discard (f id) a,
            due,
          ),
        )
