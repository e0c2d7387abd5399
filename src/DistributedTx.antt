-- ===== src/DistributedTx.antt =====
-- src/uhs/twophase/coordinator/distributed_tx.hpp and distributed_tx.cpp: the two-phase commit of a
-- batch of transactions over the locking shards. The calls of a phase are launched together and
-- all of them are awaited, also when an early one fails, since the destructor of a future waits:
-- here every active shard is called, and the answers are read afterwards. The shards are an
-- interface, as in locking_shard/interface.hpp; the callbacks act on a state `W` of their own
-- (the coordinator replicates each phase with them). An index past the end is `terminated`.
pub mod Batch
pub mod Prepare
pub mod Execution
pub mod Failure
pub mod Answering
pub mod Total
pub mod Lengths
pub mod Commit
pub mod Resume
pub mod Takeover
pub mod Halting
pub mod Counts
use opencbdc_tx.Common.{
  not, ltb, ℕ, zero, suc, ◌+◌, Bool, true, false, ◌||◌, List, [], ◌∷◌, ◌++◌, map, Option, none,
  some, ◌==◌, length, is_empty, get_elem?, set, replicate, if◌then◌else◌, Outcome, returned,
  terminated, ◌>>=◌,
}
use opencbdc_tx.Crypto.{Hash}
use opencbdc_tx.Transaction.{CompactTx}

-- locking_shard::interface, for the calls that the coordinator makes.
pub record Interface (S : Type 0) : Type 0 where
  pub hash_in_shard_range : S → Hash → Bool
  pub lock_outputs : List CompactTx → Hash → S → Outcome (S × Option (List Bool))
  pub apply_outputs : List Bool → Hash → S → Outcome (S × Bool)
  pub discard_dtx : Hash → S → S × Bool

pub data DtxState : Type 0 where
  start : DtxState
  prepare : DtxState
  commit : DtxState
  discard : DtxState
  done : DtxState
  failed : DtxState

pub record DistributedTx (W : Type 0) : Type 0 where
  pub dtx_id : Hash
  pub txs : List (List CompactTx)
  pub full_txs : List CompactTx
  pub tx_idxs : List (List ℕ)
  pub prepare_cb : Option (Hash → List CompactTx → W → W × Bool)
  pub commit_cb : Option (Hash → List Bool → List (List ℕ) → W → W × Bool)
  pub discard_cb : Option (Hash → W → W × Bool)
  pub done_cb : Option (Hash → W → W × Bool)
  pub state : DtxState
  pub complete_txs : List Bool

-- A batch with the shards it is spread over and the state that the callbacks act on.
pub record Run (S W : Type 0) : Type 0 where
  pub dtx : DistributedTx W
  pub shards : List S
  pub world : W

-- The flags that the answers of one shard clear.
unfoldable pub mark : List Bool → List ℕ → List Bool → Outcome (List Bool)
mark [] idxs ret = returned ret
mark (r ∷ rs) [] ret = terminated
mark (true ∷ rs) (i ∷ idxs) ret = mark rs idxs ret
mark (false ∷ rs) (i ∷ idxs) ret = elim (get_elem? ret i) [
  | none ↦ terminated
  | some b ↦ mark rs idxs (set ret i false)
]

-- The loop over the answers: a shard that fails, fails the batch.
unfoldable pub collect :
    List (Option (List Bool) × List ℕ) → List Bool → Outcome (Option (List Bool))
collect [] ret = returned (some ret)
collect ((none, idxs) ∷ answers) ret = returned none
collect ((some res, idxs) ∷ answers) ret =
    if length res == length idxs then mark res idxs ret >>= collect answers else terminated

-- The flags of one shard, by the indexes of its transactions.
unfoldable pub select : List Bool → List ℕ → Outcome (List Bool)
select flags [] = returned []
select flags (i ∷ idxs) = elim (get_elem? flags i) [
  | none ↦ terminated
  | some b ↦ select flags idxs >>= λ fs. returned (b ∷ fs)
]

unfoldable pub all_true : List Bool → Bool
all_true [] = true
all_true (true ∷ bs) = all_true bs
all_true (false ∷ bs) = false

-- The index of a new transaction, and the transaction, are added where `active` says.
unfoldable pub append_where {ℓ} : {A : Type ℓ} → List Bool → A → List (List A) → List (List A)
append_where [] x rows = rows
append_where (active ∷ flags) x [] = []
append_where (active ∷ flags) x (row ∷ rows) =
    (if active then row ++ x ∷ [] else row) ∷ append_where flags x rows

unfoldable pub size : {W : Type 0} → DistributedTx W → ℕ
size d =
    if ltb (length d.full_txs) (length d.complete_txs)
    then length d.complete_txs
    else length d.full_txs

unfoldable pub recover_commit :
    {W : Type 0} → List Bool → List (List ℕ) → DistributedTx W → DistributedTx W
recover_commit complete_txs tx_idxs d = record d {
  state = commit;
  tx_idxs = tx_idxs;
  complete_txs = complete_txs;
}

unfoldable pub recover_discard : {W : Type 0} → DistributedTx W → DistributedTx W
recover_discard d = record d { state = discard }

unfoldable pub set_prepare_cb :
    {W : Type 0} → (Hash → List CompactTx → W → W × Bool) → DistributedTx W → DistributedTx W
set_prepare_cb cb d = record d { prepare_cb = some cb }

unfoldable pub set_commit_cb :
    {W : Type 0}
    → (Hash → List Bool → List (List ℕ) → W → W × Bool)
    → DistributedTx W
    → DistributedTx W
set_commit_cb cb d = record d { commit_cb = some cb }

unfoldable pub set_discard_cb :
    {W : Type 0} → (Hash → W → W × Bool) → DistributedTx W → DistributedTx W
set_discard_cb cb d = record d { discard_cb = some cb }

unfoldable pub set_done_cb :
    {W : Type 0} → (Hash → W → W × Bool) → DistributedTx W → DistributedTx W
set_done_cb cb d = record d { done_cb = some cb }

-- A callback that is not set succeeds.
unfoldable pub called : {F W : Type 0} → Option F → (F → W → W × Bool) → W → W × Bool
called none call w = (w, true)
called (some cb) call w = call cb w

unfoldable pub fail : {S W : Type 0} → Run S W → Run S W
fail r = record r { dtx = record r.dtx { state = failed } }

module _ {S : Type 0} (I : Interface S) where
  unfoldable pub any_in_range : S → List Hash → Bool
  any_in_range shard [] = false
  any_in_range shard (h ∷ hs) = I.hash_in_shard_range shard h || any_in_range shard hs

  -- A shard takes part if the identifier, an input or an output is in its range.
  unfoldable pub is_active : CompactTx → S → Bool
  is_active tx shard =
      I.hash_in_shard_range shard tx.id
      || any_in_range shard tx.inputs
      || any_in_range shard tx.uhs_outputs

  -- The calls of the prepare phase: the batch of each active shard is moved into the call.
  unfoldable pub lock_shards :
      Hash
      → List (List ℕ)
      → List (List CompactTx)
      → List S
      → Outcome (List S × List (List CompactTx) × List (Option (List Bool) × List ℕ))
  lock_shards id idxss txss [] = returned ([], txss, [])
  lock_shards id ([] ∷ idxss) (txs ∷ txss) (s ∷ shards) = do
    (shards', txss', answers) ← lock_shards id idxss txss shards
    returned (s ∷ shards', txs ∷ txss', answers)
  lock_shards id ((i ∷ idxs) ∷ idxss) (txs ∷ txss) (s ∷ shards) = do
    (s', res) ← I.lock_outputs txs id s
    (shards', txss', answers) ← lock_shards id idxss txss shards
    returned (s' ∷ shards', [] ∷ txss', (res, i ∷ idxs) ∷ answers)
  lock_shards id idxss txss (s ∷ shards) = terminated

  unfoldable pub apply_shards :
      Hash → List Bool → List (List ℕ) → List S → Outcome (List S × List Bool)
  apply_shards id flags idxss [] = returned ([], [])
  apply_shards id flags ([] ∷ idxss) (s ∷ shards) = do
    (shards', answers) ← apply_shards id flags idxss shards
    returned (s ∷ shards', answers)
  apply_shards id flags ((i ∷ idxs) ∷ idxss) (s ∷ shards) = do
    complete ← select flags (i ∷ idxs)
    (s', ok) ← I.apply_outputs complete id s
    (shards', answers) ← apply_shards id flags idxss shards
    returned (s' ∷ shards', ok ∷ answers)
  apply_shards id flags [] (s ∷ shards) = terminated

  unfoldable pub discard_shards : Hash → List (List ℕ) → List S → Outcome (List S × List Bool)
  discard_shards id idxss [] = returned ([], [])
  discard_shards id ([] ∷ idxss) (s ∷ shards) = do
    (shards', answers) ← discard_shards id idxss shards
    returned (s ∷ shards', answers)
  discard_shards id ((i ∷ idxs) ∷ idxss) (s ∷ shards) = do
    (shards', answers) ← discard_shards id idxss shards
    let (s', ok) = I.discard_dtx id s
    returned (s' ∷ shards', ok ∷ answers)
  discard_shards id [] (s ∷ shards) = terminated

module _ {S W : Type 0} (I : Interface S) where
  -- A constructed batch has no callbacks; a list of shards must not be empty.
  unfoldable pub distributed_tx : Hash → List S → W → Outcome (Run S W)
  distributed_tx dtx_id shards w =
      if is_empty shards
      then terminated
      else returned (record {
        dtx = record {
          dtx_id = dtx_id;
          txs = replicate (length shards) [];
          full_txs = [];
          tx_idxs = replicate (length shards) [];
          prepare_cb = none;
          commit_cb = none;
          discard_cb = none;
          done_cb = none;
          state = start;
          complete_txs = [];
        };
        shards = shards;
        world = w;
      })

  unfoldable pub add_tx : CompactTx → Run S W → Run S W × ℕ
  add_tx tx r =
      let active = map (is_active I tx) r.shards in
      (
        record r {
          dtx = record r.dtx {
            txs = append_where active tx r.dtx.txs;
            tx_idxs = append_where active (length r.dtx.full_txs) r.dtx.tx_idxs;
            full_txs = r.dtx.full_txs ++ tx ∷ [];
          };
        },
        length r.dtx.full_txs,
      )

  unfoldable pub add_txs : List CompactTx → Run S W → Run S W
  add_txs [] r = r
  add_txs (tx ∷ txs) r = add_txs txs (add_tx tx r).0

  unfoldable pub recover_prepare : List CompactTx → Run S W → Run S W
  recover_prepare txs r = add_txs txs (record r { dtx = record r.dtx { state = prepare } })

  unfoldable pub prepare_dtx : Run S W → Outcome (Run S W × Option (List Bool))
  prepare_dtx r =
      let (w, ok) = called r.dtx.prepare_cb (λ cb. cb r.dtx.dtx_id r.dtx.full_txs) r.world in
      if not ok then returned (fail (record r { world = w }), none) else do
        (shards', txs', answers) ← lock_shards I r.dtx.dtx_id r.dtx.tx_idxs r.dtx.txs r.shards
        ret ← collect answers (replicate (length r.dtx.full_txs) true)
        let r' : Run S W = record { dtx = record r.dtx { txs = txs' }; shards = shards'; world = w }
        elim ret [
          | none ↦ returned (fail r', none)
          | some flags ↦ returned (record r' { dtx = record r'.dtx { state = commit } }, some flags)
        ]

  unfoldable pub commit_dtx : List Bool → Run S W → Outcome (Run S W × Bool)
  commit_dtx flags r =
      let (w, ok) = called r.dtx.commit_cb (λ cb. cb r.dtx.dtx_id flags r.dtx.tx_idxs) r.world in
      if not ok then returned (fail (record r { world = w }), false) else do
        (shards', answers) ← apply_shards I r.dtx.dtx_id flags r.dtx.tx_idxs r.shards
        let r' : Run S W = record r { shards = shards'; world = w }
        if all_true answers
            then returned (record r' { dtx = record r'.dtx { state = discard } }, true)
            else returned (fail r', false)

  unfoldable pub discard_all : Run S W → Outcome (Run S W × Bool)
  discard_all r =
      let (w, ok) = called r.dtx.discard_cb (λ cb. cb r.dtx.dtx_id) r.world in
      if not ok then returned (fail (record r { world = w }), false) else do
        (shards', answers) ← discard_shards I r.dtx.dtx_id r.dtx.tx_idxs r.shards
        let (w', finished) = called r.dtx.done_cb (λ cb. cb r.dtx.dtx_id) w
        if not (all_true answers)
            then returned (fail (record r { shards = shards'; world = w }), false)
            else if finished
            then returned (
              record r { dtx = record r.dtx { state = done }; shards = shards'; world = w' },
              true,
            )
            else returned (fail (record r { shards = shards'; world = w' }), false)

  -- The three phases of `execute`, each run in its state; a failed phase ends the execution.
  unfoldable pub execute_prepare : Run S W → Outcome (Run S W × Bool)
  execute_prepare r = do
    (r', res) ← prepare_dtx r
    elim res [
      | none ↦ returned (r', false)
      | some flags ↦
          if length flags == length r'.dtx.full_txs
          then returned (record r' { dtx = record r'.dtx { complete_txs = flags } }, true)
          else terminated
    ]

  unfoldable pub execute_discard : Run S W → Outcome (Run S W × Option (List Bool))
  execute_discard r = elim r.dtx.state [
    | discard ↦ do
      (r', ok) ← discard_all r
      returned (r', if ok then some r'.dtx.complete_txs else none)
    | start ↦ returned (r, some r.dtx.complete_txs)
    | prepare ↦ returned (r, some r.dtx.complete_txs)
    | commit ↦ returned (r, some r.dtx.complete_txs)
    | done ↦ returned (r, some r.dtx.complete_txs)
    | failed ↦ returned (r, some r.dtx.complete_txs)
  ]

  unfoldable pub execute_commit : Run S W → Outcome (Run S W × Option (List Bool))
  execute_commit r = elim r.dtx.state [
    | commit ↦ do
      (r', ok) ← commit_dtx r.dtx.complete_txs r
      if ok then execute_discard r' else returned (r', none)
    | start ↦ execute_discard r
    | prepare ↦ execute_discard r
    | discard ↦ execute_discard r
    | done ↦ execute_discard r
    | failed ↦ execute_discard r
  ]

  unfoldable pub execute_start : Run S W → Outcome (Run S W × Option (List Bool))
  execute_start r = do
    (r', ok) ← execute_prepare r
    if ok then execute_commit r' else returned (r', none)

  unfoldable pub execute : Run S W → Outcome (Run S W × Option (List Bool))
  execute r = elim r.dtx.state [
    | start ↦ execute_start r
    | prepare ↦ execute_start r
    | commit ↦ execute_commit r
    | discard ↦ execute_commit r
    | done ↦ execute_commit r
    | failed ↦ execute_commit r
  ]
