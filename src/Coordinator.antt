-- ===== src/Coordinator.antt =====
-- src/uhs/twophase/coordinator/controller.hpp and controller.cpp: the node that batches transactions,
-- replicates the phase of each batch and recovers the batches of a failed leader. The raft cluster,
-- NuRaft behind util/raft/node.cpp, is third-party code: what becomes of the n-th command sent is a
-- parameter, `fate`. The lambdas that run batches on threads of their own are run one after the other.
pub mod Executor
pub mod Batching
pub mod Log
pub mod Tracked
pub mod Recorded
pub mod Recovery
pub mod Remade
pub mod Attempt
pub mod Takeover
pub mod Fitting
pub mod Complete
pub mod Forgotten
pub mod Startup
use opencbdc_tx.Common.{
  ℕ, suc, ◌+◌, ◌%◌, ◌^◌, Bool, true, false, List, [], ◌∷◌, ◌++◌, Option, none, some, Outcome,
  returned, terminated, ◌>>=◌,
}
use opencbdc_tx.Crypto.{Hash}
use opencbdc_tx.Transaction.{CompactTx}
use opencbdc_tx.CoordinatorLog.{Command, CoordinatorState, StateMachine, commit_log}
use opencbdc_tx.DistributedTx.{
  Interface, DistributedTx, Run, distributed_tx, recover_prepare, recover_commit, recover_discard,
  set_prepare_cb, set_commit_cb, set_discard_cb, set_done_cb, execute, prepare, commit, discard,
  done, start, failed, DtxState,
}

-- `sm_command::m_data`.
pub data Payload : Type 0 where
  no_data : Payload
  prepare_tx : List CompactTx → Payload
  commit_tx : List Bool → List (List ℕ) → Payload

-- `replicate_sync` of a command: it is applied and answered, it is applied and the answer is lost
-- with the leadership, or it is not applied.
pub data Fate : Type 0 where
  acknowledged : Fate
  unacknowledged : Fate
  dropped : Fate

pub record Raft : Type 0 where
  pub machine : StateMachine Payload
  pub fate : ℕ → Fate
  pub sent : ℕ

abbrev pub State : Type 0
State = CoordinatorState Payload

-- The cluster; it is `terminated` where the state machine has met a fatal error.
abbrev pub World : Type 0
World = Outcome Raft

unfoldable pub apply_log : Command → Payload → Raft → Outcome (Raft × Option State)
apply_log comm buf raft =
    commit_log ((raft.machine.last_committed_idx + 1) % 2 ^ 64) comm buf raft.machine >>= λ r.
    returned (record raft { machine = r.0; sent = suc raft.sent }, r.1)

-- The answer of a command that was applied, where it arrives.
unfoldable pub answered : Bool → Outcome (Raft × Option State) → World × Option (Option State)
answered arrives terminated = (terminated, none)
answered true (returned (raft, reply)) = (returned raft, some reply)
answered false (returned (raft, reply)) = (returned raft, none)

unfoldable pub replicate_sm_command : Command → Payload → World → World × Option (Option State)
replicate_sm_command comm buf terminated = (terminated, none)
replicate_sm_command comm buf (returned raft) = elim (raft.fate raft.sent) [
  | acknowledged ↦ answered true (apply_log comm buf raft)
  | unacknowledged ↦ answered false (apply_log comm buf raft)
  | dropped ↦ (returned (record raft { sent = suc raft.sent }), none)
]

-- `has_value`, of the response to a command.
unfoldable pub replicated : World × Option (Option State) → World × Bool
replicated (w, none) = (w, false)
replicated (w, some reply) = (w, true)

unfoldable pub prepare_cb : Hash → List CompactTx → World → World × Bool
prepare_cb id txs w = replicated (replicate_sm_command (Command.prepare id) (prepare_tx txs) w)

unfoldable pub commit_cb : Hash → List Bool → List (List ℕ) → World → World × Bool
commit_cb id flags idxs w =
    replicated (replicate_sm_command (Command.commit id) (commit_tx flags idxs) w)

unfoldable pub discard_cb : Hash → World → World × Bool
discard_cb id w = replicated (replicate_sm_command (Command.discard id) no_data w)

unfoldable pub done_cb : Hash → World → World × Bool
done_cb id w = replicated (replicate_sm_command (Command.done id) no_data w)

-- The callbacks that are set in each state: none for the phase that the batch is in, which the state
-- machine knows of.
unfoldable pub set_cbs_in : DtxState → DistributedTx World → DistributedTx World
set_cbs_in prepare d = set_done_cb done_cb (set_discard_cb discard_cb (set_commit_cb commit_cb d))
set_cbs_in commit d = set_done_cb done_cb (set_discard_cb discard_cb (set_prepare_cb prepare_cb d))
set_cbs_in discard d = set_done_cb done_cb (set_commit_cb commit_cb (set_prepare_cb prepare_cb d))
set_cbs_in done d =
    set_discard_cb discard_cb (set_commit_cb commit_cb (set_prepare_cb prepare_cb d))
set_cbs_in start d =
    set_done_cb done_cb
      (set_discard_cb discard_cb (set_commit_cb commit_cb (set_prepare_cb prepare_cb d)))
set_cbs_in failed d =
    set_done_cb done_cb
      (set_discard_cb discard_cb (set_commit_cb commit_cb (set_prepare_cb prepare_cb d)))

unfoldable pub batch_set_cbs : DistributedTx World → DistributedTx World
batch_set_cbs d = set_cbs_in d.state d

module _ {S : Type 0} (I : Interface S) where
  -- The batches that the state machine knows, made anew for recovery. A payload that does not
  -- decode is `terminated`.
  unfoldable pub prepare_coordinators :
      List S → World → List (Hash × Payload) → Outcome (List (DistributedTx World))
  prepare_coordinators shards w [] = returned []
  prepare_coordinators shards w ((id, prepare_tx txs) ∷ rest) = do
    r ← distributed_tx I id shards w
    others ← prepare_coordinators shards w rest
    returned ((recover_prepare I txs r).dtx ∷ others)
  prepare_coordinators shards w ((id, buf) ∷ rest) = terminated

  unfoldable pub commit_coordinators :
      List S → World → List (Hash × Payload) → Outcome (List (DistributedTx World))
  commit_coordinators shards w [] = returned []
  commit_coordinators shards w ((id, commit_tx flags idxs) ∷ rest) = do
    r ← distributed_tx I id shards w
    others ← commit_coordinators shards w rest
    returned (recover_commit flags idxs r.dtx ∷ others)
  commit_coordinators shards w ((id, buf) ∷ rest) = terminated

  unfoldable pub discard_coordinators :
      List S → World → List Hash → Outcome (List (DistributedTx World))
  discard_coordinators shards w [] = returned []
  discard_coordinators shards w (id ∷ rest) = do
    r ← distributed_tx I id shards w
    others ← discard_coordinators shards w rest
    returned (recover_discard r.dtx ∷ others)

  -- The loop over the batches, with the flag `success`.
  unfoldable pub execute_all :
      List (DistributedTx World) → List S → World → Outcome (List S × World × Bool)
  execute_all [] shards w = returned (shards, w, true)
  execute_all (d ∷ ds) shards w = do
    (r, res) ← execute I (record { dtx = batch_set_cbs d; shards = shards; world = w })
    (shards', w', ok) ← execute_all ds r.shards r.world
    returned (shards', w', elim res [ none ↦ false | some flags ↦ ok ])

  unfoldable pub recover_batches : State → List S → World → Outcome (List S × World × Bool)
  recover_batches state shards w = do
    preps ← prepare_coordinators shards w state.prepare_txs
    coms ← commit_coordinators shards w state.commit_txs
    diss ← discard_coordinators shards w state.discard_txs
    execute_all (preps ++ coms ++ diss) shards w

  unfoldable pub recovery_func : List S → World → Outcome (List S × World × Bool)
  recovery_func shards w =
      let (w', res) = replicate_sm_command Command.get no_data w in
      elim res [
        | none ↦ returned (shards, w', false)
        | some reply ↦ elim reply [
          | none ↦ returned (shards, w', false)
          | some state ↦ recover_batches state shards w'
        ]
      ]

  -- The loop of `start`, which tries until it recovers or is not the leader: `leads` has the answers
  -- of `is_leader` after the attempts that fail, and the loop ends where they end.
  unfoldable pub recover_loop : List Bool → List S → World → Outcome (List S × World × Bool)
  recover_loop [] shards w = recovery_func shards w
  recover_loop (lead ∷ leads) shards w = recovery_func shards w >>= λ r. elim r.2 [
    | true ↦ returned r
    | false ↦ elim lead [ true ↦ recover_loop leads r.0 r.1 | false ↦ returned r ]
  ]
