-- ===== src/CoordinatorLog.antt =====
-- src/uhs/twophase/coordinator/state_machine.hpp and state_machine.cpp: the replicated state of the
-- coordinators, which says in which phase each batch is. The replication and its buffers, NuRaft,
-- are third-party code: a command arrives decoded, and the buffer that is kept with it for recovery
-- is of a type `B` of its own. The stubs for snapshots are not modelled.
pub mod Phases
use opencbdc_tx.Common.{
  ◌>>=◌, ℕ, ◌+◌, ◌%◌, ◌^◌, Bool, true, false, not, List, [], ◌∷◌, Option, none, some, ◌==◌,
  if◌then◌else◌, contains, insert, erase, lookup, emplace, remove, Outcome, returned, terminated,
}
use opencbdc_tx.Crypto.{Hash}

pub data Command : Type 0 where
  prepare : Hash → Command
  commit : Hash → Command
  discard : Hash → Command
  done : Hash → Command
  get : Command

pub record CoordinatorState (B : Type 0) : Type 0 where
  pub prepare_txs : List (Hash × B)
  pub commit_txs : List (Hash × B)
  pub discard_txs : List Hash

pub record StateMachine (B : Type 0) : Type 0 where
  pub last_committed_idx : ℕ
  pub state : CoordinatorState B

unfoldable pub state_machine : {B : Type 0} → StateMachine B
state_machine = record {
  last_committed_idx = 0;
  state = record { prepare_txs = []; commit_txs = []; discard_txs = [] };
}

unfoldable pub has_key : {B : Type 0} → Hash → List (Hash × B) → Bool
has_key id m = elim (lookup id m) [ none ↦ false | some b ↦ true ]

-- The switch over the command; a reply only to `get`.
unfoldable pub apply_command :
    {B : Type 0}
    → Command
    → B
    → CoordinatorState B
    → Outcome (CoordinatorState B × Option (CoordinatorState B))
apply_command (prepare id) buf s =
    if has_key id s.prepare_txs
    then terminated
    else returned (record s { prepare_txs = emplace id buf s.prepare_txs }, none)
apply_command (commit id) buf s =
    if has_key id s.prepare_txs
    then returned (
      record s { prepare_txs = remove id s.prepare_txs; commit_txs = emplace id buf s.commit_txs },
      none,
    )
    else terminated
apply_command (discard id) buf s =
    if has_key id s.commit_txs
    then returned (
      record s { commit_txs = remove id s.commit_txs; discard_txs = insert id s.discard_txs },
      none,
    )
    else terminated
apply_command (done id) buf s =
    if contains id s.discard_txs
    then returned (record s { discard_txs = erase id s.discard_txs }, none)
    else terminated
apply_command get buf s = returned (s, some s)

unfoldable pub commit_log :
    {B : Type 0}
    → ℕ
    → Command
    → B
    → StateMachine B
    → Outcome (StateMachine B × Option (CoordinatorState B))
commit_log log_idx comm buf m =
    if log_idx == (m.last_committed_idx + 1) % 2 ^ 64
    then (apply_command comm buf m.state >>= λ r.
        returned (record { last_committed_idx = log_idx; state = r.0 }, r.1))
    else terminated

unfoldable pub commit_config : {B : Type 0} → ℕ → StateMachine B → Outcome (StateMachine B)
commit_config log_idx m =
    if log_idx == (m.last_committed_idx + 1) % 2 ^ 64
    then returned (record m { last_committed_idx = log_idx })
    else terminated
