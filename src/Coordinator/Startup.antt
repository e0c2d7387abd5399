-- ===== src/Coordinator/Startup.antt =====
-- controller.cpp: the tests of `init` on the configuration, and the flags through which raft starts
-- and stops the node. `size() - 1` wraps to 2 ^ 64 - 1 where the size is 0; an index past the end is
-- `terminated`.
pub mod Checked
use opencbdc_tx.Common.{
  ℕ, ◌+◌, ◌-◌, ◌%◌, ◌^◌, Bool, true, false, not, ◌||◌, ltb, List, [], ◌∷◌, Option, none, some,
  length, get_elem?, if◌then◌else◌, Outcome, returned, terminated, ◌>>=◌,
}

-- `size() - 1`
unfoldable pub last_index : ℕ → ℕ
last_index n = (n + (2 ^ 64 - 1)) % 2 ^ 64

module _ {E : Type 0} where
  unfoldable pub lacks_node : ℕ → List (List E) → Bool
  lacks_node node_id [] = false
  lacks_node node_id (vec ∷ vecs) =
      if ltb (last_index (length vec)) node_id then true else lacks_node node_id vecs

  -- The tests on one vector of endpoints.
  unfoldable pub is_refused : ℕ → ℕ → List (List E) → Bool
  is_refused coordinator_id node_id endpoints =
      ltb (last_index (length endpoints)) coordinator_id || lacks_node node_id endpoints

  unfoldable pub at : List E → ℕ → Outcome E
  at es i = elim (get_elem? es i) [ none ↦ terminated | some e ↦ returned e ]

  unfoldable pub endpoints_of : List (List E) → ℕ → Outcome (List E)
  endpoints_of vecs i = elim (get_elem? vecs i) [ none ↦ terminated | some v ↦ returned v ]

  -- `init` up to the start of raft: the handler's endpoint and the raft endpoints, or refused.
  unfoldable pub init : ℕ → ℕ → List (List E) → List (List E) → Outcome (Option (E × List E))
  init coordinator_id node_id endpoints raft_endpoints =
      if is_refused coordinator_id node_id endpoints then returned none else do
        vec ← endpoints_of endpoints coordinator_id
        handler ← at vec node_id
        if is_refused coordinator_id node_id raft_endpoints then returned none else do
          rafts ← endpoints_of raft_endpoints coordinator_id
          returned (some (handler, rafts))

pub record Flags : Type 0 where
  pub start_flag : Bool
  pub stop_flag : Bool
  pub quit : Bool

pub data Notice : Type 0 where
  become_leader : Notice
  become_follower : Notice
  quitting : Notice

-- `raft_callback` and `quit`.
unfoldable pub notify : Notice → Flags → Flags
notify become_leader f = record f { start_flag = true; stop_flag = false }
notify become_follower f = record f { start_flag = false; stop_flag = true }
notify quitting f = record f { quit = true }

pub data Action : Type 0 where
  starts : Action
  stops : Action
  quits : Action

-- A round of `start_stop_func`: `none` where it waits; the assertion is on the two flags.
unfoldable pub next_action : Flags → Option (Outcome (Flags × Action))
next_action f =
    if not (f.start_flag || f.quit || f.stop_flag)
    then none
    else if f.quit
    then some (returned (f, quits))
    else if f.start_flag
    then (if f.stop_flag
        then some terminated
        else some (returned (record f { start_flag = false; stop_flag = false }, starts)))
    else if f.stop_flag
    then some (returned (record f { start_flag = false; stop_flag = false }, stops))
    else some terminated
