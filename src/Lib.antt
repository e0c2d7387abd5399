-- ===== src/Lib.antt =====
-- OpenCBDC transaction processor: a model of its core, and what makes it correct.
--
-- The program keeps the set of unspent hashes of a digital currency (the UHS). A transaction spends
-- inputs and creates outputs; a sentinel validates and attests to it, and one of two architectures
-- settles it. In the two-phase one a coordinator spreads a batch of compact transactions (a `dtx`)
-- over locking shards, each of which owns a range of the first byte of a hash: it asks them to lock
-- the inputs, and then to apply or to cancel each transaction. In the other one shards attest to
-- the atomizer which inputs are unspent, the atomizer orders the transactions into blocks and
-- refuses what its recent blocks spend, the shards follow the blocks, and a watchtower answers for
-- the status of a transaction. In a third, programmable architecture a ticket machine numbers the
-- transactions, and a transaction (a ticket) locks keys on shards, where an older ticket wounds a
-- younger one that is in its way.
--
-- The files and the code they model, with paths from the root of the repository:
-- Serialization: src/util/serialization/format.hpp and buffer_serializer.cpp, over a list of bytes.
-- Crypto: src/util/common/hash.hpp, keys.hpp and hash_in_shard_range of config.cpp. SHA-256 and
--   libsecp256k1 are the fields of the record Crypto.
-- Transaction, Transaction/Validation: src/uhs/transaction/transaction.cpp, messages.cpp and
--   validation.cpp (check_tx, check_attestations).
-- CacheSet: src/util/common/cache_set.hpp.
-- LockingShard: src/uhs/twophase/locking_shard/locking_shard.cpp (lock_outputs, apply_outputs,
--   discard_dtx, check_unspent, check_tx_id).
-- DistributedTx: src/uhs/twophase/coordinator/distributed_tx.cpp (add_tx, prepare, commit, discard,
--   execute, the recover functions). DistributedTx/Commit fills the interface of a shard with
--   LockingShard.
-- CoordinatorLog: src/uhs/twophase/coordinator/state_machine.cpp (commit, commit_config).
-- Coordinator: src/uhs/twophase/coordinator/controller.cpp, the replication of the phases over
--   src/util/raft/node.cpp and the recovery of a failed leader's batches (recovery_func). The child
--   module Executor has the current batch and its senders (execute_transaction,
--   batch_executor_func), and Startup the tests of init and the flags of start_stop_func.
-- TxErrors, Atomizer: src/uhs/atomizer/watchtower/tx_error_messages.hpp and
--   src/uhs/atomizer/atomizer/atomizer.cpp (insert, insert_complete, make_block). Atomizer/Run has
--   the sequences of calls.
-- AtomizerShard: src/uhs/atomizer/shard/shard.cpp (digest_block, digest_transaction, open_db).
-- BlockCache, ErrorCache, Watchtower: src/uhs/atomizer/watchtower/block_cache.cpp, error_cache.cpp
--   and watchtower.cpp.
-- TicketMachine: src/parsec/ticket_machine/impl.cpp.
-- Sentinel: src/uhs/twophase/sentinel_2pc/controller.cpp (execute_transaction, gather_attestations)
--   and send_compact_tx of src/uhs/atomizer/sentinel/controller.cpp; the draws of a sentinel with
--   the answers to its requests are a list.
-- RuntimeShard: src/parsec/runtime_locking_shard/impl.cpp, a shard with a value, a read and write
--   lock and a queue for each key (acquire_lock, release_locks, wound_tickets), and in
--   RuntimeShard/Operations the calls of its interface (try_lock, prepare, commit, rollback,
--   finish, get_tickets). RuntimeShard/Steps has the sequences of calls. RuntimeShard/Replicated:
--   replicated_shard.cpp, and recover of impl.cpp; a buffer that is moved from is empty, as a
--   std::vector is that is moved. RuntimeShard/Server: server.cpp, where raft replicates a request
--   or does not.
-- Wallet: src/uhs/transaction/wallet.cpp, the coins (accumulate_inputs, send_to of an amount, fan,
--   update_balance, confirm_transaction, the seeds).
-- Common: numbers, lists, sets, maps and outcomes that the others share.
-- Tests: runs on concrete inputs and instances of the theorems.
--
-- The state of a class is a record with its members under their names, and a member function is a
-- function to the new state and the result. A call under a lock is one step. A coordinator runs its
-- batches one after the other, and what becomes of each command that it sends to its raft cluster
-- is an argument. A hash, a key and a signature are numbers, their bytes little-endian; sets and
-- maps are lists that are read through `contains` and `lookup`, and kept free of repetition where
-- the code asks for a size. An integer of 64 bits wraps by `% 2 ^ 64`. An index past the end, a
-- failed `assert` and a fatal message of the logger are `terminated`. All loops are by recursion on
-- a list or a number; the loop of acquire_locks has fuel, one more than the tickets in the queue,
-- and a round takes one off it; that of accumulate_inputs over the seeds has the number of seeds
-- left.
--
-- Not modelled: LevelDB and NuRaft, third-party code whose documented behaviour is an interface or
-- a parameter; threads, sockets, configuration files and logging; the controllers that connect the
-- components, but for that of the coordinator and parts of those of the sentinels; the keys and
-- files of the wallet, and the client; of the programmable platform under src/parsec all but the
-- ticket machine and the locking shard with its replicated one and their server.
pub mod Common
pub mod Serialization
pub mod Crypto
pub mod Transaction
pub mod CacheSet
pub mod LockingShard
pub mod DistributedTx
pub mod CoordinatorLog
pub mod Coordinator
pub mod TxErrors
pub mod Atomizer
pub mod AtomizerShard
pub mod BlockCache
pub mod ErrorCache
pub mod Watchtower
pub mod TicketMachine
pub mod Sentinel
pub mod RuntimeShard
pub mod Wallet
pub mod Tests
