-- ===== src/Tests.antt =====
-- Concrete runs of the model, and each theorem with hypotheses at an input that meets them.
mod Sample
mod Transactions
mod LockingShards
mod Atomizers
mod DistributedTxs
mod Coordinators
mod Sentinels
mod Tickets
mod RuntimeShards
mod Wallets
