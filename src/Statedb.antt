-- ===== src/Statedb.antt =====
-- statedb/: the chain state, the state of one block, its flat cache, and the overlay of one call.
pub mod Nested
pub mod CallState
pub mod Immutable
pub mod FastCache
pub mod StateDb
