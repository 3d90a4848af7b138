-- ===== src/Statedb/CallState.antt =====
-- statedb/callstate.go: the overlay of one EVM call and its journal. An address, a hash or a log
-- pointer is a number. The Go slice `journal` is a list whose head is its last entry; `snapshots`
-- and `logs` are in the order of the slices. The fields that the journal can undo are one record.
pub mod Overlay
pub mod Ops
pub mod Undo
pub mod Access
pub mod Calls
pub mod Trail
pub mod Snapshot
pub mod Runs
pub mod Session
pub mod Reads
