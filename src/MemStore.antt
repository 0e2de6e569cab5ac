-- ===== src/MemStore.antt =====
-- stores/memstore/memstore.go. The mutex makes each method one step, so a method is a function from
-- the store to the store and its result. `time.Now().UTC()` is the argument `now` of each call.
pub mod State
pub mod TaskMap
pub mod Enqueue
pub mod Claim
pub mod Finalize
pub mod Revive
pub mod Registry
pub mod Metrics
pub mod Invariant
pub mod Calls
pub mod Life
pub mod Api
