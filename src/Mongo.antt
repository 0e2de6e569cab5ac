-- ===== src/Mongo.antt =====
-- stores/mongostore: the store on MongoDB.
pub mod Docs
pub mod Query
pub mod Driver
pub mod Writes
pub mod Claim
pub mod Finalize
pub mod Enqueue
pub mod Registry
pub mod Watch
pub mod Listing
pub mod Overview
pub mod Metrics
pub mod Config
pub mod Life
