-- ===== src/Submission.antt =====
-- The submission service (services/submission): its entities, its database tables, and the use cases
-- that move a submission through its life.
pub mod Errors
pub mod Entity
pub mod Tables
pub mod Store
pub mod Message
pub mod Create
pub mod Rejudge
pub mod Apply
pub mod Effects
pub mod Relay
pub mod ResultConsumer
pub mod Consistency
pub mod Lifecycle
pub mod EventHub
mod Examples
