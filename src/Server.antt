-- ===== src/Server.antt =====
-- server/: the state of a running instance, its requests and answers, and the handlers' steps.
pub mod Fs
pub mod Exec
pub mod Post
pub mod Storage
pub mod Types
pub mod Quota
pub mod Purge
pub mod Owner
pub mod Upload
pub mod Lifecycle
pub mod Session
pub mod Download
pub mod Locks
pub mod IpFilter
pub mod Auth
pub mod Archive
pub mod Collection
pub mod Redact
pub mod Caching
mod Toy
mod Sample
mod Tests
