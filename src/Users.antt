-- ===== src/Users.antt =====
-- src/users: the schema, the collection that holds the documents, and the service over it.
pub mod Schema
pub mod Collection
pub mod Updates
pub mod Documents
pub mod Lookups
pub mod Invariant
pub mod Changes
pub mod Quiet
pub mod Service
pub mod Races
pub mod Listing
pub mod Pages
pub mod Json
pub mod Seed
