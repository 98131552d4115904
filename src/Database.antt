-- ===== src/Database.antt =====
-- The database behind the services: tables of entities, the state, and the operations on it.
pub mod Table
pub mod Search
pub mod Distinct
pub mod Entities
pub mod Documents
pub mod State
pub mod Keeps
pub mod Returns
pub mod Frame
