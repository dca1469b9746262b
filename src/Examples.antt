-- ===== src/Examples.antt =====
-- Runs of the modelled code at concrete inputs.
pub mod Identities
pub mod Machine
pub mod Network
pub mod Zones
pub mod Book
pub mod People
pub mod Changes
pub mod Transfers
pub mod Discovered
pub mod Broadcasts
pub mod Watched
