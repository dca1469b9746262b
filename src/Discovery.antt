-- ===== src/Discovery.antt =====
-- chatxz/core/discovery.py: the table of peers that announces and beacons keep up to date.
pub mod State
pub mod Scope
pub mod Remove
pub mod Probing
pub mod Invariant
pub mod Store
pub mod Ranking
pub mod Listing
pub mod Receive
pub mod Beacons
pub mod Lifecycle
pub mod History
