-- ===== src/Net.antt =====
-- chatxz/core/lan_rns.py and chatxz/core/transport_isolation.py: the transport interfaces, the path
-- table and the rules that keep serial and LAN routes apart.
pub mod Iface
pub mod State
pub mod Dual
pub mod Paths
pub mod Prune
pub mod Pins
pub mod Peers
pub mod Isolation
pub mod Hash
