-- ===== src/Contacts.antt =====
-- chatxz/core/contacts.py: saved contacts, one JSON file for each peer.
pub mod Record
pub mod Names
pub mod Blocklist
pub mod Store
pub mod Merge
pub mod Listing
pub mod Save
pub mod Remove
pub mod Sync
