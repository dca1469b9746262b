-- ===== src/Contacts/Sync.antt =====
-- How live discovery refreshes saved contacts in chatxz/core/contacts.py.
pub mod Match
pub mod Refresh
pub mod Migrate
pub mod Endpoint
