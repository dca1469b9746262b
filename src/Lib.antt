-- ===== src/Lib.antt =====
-- chatxz is a peer-to-peer chat over Reticulum, on a LAN and over USB serial cables at once. This
-- library models the Python core that decides who a peer is, and over which transport it is reached.
--
-- Parts, and the files that model them:
--
-- * Net (chatxz/core/lan_rns.py and chatxz/core/transport_isolation.py). `Net.State.Net` is what the
--   two modules read and write in the transport: the interfaces, `path_table`, `announce_table`, the
--   set of pinned serial peers, the known UDP peers, and, as a list, the path requests that were
--   handed to Reticulum. Net/Iface has the families and the health of interfaces, Net/Hash the
--   destination hashes, Net/Dual the two zones (serial and LAN), Net/Paths the reads and clean-ups of
--   one peer's route, Net/Prune the loops over the whole table, Net/Pins the pinned serial routes,
--   their repair from announces and the wait for a route, Net/Peers the known addresses, and
--   Net/Isolation the patched `path_request` and `outbound`, with the library's own `path_request`
--   as a parameter.
-- * Scope (chatxz/utils/lan_scope.py): when two addresses are on one LAN.
-- * Contacts (chatxz/core/contacts.py). `Contacts.Store.Store` is the directory of contact files and
--   the blocklist `.deleted.json`. Contacts/Record is one record, its normal form and its hashes;
--   Contacts/Names the display names; Contacts/Blocklist the deleted peers; Contacts/Store the files;
--   Contacts/Merge and Contacts/Listing `list_contacts`, which merges the files of one peer;
--   Contacts/Save `save_contact`; Contacts/Remove `delete_contact`; Contacts/Sync what discovery
--   changes in saved contacts (Match, Refresh, Migrate, Endpoint).
-- * Offers (chatxz/core/lan_transfer.py): the offers of direct HTTP transfers.
-- * Discovery (chatxz/core/discovery.py). `Discovery.State.PeerDiscovery` is the class of that name:
--   the dict of peers, the switches, the times of log lines, the own hashes, and, as a list, the calls
--   of its two callbacks; the known UDP peers are those of Net. Discovery/Scope has
--   `_attach_peer_ip` and `_sanitize_peer_scope`, Discovery/Remove `_remove_peer_entry` and the
--   purges, Discovery/Probing the results of probes, Discovery/Store `_store_peer`, Discovery/Receive
--   `_on_announce`, Discovery/Beacons `_on_beacon` with `peer_record_from_beacon` of
--   chatxz/core/peer_identity.py, Discovery/Lifecycle the own hashes and the switches.
--   Discovery/Ranking has `_prefer_peer` and `dedupe_identities`, Discovery/Listing `get_peers`.
--   Discovery/Invariant says when a table is in order, Discovery/History has sequences of calls.
-- * Identity (chatxz/core/peer_identity.py, with `message_dest_hash_for_identity` of discovery.py):
--   `register_beacon_identity` on Reticulum's dict of known destinations. The calls of Reticulum, base64
--   and json are the fields of a record, `Reticulum`. It is what `on_beacon` is run with.
-- * Targets (chatxz/core/lan_targets.py): the broadcast and unicast targets on the LAN.
-- * Probe (chatxz/core/peer_probe.py): probe intervals, pending UDP probes, the window of samples.
-- * Prelude and Dict: text, numbers and dicts of Python; Examples: runs at concrete inputs.
--
-- How they interact: the contacts use the LAN scope to decide between two addresses, and the
-- blocklist to refuse peers that discovery finds; discovery registers addresses with Net and asks
-- it which interface received an announce, and keeps peers apart by the LAN scope; the route
-- clean-ups and the isolation share the families of interfaces and the test whether both zones are
-- up.
--
-- What is simplified. Text is a list of code points, white space and case are those of ASCII. A
-- row of a table is its length and the slots that the code reads, times of rows are left out. A
-- value that is absent and a JSON null are one in what comes from the network; a contact file
-- holds no null, and the code writes none. A call that takes a lock is one step, so threads
-- interleave between calls only. Files that cannot be written, and exceptions that the code
-- swallows, are left out. Facts about the machine (Android, a reachable LAN) are arguments, and so
-- are the time and random tokens of an offer. The second pass of `list_contacts` takes turns, as
-- many as there are entries; each turn takes one entry at least. The wait for a route runs over
-- the list of turns before its deadline.
--
-- The table of discovery has no address where the code may write an empty one, its times are whole
-- numbers, and `serial_discovery_active` is an argument of a call. What Reticulum reads out of an
-- announce (its hash in print, the identity and its key, the JSON text) is an argument. `on_beacon`
-- takes `register_beacon_identity` as an argument, a function of the beacon and the identities that it
-- reads and writes, so that a history of calls may have any; Identity models that function. What an
-- announce does to the identities is left out.
--
-- A UDP probe is modelled for a host that is not blank and a socket without errors. The dict of a probe
-- is an object that the table of pending probes and the waiting thread share: the table holds
-- references, and an acknowledgement writes to what its reference stands for.
--
-- Not modelled: sockets and HTTP, messaging.py and rnsd, the set-up of Reticulum's interfaces, the
-- Rust crates and the Android shell. In lan_rns.py that is the suppression of offline interfaces, the
-- detaching of unhealthy ones and the patch of the UDP interface.
pub mod Prelude
pub mod Dict
pub mod Net
pub mod Scope
pub mod Contacts
pub mod Offers
pub mod Discovery
pub mod Identity
pub mod Targets
pub mod Probe
pub mod Examples
