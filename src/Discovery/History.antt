-- ===== src/Discovery/History.antt =====
-- The calls that the table of chatxz/core/discovery.py sees, one after the other.
pub mod Laws
use chatxz.Prelude.{ℕ, ◌≡◌, Bool, true, Option, List, [], ◌∷◌, Str}
use chatxz.Net.Iface.{Host}
use chatxz.Discovery.State.{PeerDiscovery, World, scope_of}
use chatxz.Discovery.State.Keys.{is_plain}
use chatxz.Discovery.Remove.{
  purge_out_of_scope, purge_ipless_non_serial, purge_misclassified_serial,
  purge_offline_serial_peers, purge_hashes,
}
use chatxz.Discovery.Probing.{
  Limits, reset_peer_probe_state, reset_probe_timers, clear_peer_rtt, update_peer_probe,
  purge_stale_probes, refresh_stale_entries,
}
use chatxz.Discovery.Store.{register_link_peer}
use chatxz.Discovery.Ranking.{dedupe_identities, refresh_paths_for_scope}
use chatxz.Discovery.Listing.{get_peers}
use chatxz.Discovery.Receive.{Announce, on_announce}
use chatxz.Discovery.Beacons.{Beacon, on_beacon}
use chatxz.Discovery.Lifecycle.{start, stop, enable_discovery, disable_discovery}

-- A call of a method with its arguments.
pub data Event : Type 0 where
  announced : Announce → Event
  beacon_came : List Str → Beacon → Option Str → Option Str → Option Str → Event
  link_opened : Option Str → Option Str → Option Str → Option Str → Event
  probed : Option Str → Option ℕ → Bool → Event
  probe_state_reset : Option Str → Event
  rtt_cleared : Option Str → Event
  timers_reset : Event
  probes_purged : Limits → Event
  refreshed : ℕ → ℕ → ℕ → Event
  scope_purged : Option Str → Event
  ghosts_purged : Event
  misclassified_purged : Event
  offline_purged : Event
  hashes_purged : List (Option Str) → Event
  deduped : Option Str → Event
  paths_refreshed : Option Str → Event
  listed : Option Str → Event
  started : Event
  stopped : Event
  enabled : Bool → Event
  disabled : Event

-- What registering an identity gives back in the calls of one handler, one after the other.
abbrev pub next_answer : Beacon → List Str → List Str × Str
next_answer b [] = ([], [])
next_answer b (a ∷ answers) = (answers, a)

unfoldable pub handle : Host → World → Event → PeerDiscovery → PeerDiscovery
handle host w (announced a) d = on_announce host w a d
handle host w (beacon_came answers b dest ident source) d =
    (on_beacon next_answer w b dest ident source d answers).0
handle host w (link_opened hash name via ip) d = register_link_peer w hash name via ip d
handle host w (probed hash rtt ok) d = update_peer_probe w hash rtt ok d
handle host w (probe_state_reset hash) d = reset_peer_probe_state w hash d
handle host w (rtt_cleared hash) d = (clear_peer_rtt hash d).0
handle host w timers_reset d = reset_probe_timers d
handle host w (probes_purged l) d = (purge_stale_probes w l d).0
handle host w (refreshed max_age probe_stale max_failures) d =
    (refresh_stale_entries w max_age probe_stale max_failures d).0
handle host w (scope_purged scope_ip) d = (purge_out_of_scope scope_ip d).0
handle host w ghosts_purged d = (purge_ipless_non_serial d).0
handle host w misclassified_purged d = (purge_misclassified_serial d).0
handle host w offline_purged d = (purge_offline_serial_peers w d).0
handle host w (hashes_purged hashes) d = (purge_hashes hashes d).0
handle host w (deduped scope_ip) d = (dedupe_identities w scope_ip d).0
handle host w (paths_refreshed scope_ip) d = (refresh_paths_for_scope w scope_ip d).0
handle host w (listed scope_ip) d = (get_peers w scope_ip d).0
handle host w started d = start d
handle host w stopped d = stop d
handle host w (enabled clear) d = enable_discovery clear d
handle host w disabled d = disable_discovery d

-- A call, with what it finds outside.
pub record Call : Type 0 where
  pub host : Host
  pub world : World
  pub event : Event

unfoldable pub run : List Call → PeerDiscovery → PeerDiscovery
run [] d = d
run (c ∷ cs) d = run cs (handle c.host c.world c.event d)

-- A link names its transport; every other call brings its own.
abbrev pub is_plain_event : Event → Bool
is_plain_event (link_opened hash name via ip) = is_plain via
is_plain_event _ = true

-- The call finds the scope, and its transport is not a misspelt "serial".
abbrev pub IsUsual : Str → Call → Type 0
IsUsual scope c = (scope_of c.world ≡ scope) × (is_plain_event c.event ≡ true)
