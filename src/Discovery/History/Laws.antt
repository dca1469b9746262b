-- ===== src/Discovery/History/Laws.antt =====
-- The invariant of the table in chatxz/core/discovery.py over sequences of calls.
use chatxz.Prelude.{
  ℕ, ◌≡◌, refl, Bool, true, false, not, Option, none, some, List, [], ◌∷◌, All, Str, truthy,
  or_empty, strip, branch,
}
use chatxz.Discovery.Beacons.Laws.{on_beacon-IsSound}
use chatxz.Discovery.History.{
  next_answer, deduped, paths_refreshed, listed, Event, handle, Call, run, IsUsual, announced,
  beacon_came, link_opened, probed, probe_state_reset, rtt_cleared, timers_reset, probes_purged,
  refreshed, scope_purged, ghosts_purged, misclassified_purged, offline_purged, hashes_purged,
  started, stopped, enabled, disabled, is_plain_event,
}
use chatxz.Discovery.Invariant.{IsSound, purge-IsSound}
use chatxz.Discovery.Lifecycle.{clear_peers}
use chatxz.Discovery.Listing.{get_peers, is_expired, all_dated, shown}
use chatxz.Discovery.Probing.Laws.{
  update_peer_probe-IsSound, clear_peer_rtt-IsSound, reset_probe_timers-IsSound,
  purge_stale_probes-IsSound, refresh_stale_entries-IsSound,
}
use chatxz.Discovery.Ranking.{refresh_paths_for_scope, chosen_scope}
use chatxz.Discovery.Ranking.Laws.{dedupe_identities-IsSound}
use chatxz.Discovery.Receive.Laws.{on_announce-IsSound}
use chatxz.Discovery.Remove.{
  purge, purge_out_of_scope, is_out_of_scope, unregister_row, purge_ipless_non_serial, is_ghost,
  leave, purge_misclassified_serial, is_misclassified, forget_row, purge_offline_serial_peers,
  is_serial_row, purge_hashes, hash_set, is_target,
}
use chatxz.Discovery.State.{Row, PeerDiscovery, World, scope_of, normalize_hash}
use chatxz.Discovery.State.Keys.{is_plain}
use chatxz.Discovery.Store.{register_link_peer}
use chatxz.Discovery.Store.Invariant.{store_peer-IsSound}
use chatxz.Discovery.Store.Merge.{same_table, reset_peer_probe_state-IsSound}
use chatxz.Net.Iface.{Host}

module _ (scope : Str) (locals : List Str) where
  abbrev Sound : PeerDiscovery → Type 0
  Sound d = IsSound scope locals d

  abbrev SoundFirst : PeerDiscovery × ℕ → Type 0
  SoundFirst p = IsSound scope locals p.0

  register_link_peer-IsSound :
      (w : World) (hash name via ip : Option Str) (d : PeerDiscovery)
      → scope_of w ≡ scope
      → is_plain via ≡ true
      → Sound d
      → Sound (register_link_peer w hash name via ip d)
  unfolding register_link_peer
  register_link_peer-IsSound w hash name via ip d same plain s =
      branch Sound (not (truthy (normalize_hash hash))) _ _ s
        (branch Sound _ _ _ s (store_peer-IsSound scope locals w same _ d plain s))

  purge_out_of_scope-IsSound :
      (scope_ip : Option Str) (d : PeerDiscovery)
      → Sound d
      → Sound (purge_out_of_scope scope_ip d).0
  unfolding purge_out_of_scope
  purge_out_of_scope-IsSound scope_ip d s =
      branch SoundFirst (not (truthy (strip (or_empty scope_ip)))) _ _ s (
        purge-IsSound scope locals (is_out_of_scope (strip (or_empty scope_ip))) unregister_row
          (λ k r d. refl) (λ k r d. refl) d.peers d 0 s)

  purge_ipless_non_serial-IsSound :
      (d : PeerDiscovery) → Sound d → Sound (purge_ipless_non_serial d).0
  unfolding purge_ipless_non_serial
  purge_ipless_non_serial-IsSound d s =
      purge-IsSound scope locals is_ghost leave (λ k r d. refl) (λ k r d. refl) d.peers d 0 s

  purge_misclassified_serial-IsSound :
      (d : PeerDiscovery) → Sound d → Sound (purge_misclassified_serial d).0
  unfolding purge_misclassified_serial
  purge_misclassified_serial-IsSound d s =
      purge-IsSound scope locals (is_misclassified d.net) forget_row (λ k r d. refl) (λ k r d. refl)
        d.peers d 0 s

  purge_offline_serial_peers-IsSound :
      (w : World) (d : PeerDiscovery) → Sound d → Sound (purge_offline_serial_peers w d).0
  unfolding purge_offline_serial_peers
  purge_offline_serial_peers-IsSound w d s = branch SoundFirst w.usb _ _ s (
      purge-IsSound scope locals is_serial_row forget_row (λ k r d. refl) (λ k r d. refl) d.peers d
        0 s)

  purge_hashes-IsSound :
      (hashes : List (Option Str)) (d : PeerDiscovery) → Sound d → Sound (purge_hashes hashes d).0
  unfolding purge_hashes
  purge_hashes-IsSound hashes d s = branch SoundFirst _ _ _ s (
      same_table scope locals (purge (is_target (hash_set hashes)) leave d.peers d 0).0 _ refl refl
        (purge-IsSound scope locals (is_target (hash_set hashes)) leave (λ k r d. refl)
          (λ k r d. refl) d.peers d 0 s))

  refresh_paths_for_scope-IsSound :
      (w : World) (scope_ip : Option Str) (d : PeerDiscovery)
      → Sound d
      → Sound (refresh_paths_for_scope w scope_ip d).0
  unfolding refresh_paths_for_scope
  refresh_paths_for_scope-IsSound w scope_ip d s =
      dedupe_identities-IsSound scope locals w (chosen_scope w scope_ip) _ (
        purge_misclassified_serial-IsSound _
          (purge_out_of_scope-IsSound (chosen_scope w scope_ip) d s))

  get_peers-IsSound :
      (w : World) (scope_ip : Option Str) (d : PeerDiscovery)
      → Sound d
      → Sound (get_peers w scope_ip d).0
  unfolding get_peers
  get_peers-IsSound w scope_ip d s =
      let d' = (purge (is_expired w) leave d.peers d 0).0 in
      let keep = λ (b : Bool) (x y : PeerDiscovery × Option (List Row)).
        branch (λ (p : PeerDiscovery × Option (List Row)). Sound p.0) b x y in
      keep (not d.accept_peers) (d, some []) _ s
        (keep (not (all_dated d.peers)) (d, none) (d', some (shown w scope_ip d'.peers)) s
          (purge-IsSound scope locals (is_expired w) leave (λ k r d. refl) (λ k r d. refl) d.peers d
            0 s))

  clear_peers-IsSound : (d : PeerDiscovery) → Sound d → Sound (clear_peers d)
  clear_peers-IsSound d s = record { rows = tt; distinct = tt; locals_same = s.locals_same }

  handle-IsSound :
      (host : Host) (w : World) (e : Event) (d : PeerDiscovery)
      → scope_of w ≡ scope
      → is_plain_event e ≡ true
      → Sound d
      → Sound (handle host w e d)
  unfolding handle
  handle-IsSound host w (announced a) d same p s =
      on_announce-IsSound scope locals host w a d same s
  handle-IsSound host w (beacon_came answers b dest ident source) d same p s =
      on_beacon-IsSound scope locals next_answer w b dest ident source d answers same s
  handle-IsSound host w (link_opened hash name via ip) d same p s =
      register_link_peer-IsSound w hash name via ip d same p s
  handle-IsSound host w (probed hash rtt ok) d same p s =
      update_peer_probe-IsSound scope locals w hash rtt ok d s
  handle-IsSound host w (probe_state_reset hash) d same p s =
      reset_peer_probe_state-IsSound scope locals w hash d s
  handle-IsSound host w (rtt_cleared hash) d same p s = clear_peer_rtt-IsSound scope locals hash d s
  handle-IsSound host w timers_reset d same p s = reset_probe_timers-IsSound scope locals d s
  handle-IsSound host w (probes_purged l) d same p s =
      purge_stale_probes-IsSound scope locals w l d s
  handle-IsSound host w (refreshed max_age probe_stale max_failures) d same p s =
      refresh_stale_entries-IsSound scope locals w max_age probe_stale max_failures d s
  handle-IsSound host w (scope_purged scope_ip) d same p s = purge_out_of_scope-IsSound scope_ip d s
  handle-IsSound host w ghosts_purged d same p s = purge_ipless_non_serial-IsSound d s
  handle-IsSound host w misclassified_purged d same p s = purge_misclassified_serial-IsSound d s
  handle-IsSound host w offline_purged d same p s = purge_offline_serial_peers-IsSound w d s
  handle-IsSound host w (hashes_purged hashes) d same p s = purge_hashes-IsSound hashes d s
  handle-IsSound host w (deduped scope_ip) d same p s =
      dedupe_identities-IsSound scope locals w scope_ip d s
  handle-IsSound host w (paths_refreshed scope_ip) d same p s =
      refresh_paths_for_scope-IsSound w scope_ip d s
  handle-IsSound host w (listed scope_ip) d same p s = get_peers-IsSound w scope_ip d s
  handle-IsSound host w started d same p s = same_table scope locals d _ refl refl s
  handle-IsSound host w stopped d same p s = same_table scope locals d _ refl refl s
  handle-IsSound host w (enabled true) d same p s =
      clear_peers-IsSound (record d { accept_peers = true })
        (same_table scope locals d _ refl refl s)
  handle-IsSound host w (enabled false) d same p s = same_table scope locals d _ refl refl s
  handle-IsSound host w disabled d same p s =
      clear_peers-IsSound (record d { accept_peers = false })
        (same_table scope locals d _ refl refl s)

  -- Any sequence of announces, beacons, links, probe results, purges, listings and switches, each
  -- under the same scope, and each link over a transport that is not "serial" in other letters,
  -- keeps the table in order: no key twice, and every row under the key of its own hash and
  -- transport, a serial row without an address, a LAN row with one in the scope if there is a
  -- scope, and no row of the machine's own hash or identity; the own hashes stay as they were.
  pub run-IsSound :
      (cs : List Call) (d : PeerDiscovery) → All (IsUsual scope) cs → Sound d → Sound (run cs d)
  unfolding run
  run-IsSound [] d u s = s
  run-IsSound (c ∷ cs) d u s =
      run-IsSound cs (handle c.host c.world c.event d) u.1
        (handle-IsSound c.host c.world c.event d u.0.0 u.0.1 s)
