-- ===== src/Discovery/Probing.antt =====
-- Probe results in the rows of chatxz/core/discovery.py, and the eviction of peers that are silent.
pub mod Laws
pub mod Silence
use chatxz.Prelude.{
  ℕ, zero, suc, ◌+◌, Bool, true, false, not, ◌&&◌, ◌||◌, Option, none, some, List, [], ◌∷◌, ltb,
  leb, if◌then◌else◌, is_some, length, Str, str_eq, truthy,
}
use chatxz.Dict.{Dict, get}
use chatxz.Net.Dual.{is_empty}
use chatxz.Probe.{rolling_avg_ms, avg_ms}
use chatxz.Discovery.State.{Row, PeerDiscovery, World, normalize_hash, is_serial}
use chatxz.Discovery.Remove.{remove_peer_entry}

-- `for peer in self.peers.values(): ...`, which changes the rows in place
unfoldable pub map_rows : (Row → Row) → Dict Row → Dict Row
map_rows f [] = []
map_rows f ((k, r) ∷ d) = (k, f r) ∷ map_rows f d

-- `value or default` of a number
abbrev pub or_number : Option ℕ → ℕ → ℕ
or_number none n = n
or_number (some zero) n = n
or_number (some (suc m)) n = suc m

abbrev pub has_hash : Str → Row → Bool
has_hash h r = str_eq (normalize_hash r.hash) h

unfoldable pub reset_row : World → Str → Row → Row
reset_row w h r =
    if has_hash h r
    then record r { probe_failures = 0; last_probe_ok = or_number r.last_seen w.now }
    else r

-- `reset_peer_probe_state`
unfoldable pub reset_peer_probe_state : World → Option Str → PeerDiscovery → PeerDiscovery
reset_peer_probe_state w hash d =
    let h = normalize_hash hash in
    if not (truthy h) then d else record d { peers = map_rows (reset_row w h) d.peers }

abbrev pub reset_timer : Row → Row
reset_timer r = record r { last_rtt_probe_at = none }

-- `reset_probe_timers`
unfoldable pub reset_probe_timers : PeerDiscovery → PeerDiscovery
reset_probe_timers d = record d { peers = map_rows reset_timer d.peers }

abbrev pub without_rtt : Row → Row
without_rtt r = record r { rtt_ms = none; rtt_avg_ms = none; rtt_samples = [] }

abbrev pub clear_row : Str → Row → Row
clear_row h r = if has_hash h r then without_rtt r else r

abbrev had_rtt : Row → Bool
had_rtt r = is_some r.rtt_ms || (is_some r.rtt_avg_ms || not (is_empty r.rtt_samples))

any_had_rtt : Str → Dict Row → Bool
any_had_rtt h [] = false
any_had_rtt h ((k, r) ∷ d) = (has_hash h r && had_rtt r) || any_had_rtt h d

-- `clear_peer_rtt`
unfoldable pub clear_peer_rtt : Option Str → PeerDiscovery → PeerDiscovery × Bool
unfolding any_had_rtt
clear_peer_rtt hash d =
    let h = normalize_hash hash in
    if not (truthy h)
    then (d, false)
    else (record d { peers = map_rows (clear_row h) d.peers }, any_had_rtt h d.peers)

-- `last_seen and (now - last_seen) < 12`
abbrev pub is_fresh_row : World → Row → Bool
is_fresh_row w r = ltb 0 (or_number r.last_seen 0) && ltb w.now (or_number r.last_seen 0 + 12)

abbrev pub touched : World → Row → Row
touched w r =
    if is_fresh_row w r
    then record r { probe_failures = 0; last_probe_ok = or_number r.last_seen 0 }
    else r

abbrev pub answered : World → ℕ → Row → Row
answered w rtt r = record r {
  rtt_samples = rolling_avg_ms r.rtt_samples (some rtt);
  rtt_ms = some rtt;
  rtt_avg_ms = avg_ms (rolling_avg_ms r.rtt_samples (some rtt));
  last_probe_ok = w.now;
  probe_failures = 0;
}

-- The body of the loop for a row of the peer, after the first test.
unfoldable pub after_probe : World → Option ℕ → Bool → Row → Row
after_probe w (some rtt) true r = answered w rtt r
after_probe w none true r = r
after_probe w rtt false r =
    if is_fresh_row w r
    then r
    else record (without_rtt r) { probe_failures = r.probe_failures + 1; last_probe_at = w.now }

unfoldable pub probed_row : World → Str → Option ℕ → Bool → Row → Row
unfolding after_probe
probed_row w h rtt ok r = if has_hash h r then after_probe w rtt ok (touched w r) else r

-- `update_peer_probe`
unfoldable pub update_peer_probe :
    World → Option Str → Option ℕ → Bool → PeerDiscovery → PeerDiscovery
update_peer_probe w hash rtt ok d =
    let h = normalize_hash hash in
    if not (truthy h) then d else record d { peers = map_rows (probed_row w h rtt ok) d.peers }

-- The limits of `purge_stale_probes`.
pub record Limits : Type 0 where
  pub max_rtt_ms : ℕ
  pub stale_s : ℕ
  pub max_failures : ℕ

-- `rtt_avg is not None and ... and int(rtt_avg) > max_rtt_ms`
abbrev pub is_slow : ℕ → Row → Bool
is_slow top r =
    elim r.rtt_avg_ms as (λ o. Bool) [ none ↦ false | some v ↦ ltb top v ]
    && leb 3 (length r.rtt_samples)

-- `announce_age > stale_s` and `probe_age > stale_s`, written without subtraction
unfoldable pub is_silent : World → ℕ → Row → Bool
is_silent w stale_s r =
    ltb (or_number r.last_seen 0 + stale_s) w.now
    && ltb (or_number (some r.last_probe_ok) (or_number r.last_seen 0) + stale_s) w.now

unfoldable pub is_stale_row : World → Limits → Row → Bool
is_stale_row w l r =
    not (is_serial r)
    && (is_silent w l.stale_s r && (is_slow l.max_rtt_ms r || leb l.max_failures r.probe_failures))

unfoldable pub stale_keys : World → Limits → Dict Row → List Str
stale_keys w l [] = []
stale_keys w l ((k, r) ∷ d) =
    let rest = stale_keys w l d in if is_stale_row w l r then k ∷ rest else rest

unfoldable pub remove_entries : List Str → PeerDiscovery → PeerDiscovery
remove_entries [] d = d
remove_entries (k ∷ ks) d = remove_entries ks (remove_peer_entry k d)

-- `purge_stale_probes`
unfoldable pub purge_stale_probes : World → Limits → PeerDiscovery → PeerDiscovery × ℕ
purge_stale_probes w l d = let keys = stale_keys w l d.peers in (remove_entries keys d, length keys)

abbrev pub is_aged : World → ℕ → Option Row → Bool
is_aged w max_age none = false
is_aged w max_age (some r) =
    ltb 0 (or_number r.last_seen 0) && ltb (or_number r.last_seen 0 + max_age) w.now

unfoldable pub drop_aged : World → ℕ → List Str → PeerDiscovery → ℕ → PeerDiscovery × ℕ
drop_aged w max_age [] d removed = (d, removed)
drop_aged w max_age (k ∷ ks) d removed =
    let old = is_aged w max_age (get k d.peers) in
    drop_aged w max_age ks (if old then remove_peer_entry k d else d)
      (if old then removed + 1 else removed)

unfoldable pub keys_of : Dict Row → List Str
keys_of [] = []
keys_of ((k, r) ∷ d) = k ∷ keys_of d

-- `refresh_stale_entries`
unfoldable pub refresh_stale_entries : World → ℕ → ℕ → ℕ → PeerDiscovery → PeerDiscovery × ℕ
unfolding drop_aged
refresh_stale_entries w max_age probe_stale max_failures d =
    let (d', removed) =
      purge_stale_probes w
        (record { max_rtt_ms = 10000; stale_s = probe_stale; max_failures = max_failures }) d in
    drop_aged w max_age (keys_of d'.peers) d' removed
