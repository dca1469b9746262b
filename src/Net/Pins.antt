-- ===== src/Net/Pins.antt =====
-- Pinned serial peers of chatxz/core/lan_rns.py, the repair of serial routes, and the wait for a route.
pub mod Laws
pub mod Pinned
pub mod Repair
pub mod Wait
use chatxz.Prelude.{
  Bool, true, false, not, ◌&&◌, ◌||◌, Option, none, some, List, [], ◌∷◌, ◌==◌, if◌then◌else◌,
  is_some, length, keep, Str, str_eq, str_mem,
}
use chatxz.Dict.{put}
use chatxz.Net.Iface.{
  Family, serial, fam_eq, Host, Iface, interface_family, interface_is_healthy, is_wanted,
}
use chatxz.Net.Hash.{Bytes, raw, normalize_dest_hex, dest_bytes_for_hash}
use chatxz.Net.State.{Net}
use chatxz.Net.Paths.{
  route, announce_packet_receiving_interface, clear_peer_path, clear_if, scrub_peer_path, accept,
  peer_path_on_family, prune_lan_path_for_peer, request_paths_for_hash,
}

-- `set.add`
abbrev add : Str → List Str → List Str
add s xs = if str_mem s xs then xs else s ∷ xs

unfoldable pub pin_serial_path : Option Str → Net → Net
pin_serial_path h n =
    let clean = normalize_dest_hex h in
    if length clean == 32 then record n { pins = add clean n.pins } else n

unfoldable pub unpin_serial_path : Option Str → Net → Net
unpin_serial_path h n = record n { pins = keep (λ p. not (str_eq (normalize_dest_hex h) p)) n.pins }

unfoldable pub serial_path_is_pinned : Option Str → Net → Bool
serial_path_is_pinned h n = str_mem (normalize_dest_hex h) n.pins

-- `if request and peer_path_on_family(clean, "serial") is None: request_paths_for_hash(...)`
request_if_missing : Host → Str → Bool → Net → Net
request_if_missing host clean false n = n
request_if_missing host clean true n =
    let (n', found) = peer_path_on_family host (some clean) (some serial) n in
    if is_some found then n' else (request_paths_for_hash host (some clean) (some serial) n').0

-- The part of `ensure_serial_path_pinned` behind the test of the length.
ensure_pinned : Host → Str → Bool → Net → Net × Bool
unfolding request_if_missing
ensure_pinned host clean request n =
    let n₁ = pin_serial_path (some clean) n in
    let (n₂, _) = prune_lan_path_for_peer (some clean) n₁ in
    let (n₃, _) = clear_if (λ i. not (fam_eq (interface_family (some i)) serial)) (some clean) n₂ in
    let n₄ = request_if_missing host clean request n₃ in
    let (n₅, found) = peer_path_on_family host (some clean) (some serial) n₄ in (n₅, is_some found)

unfoldable pub ensure_serial_path_pinned : Host → Option Str → Bool → Net → Net × Bool
unfolding ensure_pinned
ensure_serial_path_pinned host h request n =
    let clean = normalize_dest_hex h in
    if not (length clean == 32) then (n, false) else ensure_pinned host clean request n

-- The row `[now, 0, 1, now + 3600, dest_bytes, serial_recv]` under the peer's key.
install : Bytes → Iface → Net → Net
install k i n = record n {
  path_table = put k (record { size = 6; hops = some 1; via = some i }) n.path_table;
}

-- The part of `restore_serial_path_from_announce` behind the tests of the announce.
restore_over : Host → Str → Bytes → Iface → Net → Net × Option Iface
unfolding install
restore_over host clean k i n =
    let (n₁, existing) = peer_path_on_family host (some clean) (some serial) n in
    if is_some existing
    then (pin_serial_path (some clean) n₁, existing)
    else let (n₂, _) = prune_lan_path_for_peer (some clean) n₁ in
      let (n₃, _) = clear_peer_path (some clean) n₂ in
      (pin_serial_path (some clean) (install k i n₃), some i)

-- `serial_recv is None or interface_family(serial_recv) != "serial"`, or not healthy
restore_from : Host → Str → Bytes → Option Iface → Net → Net × Option Iface
unfolding restore_over
restore_from host clean k none n = peer_path_on_family host (some clean) (some serial) n
restore_from host clean k (some i) n =
    if not (fam_eq (interface_family (some i)) serial)
    then peer_path_on_family host (some clean) (some serial) n
    else if not (interface_is_healthy host (some i))
    then peer_path_on_family host (some clean) (some serial) n
    else restore_over host clean k i n

unfoldable pub restore_serial_path_from_announce : Host → Option Str → Net → Net × Option Iface
unfolding restore_from
restore_serial_path_from_announce host h n =
    let clean = normalize_dest_hex h in
    elim (dest_bytes_for_hash (some clean)) [
      | none ↦ (n, none)
      | some k ↦ restore_from host clean k (announce_packet_receiving_interface (raw k) n) n
    ]

-- What `reinforce_serial_peer_path` does when the announce gives no route.
reinforce_missing : Host → Str → Net → Net × Option Iface
reinforce_missing host clean n =
    let n₁ = pin_serial_path (some clean) n in
    let (n₂, _) = prune_lan_path_for_peer (some clean) n₁ in
    let (n₃, found) = peer_path_on_family host (some clean) (some serial) n₂ in
    if is_some found
    then (n₃, found)
    else let (n₄, _) = request_paths_for_hash host (some clean) (some serial) n₃ in
      peer_path_on_family host (some clean) (some serial) n₄

unfoldable pub reinforce_serial_peer_path : Host → Option Str → Net → Net × Option Iface
unfolding reinforce_missing
reinforce_serial_peer_path host h n =
    let clean = normalize_dest_hex h in
    if not (length clean == 32)
    then (n, none)
    else let (n₁, restored) = restore_serial_path_from_announce host (some clean) n in
      if is_some restored then (n₁, restored) else reinforce_missing host clean n₁

-- One turn of the polling loop: what `should_stop()` says, and the state that the turn finds.
pub record Poll : Type 0 where
  pub stop : Bool
  pub net : Net

-- `for want in families: if want is None or fam == want: return path_iface`
abbrev pub wanted_by : List (Option Family) → Iface → Bool
wanted_by [] i = false
wanted_by (f ∷ fs) i = is_wanted f i || wanted_by fs i

unfoldable pub poll_once : Host → Option Str → List (Option Family) → Net → Option Iface
poll_once host h families n =
    let (n', _) = scrub_peer_path host h n in
    elim (route h n') [
      | none ↦ none
      | some i ↦ if interface_is_healthy host (some i) && wanted_by families i then some i else none
    ]

-- The turns are those before the deadline.
unfoldable pub wait_for_peer_path_families :
    Host → Option Str → List (Option Family) → List Poll → Option Iface
wait_for_peer_path_families host h families [] = none
wait_for_peer_path_families host h families (p ∷ polls) =
    let rest = wait_for_peer_path_families host h families polls in
    let found = poll_once host h families p.net in
    if p.stop then none else if is_some found then found else rest

unfoldable pub wait_for_peer_path : Host → Option Str → Option Family → List Poll → Option Iface
wait_for_peer_path host h family polls = wait_for_peer_path_families host h (family ∷ []) polls
