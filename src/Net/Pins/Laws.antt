-- ===== src/Net/Pins/Laws.antt =====
-- What pinning a serial peer and repairing its route guarantee.
use chatxz.Prelude.{
  ◌≡◌, refl, sym, ap, ◌∙◌, Bool, true, false, not, ◌&&◌, Option, none, some, arith, is_some, length,
  Str,
}
use chatxz.Net.Dual.{is_lan_family}
use chatxz.Net.Iface.{Family, serial, fam_eq, Host, Iface, interface_family, interface_is_healthy}
use chatxz.Net.Hash.{normalize_dest_hex}
use chatxz.Net.State.{Net}
use chatxz.Net.Paths.{
  accept, route, peer_path_entry, clear_if, peer_path_on_family, prune_lan_path_for_peer,
  request_paths_for_hash,
}
use chatxz.Net.Paths.Route.{
  only, route-clear_if, route-scrub_peer_path, route-prune_lan_path_for_peer,
  peer_path_on_family_lem,
}
use chatxz.Net.Pins.{pin_serial_path, request_if_missing, ensure_pinned, ensure_serial_path_pinned}

-- An interface over which a pinned peer may be reached.
abbrev pub is_good : Host → Iface → Bool
is_good host i = fam_eq (interface_family (some i)) serial && interface_is_healthy host (some i)

module _ (h : Option Str) (n : Net) where
  pub route-pin_serial_path : (p : Option Str) → route h (pin_serial_path p n) ≡ route h n
  unfolding pin_serial_path peer_path_entry
  route-pin_serial_path p = ground arith

  pub route-request_paths_for_hash :
      (host : Host) (p : Option Str) (family : Option Family)
      → route h (request_paths_for_hash host p family n).0 ≡ route h n
  unfolding request_paths_for_hash peer_path_entry
  route-request_paths_for_hash host p family = ground arith

  pub route-peer_path_on_family :
      (host : Host) (family : Option Family)
      → route h (peer_path_on_family host h family n).0
        ≡ only (λ i. interface_is_healthy host (some i)) (route h n)
  unfolding peer_path_on_family
  route-peer_path_on_family host family = route-scrub_peer_path h n host

route-request_if_missing :
    (host : Host) (clean : Str) (request : Bool) (n : Net)
    → only
        (λ i. interface_is_healthy host (some i))
        (route (some clean) (request_if_missing host clean request n))
      ≡ only (λ i. interface_is_healthy host (some i)) (route (some clean) n)
unfolding request_if_missing
route-request_if_missing host clean false n = refl
route-request_if_missing host clean true n = ground (
  arith,
  route-peer_path_on_family (some clean) n host (some serial),
  route-request_paths_for_hash (some clean)
      (peer_path_on_family host (some clean) (some serial) n).0 host (some clean) (some serial),
)

abbrev pub healthy : Host → Option Iface → Option Iface
healthy host = only (λ i. interface_is_healthy host (some i))

abbrev on_serial : Option Iface → Option Iface
on_serial = only (λ i. not (not (fam_eq (interface_family (some i)) serial)))

abbrev pub off_lan : Option Iface → Option Iface
off_lan = only (λ i. not (is_lan_family (interface_family (some i))))

filters_lem :
    (host : Host) (o : Option Iface) → healthy host (on_serial (off_lan o)) ≡ only (is_good host) o
unfolding is_lan_family
filters_lem host none = refl
filters_lem host (some i) = ground arith

pub accept-serial :
    (host : Host) (o : Option Iface)
    → accept host (some serial) o ≡ only (is_good host) (healthy host o)
accept-serial host none = refl
accept-serial host (some i) = ground arith

good-good :
    (host : Host) (o : Option Iface)
    → only (is_good host) (only (is_good host) o) ≡ only (is_good host) o
good-good host none = refl
good-good host (some i) = ground arith

module _ (host : Host) (clean : Str) (request : Bool) (n : Net) where
  healthy_route-ensure_pinned :
      route (some clean) (ensure_pinned host clean request n).0
      ≡ only (is_good host) (route (some clean) n)
  unfolding ensure_pinned
  healthy_route-ensure_pinned =
      let n₁ = pin_serial_path (some clean) n in
      let n₂ = (prune_lan_path_for_peer (some clean) n₁).0 in
      let n₃ =
        (clear_if (λ i. not (fam_eq (interface_family (some i)) serial)) (some clean) n₂).0 in
      let n₄ = request_if_missing host clean request n₃ in
      route-peer_path_on_family (some clean) n₄ host (some serial)
      ∙ route-request_if_missing host clean request n₃
      ∙ ap (healthy host) (
          route-clear_if (some clean) n₂ (λ i. not (fam_eq (interface_family (some i)) serial))
          ∙ ap on_serial (
              route-prune_lan_path_for_peer (some clean) n₁
              ∙ ap off_lan (route-pin_serial_path (some clean) n (some clean))))
      ∙ filters_lem host (route (some clean) n)

  found-ensure_pinned :
      (ensure_pinned host clean request n).1 ≡ is_some (only (is_good host) (route (some clean) n))
  unfolding ensure_pinned
  found-ensure_pinned =
      let n₁ = pin_serial_path (some clean) n in
      let n₂ = (prune_lan_path_for_peer (some clean) n₁).0 in
      let n₃ =
        (clear_if (λ i. not (fam_eq (interface_family (some i)) serial)) (some clean) n₂).0 in
      let n₄ = request_if_missing host clean request n₃ in
      ap is_some (
        peer_path_on_family_lem (some clean) n₄ host (some serial)
        ∙ accept-serial host (route (some clean) n₄)
        ∙ ap (only (is_good host)) (
            sym (route-peer_path_on_family (some clean) n₄ host (some serial))
            ∙ healthy_route-ensure_pinned)
        ∙ good-good host (route (some clean) n))

-- For a hash whose normal form has 32 digits, pinning leaves the peer's old route if that is
-- serial and healthy, and no route otherwise, and the result says which.
pub ensure_serial_path_pinned-route :
    (host : Host) (h : Option Str) (request : Bool) (n : Net)
    → length (normalize_dest_hex h) ≡ 32
    → (route (some (normalize_dest_hex h)) (ensure_serial_path_pinned host h request n).0
        ≡ only (is_good host) (route (some (normalize_dest_hex h)) n))
      × ((ensure_serial_path_pinned host h request n).1
          ≡ is_some (only (is_good host) (route (some (normalize_dest_hex h)) n)))
unfolding ensure_serial_path_pinned
ensure_serial_path_pinned-route host h request n len =
    let clean = normalize_dest_hex h in
    ground (
      arith,
      healthy_route-ensure_pinned host clean request n,
      found-ensure_pinned host clean request n,
    )
