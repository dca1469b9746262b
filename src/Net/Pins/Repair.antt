-- ===== src/Net/Pins/Repair.antt =====
-- Repairing a serial route from the announce that came over USB.
use chatxz.Prelude.{
  ◌≡◌, refl, ap, ◌∙◌, inl, inr, true, false, Option, none, some, arith, ◌==◌, ==_iff, Bool-cases,
  Option-cases, is_some, length, Str, str_eq_refl,
}
use chatxz.Dict.Laws.{get-put}
use chatxz.Net.Dual.{is_lan_family}
use chatxz.Net.Iface.{serial, fam_eq, Host, Iface, interface_family, interface_is_healthy}
use chatxz.Net.Hash.{Bytes, raw, normalize_dest_hex, dest_bytes_for_hash}
use chatxz.Net.State.{Net}
use chatxz.Net.Paths.{
  route, accept, peer_path_entry, announce_packet_receiving_interface, clear_peer_path,
  peer_path_on_family, prune_lan_path_for_peer, request_paths_for_hash,
}
use chatxz.Net.Paths.Route.{route-prune_lan_path_for_peer, peer_path_on_family_lem}
use chatxz.Net.Pins.{
  pin_serial_path, install, restore_over, restore_from, restore_serial_path_from_announce,
  reinforce_missing, reinforce_serial_peer_path,
}
use chatxz.Net.Pins.Pinned.{normalize_dest_hex_twice}
use chatxz.Net.Pins.Laws.{
  is_good, healthy, off_lan, route-pin_serial_path, route-peer_path_on_family,
  route-request_paths_for_hash,
}

-- The answer names a serial, healthy interface, over which the peer's route leads now.
abbrev pub IsServed : Host → Option Str → Net × Option Iface → Type 0
IsServed host h (n, none) = Unit
IsServed host h (n, some i) = (is_good host i ≡ true) × (route h n ≡ some i)

-- The peer's route does not lead over a LAN interface.
abbrev pub IsOffLan : Option Str → Net → Type 0
IsOffLan h n = is_lan_family (interface_family (route h n)) ≡ false

IsServed-if_found :
    (host : Host) (h : Option Str) (o : Option Iface) (n : Net)
    → route h n ≡ healthy host o
    → IsServed host h (n, accept host (some serial) o)
IsServed-if_found host h none n e = tt
IsServed-if_found host h (some i) n e = elim (Bool-cases (interface_is_healthy host (some i))) [
  | inr sick ↦ rw sick tt
  | inl well ↦ rw well (elim (Bool-cases (fam_eq (interface_family (some i)) serial)) [
    | inl s ↦ rw s (ground arith, ground arith)
    | inr s ↦ rw s tt
  ])
]

-- An answer of `peer_path_on_family(h, "serial")` is served.
peer_path_on_family-IsServed :
    (host : Host) (h : Option Str) (n : Net)
    → IsServed host h (peer_path_on_family host h (some serial) n)
peer_path_on_family-IsServed host h n = rw (peer_path_on_family_lem h n host (some serial)) (
    IsServed-if_found host h (route h n) (peer_path_on_family host h (some serial) n).0
      (route-peer_path_on_family h n host (some serial)))

IsServed-pin :
    (host : Host) (h p : Option Str) (n : Net) (o : Option Iface)
    → IsServed host h (n, o)
    → IsServed host h (pin_serial_path p n, o)
IsServed-pin host h p n none s = tt
IsServed-pin host h p n (some i) s = (s.0, route-pin_serial_path h n p ∙ s.1)

route-install :
    (h : Option Str) (k : Bytes) (i : Iface) (n : Net)
    → dest_bytes_for_hash h ≡ some k
    → route h (install k i n) ≡ some i
unfolding install peer_path_entry
route-install h k i n e = ground (
  arith,
  str_eq_refl k,
  get-put k k (record { size = 6; hops = some 1; via = some i }) n.path_table,
)

module _ (host : Host) (clean : Str) (k : Bytes)
    (e : dest_bytes_for_hash (some clean) ≡ some k) where
  restore_over-IsServed :
      (i : Iface) (n : Net)
      → is_good host i ≡ true
      → IsServed host (some clean) (restore_over host clean k i n)
  unfolding restore_over
  restore_over-IsServed i n good =
      let (n₁, existing) = peer_path_on_family host (some clean) (some serial) n in
      let n₂ = (prune_lan_path_for_peer (some clean) n₁).0 in
      let n₃ = (clear_peer_path (some clean) n₂).0 in
      elim (Bool-cases (is_some existing)) [
        | inl s ↦ rw s (
            IsServed-pin host (some clean) (some clean) n₁ existing
              (peer_path_on_family-IsServed host (some clean) n))
        | inr s ↦ rw s (
            IsServed-pin host (some clean) (some clean) (install k i n₃) (some i)
              (good, route-install (some clean) k i n₃ e))
      ]

  restore_from-IsServed :
      (o : Option Iface) (n : Net) → IsServed host (some clean) (restore_from host clean k o n)
  unfolding restore_from
  restore_from-IsServed none n = peer_path_on_family-IsServed host (some clean) n
  restore_from-IsServed (some i) n = elim (Bool-cases (fam_eq (interface_family (some i)) serial)) [
    | inr s ↦ rw s (peer_path_on_family-IsServed host (some clean) n)
    | inl s ↦ rw s (elim (Bool-cases (interface_is_healthy host (some i))) [
      | inr w ↦ rw w (peer_path_on_family-IsServed host (some clean) n)
      | inl w ↦ rw w (restore_over-IsServed i n (ground arith))
    ])
  ]

-- If the repair returns an interface, that is serial and healthy, and the peer's route leads over
-- it now.
pub restore_serial_path_from_announce-IsServed :
    (host : Host) (h : Option Str) (n : Net)
    → IsServed host (some (normalize_dest_hex h)) (restore_serial_path_from_announce host h n)
unfolding restore_serial_path_from_announce
restore_serial_path_from_announce-IsServed host h n =
    elim (Option-cases (dest_bytes_for_hash (some (normalize_dest_hex h)))) [
      | inl e ↦ rw (e, restore_serial_path_from_announce) tt
      | inr (k, e) ↦
          rw (e, restore_serial_path_from_announce)
            (restore_from-IsServed host (normalize_dest_hex h) k e
              (announce_packet_receiving_interface (raw k) n) n)
    ]

-- The repair is asked for the normal form, which is its own normal form.
restored_lem :
    (host : Host) (h : Option Str) (n : Net)
    → IsServed host
        (some (normalize_dest_hex h))
        (restore_serial_path_from_announce host (some (normalize_dest_hex h)) n)
restored_lem host h n =
    rw normalize_dest_hex_twice at
      (restore_serial_path_from_announce-IsServed host (some (normalize_dest_hex h)) n)

IsServed-IsOffLan :
    (host : Host) (h : Option Str) (n : Net) (o : Option Iface)
    → is_some o ≡ true
    → IsServed host h (n, o)
    → IsOffLan h n
unfolding is_lan_family
IsServed-IsOffLan host h n none f s = cc
IsServed-IsOffLan host h n (some i) f s = ground arith

module _ (host : Host) (clean : Str) (n : Net) where
  reinforce_missing-IsServed : IsServed host (some clean) (reinforce_missing host clean n)
  unfolding reinforce_missing
  reinforce_missing-IsServed =
      let n₁ = pin_serial_path (some clean) n in
      let n₂ = (prune_lan_path_for_peer (some clean) n₁).0 in
      let (n₃, found) = peer_path_on_family host (some clean) (some serial) n₂ in
      let n₄ = (request_paths_for_hash host (some clean) (some serial) n₃).0 in
      elim (Bool-cases (is_some found)) [
        | inl s ↦ rw s (peer_path_on_family-IsServed host (some clean) n₂)
        | inr s ↦ rw s (peer_path_on_family-IsServed host (some clean) n₄)
      ]

-- If the reinforcement returns an interface, that is serial and healthy, and the peer's route
-- leads over it now.
pub reinforce_serial_peer_path-IsServed :
    (host : Host) (h : Option Str) (n : Net)
    → IsServed host (some (normalize_dest_hex h)) (reinforce_serial_peer_path host h n)
unfolding reinforce_serial_peer_path
reinforce_serial_peer_path-IsServed host h n =
    let clean = normalize_dest_hex h in
    let (n₁, restored) = restore_serial_path_from_announce host (some clean) n in
    elim (Bool-cases (length clean == 32)) [
      | inr short ↦ rw short tt
      | inl long ↦ rw long (elim (Bool-cases (is_some restored)) [
        | inl s ↦ rw s (restored_lem host h n)
        | inr s ↦ rw s (reinforce_missing-IsServed host clean n₁)
      ])
    ]

off_lan-healthy :
    (host : Host) (o : Option Iface)
    → is_lan_family (interface_family (healthy host (healthy host (off_lan o)))) ≡ false
unfolding is_lan_family interface_family
off_lan-healthy host none = refl
off_lan-healthy host (some i) = ground arith

reinforce_missing-IsOffLan :
    (host : Host) (clean : Str) (n : Net) → IsOffLan (some clean) (reinforce_missing host clean n).0
unfolding reinforce_missing
reinforce_missing-IsOffLan host clean n =
    let c = some clean in
    let n₁ = pin_serial_path c n in
    let n₂ = (prune_lan_path_for_peer c n₁).0 in
    let (n₃, found) = peer_path_on_family host c (some serial) n₂ in
    let n₄ = (request_paths_for_hash host c (some serial) n₃).0 in
    let e₂ = route-prune_lan_path_for_peer c n₁ in
    let e₃ = route-peer_path_on_family c n₂ host (some serial) in
    let e₄ = route-request_paths_for_hash c n₃ host c (some serial) in
    let e₅ = route-peer_path_on_family c n₄ host (some serial) in
    elim (Bool-cases (is_some found)) [
      | inl s ↦ rw s (IsServed-IsOffLan host c n₃ found s (peer_path_on_family-IsServed host c n₂))
      | inr s ↦ rw s (
          ap (λ o. is_lan_family (interface_family o))
            (e₅ ∙ ap (healthy host) (e₄ ∙ e₃ ∙ ap (healthy host) e₂))
          ∙ off_lan-healthy host (route c n₁))
    ]

-- Once a hash whose normal form has 32 digits has been reinforced, the peer's route does not lead
-- over a LAN interface.
pub reinforce_serial_peer_path-IsOffLan :
    (host : Host) (h : Option Str) (n : Net)
    → length (normalize_dest_hex h) ≡ 32
    → IsOffLan (some (normalize_dest_hex h)) (reinforce_serial_peer_path host h n).0
unfolding reinforce_serial_peer_path
reinforce_serial_peer_path-IsOffLan host h n long =
    let clean = normalize_dest_hex h in
    let (n₁, restored) = restore_serial_path_from_announce host (some clean) n in
    rw ((==_iff (length clean) 32).1 long) (elim (Bool-cases (is_some restored)) [
      | inl s ↦ rw s (IsServed-IsOffLan host (some clean) n₁ restored s (restored_lem host h n))
      | inr s ↦ rw s (reinforce_missing-IsOffLan host clean n₁)
    ])
