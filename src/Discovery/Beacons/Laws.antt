-- ===== src/Discovery/Beacons/Laws.antt =====
-- What a beacon may do to the table of chatxz/core/discovery.py.
use chatxz.Prelude.{
  ◌≡◌, refl, ◌⊎◌, inl, inr, Bool, true, false, not, ◌&&◌, ◌||◌, Option, none, some, List, ◌==◌,
  Option-cases, length, Str, codes, str_eq, truthy, or_empty, or_else, is_space, lstrip, rstrip,
  strip, lower_code, lower, branch,
}
use chatxz.Dict.{get}
use chatxz.Discovery.State.{Row, PeerDiscovery, World, scope_of, normalize_hash, storage_key}
use chatxz.Discovery.State.Keys.{is_plain}
use chatxz.Discovery.Scope.{peer_allowed}
use chatxz.Discovery.Store.Address.{AllSome}
use chatxz.Discovery.Store.Invariant.{store_peer-IsSound}
use chatxz.Discovery.Invariant.{IsSound, remove_peer_entry-IsSound}
use chatxz.Discovery.Receive.{app_name}
use chatxz.Discovery.Receive.Laws.{log_once-IsSound}
use chatxz.Discovery.Beacons.{
  take_beacon, with_identities, Beacon, peer_record_from_beacon, completed, drop_unconfirmed,
  accept_beacon, place_beacon, meet_beacon, on_beacon, is_own, beacon_hash,
}

beacon-is_plain : is_plain (some (codes "beacon")) ≡ true
unfolding strip lstrip rstrip is_space lower lower_code str_eq
beacon-is_plain = refl

peer_record_from_beacon-is_plain :
    (connect : Str) (b : Beacon)
    → AllSome (λ (r : Row). is_plain r.via ≡ true) (peer_record_from_beacon connect b)
unfolding peer_record_from_beacon
peer_record_from_beacon-is_plain connect b =
    branch (AllSome (λ (r : Row). is_plain r.via ≡ true)) (not (str_eq b.app app_name)) _ _ tt (
      branch (AllSome (λ (r : Row). is_plain r.via ≡ true))
        (not (length (beacon_hash connect b) == 32)) _ _ tt beacon-is_plain)

module _ (scope : Str) (locals : List Str) where
  drop_unconfirmed-IsSound :
      (key : Str) (d : PeerDiscovery)
      → IsSound scope locals d
      → IsSound scope locals (drop_unconfirmed key d)
  drop_unconfirmed-IsSound key d s = elim (Option-cases (get key d.peers)) [
    | inl e ↦ rw (e, drop_unconfirmed) s
    | inr (r, e) ↦
        rw (e, drop_unconfirmed)
          (branch (IsSound scope locals) _ _ _ s (remove_peer_entry-IsSound scope locals key d s))
  ]

  accept_beacon-IsSound :
      (w : World) (registered : Bool) (peer : Row) (identity_hex : Str) (d : PeerDiscovery)
      → scope_of w ≡ scope
      → is_plain peer.via ≡ true
      → IsSound scope locals d
      → IsSound scope locals (accept_beacon w registered peer identity_hex d)
  unfolding accept_beacon
  accept_beacon-IsSound w registered peer identity_hex d same plain s =
      let s₁ =
        drop_unconfirmed-IsSound
          (storage_key (some (normalize_hash peer.hash)) (some (codes "serial"))) d s in
      log_once-IsSound scope locals w _ _ (
        store_peer-IsSound scope locals w same (completed w peer identity_hex d.peers) _ plain (
          branch (IsSound scope locals) registered _ _ (log_once-IsSound scope locals w _ _ s₁) s₁))

  place_beacon-IsSound :
      (w : World) (registered : Bool) (peer : Row) (identity_hex : Str) (d : PeerDiscovery)
      (o : Option (Option Str))
      → scope_of w ≡ scope
      → is_plain peer.via ≡ true
      → IsSound scope locals d
      → IsSound scope locals (place_beacon w registered peer identity_hex d o).0
  unfolding place_beacon
  place_beacon-IsSound w registered peer identity_hex d none same plain s = s
  place_beacon-IsSound w registered peer identity_hex d (some ip) same plain s =
      branch (λ (p : PeerDiscovery × Bool). IsSound scope locals p.0)
        (not (peer_allowed w d.peers (record peer { ip = ip; last_seen = some w.now }))) _ _ s
        (accept_beacon-IsSound w registered (record peer { ip = ip; last_seen = some w.now })
          identity_hex d same plain s)

  meet_beacon-IsSound :
      (w : World) (registered : Bool) (b : Beacon) (my_dest my_ident source : Str)
      (d : PeerDiscovery) (o : Option Row)
      → scope_of w ≡ scope
      → AllSome (λ (r : Row). is_plain r.via ≡ true) o
      → IsSound scope locals d
      → IsSound scope locals (meet_beacon w registered b my_dest my_ident source d o).0
  unfolding meet_beacon
  meet_beacon-IsSound w registered b my_dest my_ident source d none same plain s = s
  meet_beacon-IsSound w registered b my_dest my_ident source d (some peer) same plain s =
      branch (λ (p : PeerDiscovery × Bool). IsSound scope locals p.0)
        (is_own my_dest my_ident (normalize_hash peer.hash) (normalize_hash b.identity_hash) d) _ _
        s (place_beacon-IsSound w registered peer (normalize_hash b.identity_hash) d _ same plain s)

  with_identities-IsSound :
      {R : Type 0} (once twice : R) (p : PeerDiscovery × Bool)
      → IsSound scope locals p.0
      → IsSound scope locals (with_identities once twice p).0
  with_identities-IsSound once twice (d, false) s = s
  with_identities-IsSound once twice (d, true) s = s

  module _ {R : Type 0} (register : Beacon → R → R × Str) where
    take_beacon-IsSound :
        (w : World) (b : Beacon) (my_dest my_ident source : Str) (d : PeerDiscovery) (r : R)
        → scope_of w ≡ scope
        → IsSound scope locals d
        → IsSound scope locals (take_beacon register w b my_dest my_ident source d r).0
    unfolding take_beacon
    take_beacon-IsSound w b my_dest my_ident source d r same s =
        let (once, connect) = register b r in
        let (twice, again) = register b once in
        with_identities-IsSound once twice
          (meet_beacon w (truthy again) b my_dest my_ident source d
            (peer_record_from_beacon connect b))
          (meet_beacon-IsSound w (truthy again) b my_dest my_ident source d
            (peer_record_from_beacon connect b) same (peer_record_from_beacon-is_plain connect b) s)

    -- A beacon keeps the invariant.
    pub on_beacon-IsSound :
        (w : World) (b : Beacon) (my_dest_hash my_identity_hash source_ip : Option Str)
        (d : PeerDiscovery) (r : R)
        → scope_of w ≡ scope
        → IsSound scope locals d
        → IsSound scope locals
            (on_beacon register w b my_dest_hash my_identity_hash source_ip d r).0
    unfolding on_beacon
    on_beacon-IsSound w b my_dest_hash my_identity_hash source_ip d r same s =
        let keep = λ (c : Bool) (x : PeerDiscovery × R × Bool).
          branch (λ (p : PeerDiscovery × R × Bool). IsSound scope locals p.0) c (d, r, false) x s in
        let my_dest = normalize_hash my_dest_hash in
        let my_ident =
          normalize_hash (some (or_else (or_empty my_identity_hash) (or_empty my_dest_hash))) in
        let identity_hex = normalize_hash b.identity_hash in
        keep (not d.running || not d.accept_peers) _ (
          keep (not (str_eq b.app app_name)) _ (
            keep
              (truthy identity_hex && (str_eq identity_hex my_ident || str_eq identity_hex my_dest))
              _ (take_beacon-IsSound w b my_dest my_ident (strip (or_empty source_ip)) d r same s)))

-- What a refusal leaves.
abbrev IsRefusal : PeerDiscovery → PeerDiscovery × Bool → Type 0
IsRefusal d p = p.1 ≡ false → p.0 ≡ d

place_beacon_refused :
    (w : World) (registered : Bool) (peer : Row) (identity_hex : Str) (d : PeerDiscovery)
    (o : Option (Option Str))
    → IsRefusal d (place_beacon w registered peer identity_hex d o)
unfolding place_beacon
place_beacon_refused w registered peer identity_hex d none = λ e. refl
place_beacon_refused w registered peer identity_hex d (some ip) =
    branch (IsRefusal d)
      (not (peer_allowed w d.peers (record peer { ip = ip; last_seen = some w.now }))) _ _
      (λ e. refl) (λ e. cc)

meet_beacon_refused :
    (w : World) (registered : Bool) (b : Beacon) (my_dest my_ident source : Str) (d : PeerDiscovery)
    (o : Option Row)
    → IsRefusal d (meet_beacon w registered b my_dest my_ident source d o)
unfolding meet_beacon
meet_beacon_refused w registered b my_dest my_ident source d none = λ e. refl
meet_beacon_refused w registered b my_dest my_ident source d (some peer) =
    branch (IsRefusal d)
      (is_own my_dest my_ident (normalize_hash peer.hash) (normalize_hash b.identity_hash) d) _ _
      (λ e. refl) (place_beacon_refused w registered peer (normalize_hash b.identity_hash) d _)

module _ {R : Type 0} (register : Beacon → R → R × Str) where
  -- What a refusal leaves of the identities, too.
  abbrev IsDeclined : PeerDiscovery → Beacon → R → PeerDiscovery × R × Bool → Type 0
  IsDeclined d b r p = p.2 ≡ false → (p.0 ≡ d) × ((p.1 ≡ r) ⊎ (p.1 ≡ (register b r).0))

  with_identities-IsDeclined :
      (d : PeerDiscovery) (b : Beacon) (r twice : R) (p : PeerDiscovery × Bool)
      → IsRefusal d p
      → IsDeclined d b r (with_identities (register b r).0 twice p)
  with_identities-IsDeclined d b r twice (e, false) h = λ f. (h refl, inr refl)
  with_identities-IsDeclined d b r twice (e, true) h = λ f. cc

  take_beacon-IsDeclined :
      (w : World) (b : Beacon) (my_dest my_ident source : Str) (d : PeerDiscovery) (r : R)
      → IsDeclined d b r (take_beacon register w b my_dest my_ident source d r)
  unfolding take_beacon
  take_beacon-IsDeclined w b my_dest my_ident source d r =
      let (once, connect) = register b r in
      let (twice, again) = register b once in
      with_identities-IsDeclined d b r twice
        (meet_beacon w (truthy again) b my_dest my_ident source d
          (peer_record_from_beacon connect b))
        (meet_beacon_refused w (truthy again) b my_dest my_ident source d
          (peer_record_from_beacon connect b))

  -- If the handler of a beacon returns false, the table of discovery with its switches, logs, own
  -- hashes, callbacks and network is as it was, and the identities are as they were or as
  -- registering the beacon's identity once leaves them.
  pub on_beacon_refused :
      (w : World) (b : Beacon) (my_dest_hash my_identity_hash source_ip : Option Str)
      (d : PeerDiscovery) (r : R)
      → (on_beacon register w b my_dest_hash my_identity_hash source_ip d r).2 ≡ false
      → ((on_beacon register w b my_dest_hash my_identity_hash source_ip d r).0 ≡ d)
        × (((on_beacon register w b my_dest_hash my_identity_hash source_ip d r).1 ≡ r)
            ⊎ ((on_beacon register w b my_dest_hash my_identity_hash source_ip d r).1
                ≡ (register b r).0))
  unfolding on_beacon
  on_beacon_refused w b my_dest_hash my_identity_hash source_ip d r =
      let keep = λ (c : Bool) (x : PeerDiscovery × R × Bool).
        branch (IsDeclined d b r) c (d, r, false) x (λ e. (refl, inl refl)) in
      let my_dest = normalize_hash my_dest_hash in
      let my_ident =
        normalize_hash (some (or_else (or_empty my_identity_hash) (or_empty my_dest_hash))) in
      let identity_hex = normalize_hash b.identity_hash in
      keep (not d.running || not d.accept_peers) _ (
        keep (not (str_eq b.app app_name)) _ (
          keep
            (truthy identity_hex && (str_eq identity_hex my_ident || str_eq identity_hex my_dest)) _
            (take_beacon-IsDeclined w b my_dest my_ident (strip (or_empty source_ip)) d r)))
