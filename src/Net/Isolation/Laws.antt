-- ===== src/Net/Isolation/Laws.antt =====
-- Where path requests of chatxz/core/transport_isolation.py go.
use mathlib.Core.List.{Memᴰ}
use mathlib.Core.Path.{subst}
use chatxz.Prelude.{
  ◌≡◌, refl, inl, inr, Bool, true, false, not, ◌&&◌, Option, none, some, List, [], ◌∷◌, ◌++◌, arith,
  ◌==◌, if◌then◌else◌, Bool-cases, All, str_eq_refl,
}
use chatxz.Dict.{get}
use chatxz.Dict.Laws.{get-pop}
use chatxz.Net.Dual.{dual_transport_isolation_enabled, families_compatible}
use chatxz.Net.Hash.{Bytes}
use chatxz.Net.Iface.{Host, Iface, Root, interface_family}
use chatxz.Net.Isolation.{
  select_compatible, is_zoned, filter_interfaces, crosses_from, drop_crossing, Packet, source_of,
  pin_announce_interface,
}
use chatxz.Net.State.{Net, Request}

-- The interface is another than the source, and of a family that the source may talk to.
abbrev pub IsReachable : Iface → Iface → Type 0
IsReachable source i =
    ((i.id == source.id) ≡ false)
    × (families_compatible (interface_family (some source)) (interface_family (some i)) ≡ true)

pub All-mem {ℓ κ} : {A : Type ℓ} (P : A → Type κ) (xs : List A) {x : A} → All P xs → Memᴰ x xs → P x
All-mem P (x ∷ xs) h (Memᴰ.head e) = rw e h.0
All-mem P (x ∷ xs) h (Memᴰ.tail m) = All-mem P xs h.1 m
All-mem P [] h m = elim m [ ]

pub select_compatible-IsReachable :
    (source : Iface) (rs : List Root)
    → All (λ r. IsReachable source r.iface) (select_compatible source rs)
unfolding select_compatible
select_compatible-IsReachable source [] = tt
select_compatible-IsReachable source (r ∷ rs) =
    let rest = select_compatible-IsReachable source rs in
    elim (Bool-cases (r.iface.id == source.id)) [
      | inl same ↦ rw same rest
      | inr new ↦
          rw new
            (elim (Bool-cases (
              families_compatible (interface_family (some source))
                (interface_family (some r.iface)))) [
                  | inl fits ↦ rw fits ((new, fits), rest)
                  | inr clash ↦ rw clash rest
                ])
    ]

mem_if :
    (same fits : Bool) {r : Root} (x : Root) (rest : List Root)
    → Memᴰ r rest
    → Memᴰ r (if same then rest else if fits then x ∷ rest else rest)
mem_if true fits x rest m = m
mem_if false true x rest m = Memᴰ.tail m
mem_if false false x rest m = m

mem_new :
    (same fits : Bool) (r : Root) (rest : List Root)
    → same ≡ false
    → fits ≡ true
    → Memᴰ r (if same then rest else if fits then r ∷ rest else rest)
mem_new same fits r rest e f = rw (e, f) (Memᴰ.head refl)

pub mem-select_compatible :
    (source : Iface) (rs : List Root) (r : Root)
    → Memᴰ r rs
    → IsReachable source r.iface
    → Memᴰ r (select_compatible source rs)
unfolding select_compatible
mem-select_compatible source [] r m h = elim m [ ]
mem-select_compatible source (x ∷ rs) r (Memᴰ.head e) h =
    subst (λ y. Memᴰ r (select_compatible source (y ∷ rs))) e
      (mem_new _ _ r (select_compatible source rs) h.0 h.1)
mem-select_compatible source (x ∷ rs) r (Memᴰ.tail m) h =
    mem_if _ _ x (select_compatible source rs) (mem-select_compatible source rs r m h)

module _ (host : Host) (roots interfaces : List Root) (source : Iface)
    (enabled : dual_transport_isolation_enabled host roots ≡ true)
    (zoned : is_zoned (interface_family (some source)) ≡ true) where
  filter_interfaces_lem :
      filter_interfaces host roots (some source) interfaces ≡ select_compatible source interfaces
  unfolding filter_interfaces
  filter_interfaces_lem = rw (enabled, zoned)

  pub filter_interfaces-IsReachable :
      All (λ r. IsReachable source r.iface) (filter_interfaces host roots (some source) interfaces)
  filter_interfaces-IsReachable =
      rw filter_interfaces_lem (select_compatible-IsReachable source interfaces)

-- A request on an interface of the list.
abbrev pub Goes : List Root → Request → Type 0
Goes roots q = (r : Root) × Memᴰ r roots × (q.on ≡ some r.iface)

-- The requests of `after` are those of `before` and some that keep `P`.
abbrev pub Adds : (Request → Type 0) → Net → Net → Type 0
Adds P before after = (new : List Request) × (after.requests ≡ before.requests ++ new) × All P new

-- A request on an interface that the source may talk to.
abbrev pub Stays : Iface → Request → Type 0
Stays source q = (i : Iface) × (q.on ≡ some i) × IsReachable source i

module _ {Reply : Type 0} (original : Bytes → Option Iface → Net → Net × Reply)
    (sends : (k : Bytes) (a : Option Iface) (n : Net) → Adds (Goes n.roots) n (original k a n).0)
    (host : Host) (k : Bytes) (source : Iface) (n : Net)
    (enabled : dual_transport_isolation_enabled host n.roots ≡ true)
    (zoned : is_zoned (interface_family (some source)) ≡ true) where
  abbrev narrowed : Net
  narrowed = record (drop_crossing k source n) {
    roots =
        filter_interfaces host (drop_crossing k source n).roots (some source)
          (drop_crossing k source n).roots;
  }

module _ (k : Bytes) (source : Iface) (n : Net) where
  -- For a request from a serial or LAN interface, a cached route of the requested destination
  -- that crosses the zones is gone before the transport handles the request.
  pub drop_crossing_lem :
      is_zoned (interface_family (some source)) ≡ true
      → crosses_from source (get k (drop_crossing k source n).path_table) ≡ false
  unfolding drop_crossing
  drop_crossing_lem zoned = ground (arith, get-pop k k n.path_table, str_eq_refl k)

-- A packet that is sent on keeps everything but its interface, and an interface that is set; a
-- rebroadcast announce without one gets the interface that received it, if isolation is on and that
-- interface is known.
pub pin_announce_interface_lem :
    (host : Host) (p : Packet) (n : Net)
    → pin_announce_interface host p n ≡ record p {
      attached = elim p.attached [
        | some i ↦ some i
        | none ↦
            if dual_transport_isolation_enabled host n.roots && (p.is_announce && not (p.hops == 0))
            then source_of p n
            else none
      ];
    }
unfolding pin_announce_interface
pin_announce_interface_lem host p n = ground arith
