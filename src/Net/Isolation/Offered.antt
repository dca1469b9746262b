-- ===== src/Net/Isolation/Offered.antt =====
-- Which interfaces chatxz/core/transport_isolation.py offers to a path request.
use mathlib.Core.List.{Memᴰ}
use chatxz.Prelude.{
  ◌≡◌, refl, ◌↔◌, inl, inr, Bool, true, false, ◌&&◌, ◌||◌, some, List, [], ◌∷◌, arith, ◌==◌,
  if◌then◌else◌, Bool-cases,
}
use chatxz.Net.Dual.{dual_transport_isolation_enabled, families_compatible_lem, crosses}
use chatxz.Net.Iface.{Host, Iface, Root, interface_family}
use chatxz.Net.Isolation.{select_compatible, is_zoned, filter_interfaces}
use chatxz.Net.Isolation.Laws.{
  IsReachable, All-mem, select_compatible-IsReachable, mem-select_compatible,
}

-- Whether a path request on the source is kept from an interface: the source itself, or one in the
-- other zone.
abbrev pub is_withheld : Host → List Root → Iface → Iface → Bool
is_withheld host roots source i =
    (dual_transport_isolation_enabled host roots && is_zoned (interface_family (some source)))
    && (i.id == source.id || crosses (interface_family (some source)) (interface_family (some i)))

allowed :
    (source i : Iface)
    → IsReachable source i
    → (i.id == source.id || crosses (interface_family (some source)) (interface_family (some i)))
      ≡ false
allowed source i (new, fits) = ground (
  arith,
  new,
  fits,
  (families_compatible_lem (interface_family (some source)) (interface_family (some i))).0,
)

reached :
    (source i : Iface)
    → (i.id == source.id || crosses (interface_family (some source)) (interface_family (some i)))
      ≡ false
    → IsReachable source i
reached source i h = (
  ground arith,
  ground (
    arith,
    (families_compatible_lem (interface_family (some source)) (interface_family (some i))).0,
  ),
)

mem_of_if :
    (same fits : Bool) {r : Root} (x : Root) (rest rs : List Root)
    → (Memᴰ r rest → Memᴰ r rs)
    → Memᴰ r (if same then rest else if fits then x ∷ rest else rest)
    → Memᴰ r (x ∷ rs)
mem_of_if true fits x rest rs f m = Memᴰ.tail (f m)
mem_of_if false true x rest rs f (Memᴰ.head e) = Memᴰ.head e
mem_of_if false true x rest rs f (Memᴰ.tail m) = Memᴰ.tail (f m)
mem_of_if false false x rest rs f m = Memᴰ.tail (f m)

mem_of_select :
    (source : Iface) (rs : List Root) (r : Root) → Memᴰ r (select_compatible source rs) → Memᴰ r rs
unfolding select_compatible
mem_of_select source [] r m = m
mem_of_select source (x ∷ rs) r m =
    mem_of_if _ _ x (select_compatible source rs) rs (mem_of_select source rs r) m

-- A path request from an interface is offered exactly the interfaces of the list that are not
-- withheld: with both zones up and a serial or LAN source, the source itself and every interface
-- of the other zone are withheld, and otherwise none is.
pub mem-filter_interfaces :
    (host : Host) (roots interfaces : List Root) (source : Iface) (r : Root)
    → Memᴰ r (filter_interfaces host roots (some source) interfaces)
      ↔ (Memᴰ r interfaces × (is_withheld host roots source r.iface ≡ false))
unfolding filter_interfaces
mem-filter_interfaces host roots interfaces source r =
    elim (Bool-cases (dual_transport_isolation_enabled host roots)) [
      | inr off ↦ rw (off, filter_interfaces) ((λ m. (m, refl)), λ (m, h). m)
      | inl on ↦ elim (Bool-cases (is_zoned (interface_family (some source)))) [
        | inr free ↦ rw (on, filter_interfaces, free) ((λ m. (m, refl)), λ (m, h). m)
        | inl zoned ↦
            rw (on, filter_interfaces, zoned)
              (
                (λ m. (
                  mem_of_select source interfaces r m,
                  allowed source r.iface (
                      All-mem (λ x. IsReachable source x.iface)
                        (select_compatible source interfaces)
                        (select_compatible-IsReachable source interfaces) m),
                )),
                λ (m, h). mem-select_compatible source interfaces r m (reached source r.iface h),
              )
      ]
    ]
