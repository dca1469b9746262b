-- ===== src/Net/Dual.antt =====
-- The transport zones of chatxz/core/transport_isolation.py: serial on one side, LAN on the other.
use chatxz.Prelude.{
  Bool, true, false, not, ◌&&◌, ◌||◌, none, some, List, [], ◌∷◌, ◌≡◌, arith, if◌then◌else◌,
}
use chatxz.Net.Iface.{
  Family, unknown, serial, tcp, lan, udp, fam_eq, Host, Root, serial_interface_online,
  online_interfaces,
}

-- `_is_lan_family`, and `is_lan_transport_family` of lan_rns.py
unfoldable pub is_lan_family : Family → Bool
is_lan_family udp = true
is_lan_family lan = true
is_lan_family tcp = true
is_lan_family _ = false

abbrev pub is_empty {ℓ} : {A : Type ℓ} → List A → Bool
is_empty [] = true
is_empty (x ∷ xs) = false

unfoldable pub dual_transport_isolation_enabled : Host → List Root → Bool
dual_transport_isolation_enabled h roots = elim (serial_interface_online h none roots) [
  | none ↦ false
  | some i ↦
      not (is_empty (online_interfaces h (some udp) roots))
      || (not (is_empty (online_interfaces h (some lan) roots))
          || not (is_empty (online_interfaces h (some tcp) roots)))
]

unfoldable pub families_compatible : Family → Family → Bool
unfolding is_lan_family
families_compatible source target =
    if fam_eq source unknown || fam_eq target unknown
    then true
    else if fam_eq source serial && is_lan_family target
    then false
    else if fam_eq target serial && is_lan_family source
    then false
    else true

-- Two families are in different zones if one is serial and the other a LAN family.
abbrev pub crosses : Family → Family → Bool
crosses serial b = is_lan_family b
crosses a serial = is_lan_family a
crosses a b = false

-- The zones are symmetric, and traffic is refused exactly across them.
pub families_compatible_lem :
    (a b : Family)
    → (families_compatible a b ≡ not (crosses a b))
      × (families_compatible a b ≡ families_compatible b a)
unfolding families_compatible
families_compatible_lem a b = ground arith
