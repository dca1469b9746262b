-- ===== src/Net/Iface.antt =====
-- Interfaces of the Reticulum transport, as chatxz/core/lan_rns.py looks at them: their family, their
-- health and the walk over them.
use chatxz.Prelude.{
  ℕ, Bool, true, false, not, ◌&&◌, ◌||◌, Option, none, some, List, [], ◌∷◌, ◌++◌, if◌then◌else◌,
  Str, codes, str_eq, truthy, str_mem, contains, lower,
}
use chatxz.Dict.{Dict, get}

-- The result of `interface_family`; `unknown` is the empty text.
pub data Family : Type 0 where
  unknown serial tcp lan udp other : Family

abbrev pub fam_eq : Family → Family → Bool
fam_eq unknown unknown = true
fam_eq serial serial = true
fam_eq tcp tcp = true
fam_eq lan lan = true
fam_eq udp udp = true
fam_eq other other = true
fam_eq _ _ = false

-- The `owner` attribute of a spawned interface. `online` is absent where the object has no such
-- attribute; `spawned` holds the keys of `spawned_interfaces` if that is a dict.
pub record Owner : Type 0 where
  pub detached : Bool
  pub online : Option Bool
  pub spawned : Option (List Str)
  pub timed_out : Option (Dict Bool)

-- `id` is the object's identity, `class_name` is `type(iface).__name__`, `text` is `str(iface)`.
pub record Iface : Type 0 where
  pub id : ℕ
  pub class_name : Str
  pub text : Str
  pub detached : Bool
  pub online : Option Bool
  pub owner : Option Owner
  pub addr : Option Str
  pub ifname : Option Str
  pub port : Option Str

-- What `is_android()` and `physical_lan_reachable()` report.
pub record Host : Type 0 where
  pub android : Bool
  pub lan_reachable : Bool

-- An entry of `RNS.Transport.interfaces`; `spawned` is there if `spawned_interfaces` is a dict.
pub record Root : Type 0 where
  pub iface : Iface
  pub spawned : Option (List Iface)

classify : Str → Str → Family
classify name text =
    if contains name (codes "serial") || contains text (codes "tty")
    then serial
    else if contains name (codes "tcpclient")
        || (contains name (codes "tcpserver") || contains name (codes "tcpinterface"))
    then tcp
    else if contains name (codes "autointerfacepeer") || contains name (codes "auto")
    then lan
    else if contains name (codes "udp")
    then udp
    else other

unfoldable pub interface_family : Option Iface → Family
unfolding classify
interface_family none = unknown
interface_family (some i) = classify (lower i.class_name) (lower i.text)

abbrev pub is_false : Option Bool → Bool
is_false (some false) = true
is_false _ = false

-- `isinstance(spawned, dict) and addr is not None and addr not in spawned`
abbrev pub forgotten : Option (List Str) → Option Str → Bool
forgotten (some keys) (some addr) = not (str_mem addr keys)
forgotten _ _ = false

-- `isinstance(timed_out, dict) and timed_out.get(ifname) is True`
abbrev pub is_true_at : Option (Dict Bool) → Str → Bool
is_true_at none name = false
is_true_at (some d) name = elim (get name d) [ none ↦ false | some b ↦ b ]

abbrev pub has_timed_out : Option (Dict Bool) → Option Str → Bool
has_timed_out d none = false
has_timed_out d (some name) = truthy name && is_true_at d name

unfoldable pub owner_is_healthy : Iface → Option Owner → Bool
owner_is_healthy i none = true
owner_is_healthy i (some o) =
    if o.detached
    then false
    else if is_false o.online
    then false
    else if forgotten o.spawned i.addr
    then false
    else if has_timed_out o.timed_out i.ifname
    then false
    else true

unfoldable pub interface_is_healthy : Host → Option Iface → Bool
unfolding owner_is_healthy
interface_is_healthy h none = false
interface_is_healthy h (some i) =
    if i.detached
    then false
    else if is_false i.online
    then false
    else if (fam_eq (interface_family (some i)) udp || fam_eq (interface_family (some i)) lan)
        && (not h.android && not h.lan_reachable)
    then false
    else owner_is_healthy i i.owner

children : Option (List Iface) → List Iface
children none = []
children (some is) = is

unfoldable pub iter_transport_interfaces : List Root → List Iface
unfolding children
iter_transport_interfaces [] = []
iter_transport_interfaces (r ∷ rs) = r.iface ∷ (children r.spawned ++ iter_transport_interfaces rs)

-- `family is None or interface_family(iface) == family`
abbrev pub is_wanted : Option Family → Iface → Bool
is_wanted none i = true
is_wanted (some f) i = fam_eq (interface_family (some i)) f

-- `if family and interface_family(iface) != family: continue` lets these through; the family `""`
-- is `unknown`.
abbrev pub passes_family : Option Family → Iface → Bool
passes_family none i = true
passes_family (some f) i = fam_eq f unknown || fam_eq (interface_family (some i)) f

unfoldable pub select_online : Host → Option Family → List Iface → List Iface
select_online h family [] = []
select_online h family (i ∷ is) =
    let rest = select_online h family is in
    if not (interface_is_healthy h (some i))
    then rest
    else if not (passes_family family i)
    then rest
    else i ∷ rest

unfoldable pub online_interfaces : Host → Option Family → List Root → List Iface
online_interfaces h family roots = select_online h family (iter_transport_interfaces roots)

-- `port and getattr(iface, "port", None) != port`
abbrev pub wrong_port : Option Str → Option Str → Bool
wrong_port (some (c ∷ p)) (some q) = not (str_eq q (c ∷ p))
wrong_port (some (c ∷ p)) none = true
wrong_port _ _ = false

-- The first healthy interface of a class, on the given port if there is one.
first_healthy : Host → Str → Option Str → List Iface → Option Iface
first_healthy h class_name port [] = none
first_healthy h class_name port (i ∷ is) =
    let rest = first_healthy h class_name port is in
    if not (str_eq i.class_name class_name)
    then rest
    else if wrong_port port i.port
    then rest
    else if interface_is_healthy h (some i)
    then some i
    else rest

unfoldable pub serial_interface_online : Host → Option Str → List Root → Option Iface
unfolding first_healthy
serial_interface_online h port roots =
    first_healthy h (codes "SerialInterface") port (iter_transport_interfaces roots)

unfoldable pub udp_interface_online : Host → List Root → Option Iface
unfolding first_healthy
udp_interface_online h roots =
    first_healthy h (codes "UDPInterface") none (iter_transport_interfaces roots)

unfoldable pub lan_mesh_has_peer : Host → List Root → Bool
unfolding first_healthy
lan_mesh_has_peer h roots =
    elim (first_healthy h (codes "AutoInterfacePeer") none (iter_transport_interfaces roots)) [
      | none ↦ false
      | some i ↦ true
    ]
