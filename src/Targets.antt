-- ===== src/Targets.antt =====
-- chatxz/core/lan_targets.py: where broadcasts and unicast probes on the LAN go.
pub mod Laws
use chatxz.Prelude.{
  ℕ, zero, suc, ◌+◌, ◌/◌, ◌%◌, Bool, not, ◌&&◌, ◌||◌, Option, none, some, List, [], ◌∷◌, ◌++◌, ltb,
  if◌then◌else◌, take, keep, Str, codes, str_eq, truthy, or_empty, or_else, str_mem, strip, split,
}

-- An entry of `list_network_interfaces`, as far as it is looked at.
pub record Nic : Type 0 where
  pub up : Bool
  pub kind : Str
  pub gateway_iface : Bool
  pub broadcast : Option Str
  pub subnet_broadcast : Option Str

-- `_up_broadcast_ifaces`
unfoldable pub up_broadcast_ifaces : List Nic → List Nic
up_broadcast_ifaces =
    keep (λ n. n.up && (truthy (or_empty n.broadcast) && not (str_eq n.kind (codes "vpn"))))

abbrev is_gateway : Nic → Bool
is_gateway n = n.gateway_iface

abbrev is_physical : Nic → Bool
is_physical n = str_eq n.kind (codes "wifi") || str_eq n.kind (codes "ethernet")

abbrev if_any : List Nic → List Nic → List Nic
if_any [] rest = rest
if_any (n ∷ ns) rest = n ∷ ns

-- What the machine says: whether it runs Android, whether an interface was chosen, its own address, and
-- `_filter_interfaces_for_lan`.
pub record Machine : Type 0 where
  pub android : Bool
  pub chosen : Bool
  pub own_ip : Option Str
  pub for_lan : List Nic → List Nic

-- `_broadcast_interface_entries`
unfoldable pub broadcast_interface_entries : Machine → List Nic → List Nic
broadcast_interface_entries m entries =
    let scoped = m.for_lan entries in
    let active =
      if_any (up_broadcast_ifaces scoped) (up_broadcast_ifaces (keep is_gateway entries)) in
    if m.android
    then entries
    else if m.chosen
    then active
    else if_any (up_broadcast_ifaces (keep is_gateway scoped))
        (if_any (take 2 (up_broadcast_ifaces (keep is_physical scoped))) active)

-- `if host and host not in targets: targets.append(host)`
unfoldable pub append_target : Str → List Str → List Str
append_target host targets =
    if not (truthy host) || str_mem host targets then targets else targets ++ host ∷ []

-- `if host and host not in targets: targets.insert(0, host)`
unfoldable pub insert_target : Str → List Str → List Str
insert_target host targets =
    if not (truthy host) || str_mem host targets then targets else host ∷ targets

unfoldable pub append_targets : List Str → List Str → List Str
append_targets [] targets = targets
append_targets (host ∷ hosts) targets = append_targets hosts (append_target host targets)

unfoldable pub nic_targets : List Nic → List Str
nic_targets [] = []
nic_targets (n ∷ ns) =
    let rest = nic_targets ns in or_empty n.broadcast ∷ or_empty n.subnet_broadcast ∷ rest

-- The first three parts of an address with four, and the last one.
unfoldable pub host_parts : List Str → Option (Str × Str)
host_parts (a ∷ b ∷ c ∷ d ∷ []) = some (a ++ 46 ∷ b ++ 46 ∷ c, d)
host_parts _ = none

abbrev pub insert_directed : Option (Str × Str) → List Str → List Str
insert_directed none targets = targets
insert_directed (some (base, host)) targets = insert_target (base ++ codes ".255") targets

-- `ip or lan_ip()`
abbrev pub own : Machine → Option Str → Str
own m ip = or_else (or_empty ip) (or_empty m.own_ip)

-- `directed_broadcasts`
unfoldable pub directed_broadcasts : Machine → List Nic → Option Str → List Str
directed_broadcasts m entries ip =
    let targets = append_targets (nic_targets (broadcast_interface_entries m entries)) [] in
    let parts = if truthy (own m ip) then host_parts (split 46 (own m ip)) else none in
    append_target (codes "255.255.255.255") (insert_directed parts targets)

-- `str(i)` of a number below 1000
unfoldable pub decimal : ℕ → Str
decimal i =
    if ltb i 10
    then (48 + i) ∷ []
    else if ltb i 100
    then (48 + i / 10) ∷ (48 + i % 10) ∷ []
    else (48 + i / 100) ∷ (48 + (i / 10) % 10) ∷ (48 + i % 10) ∷ []

unfoldable pub sample_hosts : Str → Str → List ℕ → List Str → List Str
sample_hosts base my_host [] hosts = hosts
sample_hosts base my_host (i ∷ is) hosts =
    let skip = str_eq (decimal i) my_host in
    sample_hosts base my_host is
      (if skip then hosts else append_target (base ++ 46 ∷ decimal i) hosts)

-- `range(start, start + n)`
unfoldable pub range : ℕ → ℕ → List ℕ
range start zero = []
range start (suc n) = start ∷ range (start + 1) n

abbrev pub usual_hosts : List ℕ
usual_hosts =
    1 ∷ 2 ∷ 3 ∷ 4 ∷ 5 ∷ 10 ∷ 20 ∷ 50 ∷ 100 ∷ 101 ∷ 102 ∷ 103 ∷ 104 ∷ 105 ∷ 110 ∷ 120 ∷ 150 ∷ 200
    ∷ 254 ∷ []

-- `_sample_subnet_hosts`
unfoldable pub sample_subnet_hosts : Machine → Str → Str → List Str
sample_subnet_hosts m base my_host =
    let hosts = sample_hosts base my_host usual_hosts [] in
    if m.android
    then sample_hosts base my_host (range 100 16) (sample_hosts base my_host (range 2 30) hosts)
    else hosts

unfoldable pub stripped : List (Option Str) → List Str
stripped [] = []
stripped (h ∷ hs) = strip (or_empty h) ∷ stripped hs

abbrev pub add_samples : Machine → Option (Str × Str) → List Str → List Str
add_samples m none targets = targets
add_samples m (some (base, host)) targets = append_targets (sample_subnet_hosts m base host) targets

-- `efficient_unicast_hosts`
unfoldable pub efficient_unicast_hosts :
    Machine → Option Str → List (Option Str) → Option Str → List Str
efficient_unicast_hosts m ip known_ips peer_ip =
    let known = append_targets (stripped known_ips) [] in
    let targets = insert_target (strip (or_empty peer_ip)) known in
    add_samples m (if truthy (own m ip) then host_parts (split 46 (own m ip)) else none) targets
