-- ===== src/Targets/Laws.antt =====
-- The lists of targets in chatxz/core/lan_targets.py.
use chatxz.Targets.{decimal}
use chatxz.Targets.{nic_targets}
use chatxz.Targets.{broadcast_interface_entries}
use chatxz.Prelude.{
  ℕ, zero, suc, ◌+◌, ◌≤◌, ◌≡◌, refl, ap, inl, inr, true, false, not, ◌||◌, Option, none, some, List,
  [], ◌∷◌, ◌++◌, arith, if◌then◌else◌, Bool-cases, length, length-append, Str, codes, str_eq,
  truthy, or_empty, str_mem, strip, split, str_eq_refl, str_eq_iff, branch,
}
use chatxz.Targets.{
  Machine, Nic, append_target, insert_target, append_targets, directed_broadcasts, insert_directed,
  sample_hosts, sample_subnet_hosts, add_samples, efficient_unicast_hosts, stripped, range,
  usual_hosts, host_parts, own,
}

-- No text twice, and none empty.
abbrev pub IsTargets : List Str → Type 0
IsTargets [] = Unit
IsTargets (t ∷ ts) = (truthy t ≡ true) × (str_mem t ts ≡ false) × IsTargets ts

str_mem-snoc : (s t : Str) (ts : List Str) → str_mem s (ts ++ t ∷ []) ≡ str_mem s ts || str_eq s t
unfolding str_mem
str_mem-snoc s t [] = ground arith
str_mem-snoc s t (u ∷ ts) = ground (arith, str_mem-snoc s t ts)

snoc-IsTargets :
    (t : Str) (ts : List Str)
    → truthy t ≡ true
    → str_mem t ts ≡ false
    → IsTargets ts
    → IsTargets (ts ++ t ∷ [])
unfolding str_mem
snoc-IsTargets t [] real new h = (real, refl, tt)
snoc-IsTargets t (u ∷ ts) real new h = (
  h.0,
  ground (arith, str_mem-snoc u t ts, str_eq_iff u t, str_eq_iff t u),
  snoc-IsTargets t ts real (ground arith) h.2,
)

append_target-IsTargets : (t : Str) (ts : List Str) → IsTargets ts → IsTargets (append_target t ts)
unfolding append_target
append_target-IsTargets t ts h = elim (Bool-cases (not (truthy t) || str_mem t ts)) [
  | inl e ↦ rw (e, append_target) h
  | inr e ↦ rw (e, append_target) (snoc-IsTargets t ts (ground arith) (ground arith) h)
]

insert_target-IsTargets : (t : Str) (ts : List Str) → IsTargets ts → IsTargets (insert_target t ts)
unfolding insert_target
insert_target-IsTargets t ts h = elim (Bool-cases (not (truthy t) || str_mem t ts)) [
  | inl e ↦ rw (e, insert_target) h
  | inr e ↦ rw (e, insert_target) (ground arith, ground arith, h)
]

append_targets-IsTargets :
    (hosts ts : List Str) → IsTargets ts → IsTargets (append_targets hosts ts)
unfolding append_targets
append_targets-IsTargets [] ts h = h
append_targets-IsTargets (t ∷ hosts) ts h =
    append_targets-IsTargets hosts (append_target t ts) (append_target-IsTargets t ts h)

length-append_target : (t : Str) (ts : List Str) → length (append_target t ts) ≤ length ts + 1
unfolding append_target
length-append_target t ts = ground (arith, length-append ts (t ∷ []))

length-insert_target : (t : Str) (ts : List Str) → length (insert_target t ts) ≤ length ts + 1
unfolding insert_target
length-insert_target t ts = ground arith

length-append_targets :
    (hosts ts : List Str) → length (append_targets hosts ts) ≤ length ts + length hosts
unfolding append_targets
length-append_targets [] ts = omega arith
length-append_targets (t ∷ hosts) ts =
    omega (arith, length-append_targets hosts (append_target t ts), length-append_target t ts)

length-sample_hosts :
    (base my_host : Str) (is : List ℕ) (hosts : List Str)
    → length (sample_hosts base my_host is hosts) ≤ length hosts + length is
unfolding sample_hosts
length-sample_hosts base my_host [] hosts = omega arith
length-sample_hosts base my_host (i ∷ is) hosts = elim (Bool-cases (str_eq (decimal i) my_host)) [
  | inl e ↦ rw (e, sample_hosts) (omega (arith, length-sample_hosts base my_host is hosts))
  | inr e ↦
      rw (e, sample_hosts)
        (omega (
          arith,
          length-sample_hosts base my_host is (append_target (base ++ 46 ∷ decimal i) hosts),
          length-append_target (base ++ 46 ∷ decimal i) hosts,
        ))
]

length-range : (start n : ℕ) → length (range start n) ≡ n
unfolding range
length-range start zero = refl
length-range start (suc n) = ap suc (length-range (start + 1) n)

-- At most 19 hosts are sampled, on Android at most 65.
length-sample_subnet_hosts :
    (m : Machine) (base my_host : Str) → length (sample_subnet_hosts m base my_host) ≤ 65
unfolding sample_subnet_hosts
length-sample_subnet_hosts m base my_host =
    let first = sample_hosts base my_host usual_hosts [] in
    let second = sample_hosts base my_host (range 2 30) first in
    let a : length first ≤ 19 = length-sample_hosts base my_host usual_hosts [] in
    let b = length-sample_hosts base my_host (range 2 30) first in
    let c = length-sample_hosts base my_host (range 100 16) second in
    branch (λ (hosts : List Str). length hosts ≤ 65) m.android _ _
      (omega (arith, a, b, c, length-range 2 30, length-range 100 16)) (omega (arith, a))

length-stripped : (hs : List (Option Str)) → length (stripped hs) ≡ length hs
unfolding stripped
length-stripped [] = refl
length-stripped (h ∷ hs) = ap suc (length-stripped hs)

add_samples_lem :
    (m : Machine) (o : Option (Str × Str)) (ts : List Str)
    → IsTargets ts
    → IsTargets (add_samples m o ts) × (length (add_samples m o ts) ≤ length ts + 65)
add_samples_lem m none ts h = (h, omega arith)
add_samples_lem m (some (base, host)) ts h = (
  append_targets-IsTargets (sample_subnet_hosts m base host) ts h,
  omega (
    arith,
    length-append_targets (sample_subnet_hosts m base host) ts,
    length-sample_subnet_hosts m base host,
  ),
)

-- The list of unicast targets has no entry twice and no empty one, and at most 66 entries more
-- than known addresses were given.
pub efficient_unicast_hosts-IsTargets :
    (m : Machine) (ip : Option Str) (known_ips : List (Option Str)) (peer_ip : Option Str)
    → IsTargets (efficient_unicast_hosts m ip known_ips peer_ip)
      × (length (efficient_unicast_hosts m ip known_ips peer_ip) ≤ length known_ips + 66)
unfolding efficient_unicast_hosts
efficient_unicast_hosts-IsTargets m ip known_ips peer_ip =
    let known = append_targets (stripped known_ips) [] in
    let targets = insert_target (strip (or_empty peer_ip)) known in
    let o = if truthy (own m ip) then host_parts (split 46 (own m ip)) else none in
    let h =
      insert_target-IsTargets (strip (or_empty peer_ip)) known
        (append_targets-IsTargets (stripped known_ips) [] tt) in
    let r = add_samples_lem m o targets h in
    let a = length-append_targets (stripped known_ips) [] in
    (
      r.0,
      omega (
        arith,
        r.1,
        length-insert_target (strip (or_empty peer_ip)) known,
        a,
        length-stripped known_ips,
      ),
    )

insert_directed-IsTargets :
    (o : Option (Str × Str)) (ts : List Str) → IsTargets ts → IsTargets (insert_directed o ts)
insert_directed-IsTargets none ts h = h
insert_directed-IsTargets (some (base, host)) ts h = insert_target-IsTargets _ ts h

str_mem-append_target :
    (t : Str) (ts : List Str) → truthy t ≡ true → str_mem t (append_target t ts) ≡ true
unfolding append_target
str_mem-append_target t ts real = ground (arith, str_mem-snoc t t ts, str_eq_refl t)

-- The list of broadcast targets has no entry twice and no empty one, and 255.255.255.255 is on
-- it.
pub directed_broadcasts-IsTargets :
    (m : Machine) (entries : List Nic) (ip : Option Str)
    → IsTargets (directed_broadcasts m entries ip)
      × (str_mem (codes "255.255.255.255") (directed_broadcasts m entries ip) ≡ true)
unfolding directed_broadcasts
directed_broadcasts-IsTargets m entries ip =
    let o = if truthy (own m ip) then host_parts (split 46 (own m ip)) else none in
    let ts = append_targets (nic_targets (broadcast_interface_entries m entries)) [] in
    let h =
      insert_directed-IsTargets o ts
        (append_targets-IsTargets (nic_targets (broadcast_interface_entries m entries)) [] tt) in
    (
      append_target-IsTargets (codes "255.255.255.255") (insert_directed o ts) h,
      str_mem-append_target (codes "255.255.255.255") (insert_directed o ts) refl,
    )
