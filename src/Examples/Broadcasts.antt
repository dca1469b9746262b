-- ===== src/Examples/Broadcasts.antt =====
-- The targets of lan_targets.py on a machine with one Wi-Fi interface.
use chatxz.Prelude.{◌≤◌, ◌≡◌, true, false, none, some, [], ◌∷◌, length, codes, str_mem}
use chatxz.Targets.{Machine, Nic, directed_broadcasts, efficient_unicast_hosts}
use chatxz.Targets.Laws.{
  IsTargets, efficient_unicast_hosts-IsTargets, directed_broadcasts-IsTargets,
}

abbrev wifi : Nic
wifi = record {
  up = true;
  kind = codes "wifi";
  gateway_iface = true;
  broadcast = some (codes "10.0.0.255");
  subnet_broadcast = none;
}

abbrev laptop : Machine
laptop = record {
  android = false;
  chosen = false;
  own_ip = some (codes "10.0.0.7");
  for_lan = λ nics. nics;
}

efficient_unicast_hosts-IsTargets_example :
    IsTargets (
      efficient_unicast_hosts laptop none
        (some (codes "10.0.0.9") ∷ none ∷ [])
        (some (codes "10.0.0.9")))
    × (length (
          efficient_unicast_hosts laptop none
            (some (codes "10.0.0.9") ∷ none ∷ [])
            (some (codes "10.0.0.9")))
        ≤ 68)
efficient_unicast_hosts-IsTargets_example =
    efficient_unicast_hosts-IsTargets laptop none (some (codes "10.0.0.9") ∷ none ∷ [])
      (some (codes "10.0.0.9"))

directed_broadcasts-IsTargets_example :
    IsTargets (directed_broadcasts laptop (wifi ∷ []) none)
    × (str_mem (codes "255.255.255.255") (directed_broadcasts laptop (wifi ∷ []) none) ≡ true)
directed_broadcasts-IsTargets_example = directed_broadcasts-IsTargets laptop (wifi ∷ []) none
