-- ===== src/Net/Pins/Wait.antt =====
-- Waiting for a route: what `None` and what an interface says about the turns of the loop.
use chatxz.Prelude.{
  ◌≡◌, refl, inl, inr, ◌&&◌, Option, none, some, List, [], ◌∷◌, arith, if◌then◌else◌, Bool-cases,
  Str,
}
use chatxz.Net.Iface.{Family, Host, Iface, interface_is_healthy}
use chatxz.Net.State.{Net}
use chatxz.Net.Paths.{route}
use chatxz.Net.Paths.Route.{only, route-scrub_peer_path}
use chatxz.Net.Pins.{Poll, wanted_by, poll_once, wait_for_peer_path_families}

-- The interface that a turn would return: the peer's route, if healthy and of a wanted family.
abbrev pub offer : Host → Option Str → List (Option Family) → Net → Option Iface
offer host h families n =
    only (λ i. interface_is_healthy host (some i) && wanted_by families i) (route h n)

-- The turns before the first one that finds `should_stop()` true.
abbrev pub before_stop : List Poll → List Poll
before_stop [] = []
before_stop (p ∷ polls) = if p.stop then [] else p ∷ before_stop polls

-- The first offer of the turns.
abbrev pub first_offer : Host → Option Str → List (Option Family) → List Poll → Option Iface
first_offer host h families [] = none
first_offer host h families (p ∷ polls) = elim (offer host h families p.net) [
  | none ↦ first_offer host h families polls
  | some i ↦ some i
]

poll_once_lem :
    (host : Host) (h : Option Str) (families : List (Option Family)) (n : Net)
    → poll_once host h families n ≡ offer host h families n
unfolding poll_once
poll_once_lem host h families n = ground (arith, route-scrub_peer_path h n host)

-- The wait returns the first route that is healthy and of a wanted family in a turn before the
-- stop signal and the deadline, and nothing if there is none.
pub wait_for_peer_path_families_lem :
    (host : Host) (h : Option Str) (families : List (Option Family)) (polls : List Poll)
    → wait_for_peer_path_families host h families polls
      ≡ first_offer host h families (before_stop polls)
unfolding wait_for_peer_path_families
wait_for_peer_path_families_lem host h families [] = refl
wait_for_peer_path_families_lem host h families (p ∷ polls) = elim (Bool-cases p.stop) [
  | inl s ↦ rw s refl
  | inr s ↦ rw s (
      ground (
        arith,
        poll_once_lem host h families p.net,
        wait_for_peer_path_families_lem host h families polls,
      ))
]
