-- ===== src/Discovery/Ranking/Laws.antt =====
-- `dedupe_identities` of chatxz/core/discovery.py and the invariant of the table.
use chatxz.Prelude.{ℕ, ◌+◌, Option, List, [], ◌∷◌, Str, branch}
use chatxz.Dict.{Dict}
use chatxz.Discovery.Invariant.{IsSound, remove_peer_entry-IsSound}
use chatxz.Discovery.Ranking.{
  prefers, compete, settle_winner, settle_group, settle_groups, dedupe_identities, chosen_scope,
  group_rows,
}
use chatxz.Discovery.Remove.{remove_peer_entry}
use chatxz.Discovery.Scope.{peer_viable}
use chatxz.Discovery.State.{Row, PeerDiscovery, World}

module _ (scope : Str) (locals : List Str) (w : World) where
  compete-IsSound :
      (s : Option Str) (k : Str) (r : Row) (rest : Dict Row) (d : PeerDiscovery) (n : ℕ)
      → IsSound scope locals d
      → IsSound scope locals (compete w s k r rest d n).2
  unfolding compete
  compete-IsSound s k r [] d n h = h
  compete-IsSound s k r ((j, q) ∷ rest) d n h =
      branch (λ (x : Str × Row × PeerDiscovery × ℕ). IsSound scope locals x.2) (prefers w s r q)
        (compete w s k r rest (remove_peer_entry j d) (n + 1))
        (compete w s j q rest (remove_peer_entry k d) (n + 1))
        (compete-IsSound s k r rest _ (n + 1) (remove_peer_entry-IsSound scope locals j d h))
        (compete-IsSound s j q rest _ (n + 1) (remove_peer_entry-IsSound scope locals k d h))

  settle_winner-IsSound :
      (s : Option Str) (x : Str × Row × PeerDiscovery × ℕ)
      → IsSound scope locals x.2
      → IsSound scope locals (settle_winner w s x).0
  settle_winner-IsSound s (k, r, d, n) h =
      branch (λ (y : PeerDiscovery × ℕ). IsSound scope locals y.0) (peer_viable w s r) (d, n)
        (remove_peer_entry k d, n + 1) h (remove_peer_entry-IsSound scope locals k d h)

  settle_group-IsSound :
      (s : Option Str) (rows : Dict Row) (d : PeerDiscovery) (n : ℕ)
      → IsSound scope locals d
      → IsSound scope locals (settle_group w s rows d n).0
  unfolding settle_group
  settle_group-IsSound s [] d n h = h
  settle_group-IsSound s ((k, r) ∷ []) d n h = h
  settle_group-IsSound s ((k, r) ∷ q ∷ rest) d n h =
      settle_winner-IsSound s (compete w s k r (q ∷ rest) d n)
        (compete-IsSound s k r (q ∷ rest) d n h)

  settle_groups-IsSound :
      (s : Option Str) (groups : Dict (Dict Row)) (d : PeerDiscovery) (n : ℕ)
      → IsSound scope locals d
      → IsSound scope locals (settle_groups w s groups d n).0
  unfolding settle_groups
  settle_groups-IsSound s [] d n h = h
  settle_groups-IsSound s ((k, rows) ∷ groups) d n h =
      settle_groups-IsSound s groups (settle_group w s rows d n).0 (settle_group w s rows d n).1
        (settle_group-IsSound s rows d n h)

  pub dedupe_identities-IsSound :
      (scope_ip : Option Str) (d : PeerDiscovery)
      → IsSound scope locals d
      → IsSound scope locals (dedupe_identities w scope_ip d).0
  unfolding dedupe_identities
  dedupe_identities-IsSound scope_ip d h =
      settle_groups-IsSound (chosen_scope w scope_ip) (group_rows d.peers []) d 0 h
