-- ===== src/Net/Prune/Laws.antt =====
-- What the clean-up loops leave in the path table, and what they count.
use chatxz.Prelude.{
  ℕ, ◌+◌, ◌≡◌, refl, inl, inr, Bool, true, false, not, ◌&&◌, ◌||◌, Option, none, some, List, arith,
  leb, Bool-cases, Option-cases, length, Str, str_mem,
}
use chatxz.Dict.{get, IsDistinct}
use chatxz.Dict.Sweep.{sweep_lem, survivors-IsDistinct, spared, get-survivors, casualties_lem}
use chatxz.Net.Iface.{Family, serial, lan, udp, fam_eq, Host, interface_family}
use chatxz.Net.Dual.{is_lan_family, is_empty, dual_transport_isolation_enabled}
use chatxz.Net.Hash.{Bytes, to_hex}
use chatxz.Net.State.{PathEntry, Net}
use chatxz.Net.Prune.{
  dooms, prune_where, is_bridged, prune_bridged_lan_paths, serial_peer_set, is_cross_zone,
  prune_cross_zone_paths, is_stale_lan, prune_stale_lan_paths, is_on, clear_paths_on_family,
  clear_all_lan_paths, kept_families, is_outside, clear_paths_except_families,
}

-- `r` is `n` without the rows that `test` dooms: a row of more than five slots that passes the test
-- is gone, every other row is as it was, no key stands twice, the count is the number of rows lost,
-- and the interfaces and pins are untouched.
pub record Prunes (test : Bytes → PathEntry → Bool) (n : Net) (r : Net × ℕ) : Type 0 where
  pub rows : (k : Bytes) → get k r.0.path_table ≡ spared (dooms test) k (get k n.path_table)
  pub distinct : IsDistinct r.0.path_table
  pub count : length r.0.path_table + r.1 ≡ length n.path_table
  pub roots : r.0.roots ≡ n.roots
  pub pins : r.0.pins ≡ n.pins

pub prune_where-Prunes :
    (test : Bytes → PathEntry → Bool) (n : Net)
    → IsDistinct n.path_table
    → Prunes test n (prune_where test n)
unfolding prune_where
prune_where-Prunes test n d = rw (sweep_lem (dooms test) n.path_table d) (record {
  rows = λ k. get-survivors (dooms test) k n.path_table d;
  distinct = survivors-IsDistinct (dooms test) n.path_table d;
  count = casualties_lem (dooms test) n.path_table;
  roots = refl;
  pins = refl;
})

-- Clearing a family drops the rows that lead over an interface of that family, and no other.
pub clear_paths_on_family-Prunes :
    (family : Family) (n : Net)
    → IsDistinct n.path_table
    → Prunes (is_on family) n (clear_paths_on_family family n)
unfolding clear_paths_on_family
clear_paths_on_family-Prunes family n d = prune_where-Prunes (is_on family) n d

abbrev pub is_udp_or_lan : Bytes → PathEntry → Bool
is_udp_or_lan k e = is_on udp k e || is_on lan k e

spared_twice :
    (k : Bytes) (o : Option PathEntry)
    → spared (dooms (is_on lan)) k (spared (dooms (is_on udp)) k o)
      ≡ spared (dooms is_udp_or_lan) k o
spared_twice k none = refl
spared_twice k (some e) = ground arith

-- From a path table with no key twice, clearing all LAN routes drops the rows with more than five
-- slots over UDP and AutoInterface peers and no other, and counts the rows of both passes.
pub clear_all_lan_paths-Prunes :
    (n : Net) → IsDistinct n.path_table → Prunes is_udp_or_lan n (clear_all_lan_paths n)
unfolding clear_all_lan_paths
clear_all_lan_paths-Prunes n d =
    let first = clear_paths_on_family-Prunes udp n d in
    let second = clear_paths_on_family-Prunes lan (clear_paths_on_family udp n).0 first.distinct in
    record {
      rows = λ k. ground (arith, first.rows k, second.rows k, spared_twice k (get k n.path_table));
      distinct = second.distinct;
      count = ground (arith, first.count, second.count);
      roots = ground (arith, first.roots, second.roots);
      pins = ground (arith, first.pins, second.pins);
    }

-- Stale LAN rows are dropped, and no other.
pub prune_stale_lan_paths-Prunes :
    (host : Host) (n : Net)
    → IsDistinct n.path_table
    → Prunes (is_stale_lan host) n (prune_stale_lan_paths host n)
unfolding prune_stale_lan_paths
prune_stale_lan_paths-Prunes host n d = prune_where-Prunes (is_stale_lan host) n d

never :
    (t : Bytes → PathEntry → Bool) (n : Net)
    → IsDistinct n.path_table
    → Prunes (λ k e. false && t k e) n (n, 0)
never t n d = record {
  rows = λ k. elim (Option-cases (get k n.path_table)) [
    | inl e ↦ ground arith
    | inr (e, g) ↦ ground arith
  ];
  distinct = d;
  count = omega arith;
  roots = refl;
  pins = refl;
}

-- From a path table with no key twice, the LAN rows with more than five slots and more than one
-- hop are dropped and counted if both zones are up, and nothing is dropped otherwise; no other
-- row goes.
pub prune_bridged_lan_paths-Prunes :
    (host : Host) (n : Net)
    → IsDistinct n.path_table
    → Prunes
        (λ k e. dual_transport_isolation_enabled host n.roots && is_bridged k e)
        n
        (prune_bridged_lan_paths host n)
unfolding prune_bridged_lan_paths
prune_bridged_lan_paths-Prunes host n d =
    elim (Bool-cases (dual_transport_isolation_enabled host n.roots)) [
      | inl on ↦ rw on (prune_where-Prunes is_bridged n d)
      | inr off ↦ rw off (never is_bridged n d)
    ]

module _ (hashes : List (Option Str)) (n : Net) (k : Bytes) (e : PathEntry)
    (d : IsDistinct n.path_table)
    (found : get k (prune_cross_zone_paths hashes n).0.path_table ≡ some e)
    (full : leb e.size 5 ≡ false) where
  -- After the cross-zone clean-up of a table with no key twice, a row of more than five slots
  -- under the key of a listed serial peer does not lead over a LAN interface.
  pub prune_cross_zone_paths-serial_peer :
      str_mem (to_hex k) (serial_peer_set hashes) ≡ true
      → is_lan_family (interface_family e.via) ≡ false
  unfolding prune_cross_zone_paths
  prune_cross_zone_paths-serial_peer listed =
      let rows = (prune_where-Prunes (is_cross_zone (serial_peer_set hashes)) n d).rows k in
      elim (Option-cases (get k n.path_table)) [
        | inl absent ↦ ground arith
        | inr (e', there) ↦ ground arith
      ]

  -- After the cross-zone clean-up with at least one serial peer listed, a row of more than five slots
  -- under any other key does not lead over a serial interface.
  pub prune_cross_zone_paths-other_peer :
      str_mem (to_hex k) (serial_peer_set hashes) ≡ false
      → is_empty (serial_peer_set hashes) ≡ false
      → fam_eq (interface_family e.via) serial ≡ false
  unfolding prune_cross_zone_paths
  prune_cross_zone_paths-other_peer other some_peer =
      let rows = (prune_where-Prunes (is_cross_zone (serial_peer_set hashes)) n d).rows k in
      elim (Option-cases (get k n.path_table)) [
        | inl absent ↦ ground arith
        | inr (e', there) ↦ ground arith
      ]

-- From a path table with no key twice, if there is a family to keep then the rows with more than
-- five slots on no kept family are dropped, and no other; with none to keep nothing is dropped.
pub clear_paths_except_families-Prunes :
    (families : List Family) (n : Net)
    → IsDistinct n.path_table
    → Prunes
        (λ k e. not (is_empty (kept_families families)) && is_outside (kept_families families) k e)
        n
        (clear_paths_except_families families n)
unfolding clear_paths_except_families
clear_paths_except_families-Prunes families n d =
    elim (Bool-cases (is_empty (kept_families families))) [
      | inl none_kept ↦ rw none_kept (never (is_outside (kept_families families)) n d)
      | inr some_kept ↦ rw some_kept (prune_where-Prunes (is_outside (kept_families families)) n d)
    ]
