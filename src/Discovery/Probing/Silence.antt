-- ===== src/Discovery/Probing/Silence.antt =====
-- Peers that stay silent under the probes of chatxz/core/discovery.py.
use chatxz.Prelude.{
  ℕ, zero, suc, ◌+◌, ◌≤◌, ◌≡◌, ◌∙◌, true, false, Option, none, some, List, [], ◌∷◌, arith, leb, Str,
  truthy,
}
use chatxz.Dict.{Dict, get}
use chatxz.Discovery.State.{Row, PeerDiscovery, World, normalize_hash, is_serial}
use chatxz.Discovery.Probing.{
  without_rtt, Limits, map_rows, has_hash, probed_row, after_probe, update_peer_probe, is_stale_row,
  is_silent, purge_stale_probes, is_fresh_row,
}
use chatxz.Discovery.Invariant.{IsSound}
use chatxz.Discovery.Probing.Laws.{purge_stale_probes_lem, update_peer_probe-IsSound}

-- `n` probes without an answer.
unfoldable pub failed_probes : World → Option Str → ℕ → PeerDiscovery → PeerDiscovery
failed_probes w hash zero d = d
failed_probes w hash (suc n) d = failed_probes w hash n (update_peer_probe w hash none false d)

-- The row of a LAN peer that is silent and has at least `n` failures behind it.
record IsFailing (w : World) (l : Limits) (h : Str) (n : ℕ) (r : Row) : Type 0 where
  mine : has_hash h r ≡ true
  lan : is_serial r ≡ false
  silent : is_silent w l.stale_s r ≡ true
  enough : n ≤ r.probe_failures

pub get-map_rows :
    (f : Row → Row) (k : Str) (d : Dict Row) (r : Row)
    → get k d ≡ some r
    → get k (map_rows f d) ≡ some (f r)
unfolding map_rows get
get-map_rows f k [] r h = cc
get-map_rows f k ((j, q) ∷ d) r h = ground (arith, get-map_rows f k d r)

-- The row after one more failure.
abbrev failed_row : World → Row → Row
failed_row w r = record (without_rtt r) {
  probe_failures = r.probe_failures + 1;
  last_probe_at = w.now;
}

probed_row_failed :
    (w : World) (h : Str) (r : Row)
    → has_hash h r ≡ true
    → is_fresh_row w r ≡ false
    → probed_row w h none false r ≡ failed_row w r
unfolding probed_row after_probe
probed_row_failed w h r mine stale = ground arith

probed_row-IsFailing :
    (w : World) (l : Limits) (h : Str) (n : ℕ) (r : Row)
    → leb 12 l.stale_s ≡ true
    → IsFailing w l h n r
    → IsFailing w l h (n + 1) (probed_row w h none false r)
unfolding is_silent
probed_row-IsFailing w l h n r slow f =
    let stale : is_fresh_row w r ≡ false = ground (arith, f.silent) in
    rw (probed_row_failed w h r f.mine stale)
      (record { mine = f.mine; lan = f.lan; silent = f.silent; enough = omega arith })

plus_zero : (m : ℕ) → m ≡ m + 0
plus_zero m = omega arith

plus_suc : (m n : ℕ) → m + 1 + n ≡ m + suc n
plus_suc m n = omega arith

module _ (scope : Str) (locals : List Str) (w : World) (l : Limits)
    (slow : leb 12 l.stale_s ≡ true) where
  failed_probes-IsFailing :
      (hash : Option Str) (n m : ℕ) (d : PeerDiscovery) (k : Str) (r : Row)
      → truthy (normalize_hash hash) ≡ true
      → get k d.peers ≡ some r
      → IsFailing w l (normalize_hash hash) m r
      → (q : Row) × (get k (failed_probes w hash n d).peers ≡ some q)
        × IsFailing w l (normalize_hash hash) (m + n) q
  unfolding failed_probes update_peer_probe
  failed_probes-IsFailing hash zero m d k r real at f =
      (r, at, coe 0 1 (i. IsFailing w l (normalize_hash hash) (plus_zero m i) r) f)
  failed_probes-IsFailing hash (suc n) m d k r real at f =
      let q = probed_row w (normalize_hash hash) none false r in
      let d' = update_peer_probe w hash none false d in
      let next =
        failed_probes-IsFailing hash n (m + 1) d' k q real
          (rw real (get-map_rows (probed_row w (normalize_hash hash) none false) k d.peers r at))
          (probed_row-IsFailing w l (normalize_hash hash) m r slow f) in
      (
        next.0,
        next.1,
        coe 0 1 (i. IsFailing w l (normalize_hash hash) (plus_suc m n i) next.0) next.2,
      )

  failed_probes-IsSound :
      (hash : Option Str) (n : ℕ) (d : PeerDiscovery)
      → IsSound scope locals d
      → IsSound scope locals (failed_probes w hash n d)
  unfolding failed_probes
  failed_probes-IsSound hash zero d s = s
  failed_probes-IsSound hash (suc n) d s =
      failed_probes-IsSound hash n _ (update_peer_probe-IsSound scope locals w hash none false d s)

-- In a table that is in order, a LAN peer of which neither an announce nor an answer came within
-- the limit of silence, which is twelve seconds or more, is gone after as many failed probes as
-- the limits allow and one purge.
pub silent_peer_is_purged :
    (scope : Str) (locals : List Str) (w : World) (l : Limits) (hash : Option Str)
    (d : PeerDiscovery) (k : Str) (r : Row)
    → leb 12 l.stale_s ≡ true
    → IsSound scope locals d
    → truthy (normalize_hash hash) ≡ true
    → get k d.peers ≡ some r
    → has_hash (normalize_hash hash) r ≡ true
    → is_serial r ≡ false
    → is_silent w l.stale_s r ≡ true
    → get k (purge_stale_probes w l (failed_probes w hash l.max_failures d)).0.peers ≡ none
unfolding is_stale_row
silent_peer_is_purged scope locals w l hash d k r slow s real at mine lan silent =
    let f =
      failed_probes-IsFailing scope locals w l slow hash l.max_failures 0 d k r real at
        (record { mine = mine; lan = lan; silent = silent; enough = omega arith }) in
    let sound = failed_probes-IsSound scope locals w l slow hash l.max_failures d s in
    purge_stale_probes_lem scope locals w l (failed_probes w hash l.max_failures d) k sound
    ∙ rw f.1 (ground (arith, f.2.lan, f.2.silent, f.2.enough))
