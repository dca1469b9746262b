-- ===== src/Net/Paths/Route.antt =====
-- What the operations of chatxz/core/lan_rns.py on one peer do to its route and to all others.
use chatxz.Prelude.{
  Bool, not, Option, none, some, ◌≡◌, ◌≢◌, refl, ◌∙◌, arith, Str, str_eq_iff, str_eq_refl, leb,
  if◌then◌else◌, Option-cases, Bool-cases, inl, inr,
}
use chatxz.Dict.{get, has_key, pop}
use chatxz.Dict.Laws.{get-pop, get_of_absent}
use chatxz.Net.Iface.{Family, Host, Iface, interface_family, interface_is_healthy}
use chatxz.Net.Dual.{is_lan_family}
use chatxz.Net.Hash.{Bytes, dest_bytes_for_hash}
use chatxz.Net.State.{PathEntry, Net}
use chatxz.Net.Paths.{
  peer_path_entry, route, clear_peer_path, clear_if, scrub_peer_path, accept, peer_path_on_family,
  drop_lan_row, prune_lan_path_for_peer,
}

-- `o` if its interface passes the test
abbrev pub only : (Iface → Bool) → Option Iface → Option Iface
only test none = none
only test (some i) = if test i then some i else none

-- Nothing changed but the peer's own route, and the requests that went out.
pub record OnlyRoute (h : Option Str) (n n' : Net) : Type 0 where
  pub roots : n'.roots ≡ n.roots
  pub pins : n'.pins ≡ n.pins
  pub announces : n'.announces ≡ n.announces
  pub others :
      (k : Bytes) → dest_bytes_for_hash h ≢ some k → get k n'.path_table ≡ get k n.path_table

pub OnlyRoute-refl : (h : Option Str) (n : Net) → OnlyRoute h n n
OnlyRoute-refl h n = record {
  roots = refl;
  pins = refl;
  announces = refl;
  others = λ k other. refl;
}

pub OnlyRoute-trans :
    (h : Option Str) {n m l : Net} → OnlyRoute h n m → OnlyRoute h m l → OnlyRoute h n l
OnlyRoute-trans h a b = record {
  roots = b.roots ∙ a.roots;
  pins = b.pins ∙ a.pins;
  announces = b.announces ∙ a.announces;
  others = λ k other. b.others k other ∙ a.others k other;
}

popped :
    (h : Option Str) (k : Bytes) (n : Net)
    → dest_bytes_for_hash h ≡ some k
    → OnlyRoute h n (record n { path_table = pop k n.path_table })
popped h k n e = record {
  roots = refl;
  pins = refl;
  announces = refl;
  others = λ j other. ground (arith, get-pop k j n.path_table, str_eq_iff k j, other);
}

drop_lan_row-OnlyRoute :
    (h : Option Str) (n : Net) (k : Bytes) (e : Option PathEntry)
    → dest_bytes_for_hash h ≡ some k
    → OnlyRoute h n (drop_lan_row k e n).0
unfolding drop_lan_row
drop_lan_row-OnlyRoute h n k none eq = OnlyRoute-refl h n
drop_lan_row-OnlyRoute h n k (some e) eq = elim (Bool-cases (leb e.size 5)) [
  | inl small ↦ rw small (OnlyRoute-refl h n)
  | inr big ↦ rw big (elim (Bool-cases (is_lan_family (interface_family e.via))) [
    | inl l ↦ rw l (popped h k n eq)
    | inr l ↦ rw l (OnlyRoute-refl h n)
  ])
]

module _ (h : Option Str) (n : Net) where
  -- A cleared peer has no route.
  pub route-clear_peer_path : route h (clear_peer_path h n).0 ≡ none
  unfolding clear_peer_path peer_path_entry
  route-clear_peer_path = elim (Option-cases (dest_bytes_for_hash h)) [
    | inl e ↦ ground arith
    | inr (k, e) ↦
        ground (arith, get-pop k k n.path_table, str_eq_refl k, get_of_absent k n.path_table)
  ]

  pub clear_peer_path-OnlyRoute : OnlyRoute h n (clear_peer_path h n).0
  unfolding clear_peer_path
  clear_peer_path-OnlyRoute = elim (Option-cases (dest_bytes_for_hash h)) [
    | inl e ↦ rw (e, clear_peer_path) (OnlyRoute-refl h n)
    | inr (k, e) ↦
        rw (e, clear_peer_path)
          (elim (Bool-cases (has_key k n.path_table)) [
            | inl old ↦ rw old (popped h k n e)
            | inr new ↦ rw new (OnlyRoute-refl h n)
          ])
  ]

  pub route-clear_if :
      (bad : Iface → Bool) → route h (clear_if bad h n).0 ≡ only (λ i. not (bad i)) (route h n)
  route-clear_if bad = elim (Option-cases (route h n)) [
    | inl e ↦ ground arith
    | inr (i, e) ↦ ground (arith, route-clear_peer_path)
  ]

  pub clear_if-OnlyRoute : (bad : Iface → Bool) → OnlyRoute h n (clear_if bad h n).0
  clear_if-OnlyRoute bad = elim (Option-cases (route h n)) [
    | inl e ↦ rw (e, clear_if) (OnlyRoute-refl h n)
    | inr (i, e) ↦
        rw (e, clear_if)
          (elim (Bool-cases (bad i)) [
            | inl b ↦ rw b clear_peer_path-OnlyRoute
            | inr b ↦ rw b (OnlyRoute-refl h n)
          ])
  ]

  -- A scrubbed peer keeps its route if that is healthy, and has none otherwise.
  pub route-scrub_peer_path :
      (host : Host)
      → route h (scrub_peer_path host h n).0
        ≡ only (λ i. interface_is_healthy host (some i)) (route h n)
  unfolding scrub_peer_path
  route-scrub_peer_path host =
      ground (arith, route-clear_if (λ i. not (interface_is_healthy host (some i))))

  pub scrub_peer_path-OnlyRoute : (host : Host) → OnlyRoute h n (scrub_peer_path host h n).0
  unfolding scrub_peer_path
  scrub_peer_path-OnlyRoute host = clear_if-OnlyRoute _

  pub route-prune_lan_path_for_peer :
      route h (prune_lan_path_for_peer h n).0
      ≡ only (λ i. not (is_lan_family (interface_family (some i)))) (route h n)
  unfolding prune_lan_path_for_peer peer_path_entry
  route-prune_lan_path_for_peer = elim (Option-cases (dest_bytes_for_hash h)) [
    | inl e ↦ ground arith
    | inr (k, e) ↦ elim (Option-cases (get k n.path_table)) [
      | inl g ↦ ground arith
      | inr (r, g) ↦ ground (arith, get-pop k k n.path_table, str_eq_refl k)
    ]
  ]

  pub prune_lan_path_for_peer-OnlyRoute : OnlyRoute h n (prune_lan_path_for_peer h n).0
  unfolding prune_lan_path_for_peer
  prune_lan_path_for_peer-OnlyRoute = elim (Option-cases (dest_bytes_for_hash h)) [
    | inl e ↦ rw (e, prune_lan_path_for_peer) (OnlyRoute-refl h n)
    | inr (k, e) ↦
        rw (e, prune_lan_path_for_peer) (drop_lan_row-OnlyRoute h n k (get k n.path_table) e)
  ]

  -- The answer is the old route, if it is healthy and of the wanted family.
  pub peer_path_on_family_lem :
      (host : Host) (family : Option Family)
      → (peer_path_on_family host h family n).1 ≡ accept host family (route h n)
  unfolding peer_path_on_family
  peer_path_on_family_lem host family = ground (arith, route-scrub_peer_path host)
