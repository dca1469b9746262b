-- ===== src/Discovery/Listing/Laws.antt =====
-- What the list of `get_peers` in chatxz/core/discovery.py is like.
use chatxz.Prelude.{
  ◌≡◌, refl, ◌⊎◌, inl, inr, Bool, true, false, not, ◌&&◌, ◌||◌, Option, none, some, List, [], ◌∷◌,
  ◌++◌, arith, Bool-cases, Option-cases, is_some, keep, all, All, All-append, Str, str_eq, truthy,
}
use chatxz.Dict.{get, has_key, Dict, IsDistinct}
use chatxz.Dict.Items.{AllItems-put, AllItems-get, AllItems}
use chatxz.Dict.Laws.{put-IsDistinct}
use chatxz.Discovery.Listing.{
  collapse_one, collapse, shows_serial, get_peers, shown, dedup_rows, all_dated, is_expired,
}
use chatxz.Discovery.Ranking.{same_ip_preferred, prefer_peer}
use chatxz.Discovery.Remove.{purge, leave}
use chatxz.Discovery.Scope.{peer_viable}
use chatxz.Discovery.State.{rows_of, PeerDiscovery, Row, World, row_ip, is_serial}

-- Whether a LAN row with the address is among the rows.
unfoldable pub lists_ip : Str → List Row → Bool
lists_ip ip [] = false
lists_ip ip (r ∷ rows) = (not (is_serial r) && str_eq (row_ip r) ip) || lists_ip ip rows

-- No two LAN rows have one address.
abbrev pub IsOnce : List Row → Type 0
IsOnce [] = Unit
IsOnce (r ∷ rows) = ((not (is_serial r) && lists_ip (row_ip r) rows) ≡ false) × IsOnce rows

-- A list as the user is shown it: no address twice, every peer within reach, serial peers without an address.
pub record IsListing (w : World) (scope_ip : Option Str) (rows : List Row) : Type 0 where
  pub once : IsOnce rows
  pub viable : All (λ r. peer_viable w scope_ip r ≡ true) rows
  pub bare : All (λ r. (is_serial r && is_some r.ip) ≡ false) rows

-- What stands under an address: a LAN row that has it.
abbrev IsAt : Str → Row → Type 0
IsAt k r = (is_serial r ≡ false) × (row_ip r ≡ k)

abbrev IsBareSerial : Row → Type 0
IsBareSerial r = (is_serial r ≡ true) × (r.ip ≡ none)

preferred_one_of :
    (w : World) (scope_ip : Option Str) (a b : Row)
    → (same_ip_preferred w scope_ip a b ≡ a) ⊎ (same_ip_preferred w scope_ip a b ≡ b)
unfolding same_ip_preferred prefer_peer
preferred_one_of w scope_ip a b = ground arith

preferred-IsAt :
    (w : World) (scope_ip : Option Str) (k : Str) (a b : Row)
    → IsAt k a
    → IsAt k b
    → IsAt k (same_ip_preferred w scope_ip a b)
preferred-IsAt w scope_ip k a b p q = elim (preferred_one_of w scope_ip a b) [
  | inl e ↦ rw e p
  | inr e ↦ rw e q
]

record IsCollapsed (p : List Row × Dict Row) : Type 0 where
  serials : All IsBareSerial p.0
  items : AllItems IsAt p.1
  distinct : IsDistinct p.1

module _ (w : World) (scope_ip : Option Str) where
  collapse_one-items :
      (r : Row) (d : Dict Row)
      → is_serial r ≡ false
      → AllItems IsAt d
      → IsDistinct d
      → AllItems IsAt (collapse_one w scope_ip r d) × IsDistinct (collapse_one w scope_ip r d)
  collapse_one-items r d lan items distinct = elim (Option-cases (get (row_ip r) d)) [
    | inl e ↦
        rw (e, collapse_one)
          (
            AllItems-put IsAt (row_ip r) r d (lan, refl) items,
            put-IsDistinct (row_ip r) r d distinct,
          )
    | inr (q, e) ↦
        rw (e, collapse_one)
          (
            AllItems-put IsAt (row_ip r) (same_ip_preferred w scope_ip r q) d
                (preferred-IsAt w scope_ip (row_ip r) r q (lan, refl)
                  (AllItems-get IsAt (row_ip r) q d e items))
                items,
            put-IsDistinct (row_ip r) (same_ip_preferred w scope_ip r q) d distinct,
          )
  ]

  collapse-IsCollapsed :
      (all rows : List Row) (d : Dict Row)
      → AllItems IsAt d
      → IsDistinct d
      → IsCollapsed (collapse w scope_ip all rows d)
  unfolding collapse
  collapse-IsCollapsed all [] d items distinct = record {
    serials = tt;
    items = items;
    distinct = distinct;
  }
  collapse-IsCollapsed all (r ∷ rows) d items distinct =
      let same = collapse-IsCollapsed all rows d items distinct in
      elim (Bool-cases (is_serial r)) [
        | inl e ↦ elim (Bool-cases (shows_serial w all r)) [
          | inl a ↦
              rw (e, a, collapse)
                (record {
                  serials = ((e, refl), same.serials);
                  items = same.items;
                  distinct = same.distinct;
                })
          | inr a ↦
              rw (e, a, collapse)
                (record { serials = same.serials; items = same.items; distinct = same.distinct })
        ]
        | inr e ↦ elim (Bool-cases (truthy (row_ip r))) [
          | inl a ↦
              let one = collapse_one-items r d e items distinct in
              let next = collapse-IsCollapsed all rows (collapse_one w scope_ip r d) one.0 one.1 in
              rw (e, a, collapse)
                (record { serials = next.serials; items = next.items; distinct = next.distinct })
          | inr a ↦
              rw (e, a, collapse)
                (record { serials = same.serials; items = same.items; distinct = same.distinct })
        ]
      ]

lists_ip-rows_of : (k : Str) (d : Dict Row) → AllItems IsAt d → lists_ip k (rows_of d) ≡ has_key k d
unfolding lists_ip rows_of has_key
lists_ip-rows_of k [] h = refl
lists_ip-rows_of k ((j, r) ∷ d) h = rw (h.0.0, h.0.1, lists_ip-rows_of k d h.1) refl

rows_of-IsOnce : (d : Dict Row) → AllItems IsAt d → IsDistinct d → IsOnce (rows_of d)
unfolding rows_of
rows_of-IsOnce [] h u = tt
rows_of-IsOnce ((k, r) ∷ d) h u =
    (rw (h.0.0, h.0.1, lists_ip-rows_of k d h.1) u.0, rows_of-IsOnce d h.1 u.1)

append-IsOnce : (xs ys : List Row) → All IsBareSerial xs → IsOnce ys → IsOnce (xs ++ ys)
append-IsOnce [] ys h u = u
append-IsOnce (x ∷ xs) ys h u = (rw h.0.0 refl, append-IsOnce xs ys h.1 u)

lists_ip-keep :
    (p : Row → Bool) (k : Str) (rows : List Row)
    → lists_ip k rows ≡ false
    → lists_ip k (keep p rows) ≡ false
unfolding lists_ip keep
lists_ip-keep p k [] h = refl
lists_ip-keep p k (r ∷ rows) h = ground (arith, lists_ip-keep p k rows)

keep-IsOnce : (p : Row → Bool) (rows : List Row) → IsOnce rows → IsOnce (keep p rows)
unfolding keep
keep-IsOnce p [] u = tt
keep-IsOnce p (r ∷ rows) u = elim (Bool-cases (p r)) [
  | inl e ↦ rw (e, keep) (ground (arith, lists_ip-keep p (row_ip r) rows), keep-IsOnce p rows u.1)
  | inr e ↦ rw (e, keep) (keep-IsOnce p rows u.1)
]

module _ (P : Row → Type 0) (p : Row → Bool) where
  keep-All : (rows : List Row) → All P rows → All P (keep p rows)
  unfolding keep
  keep-All [] h = tt
  keep-All (r ∷ rows) h = elim (Bool-cases (p r)) [
    | inl e ↦ rw (e, keep) (h.0, keep-All rows h.1)
    | inr e ↦ rw (e, keep) (keep-All rows h.1)
  ]

keep-viable : (p : Row → Bool) (rows : List Row) → All (λ r. p r ≡ true) (keep p rows)
unfolding keep
keep-viable p [] = tt
keep-viable p (r ∷ rows) = elim (Bool-cases (p r)) [
  | inl e ↦ rw (e, keep) (e, keep-viable p rows)
  | inr e ↦ rw (e, keep) (keep-viable p rows)
]

-- A serial row with an address is never shown.
abbrev IsBareRow : Row → Type 0
IsBareRow r = (is_serial r && is_some r.ip) ≡ false

serials-bare : (rows : List Row) → All IsBareSerial rows → All IsBareRow rows
serials-bare [] h = tt
serials-bare (r ∷ rows) h = (ground arith, serials-bare rows h.1)

rows_of-bare : (d : Dict Row) → AllItems IsAt d → All IsBareRow (rows_of d)
unfolding rows_of
rows_of-bare [] h = tt
rows_of-bare ((k, r) ∷ d) h = (rw h.0.0 refl, rows_of-bare d h.1)

shown-IsListing :
    (w : World) (scope_ip : Option Str) (peers : Dict Row)
    → IsListing w scope_ip (shown w scope_ip peers)
unfolding shown
shown-IsListing w scope_ip peers =
    let all = rows_of (dedup_rows w scope_ip (rows_of peers) []) in
    let p = collapse w scope_ip all all [] in
    let c = collapse-IsCollapsed w scope_ip all all [] tt tt in
    let merged = p.0 ++ rows_of p.1 in
    record {
      once =
          keep-IsOnce (peer_viable w scope_ip) merged
            (append-IsOnce p.0 (rows_of p.1) c.serials (rows_of-IsOnce p.1 c.items c.distinct));
      viable = keep-viable (peer_viable w scope_ip) merged;
      bare = keep-All IsBareRow (peer_viable w scope_ip) merged (
          All-append IsBareRow p.0 (rows_of p.1) (serials-bare p.0 c.serials)
            (rows_of-bare p.1 c.items));
    }

-- If every row of the table says when its peer was last seen, the listing gives a list in which
-- no two LAN peers have one address, every peer is within reach under the scope that was asked
-- for, and no serial peer has an address.
pub get_peers-IsListing :
    (w : World) (scope_ip : Option Str) (d : PeerDiscovery)
    → all_dated d.peers ≡ true
    → (rows : List Row) × ((get_peers w scope_ip d).1 ≡ some rows) × IsListing w scope_ip rows
unfolding get_peers
get_peers-IsListing w scope_ip d dated = elim (Bool-cases d.accept_peers) [
  | inr e ↦ ([], rw (e, get_peers) refl, record { once = tt; viable = tt; bare = tt })
  | inl e ↦
      let peers = (purge (is_expired w) leave d.peers d 0).0.peers in
      (shown w scope_ip peers, rw (e, dated, get_peers) refl, shown-IsListing w scope_ip peers)
]
