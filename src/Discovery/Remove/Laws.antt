-- ===== src/Discovery/Remove/Laws.antt =====
-- What is left in the table of chatxz/core/discovery.py after a removal.
use chatxz.Prelude.{
  ℕ, ◌+◌, ◌≡◌, refl, ap, ◌∙◌, inl, inr, Bool, false, not, ◌&&◌, Option, none, some, [], ◌∷◌, arith,
  if◌then◌else◌, Bool-cases, Option-cases, length, Str, codes, str_eq, truthy, or_empty, strip,
  str_eq_iff,
}
use chatxz.Dict.{Dict, get, pop, sweep, survivors, casualties, IsDistinct}
use chatxz.Dict.Laws.{get-pop}
use chatxz.Dict.Sweep.{sweep_lem, spared, get-survivors, casualties_lem, survivors-IsDistinct}
use chatxz.Discovery.Remove.{
  announced_on, hash_or_key, purge, purge_out_of_scope, is_out_of_scope, unregister_row,
  purge_ipless_non_serial, is_ghost, leave, purge_misclassified_serial, is_misclassified,
  forget_row, purge_offline_serial_peers, is_serial_row, entry_key, drop_entry, remove_peer_entry,
  drop_found,
}
use chatxz.Discovery.State.{row_via, Row, PeerDiscovery, World, is_serial}
use chatxz.Net.Hash.{Bytes, from_hex, raw}
use chatxz.Net.Iface.{serial, fam_eq, interface_family, Iface}
use chatxz.Net.Paths.{announce_packet_receiving_interface}

-- `r` is `d` without the rows that `doomed` names: those are gone, every other row is as it was, no key
-- stands twice, and the number tells how many went.
pub record Purged (doomed : Str → Row → Bool) (d : PeerDiscovery) (r : PeerDiscovery × ℕ)
    : Type 0 where
  pub rows : (k : Str) → get k r.0.peers ≡ spared doomed k (get k d.peers)
  pub distinct : IsDistinct r.0.peers
  pub count : length r.0.peers + r.1 ≡ length d.peers
  pub locals : r.0.local_hashes ≡ d.local_hashes

module _ (doomed : Str → Row → Bool) (extra : Str → Row → PeerDiscovery → PeerDiscovery)
    (same : (k : Str) (r : Row) (d : PeerDiscovery) → (extra k r d).peers ≡ d.peers)
    (same_locals : (k : Str) (r : Row) (d : PeerDiscovery)
      → (extra k r d).local_hashes ≡ d.local_hashes) where
  purge-sweep :
      (items table : Dict Row) (d : PeerDiscovery) (n : ℕ)
      → d.peers ≡ table
      → ((purge doomed extra items d n).0.peers, (purge doomed extra items d n).1)
        ≡ sweep doomed items table n
  unfolding purge sweep
  purge-sweep [] table d n h = ap (λ (t : Dict Row). (t, n)) h
  purge-sweep ((k, r) ∷ items) table d n h = elim (Bool-cases (doomed k r)) [
    | inl e ↦
        let d' = extra k r d in
        rw (e, purge, sweep)
          (purge-sweep items (pop k table) (record d' { peers = pop k d'.peers }) (n + 1)
            (ap (pop k) (same k r d ∙ h)))
    | inr e ↦ rw (e, purge, sweep) (purge-sweep items table d n h)
  ]

  purge-locals :
      (items : Dict Row) (d : PeerDiscovery) (n : ℕ)
      → (purge doomed extra items d n).0.local_hashes ≡ d.local_hashes
  unfolding purge
  purge-locals [] d n = refl
  purge-locals ((k, r) ∷ items) d n = elim (Bool-cases (doomed k r)) [
    | inl e ↦ rw (e, purge) (purge-locals items _ (n + 1) ∙ same_locals k r d)
    | inr e ↦ rw (e, purge) (purge-locals items d n)
  ]

  pub purge-Purged :
      (d : PeerDiscovery) → IsDistinct d.peers → Purged doomed d (purge doomed extra d.peers d 0)
  purge-Purged d h =
      let e = purge-sweep d.peers d.peers d 0 refl ∙ sweep_lem doomed d.peers h in
      let table : (purge doomed extra d.peers d 0).0.peers ≡ survivors doomed d.peers =
        ap (λ (p : Dict Row × ℕ). p.0) e in
      let number : (purge doomed extra d.peers d 0).1 ≡ casualties doomed d.peers =
        ap (λ (p : Dict Row × ℕ). p.1) e in
      record {
        rows = λ k. ap (get k) table ∙ get-survivors doomed k d.peers h;
        distinct = rw table (survivors-IsDistinct doomed d.peers h);
        count = rw (table, number) (casualties_lem doomed d.peers);
        locals = purge-locals d.peers d 0;
      }

abbrev pub is_at : Str → Option Str → Bool
is_at j none = false
is_at j (some k) = str_eq k j

never-Purged :
    (doomed : Str → Row → Bool) (d : PeerDiscovery)
    → IsDistinct d.peers
    → Purged (λ k r. false && doomed k r) d (d, 0)
never-Purged doomed d h = record {
  rows =
      λ k. elim (Option-cases (get k d.peers)) [ inl e ↦ ground arith | inr (r, e) ↦ ground arith ];
  distinct = h;
  count = omega arith;
  locals = refl;
}

-- Without USB all serial rows go and no other; with USB nothing goes.
pub purge_offline_serial_peers-Purged :
    (w : World) (d : PeerDiscovery)
    → IsDistinct d.peers
    → Purged (λ k r. not w.usb && is_serial r) d (purge_offline_serial_peers w d)
unfolding purge_offline_serial_peers
purge_offline_serial_peers-Purged w d h = elim (Bool-cases w.usb) [
  | inl e ↦ rw e (never-Purged is_serial_row d h)
  | inr e ↦ rw e (purge-Purged is_serial_row forget_row (λ k r d. refl) (λ k r d. refl) d h)
]

-- Rows outside a scope go, except those of serial peers and those without an address.
pub purge_out_of_scope-Purged :
    (scope_ip : Option Str) (d : PeerDiscovery)
    → IsDistinct d.peers
    → Purged
        (λ k r.
          truthy (strip (or_empty scope_ip)) && is_out_of_scope (strip (or_empty scope_ip)) k r)
        d
        (purge_out_of_scope scope_ip d)
unfolding purge_out_of_scope
purge_out_of_scope-Purged scope_ip d h =
    let scope = strip (or_empty scope_ip) in
    elim (Bool-cases (truthy scope)) [
      | inl e ↦
          rw e (
            purge-Purged (is_out_of_scope scope) unregister_row (λ k r d. refl) (λ k r d. refl) d h)
      | inr e ↦ rw e (never-Purged (is_out_of_scope scope) d h)
    ]

-- Exactly the rows of LAN peers without an address go.
pub purge_ipless_non_serial-Purged :
    (d : PeerDiscovery) → IsDistinct d.peers → Purged is_ghost d (purge_ipless_non_serial d)
unfolding purge_ipless_non_serial
purge_ipless_non_serial-Purged d h = purge-Purged is_ghost leave (λ k r d. refl) (λ k r d. refl) d h

-- The row as it is after the purge, for the interface that received its latest announce.
abbrev pub kept_if_serial : Row → Option Iface → Option Row
kept_if_serial r none = some r
kept_if_serial r (some i) =
    if str_eq (row_via r) (codes "serial") && not (fam_eq (interface_family (some i)) serial)
    then none
    else some r

-- In a table with no key twice, a row whose hash, or else its key, is the hexadecimal form of
-- some bytes is gone after the purge if the row is serial and the latest announce of these bytes
-- came in over a known interface that is not serial, and is as it was otherwise.
pub purge_misclassified_serial_lem :
    (d : PeerDiscovery) (k : Str) (r : Row) (b : ℕ) (bs : Bytes)
    → IsDistinct d.peers
    → get k d.peers ≡ some r
    → from_hex (hash_or_key k r) ≡ some (b ∷ bs)
    → get k (purge_misclassified_serial d).0.peers
      ≡ kept_if_serial r (announce_packet_receiving_interface (raw (b ∷ bs)) d.net)
unfolding purge_misclassified_serial
purge_misclassified_serial_lem d k r b bs h e hex =
    let purged =
      purge-Purged (is_misclassified d.net) forget_row (λ k r d. refl) (λ k r d. refl) d h in
    elim (Option-cases (announce_packet_receiving_interface (raw (b ∷ bs)) d.net)) [
      | inl a ↦
          let seen : announced_on (hash_or_key k r) d.net ≡ none = rw (hex, announced_on) a in
          rw a (purged.rows k ∙ ground (arith, e, seen))
      | inr (i, a) ↦
          let seen : announced_on (hash_or_key k r) d.net ≡ some i = rw (hex, announced_on) a in
          rw a (purged.rows k ∙ ground (arith, e, seen))
    ]

-- One removal takes at most the row that it finds.
pub get-remove_peer_entry :
    (key j : Str) (d : PeerDiscovery)
    → get j (remove_peer_entry key d).peers
      ≡ (if is_at j (entry_key key d.peers) then none else get j d.peers)
unfolding remove_peer_entry drop_found drop_entry
get-remove_peer_entry key j d = elim (Option-cases (entry_key key d.peers)) [
  | inl e ↦ ground arith
  | inr (k, e) ↦ elim (Option-cases (get k d.peers)) [
    | inl a ↦ ground (arith, str_eq_iff k j)
    | inr (r, a) ↦ ground (arith, get-pop k j d.peers)
  ]
]
