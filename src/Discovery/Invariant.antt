-- ===== src/Discovery/Invariant.antt =====
-- The invariant of the table in chatxz/core/discovery.py, and the steps that all its methods share.
pub mod Keys
use chatxz.Prelude.{
  ℕ, ◌+◌, ◌≡◌, refl, ap, ◌∙◌, inl, inr, Bool, true, not, ◌&&◌, ◌||◌, some, List, [], ◌∷◌, arith,
  if◌then◌else◌, Bool-cases, Option-cases, is_some, Str, truthy, str_mem,
}
use chatxz.Dict.{Dict, get, has_key, pop, IsDistinct}
use chatxz.Dict.Items.{AllItems, AllItems-pop}
use chatxz.Dict.Laws.{pop-IsDistinct}
use chatxz.Discovery.Probing.{map_rows}
use chatxz.Discovery.Remove.{remove_peer_entry, drop_found, drop_entry, entry_key, purge}
use chatxz.Discovery.State.{Row, PeerDiscovery, normalize_hash, row_ip, is_serial, row_key}
use chatxz.Discovery.State.Keys.{is_plain}
use chatxz.Scope.{peer_in_scope}

-- A serial row has no address; a row of the LAN has one inside the scope, if there is a scope.
abbrev pub is_placed : Str → Row → Bool
is_placed scope r =
    if is_serial r
    then not (is_some r.ip)
    else not (truthy scope) || peer_in_scope (some (row_ip r)) (some scope)

-- Neither the hash nor the identity is this machine's.
abbrev pub is_foreign : List Str → Row → Bool
is_foreign locals r =
    not (str_mem (normalize_hash r.hash) locals)
    && not
        (truthy (normalize_hash r.identity_hash) && str_mem (normalize_hash r.identity_hash) locals)

-- A row stands under its own key, has a hash, a `via` that is not a misspelt "serial", the place that its
-- transport asks for, and is not this machine's.
pub record IsFit (scope : Str) (locals : List Str) (k : Str) (r : Row) : Type 0 where
  pub keyed : k ≡ row_key r
  pub real : truthy (normalize_hash r.hash) ≡ true
  pub plain : is_plain r.via ≡ true
  pub placed : is_placed scope r ≡ true
  pub foreign : is_foreign locals r ≡ true

-- Every row is fit, and no key stands twice.
pub record IsSound (scope : Str) (locals : List Str) (d : PeerDiscovery) : Type 0 where
  pub rows : AllItems (IsFit scope locals) d.peers
  pub distinct : IsDistinct d.peers
  pub locals_same : d.local_hashes ≡ locals

-- Two rows that agree in what `IsFit` looks at.
pub record IsAlike (r s : Row) : Type 0 where
  pub hash_same : s.hash ≡ r.hash
  pub ident_same : s.identity_hash ≡ r.identity_hash
  pub via_same : s.via ≡ r.via
  pub ip_same : s.ip ≡ r.ip

module _ (scope : Str) (locals : List Str) where
  pub alike-IsFit :
      (k : Str) (r s : Row) → IsAlike r s → IsFit scope locals k r → IsFit scope locals k s
  alike-IsFit k r s a f = record {
    keyed = rw (a.hash_same, a.via_same) f.keyed;
    real = rw a.hash_same f.real;
    plain = rw a.via_same f.plain;
    placed = rw (a.via_same, a.ip_same) f.placed;
    foreign = rw (a.hash_same, a.ident_same) f.foreign;
  }

  has_key-map_rows :
      (f : Row → Row) (k : Str) (d : Dict Row) → has_key k (map_rows f d) ≡ has_key k d
  unfolding map_rows has_key
  has_key-map_rows f k [] = refl
  has_key-map_rows f k ((j, r) ∷ d) = ground (arith, has_key-map_rows f k d)

  map_rows-IsDistinct : (f : Row → Row) (d : Dict Row) → IsDistinct d → IsDistinct (map_rows f d)
  unfolding map_rows
  map_rows-IsDistinct f [] h = tt
  map_rows-IsDistinct f ((k, r) ∷ d) h = (has_key-map_rows f k d ∙ h.0, map_rows-IsDistinct f d h.1)

  AllItems-map_rows :
      (f : Row → Row)
      → ((r : Row) → IsAlike r (f r))
      → (d : Dict Row) → AllItems (IsFit scope locals) d
      → AllItems (IsFit scope locals) (map_rows f d)
  unfolding map_rows
  AllItems-map_rows f alike [] h = tt
  AllItems-map_rows f alike ((k, r) ∷ d) h =
      (alike-IsFit k r (f r) (alike r) h.0, AllItems-map_rows f alike d h.1)

  -- A method that only writes the fields of probes keeps the invariant.
  pub map_rows-IsSound :
      (f : Row → Row)
      → ((r : Row) → IsAlike r (f r))
      → (d : PeerDiscovery) → IsSound scope locals d
      → IsSound scope locals (record d { peers = map_rows f d.peers })
  map_rows-IsSound f alike d s = record {
    rows = AllItems-map_rows f alike d.peers s.rows;
    distinct = map_rows-IsDistinct f d.peers s.distinct;
    locals_same = s.locals_same;
  }

  pub pop-IsSound :
      (k : Str) (d e : PeerDiscovery)
      → e.peers ≡ pop k d.peers
      → e.local_hashes ≡ d.local_hashes
      → IsSound scope locals d
      → IsSound scope locals e
  pop-IsSound k d e gone same s = record {
    rows = rw gone (AllItems-pop (IsFit scope locals) k d.peers s.rows);
    distinct = rw gone (pop-IsDistinct k d.peers s.distinct);
    locals_same = same ∙ s.locals_same;
  }

  pub remove_peer_entry-IsSound :
      (key : Str) (d : PeerDiscovery)
      → IsSound scope locals d
      → IsSound scope locals (remove_peer_entry key d)
  unfolding remove_peer_entry drop_found drop_entry
  remove_peer_entry-IsSound key d s = elim (Option-cases (entry_key key d.peers)) [
    | inl e ↦ rw e s
    | inr (k, e) ↦ elim (Option-cases (get k d.peers)) [
      | inl a ↦ rw (e, a, drop_found) s
      | inr (r, a) ↦ rw (e, a, drop_found) (pop-IsSound k d (drop_entry k r d) refl refl s)
    ]
  ]

  module _ (doomed : Str → Row → Bool) (extra : Str → Row → PeerDiscovery → PeerDiscovery)
      (same : (k : Str) (r : Row) (d : PeerDiscovery) → (extra k r d).peers ≡ d.peers)
      (same_locals : (k : Str) (r : Row) (d : PeerDiscovery)
        → (extra k r d).local_hashes ≡ d.local_hashes) where
    pub purge-IsSound :
        (items : Dict Row) (d : PeerDiscovery) (n : ℕ)
        → IsSound scope locals d
        → IsSound scope locals (purge doomed extra items d n).0
    unfolding purge
    purge-IsSound [] d n s = s
    purge-IsSound ((k, r) ∷ items) d n s = elim (Bool-cases (doomed k r)) [
      | inl e ↦
          rw (e, purge)
            (purge-IsSound items _ (n + 1)
              (pop-IsSound k d _ (ap (pop k) (same k r d)) (same_locals k r d) s))
      | inr e ↦ rw (e, purge) (purge-IsSound items d n s)
    ]
