-- ===== src/Discovery/Lifecycle/Laws.antt =====
-- New hashes of one's own, and a new scope, for the table of chatxz/core/discovery.py.
use chatxz.Discovery.Remove.{drop_found}
use chatxz.Net.Dual.{is_empty}
use chatxz.Discovery.Remove.{drop_entry}
use chatxz.Discovery.Remove.{entry_key}
use chatxz.Prelude.{
  ◌≡◌, refl, sym, ap, ◌∙◌, inl, inr, Bool, true, false, ◌&&◌, ◌||◌, Option, none, some, List, [],
  ◌∷◌, arith, if◌then◌else◌, Bool-cases, Option-cases, All, Str, str_eq, str_mem, str_eq_iff,
  branch,
}
use chatxz.Dict.{Dict, get, IsDistinct}
use chatxz.Dict.Items.{AllItems, AllItems-get, AllItems-get_all}
use chatxz.Discovery.State.{Row, PeerDiscovery}
use chatxz.Discovery.Remove.{remove_peer_entry, hash_set}
use chatxz.Discovery.Probing.{keys_of}
use chatxz.Discovery.Lifecycle.{is_mine, drop_own, set_local_hashes}
use chatxz.Discovery.Invariant.{IsFit, IsSound, remove_peer_entry-IsSound}
use chatxz.Discovery.Invariant.Keys.{IsTrimmed, fit-IsTrimmed, get-remove_trimmed}

looked_at :
    (k j : Str) (r : Row) (d : PeerDiscovery) (mine later : Bool)
    → get j (remove_peer_entry k d).peers ≡ (if str_eq k j then none else get j d.peers)
    → get j (remove_peer_entry k d).peers ≡ some r
    → (later && mine) ≡ false
    → (get j d.peers ≡ some r) × (((str_eq j k || later) && mine) ≡ false)
looked_at k j r d mine later gone e h = ground (arith, str_eq_iff j k, str_eq_iff k j)

not_mine :
    (clean : List Str) (k j : Str) (r : Row) (d : PeerDiscovery) (later : Bool)
    → is_mine clean (get k d.peers) ≡ false
    → get j d.peers ≡ some r
    → (later && is_mine clean (some r)) ≡ false
    → ((str_eq j k || later) && is_mine clean (some r)) ≡ false
not_mine clean k j r d later m e h = elim (Bool-cases (str_eq j k)) [
  | inl a ↦
      let at : get k d.peers ≡ some r =
        sym (ap (λ (x : Str). get x d.peers) ((str_eq_iff j k).0 a)) ∙ e in
      let free : is_mine clean (some r) ≡ false = sym (ap (is_mine clean) at) ∙ m in
      rw free (ground arith)
  | inr a ↦ rw a h
]

module _ (scope : Str) (locals clean : List Str) where
  drop_own-IsSound :
      (ks : List Str) (d : PeerDiscovery)
      → IsSound scope locals d
      → IsSound scope locals (drop_own clean ks d)
  unfolding drop_own
  drop_own-IsSound [] d s = s
  drop_own-IsSound (k ∷ ks) d s = drop_own-IsSound ks _ (
      branch (IsSound scope locals) (is_mine clean (get k d.peers)) _ _
        (remove_peer_entry-IsSound scope locals k d s) s)

  -- A row that is left was there, and was looked at if its key was on the list.
  get-drop_own :
      (ks : List Str) (d : PeerDiscovery) (j : Str) (r : Row)
      → All IsTrimmed ks
      → IsSound scope locals d
      → get j (drop_own clean ks d).peers ≡ some r
      → (get j d.peers ≡ some r) × ((str_mem j ks && is_mine clean (some r)) ≡ false)
  unfolding drop_own str_mem
  get-drop_own [] d j r t s e = (e, refl)
  get-drop_own (k ∷ ks) d j r t s e = elim (Bool-cases (is_mine clean (get k d.peers))) [
    | inl m ↦
        let left : get j (drop_own clean ks (remove_peer_entry k d)).peers ≡ some r =
          coe 0 1
            (i. get j (drop_own clean ks (if m i then remove_peer_entry k d else d)).peers ≡ some r)
            e in
        let ih =
          get-drop_own ks (remove_peer_entry k d) j r t.1
            (remove_peer_entry-IsSound scope locals k d s) left in
        looked_at k j r d (is_mine clean (some r)) (str_mem j ks)
          (get-remove_trimmed scope locals k j d t.0 s) ih.0 ih.1
    | inr m ↦
        let left : get j (drop_own clean ks d).peers ≡ some r =
          coe 0 1
            (i. get j (drop_own clean ks (if m i then remove_peer_entry k d else d)).peers ≡ some r)
            e in
        let ih = get-drop_own ks d j r t.1 s left in
        (ih.0, not_mine clean k j r d (str_mem j ks) m ih.0 ih.1)
  ]

keys_of-IsTrimmed :
    (scope : Str) (locals : List Str) (d : Dict Row)
    → AllItems (IsFit scope locals) d
    → All IsTrimmed (keys_of d)
unfolding keys_of
keys_of-IsTrimmed scope locals [] h = tt
keys_of-IsTrimmed scope locals ((k, r) ∷ d) h =
    (fit-IsTrimmed scope locals k r h.0, keys_of-IsTrimmed scope locals d h.1)

mem-keys_of : (k : Str) (r : Row) (d : Dict Row) → get k d ≡ some r → str_mem k (keys_of d) ≡ true
unfolding keys_of str_mem get
mem-keys_of k r [] h = cc
mem-keys_of k r ((j, q) ∷ d) h = ground (arith, mem-keys_of k r d, str_eq_iff j k, str_eq_iff k j)

-- A row that is fit is fit for other hashes too, if it has none of them.
new_locals-IsFit :
    (scope : Str) (locals clean : List Str) (k : Str) (r : Row)
    → is_mine clean (some r) ≡ false
    → IsFit scope locals k r
    → IsFit scope clean k r
new_locals-IsFit scope locals clean k r free f = record {
  keyed = f.keyed;
  real = f.real;
  plain = f.plain;
  placed = f.placed;
  foreign = ground arith;
}

abbrev relabel : List Str → PeerDiscovery → PeerDiscovery
relabel c d = record d { local_hashes = c }

remove_peer_entry-relabel :
    (c : List Str) (k : Str) (d : PeerDiscovery)
    → remove_peer_entry k (relabel c d) ≡ relabel c (remove_peer_entry k d)
unfolding remove_peer_entry drop_found drop_entry
remove_peer_entry-relabel c k d = elim (Option-cases (entry_key k d.peers)) [
  | inl e ↦ rw (e, drop_found) refl
  | inr (j, e) ↦ elim (Option-cases (get j d.peers)) [
    | inl a ↦ rw (e, a, drop_found) refl
    | inr (r, a) ↦ rw (e, a, drop_found) refl
  ]
]

drop_own-relabel :
    (c clean ks : List Str) (d : PeerDiscovery)
    → drop_own clean ks (relabel c d) ≡ relabel c (drop_own clean ks d)
unfolding drop_own
drop_own-relabel c clean [] d = refl
drop_own-relabel c clean (k ∷ ks) d = elim (Bool-cases (is_mine clean (get k d.peers))) [
  | inl m ↦
      rw (m, drop_own)
        (ap (drop_own clean ks) (remove_peer_entry-relabel c k d)
          ∙ drop_own-relabel c clean ks (remove_peer_entry k d))
  | inr m ↦ rw (m, drop_own) (drop_own-relabel c clean ks d)
]

none_mine : (clean : List Str) (r : Row) → is_empty clean ≡ true → is_mine clean (some r) ≡ false
unfolding str_mem
none_mine [] r e = refl
none_mine (c ∷ cs) r e = cc

module _ (scope : Str) (locals clean : List Str) where
  relabelled-IsSound :
      (d e : PeerDiscovery)
      → IsSound scope locals d
      → IsDistinct e.peers
      → ((k : Str) (r : Row)
          → get k e.peers ≡ some r
          → (get k d.peers ≡ some r) × (is_mine clean (some r) ≡ false))
      → IsSound scope clean (relabel clean e)
  relabelled-IsSound d e s distinct f = record {
    rows = AllItems-get_all (IsFit scope clean) e.peers distinct (λ k r at.
        new_locals-IsFit scope locals clean k r (f k r at).1
          (AllItems-get (IsFit scope locals) k r d.peers (f k r at).0 s.rows));
    distinct = distinct;
    locals_same = refl;
  }

  drop_own_all-IsSound :
      (d : PeerDiscovery)
      → IsSound scope locals d
      → IsSound scope clean (relabel clean (drop_own clean (keys_of d.peers) d))
  drop_own_all-IsSound d s =
      relabelled-IsSound d (drop_own clean (keys_of d.peers) d) s
        (drop_own-IsSound scope locals clean (keys_of d.peers) d s).distinct
        (λ k r at.
          let found =
            get-drop_own scope locals clean (keys_of d.peers) d k r
              (keys_of-IsTrimmed scope locals d.peers s.rows) s at in
          (found.0, ground (arith, found.1, mem-keys_of k r d.peers found.0)))

  no_locals :
      (d : PeerDiscovery)
      → is_empty clean ≡ true
      → IsSound scope locals d
      → IsSound scope clean (relabel clean d)
  no_locals d none_given s =
      relabelled-IsSound d d s s.distinct (λ k r at. (at, none_mine clean r none_given))

-- Setting the machine's own hashes in a table that is in order leaves a table that is in order
-- for the new hashes, so no row of theirs is left.
pub set_local_hashes-IsSound :
    (scope : Str) (locals : List Str) (hashes : List (Option Str)) (d : PeerDiscovery)
    → IsSound scope locals d
    → IsSound scope (hash_set hashes) (set_local_hashes hashes d)
unfolding set_local_hashes
set_local_hashes-IsSound scope locals hashes d s = elim (Bool-cases (is_empty (hash_set hashes))) [
  | inl e ↦ rw (e, set_local_hashes) (no_locals scope locals (hash_set hashes) d e s)
  | inr e ↦
      rw
        (
          e,
          set_local_hashes,
          drop_own-relabel (hash_set hashes) (hash_set hashes) (keys_of d.peers) d,
        )
        (drop_own_all-IsSound scope locals (hash_set hashes) d s)
]
