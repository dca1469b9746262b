-- ===== src/Discovery/Invariant/Keys.antt =====
-- Removals by key from a table that is in order, in chatxz/core/discovery.py.
use chatxz.Prelude.{
  ◌≡◌, refl, sym, ◌∙◌, inl, inr, true, false, Option, none, some, List, [], ◌∷◌, ◌++◌, arith,
  if◌then◌else◌, Bool-cases, All, Str, str_eq, truthy, str_mem, strip, str_eq_iff, Lacks,
}
use chatxz.Dict.{Dict, get, has_key}
use chatxz.Dict.Items.{AllItems}
use chatxz.Dict.Laws.{get_of_absent}
use chatxz.Discovery.State.{Row, PeerDiscovery, normalize_hash, storage_key, via_part}
use chatxz.Discovery.State.Keys.{normalize_hash-Lacks}
use chatxz.Discovery.State.Trim.{strip-storage_key}
use chatxz.Discovery.Remove.{remove_peer_entry, entry_key}
use chatxz.Discovery.Remove.Laws.{get-remove_peer_entry}
use chatxz.Discovery.Probing.{remove_entries}
use chatxz.Discovery.Invariant.{IsFit, IsSound, remove_peer_entry-IsSound}

-- Text that is a possible key: not empty, without blanks around it.
abbrev pub IsTrimmed : Str → Type 0
IsTrimmed k = (strip k ≡ k) × (truthy k ≡ true)

holds_colon : (s t : Str) → Lacks 58 (s ++ 58 ∷ t) → false ≡ true
holds_colon [] t l = ground (arith, l.0)
holds_colon (c ∷ s) t l = holds_colon s t l.1

truthy_longer : (s t : Str) → truthy (s ++ 58 ∷ t) ≡ true
truthy_longer [] t = refl
truthy_longer (c ∷ s) t = refl

pub storage_key_real :
    (hash via : Option Str)
    → truthy (normalize_hash hash) ≡ true
    → storage_key hash via ≡ normalize_hash hash ++ 58 ∷ via_part via
unfolding storage_key
storage_key_real hash via real = rw real refl

pub truthy-storage_key :
    (hash via : Option Str)
    → truthy (normalize_hash hash) ≡ true
    → truthy (storage_key hash via) ≡ true
truthy-storage_key hash via real =
    rw (storage_key_real hash via real) (truthy_longer (normalize_hash hash) (via_part via))

module _ (scope : Str) (locals : List Str) where
  pub fit-IsTrimmed : (k : Str) (r : Row) → IsFit scope locals k r → IsTrimmed k
  fit-IsTrimmed k r f =
      rw f.keyed (strip-storage_key r.hash r.via f.real, truthy-storage_key r.hash r.via f.real)

  -- No key of the table is a bare hash.
  has_key-bare :
      (x : Str) (d : Dict Row) → Lacks 58 x → AllItems (IsFit scope locals) d → has_key x d ≡ false
  unfolding has_key
  has_key-bare x [] l h = refl
  has_key-bare x ((k, r) ∷ d) l h = elim (Bool-cases (str_eq k x)) [
    | inl e ↦
        let same : x ≡ normalize_hash r.hash ++ 58 ∷ via_part r.via =
          sym ((str_eq_iff k x).0 e) ∙ h.0.keyed ∙ storage_key_real r.hash r.via h.0.real in
        cc (holds_colon (normalize_hash r.hash) (via_part r.via) (coe 0 1 (i. Lacks 58 (same i)) l))
    | inr e ↦ ground (arith, has_key-bare x d l h.1)
  ]

  entry_key_trimmed :
      (k : Str) (d : PeerDiscovery)
      → IsTrimmed k
      → IsSound scope locals d
      → entry_key k d.peers ≡ (if has_key k d.peers then some k else none)
  unfolding entry_key
  entry_key_trimmed k d t s = ground (
    arith,
    t,
    has_key-bare (normalize_hash (some k)) d.peers (normalize_hash-Lacks (some k)) s.rows,
  )

  pub get-remove_trimmed :
      (k j : Str) (d : PeerDiscovery)
      → IsTrimmed k
      → IsSound scope locals d
      → get j (remove_peer_entry k d).peers ≡ (if str_eq k j then none else get j d.peers)
  get-remove_trimmed k j d t s =
      get-remove_peer_entry k j d
      ∙ rw (entry_key_trimmed k d t s) (ground (arith, str_eq_iff k j, get_of_absent k d.peers))

  -- A list of keys at a time.
  pub remove_entries-IsSound :
      (ks : List Str) (d : PeerDiscovery)
      → IsSound scope locals d
      → IsSound scope locals (remove_entries ks d)
  unfolding remove_entries
  remove_entries-IsSound [] d s = s
  remove_entries-IsSound (k ∷ ks) d s =
      remove_entries-IsSound ks (remove_peer_entry k d)
        (remove_peer_entry-IsSound scope locals k d s)

  pub get-remove_entries :
      (ks : List Str) (j : Str) (d : PeerDiscovery)
      → All IsTrimmed ks
      → IsSound scope locals d
      → get j (remove_entries ks d).peers ≡ (if str_mem j ks then none else get j d.peers)
  unfolding remove_entries str_mem
  get-remove_entries [] j d t s = refl
  get-remove_entries (k ∷ ks) j d t s =
      get-remove_entries ks j (remove_peer_entry k d) t.1
        (remove_peer_entry-IsSound scope locals k d s)
      ∙ ground (arith, get-remove_trimmed k j d t.0 s, str_eq_iff k j, str_eq_iff j k)
