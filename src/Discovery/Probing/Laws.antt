-- ===== src/Discovery/Probing/Laws.antt =====
-- What the probes and the eviction of silent peers do to the table of chatxz/core/discovery.py.
use chatxz.Discovery.Probing.{remove_entries}
use chatxz.Discovery.Probing.{keys_of}
use chatxz.Prelude.{
  ℕ, ◌≡◌, refl, ◌∙◌, inl, inr, Bool, true, false, not, Option, none, some, List, [], ◌∷◌, arith,
  if◌then◌else◌, Bool-cases, length, All, Str, str_eq, truthy, str_mem, str_eq_iff, branch,
}
use chatxz.Dict.{Dict, get, has_key, IsDistinct}
use chatxz.Dict.Items.{AllItems}
use chatxz.Dict.Sweep.{spared}
use chatxz.Discovery.State.{Row, PeerDiscovery, World, normalize_hash}
use chatxz.Discovery.Probing.{
  Limits, has_hash, probed_row, after_probe, touched, update_peer_probe, clear_row, clear_peer_rtt,
  reset_timer, reset_probe_timers, stale_keys, is_stale_row, purge_stale_probes, drop_aged, is_aged,
  refresh_stale_entries, is_fresh_row,
}
use chatxz.Discovery.Invariant.{
  IsFit, IsSound, IsAlike, map_rows-IsSound, remove_peer_entry-IsSound,
}
use chatxz.Discovery.Invariant.Keys.{
  IsTrimmed, fit-IsTrimmed, get-remove_entries, remove_entries-IsSound,
}

abbrev alike :
    {r s : Row}
    → s.hash ≡ r.hash
    → s.identity_hash ≡ r.identity_hash
    → s.via ≡ r.via
    → s.ip ≡ r.ip
    → IsAlike r s
alike a b c d = record { hash_same = a; ident_same = b; via_same = c; ip_same = d }

after_probe-IsAlike :
    (w : World) (rtt : Option ℕ) (ok : Bool) (r : Row) → IsAlike r (after_probe w rtt ok r)
unfolding after_probe
after_probe-IsAlike w (some rtt) true r = alike refl refl refl refl
after_probe-IsAlike w none true r = alike refl refl refl refl
after_probe-IsAlike w (some rtt) false r =
    branch (IsAlike r) (is_fresh_row w r) _ _ (alike refl refl refl refl)
      (alike refl refl refl refl)
after_probe-IsAlike w none false r =
    branch (IsAlike r) (is_fresh_row w r) _ _ (alike refl refl refl refl)
      (alike refl refl refl refl)

touched-IsAlike : (w : World) (r : Row) → IsAlike r (touched w r)
touched-IsAlike w r =
    branch (IsAlike r) (is_fresh_row w r) _ _ (alike refl refl refl refl)
      (alike refl refl refl refl)

IsAlike-trans : (r s t : Row) → IsAlike r s → IsAlike s t → IsAlike r t
IsAlike-trans r s t a b =
    alike (b.hash_same ∙ a.hash_same) (b.ident_same ∙ a.ident_same) (b.via_same ∙ a.via_same)
      (b.ip_same ∙ a.ip_same)

probed_row-IsAlike :
    (w : World) (h : Str) (rtt : Option ℕ) (ok : Bool) (r : Row)
    → IsAlike r (probed_row w h rtt ok r)
unfolding probed_row
probed_row-IsAlike w h rtt ok r =
    branch (IsAlike r) (has_hash h r) _ _
      (IsAlike-trans r (touched w r) _ (touched-IsAlike w r)
        (after_probe-IsAlike w rtt ok (touched w r)))
      (alike refl refl refl refl)

stale_keys_absent :
    (w : World) (l : Limits) (k : Str) (d : Dict Row)
    → has_key k d ≡ false
    → str_mem k (stale_keys w l d) ≡ false
unfolding stale_keys has_key str_mem
stale_keys_absent w l k [] h = refl
stale_keys_absent w l k ((j, r) ∷ d) h =
    ground (arith, stale_keys_absent w l k d, str_eq_iff j k, str_eq_iff k j)

stale_lem :
    (w : World) (l : Limits) (k : Str) (d : Dict Row)
    → IsDistinct d
    → (if str_mem k (stale_keys w l d) then none else get k d)
      ≡ spared (λ j r. is_stale_row w l r) k (get k d)
unfolding stale_keys str_mem get
stale_lem w l k [] h = refl
stale_lem w l k ((j, r) ∷ d) h = elim (Bool-cases (str_eq j k)) [
  | inl e ↦
      let same : j ≡ k = (str_eq_iff j k).0 e in
      ground (
        arith,
        str_eq_iff j k,
        str_eq_iff k j,
        stale_keys_absent w l j d h.0,
        stale_keys_absent w l k d,
      )
  | inr e ↦ ground (arith, stale_lem w l k d h.1, str_eq_iff j k, str_eq_iff k j)
]

module _ (scope : Str) (locals : List Str) where
  pub update_peer_probe-IsSound :
      (w : World) (hash : Option Str) (rtt : Option ℕ) (ok : Bool) (d : PeerDiscovery)
      → IsSound scope locals d
      → IsSound scope locals (update_peer_probe w hash rtt ok d)
  unfolding update_peer_probe
  update_peer_probe-IsSound w hash rtt ok d s =
      branch (IsSound scope locals) (not (truthy (normalize_hash hash))) _ _ s (
        map_rows-IsSound scope locals (probed_row w (normalize_hash hash) rtt ok)
          (probed_row-IsAlike w (normalize_hash hash) rtt ok) d s)

  pub clear_peer_rtt-IsSound :
      (hash : Option Str) (d : PeerDiscovery)
      → IsSound scope locals d
      → IsSound scope locals (clear_peer_rtt hash d).0
  unfolding clear_peer_rtt
  clear_peer_rtt-IsSound hash d s =
      branch (λ (p : PeerDiscovery × Bool). IsSound scope locals p.0)
        (not (truthy (normalize_hash hash))) _ _ s
        (map_rows-IsSound scope locals (clear_row (normalize_hash hash))
          (λ r.
            branch (IsAlike r) (has_hash (normalize_hash hash) r) _ _ (alike refl refl refl refl)
              (alike refl refl refl refl))
          d s)

  pub reset_probe_timers-IsSound :
      (d : PeerDiscovery) → IsSound scope locals d → IsSound scope locals (reset_probe_timers d)
  unfolding reset_probe_timers
  reset_probe_timers-IsSound d s =
      map_rows-IsSound scope locals reset_timer (λ r. alike refl refl refl refl) d s

  drop_aged-IsSound :
      (w : World) (max_age : ℕ) (ks : List Str) (d : PeerDiscovery) (n : ℕ)
      → IsSound scope locals d
      → IsSound scope locals (drop_aged w max_age ks d n).0
  unfolding drop_aged
  drop_aged-IsSound w max_age [] d n s = s
  drop_aged-IsSound w max_age (k ∷ ks) d n s = drop_aged-IsSound w max_age ks _ _ (
      branch (IsSound scope locals) (is_aged w max_age (get k d.peers)) _ _
        (remove_peer_entry-IsSound scope locals k d s) s)

  pub refresh_stale_entries-IsSound :
      (w : World) (max_age probe_stale max_failures : ℕ) (d : PeerDiscovery)
      → IsSound scope locals d
      → IsSound scope locals (refresh_stale_entries w max_age probe_stale max_failures d).0
  unfolding refresh_stale_entries purge_stale_probes
  refresh_stale_entries-IsSound w max_age probe_stale max_failures d s =
      let l : Limits = record {
        max_rtt_ms = 10000;
        stale_s = probe_stale;
        max_failures = max_failures;
      } in
      let keys = stale_keys w l d.peers in
      let d' = remove_entries keys d in
      drop_aged-IsSound w max_age (keys_of d'.peers) d' (length keys)
        (remove_entries-IsSound scope locals keys d s)

  stale_keys-IsTrimmed :
      (w : World) (l : Limits) (d : Dict Row)
      → AllItems (IsFit scope locals) d
      → All IsTrimmed (stale_keys w l d)
  unfolding stale_keys
  stale_keys-IsTrimmed w l [] h = tt
  stale_keys-IsTrimmed w l ((k, r) ∷ d) h =
      branch (All IsTrimmed) (is_stale_row w l r) _ _
        (fit-IsTrimmed scope locals k r h.0, stale_keys-IsTrimmed w l d h.1)
        (stale_keys-IsTrimmed w l d h.1)

  -- In a table that is in order, the purge after probes drops exactly the rows that are stale:
  -- not serial, silent for longer than the limit, and too slow or with too many failures; every
  -- other row is as it was.
  pub purge_stale_probes_lem :
      (w : World) (l : Limits) (d : PeerDiscovery) (k : Str)
      → IsSound scope locals d
      → get k (purge_stale_probes w l d).0.peers
        ≡ spared (λ j r. is_stale_row w l r) k (get k d.peers)
  unfolding purge_stale_probes
  purge_stale_probes_lem w l d k s =
      get-remove_entries scope locals (stale_keys w l d.peers) k d
        (stale_keys-IsTrimmed w l d.peers s.rows) s
      ∙ stale_lem w l k d.peers s.distinct

  pub purge_stale_probes-IsSound :
      (w : World) (l : Limits) (d : PeerDiscovery)
      → IsSound scope locals d
      → IsSound scope locals (purge_stale_probes w l d).0
  unfolding purge_stale_probes
  purge_stale_probes-IsSound w l d s =
      remove_entries-IsSound scope locals (stale_keys w l d.peers) d s
