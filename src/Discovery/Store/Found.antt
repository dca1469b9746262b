-- ===== src/Discovery/Store/Found.antt =====
-- Looking up a peer that `_store_peer` of chatxz/core/discovery.py lets in.
use chatxz.Discovery.State.{Notice}
use chatxz.Discovery.Store.Address.{core-attach_peer_ip}
use chatxz.Discovery.Store.Invariant.{without_ip}
use chatxz.Discovery.Store.Address.{Core}
use chatxz.Discovery.Store.Invariant.{evict_superseded_peers-IsReady}
use chatxz.Discovery.Store.Invariant.{evicted-IsSound}
use chatxz.Discovery.Scope.{sanitize_peer_scope}
use chatxz.Discovery.Store.{store_peer}
use chatxz.Discovery.State.Keys.{is_plain}
use chatxz.Discovery.Store.{prepared}
use chatxz.Discovery.State.{is_local_hash}
use chatxz.Discovery.Store.Address.{AllSome-get}
use chatxz.Discovery.Scope.{peer_allowed}
use chatxz.Discovery.Store.Address.{IsPlacedLike}
use chatxz.Discovery.Store.Address.{sanitize_peer_scope_lem}
use chatxz.Discovery.Store.Invariant.{sanitized-IsReady}
use chatxz.Discovery.Invariant.Keys.{truthy-storage_key}
use chatxz.Discovery.State.Keys.{normalize_hash_twice}
use chatxz.Prelude.{
  ◌≡◌, refl, sym, ap, ◌∙◌, inl, inr, Bool, true, false, not, ◌&&◌, ◌||◌, none, some, List, arith,
  if◌then◌else◌, Bool-cases, Option-cases, is_some, Str, truthy, str_eq_refl,
}
use chatxz.Dict.{Dict, get, put}
use chatxz.Dict.Laws.{get-put}
use chatxz.Dict.Items.{AllItems-get}
use chatxz.Discovery.State.{
  Row, PeerDiscovery, World, normalize_hash, storage_key, row_key, scope_of, is_serial,
}
use chatxz.Discovery.State.Keys.{storage_key_inj}
use chatxz.Discovery.Probing.{reset_peer_probe_state, map_rows, reset_row}
use chatxz.Discovery.Probing.Silence.{get-map_rows}
use chatxz.Discovery.Store.{
  finish_store, put_row, merge_row, place_row, admit, update_ip, update_rest,
  evict_superseded_peers,
}
use chatxz.Discovery.Store.Address.{IsReady, serial-row_ip, core}
use chatxz.Discovery.Invariant.{IsFit, IsSound, is_placed}

-- The call took the peer in: there is a row of its hash under the key.
abbrev pub IsFound : Str → Str → PeerDiscovery × Bool → Type 0
IsFound k h p = (p.1 ≡ true) × (r : Row) × (get k p.0.peers ≡ some r) × (normalize_hash r.hash ≡ h)

reset_row-hash : (w : World) (h : Str) (r : Row) → (reset_row w h r).hash ≡ r.hash
unfolding reset_row
reset_row-hash w h r = ground arith

finish_store-peers :
    (w : World) (h : Str) (row : Row) (d : PeerDiscovery)
    → (finish_store w h row d).peers ≡ (
        if truthy (normalize_hash (some h))
        then map_rows (reset_row w (normalize_hash (some h))) d.peers
        else d.peers)
unfolding finish_store reset_peer_probe_state
finish_store-peers w h row d = ground arith

finish_store_row :
    (w : World) (h k : Str) (row r : Row) (d : PeerDiscovery)
    → get k d.peers ≡ some r
    → (q : Row) × (get k (finish_store w h row d).peers ≡ some q) × (q.hash ≡ r.hash)
finish_store_row w h k row r d e =
    let n = normalize_hash (some h) in
    elim (Bool-cases (truthy n)) [
      | inl a ↦ (
        reset_row w n r,
        rw (finish_store-peers w h row d, a) (get-map_rows (reset_row w n) k d.peers r e),
        reset_row-hash w n r,
      )
      | inr a ↦ (r, rw (finish_store-peers w h row d, a) e, refl)
    ]

update_ip-is_some :
    (scope : Str) (w : World) (peer existing : Row)
    → scope_of w ≡ scope
    → is_placed scope peer ≡ true
    → is_some (update_ip w peer existing) ≡ true
unfolding update_ip
update_ip-is_some scope w peer existing same p = ground (arith, serial-row_ip scope peer p)

update_ip-hash :
    (w : World) (peer existing r : Row)
    → update_ip w peer existing ≡ some r
    → r.hash ≡ existing.hash
unfolding update_ip
update_ip-hash w peer existing r e = ground arith

put_row-IsFound :
    (w : World) (h k : Str) (r : Row) (d : PeerDiscovery)
    → IsFound k (normalize_hash r.hash) (put_row w h k r d)
unfolding put_row
put_row-IsFound w h k r d =
    let at : get k (put k r d.peers) ≡ some r =
      ground (arith, get-put k k r d.peers, str_eq_refl k) in
    let (q, found, same) = finish_store_row w h k r r (record d { peers = put k r d.peers }) at in
    (refl, q, found, ap normalize_hash same)

module _ (scope : Str) (locals : List Str) (w : World) (same_scope : scope_of w ≡ scope) where
  place_row-IsFound :
      (h : Str) (peer : Row) (d : PeerDiscovery)
      → truthy (row_key peer) ≡ true
      → IsReady scope locals peer
      → IsSound scope locals d
      → IsFound (row_key peer) (normalize_hash peer.hash) (place_row w h peer d)
  unfolding place_row merge_row update_rest
  place_row-IsFound h peer d keyed ready s = elim (Option-cases (get (row_key peer) d.peers)) [
    | inl a ↦ rw (keyed, a, place_row) (put_row-IsFound w h (row_key peer) peer d)
    | inr (existing, a) ↦
        let f = AllItems-get (IsFit scope locals) (row_key peer) existing d.peers a s.rows in
        let same =
          storage_key_inj peer.hash existing.hash peer.via existing.via ready.real f.real f.keyed in
        elim (Option-cases (update_ip w peer existing)) [
          | inl u ↦
              ground (arith, u, update_ip-is_some scope w peer existing same_scope ready.placed)
          | inr (r, u) ↦
              rw (keyed, a, u, place_row, same.0, sym (update_ip-hash w peer existing r u))
                (put_row-IsFound w h (row_key peer) (update_rest w h peer r) d)
        ]
  ]

  -- The key and the hash are those of the peer that came.
  evict-core : (peer : Row) (d : Dict Row) → core (evict_superseded_peers w peer d).1 ≡ core peer
  unfolding evict_superseded_peers
  evict-core peer d = ground (arith, core-attach_peer_ip (scope_of w) d peer)

  place_evicted-IsFound :
      (h : Str) (peer : Row) (d : PeerDiscovery) (notices : List Notice)
      → truthy (row_key peer) ≡ true
      → IsReady scope locals peer
      → IsSound scope locals d
      → IsFound (row_key peer) (normalize_hash peer.hash) (
          place_row w h
            (evict_superseded_peers w peer d.peers).1
            (record d { peers = (evict_superseded_peers w peer d.peers).2; notices = notices }))
  place_evicted-IsFound h peer d notices keyed ready s =
      let same = evict-core peer d.peers in
      let key : row_key (evict_superseded_peers w peer d.peers).1 ≡ row_key peer =
        ap (λ (c : Core). storage_key c.0 c.2) same in
      let hash : normalize_hash (evict_superseded_peers w peer d.peers).1.hash
          ≡ normalize_hash peer.hash =
        ap (λ (c : Core). normalize_hash c.0) same in
      rw (sym key, sym hash)
        (place_row-IsFound h _ _ (ap truthy key ∙ keyed)
          (evict_superseded_peers-IsReady scope locals w same_scope peer d.peers ready)
          (evicted-IsSound scope locals w same_scope peer d notices s))

  admit-IsFound :
      (h : Str) (peer : Row) (d : PeerDiscovery)
      → truthy (row_key peer) ≡ true
      → IsReady scope locals peer
      → IsSound scope locals d
      → IsFound (row_key peer) (normalize_hash peer.hash) (admit w h peer d)
  unfolding admit
  admit-IsFound h peer d keyed ready s = elim (Bool-cases (is_serial peer)) [
    | inl e ↦
        rw (e, admit)
          (place_evicted-IsFound h (record peer { ip = none }) d _ keyed
            (without_ip scope locals w same_scope peer e ready) s)
    | inr e ↦ rw (e, admit) (place_evicted-IsFound h peer d _ keyed ready s)
  ]

  sanitized_key :
      (peer p : Row) (d : PeerDiscovery)
      → sanitize_peer_scope w d.peers (prepared (normalize_hash peer.hash) peer) ≡ some p
      → (row_key p ≡ storage_key peer.hash peer.via)
        × (normalize_hash p.hash ≡ normalize_hash peer.hash)
  unfolding storage_key
  sanitized_key peer p d a =
      let q = prepared (normalize_hash peer.hash) peer in
      let m =
        AllSome-get (IsPlacedLike (scope_of w) q) _ p (sanitize_peer_scope_lem w d.peers q) a in
      let hash : normalize_hash p.hash ≡ normalize_hash peer.hash =
        ap normalize_hash m.hash_same ∙ normalize_hash_twice peer.hash in
      (rw (hash, m.via_same) refl, hash)

  -- In a table that is in order, storing a peer whose hash is not blank and not the machine's
  -- own, whose identity is not the machine's own, whose transport is not "serial" in other
  -- letters, and which the tests of the scope let in, reports success and leaves a row of the
  -- peer's hash under the peer's key.
  pub store_peer-IsFound :
      (peer : Row) (d : PeerDiscovery)
      → is_plain peer.via ≡ true
      → IsSound scope locals d
      → (not (truthy (normalize_hash peer.hash)) || is_local_hash (normalize_hash peer.hash) d)
        ≡ false
      → (truthy (normalize_hash peer.identity_hash)
          && is_local_hash (normalize_hash peer.identity_hash) d)
        ≡ false
      → peer_allowed w d.peers (prepared (normalize_hash peer.hash) peer) ≡ true
      → IsFound (storage_key peer.hash peer.via) (normalize_hash peer.hash) (store_peer w peer d)
  unfolding store_peer
  store_peer-IsFound peer d plain s e i allowed =
      elim (Option-cases
        (sanitize_peer_scope w d.peers (prepared (normalize_hash peer.hash) peer))) [
          | inl a ↦ ground arith
          | inr (p, a) ↦
              let ready = sanitized-IsReady scope locals w same_scope peer p d plain s e i a in
              let same = sanitized_key peer p d a in
              let found : IsFound (row_key p) (normalize_hash p.hash) (store_peer w peer d) =
                rw (e, i, a, store_peer)
                  (admit-IsFound (normalize_hash peer.hash) p d
                    (truthy-storage_key p.hash p.via ready.real) ready s) in
              coe 0 1 (j. IsFound (same.0 j) (same.1 j) (store_peer w peer d)) found
        ]
