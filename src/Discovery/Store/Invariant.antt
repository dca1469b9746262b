-- ===== src/Discovery/Store/Invariant.antt =====
-- `_store_peer` of chatxz/core/discovery.py and the invariant of the table.
use chatxz.Prelude.{
  ◌≡◌, refl, sym, inl, inr, true, false, not, ◌&&◌, ◌||◌, none, some, List, arith, Bool-cases,
  Option-cases, Str, truthy,
}
use chatxz.Dict.{get, Dict}
use chatxz.Dict.Items.{AllItems-get}
use chatxz.Discovery.Invariant.{IsFit, IsSound, remove_peer_entry-IsSound, is_placed, is_foreign}
use chatxz.Discovery.Probing.{keys_of}
use chatxz.Discovery.Remove.{remove_peer_entry}
use chatxz.Discovery.Scope.{sanitize_peer_scope, attach_peer_ip}
use chatxz.Discovery.State.{
  World, scope_of, PeerDiscovery, row_key, Notice, is_serial, normalize_hash, is_local_hash, Row,
}
use chatxz.Discovery.State.Keys.{is_plain, normalize_hash_twice}
use chatxz.Discovery.Store.{
  refuse, evict_superseded_peers, admit, prepared, store_peer, update_ip, place_row, merge_row,
  put_row,
}
use chatxz.Discovery.Store.Address.{
  moved-IsReady, IsPlacedLike, sanitize_peer_scope_lem, attach_peer_ip_lem, IsReady, AllSome-get,
}
use chatxz.Discovery.Store.Merge.{
  AllItems-evict_rows, remove_hash-IsSound, evict_rows-IsDistinct, finish_store-IsSound,
  put-IsSound, ready-IsFit, same_transport, update_ip-IsFit, update_rest-IsFit,
}

module _ (scope : Str) (locals : List Str) (w : World) (same_scope : scope_of w ≡ scope) where
  place_row-IsSound :
      (h : Str) (peer : Row) (d : PeerDiscovery)
      → IsReady scope locals peer
      → IsSound scope locals d
      → IsSound scope locals (place_row w h peer d).0
  unfolding place_row merge_row put_row
  place_row-IsSound h peer d ready s = elim (Bool-cases (truthy (row_key peer))) [
    | inr e ↦ rw (e, place_row) s
    | inl e ↦ elim (Option-cases (get (row_key peer) d.peers)) [
      | inl a ↦
          rw (e, a, place_row)
            (finish_store-IsSound scope locals w h peer _ (
              put-IsSound scope locals (row_key peer) peer d (ready-IsFit scope locals peer ready)
                s))
      | inr (existing, a) ↦
          let f = AllItems-get (IsFit scope locals) (row_key peer) existing d.peers a s.rows in
          let moved =
            update_ip-IsFit scope locals w (row_key peer) peer existing same_scope
              (same_transport scope locals peer existing ready f) ready.placed f in
          elim (Option-cases (update_ip w peer existing)) [
            | inl u ↦
                rw (e, a, u, place_row) (remove_peer_entry-IsSound scope locals (row_key peer) d s)
            | inr (r, u) ↦
                rw (e, a, u, place_row)
                  (finish_store-IsSound scope locals w h _ _ (
                    put-IsSound scope locals (row_key peer) _ d
                      (update_rest-IsFit scope locals w h (row_key peer) peer r ready.foreign
                        (AllSome-get (IsFit scope locals (row_key peer)) _ r moved u))
                      s))
          ]
    ]
  ]

  attach_in_scope :
      (peer : Row) (d : Dict Row)
      → is_placed scope peer ≡ true
      → IsPlacedLike scope peer (attach_peer_ip (scope_of w) d peer)
  attach_in_scope peer d p = rw same_scope (attach_peer_ip_lem scope d peer p)

  pub evict_superseded_peers-IsReady :
      (peer : Row) (d : Dict Row)
      → IsReady scope locals peer
      → IsReady scope locals (evict_superseded_peers w peer d).1
  unfolding evict_superseded_peers
  evict_superseded_peers-IsReady peer d ready = elim (Bool-cases (is_serial peer)) [
    | inl e ↦ rw (e, evict_superseded_peers) ready
    | inr e ↦
        rw (e, evict_superseded_peers)
          (moved-IsReady scope locals peer _ (attach_in_scope peer d ready.placed) ready)
  ]

  pub without_ip :
      (peer : Row)
      → is_serial peer ≡ true
      → IsReady scope locals peer
      → IsReady scope locals (record peer { ip = none })
  without_ip peer e ready = record {
    real = ready.real;
    plain = ready.plain;
    placed = rw e refl;
    foreign = ready.foreign;
  }

  pub evicted-IsSound :
      (peer : Row) (d : PeerDiscovery) (notices : List Notice)
      → IsSound scope locals d
      → IsSound scope locals
          (record d { peers = (evict_superseded_peers w peer d.peers).2; notices = notices })
  unfolding evict_superseded_peers
  evicted-IsSound peer d notices s = record {
    rows = AllItems-evict_rows (IsFit scope locals) w _ d.peers s.rows;
    distinct = evict_rows-IsDistinct (IsFit scope locals) w _ d.peers s.distinct;
    locals_same = s.locals_same;
  }

  admit-IsSound :
      (h : Str) (peer : Row) (d : PeerDiscovery)
      → IsReady scope locals peer
      → IsSound scope locals d
      → IsSound scope locals (admit w h peer d).0
  unfolding admit
  admit-IsSound h peer d ready s = elim (Bool-cases (is_serial peer)) [
    | inl e ↦
        rw (e, admit)
          (place_row-IsSound h _ _
            (evict_superseded_peers-IsReady (record peer { ip = none }) d.peers
              (without_ip peer e ready))
            (evicted-IsSound (record peer { ip = none }) d _ s))
    | inr e ↦
        rw (e, admit)
          (place_row-IsSound h _ _ (evict_superseded_peers-IsReady peer d.peers ready)
            (evicted-IsSound peer d _ s))
  ]

  refuse-IsSound :
      (h : Str) (peer : Row) (d : PeerDiscovery)
      → IsSound scope locals d
      → IsSound scope locals (refuse h peer d)
  refuse-IsSound h peer d s =
      let d' = remove_peer_entry (row_key peer) d in
      remove_hash-IsSound scope locals h (keys_of d'.peers) d'
        (remove_peer_entry-IsSound scope locals (row_key peer) d s)

  prepared-IsForeign :
      (peer : Row) (d : PeerDiscovery)
      → d.local_hashes ≡ locals
      → truthy (normalize_hash peer.hash) ≡ true
      → is_local_hash (normalize_hash peer.hash) d ≡ false
      → (truthy (normalize_hash peer.identity_hash)
          && is_local_hash (normalize_hash peer.identity_hash) d)
        ≡ false
      → is_foreign locals (prepared (normalize_hash peer.hash) peer) ≡ true
  prepared-IsForeign peer d same real far far_ident =
      rw (sym same)
        (ground (arith, normalize_hash_twice peer.hash, normalize_hash_twice peer.identity_hash))

  pub sanitized-IsReady :
      (peer p : Row) (d : PeerDiscovery)
      → is_plain peer.via ≡ true
      → IsSound scope locals d
      → (not (truthy (normalize_hash peer.hash)) || is_local_hash (normalize_hash peer.hash) d)
        ≡ false
      → (truthy (normalize_hash peer.identity_hash)
          && is_local_hash (normalize_hash peer.identity_hash) d)
        ≡ false
      → sanitize_peer_scope w d.peers (prepared (normalize_hash peer.hash) peer) ≡ some p
      → IsReady scope locals p
  sanitized-IsReady peer p d plain s e i a =
      let q = prepared (normalize_hash peer.hash) peer in
      let m =
        AllSome-get (IsPlacedLike (scope_of w) q) _ p (sanitize_peer_scope_lem w d.peers q) a in
      let foreign_q = prepared-IsForeign peer d s.locals_same (ground arith) (ground arith) i in
      record {
        real = rw (m.hash_same, normalize_hash_twice peer.hash) (ground arith);
        plain = rw m.via_same plain;
        placed = rw (sym same_scope) m.placed;
        foreign = rw (m.hash_same, m.ident_same) foreign_q;
      }

  -- Storing a peer keeps the invariant, whatever becomes of the peer.
  pub store_peer-IsSound :
      (peer : Row) (d : PeerDiscovery)
      → is_plain peer.via ≡ true
      → IsSound scope locals d
      → IsSound scope locals (store_peer w peer d).0
  unfolding store_peer
  store_peer-IsSound peer d plain s =
      let h = normalize_hash peer.hash in
      elim (Bool-cases (not (truthy h) || is_local_hash h d)) [
        | inl e ↦ rw (e, store_peer) s
        | inr e ↦
            elim (Bool-cases (
              truthy (normalize_hash peer.identity_hash)
              && is_local_hash (normalize_hash peer.identity_hash) d)) [
                | inl i ↦ rw (e, i, store_peer) s
                | inr i ↦ elim (Option-cases (sanitize_peer_scope w d.peers (prepared h peer))) [
                  | inl a ↦ rw (e, i, a, store_peer) (refuse-IsSound h (prepared h peer) d s)
                  | inr (p, a) ↦
                      rw (e, i, a, store_peer)
                        (admit-IsSound h p d (sanitized-IsReady peer p d plain s e i a) s)
                ]
              ]
      ]
