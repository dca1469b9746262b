-- ===== src/Discovery/Store/Merge.antt =====
-- The parts of `_store_peer` of chatxz/core/discovery.py: who gives way, the merge of two rows, the end.
use chatxz.Prelude.{
  ◌≡◌, refl, ◌∙◌, inl, inr, true, false, not, ◌&&◌, ◌||◌, Option, some, List, [], ◌∷◌, arith,
  Bool-cases, Option-cases, Str, str_eq, truthy, or_empty, strip-strip,
}
use chatxz.Dict.{IsDistinct, has_key, get, put, Dict}
use chatxz.Dict.Items.{AllItems, AllItems-put}
use chatxz.Dict.Laws.{put-IsDistinct}
use chatxz.Discovery.Invariant.{
  IsAlike, IsFit, IsSound, remove_peer_entry-IsSound, map_rows-IsSound, is_placed, is_foreign,
}
use chatxz.Discovery.Probing.{reset_row, has_hash, reset_peer_probe_state}
use chatxz.Discovery.State.{
  World, scope_of, PeerDiscovery, row_key, Row, normalize_hash, row_ip, is_serial,
}
use chatxz.Discovery.State.Keys.{storage_key_inj, via_part-serial}
use chatxz.Discovery.Store.{
  evict_rows, is_superseded, finish_store, remove_hash, update_ip, update_rest,
}
use chatxz.Discovery.Store.Address.{IsReady, AllSome, serial-row_ip}
use chatxz.Net.Peers.{register_udp_peer_ip}
use chatxz.Scope.{peer_in_scope}

-- Rows that stay are a part of the table.
module _ (P : Str → Row → Type 0) (w : World) (peer : Row) where
  pub AllItems-evict_rows : (d : Dict Row) → AllItems P d → AllItems P (evict_rows w peer d).1
  unfolding evict_rows
  AllItems-evict_rows [] h = tt
  AllItems-evict_rows ((k, r) ∷ d) h = elim (Bool-cases (is_superseded w peer r)) [
    | inl e ↦ rw (e, evict_rows) (AllItems-evict_rows d h.1)
    | inr e ↦ rw (e, evict_rows) (h.0, AllItems-evict_rows d h.1)
  ]

  has_key-evict_rows :
      (k : Str) (d : Dict Row) → has_key k d ≡ false → has_key k (evict_rows w peer d).1 ≡ false
  unfolding evict_rows has_key
  has_key-evict_rows k [] h = refl
  has_key-evict_rows k ((j, r) ∷ d) h = ground (arith, has_key-evict_rows k d)

  pub evict_rows-IsDistinct : (d : Dict Row) → IsDistinct d → IsDistinct (evict_rows w peer d).1
  unfolding evict_rows
  evict_rows-IsDistinct [] h = tt
  evict_rows-IsDistinct ((k, r) ∷ d) h = elim (Bool-cases (is_superseded w peer r)) [
    | inl e ↦ rw (e, evict_rows) (evict_rows-IsDistinct d h.1)
    | inr e ↦ rw (e, evict_rows) (has_key-evict_rows k d h.0, evict_rows-IsDistinct d h.1)
  ]

reset_row-IsAlike : (w : World) (h : Str) (r : Row) → IsAlike r (reset_row w h r)
unfolding reset_row
reset_row-IsAlike w h r = elim (Bool-cases (has_hash h r)) [
  | inl e ↦
      rw (e, reset_row)
        (record { hash_same = refl; ident_same = refl; via_same = refl; ip_same = refl })
  | inr e ↦
      rw (e, reset_row)
        (record { hash_same = refl; ident_same = refl; via_same = refl; ip_same = refl })
]

module _ (scope : Str) (locals : List Str) where
  pub reset_peer_probe_state-IsSound :
      (w : World) (hash : Option Str) (d : PeerDiscovery)
      → IsSound scope locals d
      → IsSound scope locals (reset_peer_probe_state w hash d)
  unfolding reset_peer_probe_state
  reset_peer_probe_state-IsSound w hash d s = elim (Bool-cases (truthy (normalize_hash hash))) [
    | inr e ↦ rw (e, reset_peer_probe_state) s
    | inl e ↦
        rw (e, reset_peer_probe_state)
          (map_rows-IsSound scope locals (reset_row w (normalize_hash hash))
            (reset_row-IsAlike w (normalize_hash hash)) d s)
  ]

  -- The rest of the state does not matter.
  pub same_table :
      (d e : PeerDiscovery)
      → e.peers ≡ d.peers
      → e.local_hashes ≡ d.local_hashes
      → IsSound scope locals d
      → IsSound scope locals e
  same_table d e rows same s = record {
    rows = rw rows s.rows;
    distinct = rw rows s.distinct;
    locals_same = same ∙ s.locals_same;
  }

  pub finish_store-IsSound :
      (w : World) (h : Str) (row : Row) (d : PeerDiscovery)
      → IsSound scope locals d
      → IsSound scope locals (finish_store w h row d)
  unfolding finish_store
  finish_store-IsSound w h row d s = elim (Bool-cases (truthy (or_empty row.ip))) [
    | inl e ↦
        let d₁ = record d { net = register_udp_peer_ip row.ip d.net } in
        rw (e, finish_store)
          (same_table _ _ refl refl
            (reset_peer_probe_state-IsSound w (some h) d₁ (same_table d d₁ refl refl s)))
    | inr e ↦
        rw (e, finish_store)
          (same_table _ _ refl refl (reset_peer_probe_state-IsSound w (some h) d s))
  ]

  pub put-IsSound :
      (k : Str) (r : Row) (d : PeerDiscovery)
      → IsFit scope locals k r
      → IsSound scope locals d
      → IsSound scope locals (record d { peers = put k r d.peers })
  put-IsSound k r d f s = record {
    rows = AllItems-put (IsFit scope locals) k r d.peers f s.rows;
    distinct = put-IsDistinct k r d.peers s.distinct;
    locals_same = s.locals_same;
  }

  pub ready-IsFit : (r : Row) → IsReady scope locals r → IsFit scope locals (row_key r) r
  ready-IsFit r h = record {
    keyed = refl;
    real = h.real;
    plain = h.plain;
    placed = h.placed;
    foreign = h.foreign;
  }

  pub remove_hash-IsSound :
      (h : Str) (ks : List Str) (d : PeerDiscovery)
      → IsSound scope locals d
      → IsSound scope locals (remove_hash h ks d)
  unfolding remove_hash
  remove_hash-IsSound h [] d s = s
  remove_hash-IsSound h (k ∷ ks) d s = elim (Option-cases (get k d.peers)) [
    | inl e ↦ rw (e, remove_hash) (remove_hash-IsSound h ks d s)
    | inr (r, e) ↦ elim (Bool-cases (str_eq (normalize_hash r.hash) h)) [
      | inl a ↦
          rw (e, a, remove_hash)
            (remove_hash-IsSound h ks _ (remove_peer_entry-IsSound scope locals k d s))
      | inr a ↦ rw (e, a, remove_hash) (remove_hash-IsSound h ks d s)
    ]
  ]

  pub same_transport :
      (peer existing : Row)
      → IsReady scope locals peer
      → IsFit scope locals (row_key peer) existing
      → is_serial existing ≡ is_serial peer
  same_transport peer existing h f =
      let both =
        storage_key_inj peer.hash existing.hash peer.via existing.via h.real f.real f.keyed in
      cc (both.1, via_part-serial peer.via h.plain, via_part-serial existing.via f.plain)

  pub update_ip-IsFit :
      (w : World) (k : Str) (peer existing : Row)
      → scope_of w ≡ scope
      → is_serial existing ≡ is_serial peer
      → is_placed scope peer ≡ true
      → IsFit scope locals k existing
      → AllSome (IsFit scope locals k) (update_ip w peer existing)
  unfolding update_ip
  update_ip-IsFit w k peer existing e same p f =
      elim (Bool-cases (truthy (row_ip peer) && not (str_eq (row_ip peer) (row_ip existing)))) [
        | inl new ↦
            elim (Bool-cases (
              not (truthy (scope_of w))
              || peer_in_scope (some (row_ip peer)) (some (scope_of w)))) [
                | inr out ↦ rw (new, out, update_ip) tt
                | inl in_it ↦
                    rw (new, in_it, update_ip)
                      (record {
                        keyed = f.keyed;
                        real = f.real;
                        plain = f.plain;
                        placed =
                            ground
                              (arith, strip-strip (or_empty peer.ip), serial-row_ip scope peer p);
                        foreign = f.foreign;
                      })
              ]
        | inr old ↦
            elim (Bool-cases (
              truthy (or_empty peer.ip)
              && (not (truthy (or_empty existing.ip))
                  && (not (truthy (scope_of w))
                      || peer_in_scope (some (row_ip peer)) (some (scope_of w)))))) [
                        | inr none_yet ↦ rw (old, none_yet, update_ip) f
                        | inl fill ↦
                            rw (old, fill, update_ip)
                              (record {
                                keyed = f.keyed;
                                real = f.real;
                                plain = f.plain;
                                placed = ground (arith, serial-row_ip scope peer p);
                                foreign = f.foreign;
                              })
                      ]
      ]

  pub update_rest-IsFit :
      (w : World) (h k : Str) (peer existing : Row)
      → is_foreign locals peer ≡ true
      → IsFit scope locals k existing
      → IsFit scope locals k (update_rest w h peer existing)
  unfolding update_rest
  update_rest-IsFit w h k peer existing p f = record {
    keyed = f.keyed;
    real = f.real;
    plain = f.plain;
    placed = f.placed;
    foreign = ground arith;
  }
