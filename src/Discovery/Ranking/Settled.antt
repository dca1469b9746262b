-- ===== src/Discovery/Ranking/Settled.antt =====
-- What `dedupe_identities` of chatxz/core/discovery.py finds in a table that is in order.
use chatxz.Prelude.{
  ℕ, ◌≡◌, refl, sym, ap, ◌∙◌, inl, inr, Bool, true, false, Option, List, [], ◌∷◌, ◌++◌, arith,
  if◌then◌else◌, Bool-cases, length, Str, codes, str_eq, truthy, str_mem, str_eq_iff, Lacks,
}
use chatxz.Dict.{Dict, put, has_key, IsDistinct}
use chatxz.Dict.Items.{AllItems, AllItems-put}
use chatxz.Dict.Laws.{get_of_absent, has_key-put}
use chatxz.Discovery.Invariant.{IsFit, IsSound}
use chatxz.Discovery.Invariant.Keys.{storage_key_real}
use chatxz.Discovery.Ranking.{
  peer_dedup_key, via_label, group_rows, settle_groups, settle_group, dedupe_identities,
  chosen_scope,
}
use chatxz.Discovery.State.{Row, PeerDiscovery, World, normalize_hash, row_key, via_part, raw_via}
use chatxz.Discovery.State.Keys.{
  before_colon, after_colon, before_colon-append, after_colon-append, normalize_hash-Lacks,
}

-- A transport of the name "usb" would be taken for serial.
abbrev pub is_named_usb : Row → Bool
is_named_usb r = str_eq (raw_via r.via) (codes "usb")

abbrev unlabel : Str → Str
unlabel l = if str_eq l (codes "usb") then codes "serial" else l

abbrev labelled : Str → Str
labelled via =
    if str_mem via (codes "rns" ∷ codes "beacon" ∷ [] ∷ [])
    then codes "lan"
    else if str_eq via (codes "serial")
    then codes "usb"
    else via

abbrev parted : Str → Str
parted via =
    if str_eq via (codes "serial")
    then codes "serial"
    else if str_mem via (codes "rns" ∷ codes "beacon" ∷ codes "lan" ∷ [] ∷ [])
    then codes "lan"
    else via

serial_parted : parted (codes "serial") ≡ unlabel (labelled (codes "serial"))
unfolding str_eq str_mem
serial_parted = refl

lan_unlabel : unlabel (codes "lan") ≡ codes "lan"
unfolding str_eq
lan_unlabel = refl

parted_lem : (via : Str) → str_eq via (codes "usb") ≡ false → parted via ≡ unlabel (labelled via)
unfolding str_mem
parted_lem via u = elim (Bool-cases (str_eq via (codes "serial"))) [
  | inl e ↦
      let same : codes "serial" ≡ via = sym ((str_eq_iff via (codes "serial")).0 e) in
      coe 0 1 (i. parted (same i) ≡ unlabel (labelled (same i))) serial_parted
  | inr e ↦ ground (arith, lan_unlabel, str_eq_iff via (codes "lan"))
]

-- The transport in the key of duplicates tells the transport in the key of the table.
via_label-via_part : (r : Row) → is_named_usb r ≡ false → via_part r.via ≡ unlabel (via_label r)
unfolding via_label via_part
via_label-via_part r u = parted_lem (raw_via r.via) u

abbrev dest_text : Str → Str → Str
dest_text h l = codes "dest" ++ 58 ∷ (h ++ 58 ∷ (codes "via" ++ 58 ∷ l))

dest_tail :
    (h l : Str) → Lacks 58 h → after_colon (dest_text h l) ≡ h ++ 58 ∷ (codes "via" ++ 58 ∷ l)
dest_tail h l p =
    after_colon-append (codes "dest") (h ++ 58 ∷ (codes "via" ++ 58 ∷ l))
      (refl, (refl, (refl, (refl, tt))))

dest_hash : (h l : Str) → Lacks 58 h → before_colon (after_colon (dest_text h l)) ≡ h
dest_hash h l p =
    ap before_colon (dest_tail h l p) ∙ before_colon-append h (codes "via" ++ 58 ∷ l) p

dest_label : (h l : Str) → Lacks 58 h → after_colon (after_colon (after_colon (dest_text h l))) ≡ l
dest_label h l p =
    ap (λ (s : Str). after_colon (after_colon s)) (dest_tail h l p)
    ∙ ap after_colon (after_colon-append h (codes "via" ++ 58 ∷ l) p)
    ∙ after_colon-append (codes "via") l (refl, (refl, (refl, tt)))

peer_dedup_key_real :
    (r : Row)
    → truthy (normalize_hash r.hash) ≡ true
    → peer_dedup_key r ≡ dest_text (normalize_hash r.hash) (via_label r)
unfolding peer_dedup_key
peer_dedup_key_real r real = ground (arith, real)

-- Rows with one key of duplicates have one key of the table.
peer_dedup_key_inj :
    (r s : Row)
    → truthy (normalize_hash r.hash) ≡ true
    → truthy (normalize_hash s.hash) ≡ true
    → is_named_usb r ≡ false
    → is_named_usb s ≡ false
    → peer_dedup_key r ≡ peer_dedup_key s
    → row_key r ≡ row_key s
peer_dedup_key_inj r s real real' u v e =
    let p = normalize_hash-Lacks r.hash in
    let q = normalize_hash-Lacks s.hash in
    let same = sym (peer_dedup_key_real r real) ∙ e ∙ peer_dedup_key_real s real' in
    let hash : normalize_hash r.hash ≡ normalize_hash s.hash =
      sym (dest_hash (normalize_hash r.hash) (via_label r) p)
      ∙ ap (λ (x : Str). before_colon (after_colon x)) same
      ∙ dest_hash (normalize_hash s.hash) (via_label s) q in
    let label : via_label r ≡ via_label s =
      sym (dest_label (normalize_hash r.hash) (via_label r) p)
      ∙ ap (λ (x : Str). after_colon (after_colon (after_colon x))) same
      ∙ dest_label (normalize_hash s.hash) (via_label s) q in
    let part : via_part r.via ≡ via_part s.via =
      via_label-via_part r u ∙ ap unlabel label ∙ sym (via_label-via_part s v) in
    storage_key_real r.hash r.via real
    ∙ (λ i. hash i ++ 58 ∷ part i)
    ∙ sym (storage_key_real s.hash s.via real')

-- Groups of one row each.
abbrev IsSingle : Str → Dict Row → Type 0
IsSingle k rows = length rows ≡ 1

settle_groups_single :
    (w : World) (scope : Option Str) (groups : Dict (Dict Row)) (d : PeerDiscovery) (n : ℕ)
    → AllItems IsSingle groups
    → settle_groups w scope groups d n ≡ (d, n)
unfolding settle_groups settle_group
settle_groups_single w scope [] d n h = refl
settle_groups_single w scope ((k, []) ∷ groups) d n h = settle_groups_single w scope groups d n h.1
settle_groups_single w scope ((k, (j, r) ∷ []) ∷ groups) d n h =
    settle_groups_single w scope groups d n h.1
settle_groups_single w scope ((k, (j, r) ∷ q ∷ rest) ∷ groups) d n h = ground (arith, h.0)

-- No row of the list has the key of a group, and no two have one key.
abbrev IsUngrouped : Dict (Dict Row) → Dict Row → Type 0
IsUngrouped grouped = AllItems (λ k r. has_key (peer_dedup_key r) grouped ≡ false)

abbrev IsApart : Dict Row → Type 0
IsApart [] = Unit
IsApart ((k, r) ∷ d) =
    AllItems (λ j s. str_eq (peer_dedup_key r) (peer_dedup_key s) ≡ false) d × IsApart d

IsUngrouped-put :
    (key : Str) (rows : Dict Row) (grouped : Dict (Dict Row)) (d : Dict Row)
    → AllItems (λ j s. str_eq key (peer_dedup_key s) ≡ false) d
    → IsUngrouped grouped d
    → IsUngrouped (put key rows grouped) d
IsUngrouped-put key rows grouped [] a u = tt
IsUngrouped-put key rows grouped ((j, s) ∷ d) a u = (
  ground (arith, has_key-put key (peer_dedup_key s) rows grouped),
  IsUngrouped-put key rows grouped d a.1 u.1,
)

group_rows-IsSingle :
    (d : Dict Row) (grouped : Dict (Dict Row))
    → IsApart d
    → IsUngrouped grouped d
    → AllItems IsSingle grouped
    → AllItems IsSingle (group_rows d grouped)
unfolding group_rows
group_rows-IsSingle [] grouped a u h = h
group_rows-IsSingle ((k, r) ∷ d) grouped a u h =
    rw (get_of_absent (peer_dedup_key r) grouped u.0, group_rows)
      (group_rows-IsSingle d (put (peer_dedup_key r) ((k, r) ∷ []) grouped) a.1
        (IsUngrouped-put (peer_dedup_key r) ((k, r) ∷ []) grouped d a.0 u.1)
        (AllItems-put IsSingle (peer_dedup_key r) ((k, r) ∷ []) grouped refl h))

abbrev pub NoUsb : Str → Row → Type 0
NoUsb k r = is_named_usb r ≡ false

IsUngrouped-nil : (d : Dict Row) → IsUngrouped [] d
unfolding has_key
IsUngrouped-nil [] = tt
IsUngrouped-nil ((k, r) ∷ d) = (refl, IsUngrouped-nil d)

module _ (scope : Str) (locals : List Str) where
  one_apart :
      (k : Str) (r : Row) (d : Dict Row)
      → IsFit scope locals k r
      → is_named_usb r ≡ false
      → has_key k d ≡ false
      → AllItems (IsFit scope locals) d
      → AllItems NoUsb d
      → AllItems (λ j s. str_eq (peer_dedup_key r) (peer_dedup_key s) ≡ false) d
  unfolding has_key
  one_apart k r [] f u new h v = tt
  one_apart k r ((j, s) ∷ d) f u new h v = (
    elim (Bool-cases (str_eq (peer_dedup_key r) (peer_dedup_key s))) [
      | inl e ↦
          let same = peer_dedup_key_inj r s f.real h.0.real u v.0 ((str_eq_iff _ _).0 e) in
          ground (arith, str_eq_iff j k, f.keyed ∙ same ∙ sym h.0.keyed)
      | inr e ↦ e
    ],
    one_apart k r d f u (ground arith) h.1 v.1,
  )

  table-IsApart :
      (d : Dict Row) → AllItems (IsFit scope locals) d → IsDistinct d → AllItems NoUsb d → IsApart d
  table-IsApart [] h u v = tt
  table-IsApart ((k, r) ∷ d) h u v =
      (one_apart k r d h.0 v.0 u.0 h.1 v.1, table-IsApart d h.1 u.1 v.1)

-- In a table that is in order and has no peer over a transport of the name "usb", collapsing
-- duplicates changes nothing and counts nothing.
pub dedupe_identities_idle :
    (scope : Str) (locals : List Str) (w : World) (scope_ip : Option Str) (d : PeerDiscovery)
    → IsSound scope locals d
    → AllItems NoUsb d.peers
    → dedupe_identities w scope_ip d ≡ (d, 0)
unfolding dedupe_identities
dedupe_identities_idle scope locals w scope_ip d s v =
    settle_groups_single w (chosen_scope w scope_ip) (group_rows d.peers []) d 0 (
      group_rows-IsSingle d.peers [] (table-IsApart scope locals d.peers s.rows s.distinct v)
        (IsUngrouped-nil d.peers) tt)
