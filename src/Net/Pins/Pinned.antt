-- ===== src/Net/Pins/Pinned.antt =====
-- The set of pinned serial peers.
use chatxz.Prelude.{
  ◌≡◌, refl, ◌≢◌, inl, inr, Bool, true, false, not, ◌&&◌, ◌||◌, Option, some, List, [], ◌∷◌, arith,
  ◌==◌, if◌then◌else◌, Bool-cases, Option-cases, is_some, length, keep, Str, str_eq, or_empty,
  str_mem, str_eq_iff, normalize_twice,
}
use chatxz.Dict.{get}
use chatxz.Net.Iface.{Family, serial, fam_eq, Host, interface_family}
use chatxz.Net.Hash.{Bytes, normalize_dest_hex, dest_bytes_for_hash}
use chatxz.Net.State.{Net}
use chatxz.Net.Paths.{
  clear_if, peer_path_on_family, prune_lan_path_for_peer, request_paths_for_hash,
}
use chatxz.Net.Paths.Route.{
  OnlyRoute, OnlyRoute-refl, OnlyRoute-trans, clear_if-OnlyRoute, scrub_peer_path-OnlyRoute,
  prune_lan_path_for_peer-OnlyRoute,
}
use chatxz.Net.Pins.{
  add, pin_serial_path, unpin_serial_path, serial_path_is_pinned, request_if_missing, ensure_pinned,
  ensure_serial_path_pinned,
}

-- The normal form of a hash is its own normal form.
pub normalize_dest_hex_twice :
    (h : Option Str) → normalize_dest_hex (some (normalize_dest_hex h)) ≡ normalize_dest_hex h
unfolding normalize_dest_hex
normalize_dest_hex_twice h = normalize_twice (or_empty h)

str_mem-add : (s t : Str) (xs : List Str) → str_mem t (add s xs) ≡ str_eq t s || str_mem t xs
unfolding str_mem
str_mem-add s t xs = elim (Bool-cases (str_mem s xs)) [
  | inl e ↦ ground (arith, str_eq_iff t s)
  | inr e ↦ ground arith
]

str_mem-keep_ne :
    (s t : Str) (xs : List Str)
    → str_mem t (keep (λ p. not (str_eq s p)) xs) ≡ not (str_eq s t) && str_mem t xs
unfolding str_mem keep
str_mem-keep_ne s t [] = ground arith
str_mem-keep_ne s t (x ∷ xs) =
    ground (arith, str_mem-keep_ne s t xs, str_eq_iff s x, str_eq_iff t x, str_eq_iff s t)

-- A peer is pinned after pinning `h` if it was before, or if it has the normal form of `h` and that
-- has 32 digits.
pub serial_path_is_pinned-pin_serial_path :
    (h j : Option Str) (n : Net)
    → serial_path_is_pinned j (pin_serial_path h n)
      ≡ (length (normalize_dest_hex h) == 32
          && str_eq (normalize_dest_hex j) (normalize_dest_hex h))
        || serial_path_is_pinned j n
unfolding serial_path_is_pinned pin_serial_path
serial_path_is_pinned-pin_serial_path h j n =
    ground (arith, str_mem-add (normalize_dest_hex h) (normalize_dest_hex j) n.pins)

-- A peer is pinned after unpinning `h` if it was before and has another normal form.
pub serial_path_is_pinned-unpin_serial_path :
    (h j : Option Str) (n : Net)
    → serial_path_is_pinned j (unpin_serial_path h n)
      ≡ not (str_eq (normalize_dest_hex h) (normalize_dest_hex j)) && serial_path_is_pinned j n
unfolding serial_path_is_pinned unpin_serial_path
serial_path_is_pinned-unpin_serial_path h j n =
    str_mem-keep_ne (normalize_dest_hex h) (normalize_dest_hex j) n.pins

module _ (host : Host) where
  peer_path_on_family-OnlyRoute :
      (h : Option Str) (family : Option Family) (n : Net)
      → OnlyRoute h n (peer_path_on_family host h family n).0
  unfolding peer_path_on_family
  peer_path_on_family-OnlyRoute h family n = scrub_peer_path-OnlyRoute h n host

  request_paths_for_hash-OnlyRoute :
      (h : Option Str) (family : Option Family) (n : Net)
      → OnlyRoute h n (request_paths_for_hash host h family n).0
  unfolding request_paths_for_hash
  request_paths_for_hash-OnlyRoute h family n = elim (Option-cases (dest_bytes_for_hash h)) [
    | inl e ↦ rw (e, request_paths_for_hash) (OnlyRoute-refl h n)
    | inr (k, e) ↦
        rw (e, request_paths_for_hash)
          (record { roots = refl; pins = refl; announces = refl; others = λ j other. refl })
  ]

  request_if_missing-OnlyRoute :
      (clean : Str) (request : Bool) (n : Net)
      → OnlyRoute (some clean) n (request_if_missing host clean request n)
  unfolding request_if_missing
  request_if_missing-OnlyRoute clean false n = OnlyRoute-refl (some clean) n
  request_if_missing-OnlyRoute clean true n =
      let (n', found) = peer_path_on_family host (some clean) (some serial) n in
      let first = peer_path_on_family-OnlyRoute (some clean) (some serial) n in
      elim (Bool-cases (is_some found)) [
        | inl e ↦ rw e first
        | inr e ↦ rw e (
            OnlyRoute-trans (some clean) first
              (request_paths_for_hash-OnlyRoute (some clean) (some serial) n'))
      ]

  ensure_pinned-OnlyRoute :
      (clean : Str) (request : Bool) (n : Net)
      → OnlyRoute
          (some clean)
          (pin_serial_path (some clean) n)
          (ensure_pinned host clean request n).0
  unfolding ensure_pinned
  ensure_pinned-OnlyRoute clean request n =
      let n₁ = pin_serial_path (some clean) n in
      let n₂ = (prune_lan_path_for_peer (some clean) n₁).0 in
      let n₃ =
        (clear_if (λ i. not (fam_eq (interface_family (some i)) serial)) (some clean) n₂).0 in
      let n₄ = request_if_missing host clean request n₃ in
      OnlyRoute-trans (some clean) (prune_lan_path_for_peer-OnlyRoute (some clean) n₁) (
        OnlyRoute-trans (some clean)
          (clear_if-OnlyRoute (some clean) n₂
            (λ i. not (fam_eq (interface_family (some i)) serial)))
          (OnlyRoute-trans (some clean) (request_if_missing-OnlyRoute clean request n₃)
            (peer_path_on_family-OnlyRoute (some clean) (some serial) n₄)))

pins_pin_serial_path :
    (p : Option Str) (n : Net)
    → (pin_serial_path p n).pins
      ≡ (if length (normalize_dest_hex p) == 32 then add (normalize_dest_hex p) n.pins else n.pins)
unfolding pin_serial_path
pins_pin_serial_path p n = ground arith

table_pin_serial_path : (p : Option Str) (n : Net) → (pin_serial_path p n).path_table ≡ n.path_table
unfolding pin_serial_path
table_pin_serial_path p n = ground arith

-- Pinning a hash whose normal form has 32 digits marks the peer as pinned, keeps every other pin
-- as it was, and leaves the row of every other key as it was.
pub ensure_serial_path_pinned-pinned :
    (host : Host) (h j : Option Str) (request : Bool) (n : Net) (k : Bytes)
    → length (normalize_dest_hex h) ≡ 32
    → dest_bytes_for_hash (some (normalize_dest_hex h)) ≢ some k
    → (serial_path_is_pinned j (ensure_serial_path_pinned host h request n).0
        ≡ str_eq (normalize_dest_hex j) (normalize_dest_hex h) || serial_path_is_pinned j n)
      × (get k (ensure_serial_path_pinned host h request n).0.path_table ≡ get k n.path_table)
unfolding ensure_serial_path_pinned serial_path_is_pinned
ensure_serial_path_pinned-pinned host h j request n k len other =
    let clean = normalize_dest_hex h in
    let kept = ensure_pinned-OnlyRoute host clean request n in
    (
      ground (
        arith,
        kept.pins,
        pins_pin_serial_path (some clean) n,
        normalize_dest_hex_twice h,
        str_mem-add clean (normalize_dest_hex j) n.pins,
      ),
      ground (arith, kept.others k other, table_pin_serial_path (some clean) n),
    )
