-- ===== src/Discovery/Store/Address.antt =====
-- The address that a new peer gets, in `_sanitize_peer_scope` and `_attach_peer_ip` of
-- chatxz/core/discovery.py.
use chatxz.Prelude.{
  ◌≡◌, refl, ap, inl, inr, true, false, not, ◌&&◌, ◌||◌, Option, none, some, List, [], ◌∷◌, arith,
  Bool-cases, Option-cases, Str, truthy, or_empty, lstrip, rstrip, strip, strip-strip,
}
use chatxz.Dict.{Dict}
use chatxz.Discovery.Invariant.{is_placed, is_foreign}
use chatxz.Discovery.Scope.{
  in_scope_only, sanitize_peer_scope, attach_peer_ip, borrow_endpoint, take_endpoint, is_namesake,
}
use chatxz.Discovery.State.{World, scope_of, Row, normalize_hash, row_ip, is_serial}
use chatxz.Discovery.State.Keys.{is_plain}
use chatxz.Scope.{peer_in_scope}

-- What a peer that is to be stored must be like: all that `IsFit` asks but for the key.
pub record IsReady (scope : Str) (locals : List Str) (r : Row) : Type 0 where
  pub real : truthy (normalize_hash r.hash) ≡ true
  pub plain : is_plain r.via ≡ true
  pub placed : is_placed scope r ≡ true
  pub foreign : is_foreign locals r ≡ true

-- Looking for an address changes nothing else, and finds only one inside the scope.
pub record IsPlacedLike (scope : Str) (r s : Row) : Type 0 where
  pub hash_same : s.hash ≡ r.hash
  pub ident_same : s.identity_hash ≡ r.identity_hash
  pub via_same : s.via ≡ r.via
  pub placed : is_placed scope s ≡ true

pub moved-IsReady :
    (scope : Str) (locals : List Str) (r s : Row)
    → IsPlacedLike scope r s
    → IsReady scope locals r
    → IsReady scope locals s
moved-IsReady scope locals r s m h = record {
  real = rw m.hash_same h.real;
  plain = rw m.via_same h.plain;
  placed = m.placed;
  foreign = rw (m.hash_same, m.ident_same) h.foreign;
}

pub unmoved : (scope : Str) (r : Row) → is_placed scope r ≡ true → IsPlacedLike scope r r
unmoved scope r h = record { hash_same = refl; ident_same = refl; via_same = refl; placed = h }

take_endpoint_lem :
    (scope : Str) (existing peer : Row)
    → is_serial peer ≡ false
    → (not (truthy scope) || peer_in_scope (some (row_ip existing)) (some scope)) ≡ true
    → IsPlacedLike scope peer (take_endpoint existing peer)
take_endpoint_lem scope existing peer lan inside = record {
  hash_same = refl;
  ident_same = refl;
  via_same = refl;
  placed = ground (arith, strip-strip (or_empty existing.ip));
}

borrow_endpoint_lem :
    (scope : Str) (peer : Row) (d : Dict Row)
    → is_serial peer ≡ false
    → is_placed scope peer ≡ true
    → IsPlacedLike scope peer (borrow_endpoint scope peer d)
unfolding borrow_endpoint
borrow_endpoint_lem scope peer [] lan p = unmoved scope peer p
borrow_endpoint_lem scope peer ((k, existing) ∷ d) lan p =
    let rest = borrow_endpoint_lem scope peer d lan p in
    elim (Bool-cases (truthy (row_ip existing))) [
      | inr e ↦ rw (e, borrow_endpoint) rest
      | inl e ↦
          elim (Bool-cases
            (truthy scope && not (peer_in_scope (some (row_ip existing)) (some scope)))) [
              | inl outside ↦ rw (e, outside, borrow_endpoint) rest
              | inr inside ↦
                  elim (Bool-cases (
                    is_namesake (strip (or_empty peer.name)) (normalize_hash peer.identity_hash)
                      existing)) [
                        | inr a ↦ rw (e, inside, a, borrow_endpoint) rest
                        | inl a ↦ elim (Bool-cases (is_serial existing)) [
                          | inl s ↦ rw (e, inside, a, s, borrow_endpoint) (unmoved scope peer p)
                          | inr s ↦
                              rw (e, inside, a, s, borrow_endpoint)
                                (take_endpoint_lem scope existing peer lan (ground arith))
                        ]
                      ]
            ]
    ]

pub attach_peer_ip_lem :
    (scope : Str) (d : Dict Row) (peer : Row)
    → is_placed scope peer ≡ true
    → IsPlacedLike scope peer (attach_peer_ip scope d peer)
unfolding attach_peer_ip
attach_peer_ip_lem scope d peer p = elim (Bool-cases (is_serial peer)) [
  | inl e ↦
      rw (e, attach_peer_ip)
        (record { hash_same = refl; ident_same = refl; via_same = refl; placed = rw e refl })
  | inr e ↦ elim (Bool-cases (truthy (row_ip peer))) [
    | inl a ↦ rw (e, a, attach_peer_ip) (unmoved scope peer p)
    | inr a ↦ rw (e, a, attach_peer_ip) (borrow_endpoint_lem scope peer d e p)
  ]
]

-- The fields that no look-up of an address touches.
abbrev pub Core : Type 0
Core = Option Str × Option Str × Option Str

abbrev pub core : Row → Core
core r = (r.hash, r.identity_hash, r.via)

core-borrow_endpoint :
    (scope : Str) (peer : Row) (d : Dict Row) → core (borrow_endpoint scope peer d) ≡ core peer
unfolding borrow_endpoint
core-borrow_endpoint scope peer [] = refl
core-borrow_endpoint scope peer ((k, existing) ∷ d) =
    ground (arith, core-borrow_endpoint scope peer d)

pub core-attach_peer_ip :
    (scope : Str) (d : Dict Row) (peer : Row) → core (attach_peer_ip scope d peer) ≡ core peer
unfolding attach_peer_ip
core-attach_peer_ip scope d peer = ground (arith, core-borrow_endpoint scope peer d)

abbrev pub AllSome {ℓ} : {A : Type 0} → (A → Type ℓ) → Option A → Type ℓ
AllSome P none = Unit
AllSome P (some a) = P a

pub AllSome-get {ℓ} :
    {A : Type 0} (P : A → Type ℓ) (o : Option A) (a : A) → AllSome P o → o ≡ some a → P a
AllSome-get P o a h e = coe 0 1 (i. AllSome P (e i)) h

in_scope_only_lem :
    (scope : Str) (peer r : Row)
    → core r ≡ core peer
    → is_serial peer ≡ false
    → AllSome (IsPlacedLike scope peer) (in_scope_only scope r)
in_scope_only_lem scope peer r same lan = elim (Bool-cases (truthy (row_ip r))) [
  | inr e ↦ rw e tt
  | inl e ↦ elim (Bool-cases (peer_in_scope (some (row_ip r)) (some scope))) [
    | inr out ↦ rw (e, out) tt
    | inl inside ↦
        rw (e, inside)
          (record {
            hash_same = ap (λ (c : Core). c.0) same;
            ident_same = ap (λ (c : Core). c.1) same;
            via_same = ap (λ (c : Core). c.2) same;
            placed = ground arith;
          })
  ]
]

pub sanitize_peer_scope_lem :
    (w : World) (d : Dict Row) (peer : Row)
    → AllSome (IsPlacedLike (scope_of w) peer) (sanitize_peer_scope w d peer)
unfolding sanitize_peer_scope
sanitize_peer_scope_lem w d peer = elim (Bool-cases (is_serial peer)) [
  | inl e ↦ elim (Bool-cases w.usb) [
    | inr off ↦ rw (e, off, sanitize_peer_scope) tt
    | inl on ↦
        rw (e, on, sanitize_peer_scope)
          (record { hash_same = refl; ident_same = refl; via_same = refl; placed = rw e refl })
  ]
  | inr e ↦ elim (Bool-cases (truthy (scope_of w))) [
    | inr free ↦ rw (e, free, sanitize_peer_scope) (unmoved (scope_of w) peer (ground arith))
    | inl bound ↦ elim (Bool-cases (truthy (row_ip peer))) [
      | inl a ↦
          rw (e, bound, a, sanitize_peer_scope) (in_scope_only_lem (scope_of w) peer peer refl e)
      | inr a ↦
          rw (e, bound, a, sanitize_peer_scope)
            (in_scope_only_lem (scope_of w) peer (attach_peer_ip (scope_of w) d peer)
              (core-attach_peer_ip (scope_of w) d peer) e)
    ]
  ]
]

strip_nil : strip [] ≡ []
unfolding strip lstrip rstrip
strip_nil = refl

-- An address is the peer's to give only if the peer is not serial.
pub serial-row_ip :
    (scope : Str) (r : Row) → is_placed scope r ≡ true → is_serial r ≡ true → row_ip r ≡ []
serial-row_ip scope r p s = elim (Option-cases r.ip) [
  | inl e ↦ rw e strip_nil
  | inr (ip, e) ↦ ground arith
]
