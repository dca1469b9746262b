-- ===== src/Offers/Laws.antt =====
-- Who gets an offer of chatxz/core/lan_transfer.py, and when.
use chatxz.Offers.{new_offer}
use chatxz.Prelude.{
  ℕ, ◌+◌, ◌≤◌, max, ◌≡◌, refl, ap, ◌∙◌, inl, inr, true, false, not, ◌&&◌, Option, none, some, List,
  [], ◌∷◌, arith, if◌then◌else◌, Option-cases, Str, str_eq, str_mem, str_eq_refl, str_eq_iff,
}
use chatxz.Dict.{Dict, get, pop, put, has_key, IsDistinct}
use chatxz.Dict.Laws.{get-pop, get-put}
use chatxz.Offers.{
  Offer, Request, is_over, register_offer, set_offer_progress, get_offer_state, peek_offer,
  pop_offer, expired, remove_each, cleanup_expired,
}

-- The offer of a transfer that may be taken with a token at a time.
abbrev pub taken : ℕ → Str → Option Offer → Option Offer
taken now token none = none
taken now token (some o) = if str_eq o.token token && not (is_over now o) then some o else none

-- Peeking and popping give the same answer: the offer if the token is its own and it is not over,
-- and nothing otherwise.
pub peek_offer_lem :
    (now : ℕ) (tid token : Str) (offers : Dict Offer)
    → ((peek_offer now tid token offers).1 ≡ taken now token (get tid offers))
      × ((pop_offer now tid token offers).1 ≡ taken now token (get tid offers))
unfolding peek_offer pop_offer
peek_offer_lem now tid token offers = elim (Option-cases (get tid offers)) [
  | inl e ↦ (ground arith, ground arith)
  | inr (o, e) ↦ (ground arith, ground arith)
]

-- Popping, peeking at or asking for the state of one transfer leaves the offer of every other
-- transfer as it was.
pub pop_offer_others :
    (now : ℕ) (tid token other : Str) (offers : Dict Offer)
    → str_eq tid other ≡ false
    → (get other (pop_offer now tid token offers).0 ≡ get other offers)
      × (get other (peek_offer now tid token offers).0 ≡ get other offers)
      × (get other (get_offer_state now tid offers).0 ≡ get other offers)
unfolding peek_offer pop_offer get_offer_state
pop_offer_others now tid token other offers apart = elim (Option-cases (get tid offers)) [
  | inl e ↦ (ground arith, ground arith, ground arith)
  | inr (o, e) ↦ (
    ground (arith, get-pop tid other offers),
    ground (arith, get-pop tid other offers),
    ground (arith, get-pop tid other offers),
  )
]

-- A wrong token changes nothing.
pub wrong_token :
    (now : ℕ) (tid token : Str) (offers : Dict Offer) (o : Offer)
    → get tid offers ≡ some o
    → str_eq o.token token ≡ false
    → (pop_offer now tid token offers ≡ (offers, none))
      × (peek_offer now tid token offers ≡ (offers, none))
unfolding peek_offer pop_offer
wrong_token now tid token offers o e wrong = (ground arith, ground arith)

in_time :
    (now : ℕ) (token : Str) (o : Offer)
    → str_eq o.token token ≡ true
    → now ≤ o.expires
    → taken now token (some o) ≡ some o
in_time now token o same h = ground arith

get-pop_offer :
    (now : ℕ) (tid token : Str) (offers : Dict Offer) (o : Offer)
    → (pop_offer now tid token offers).1 ≡ some o
    → get tid (pop_offer now tid token offers).0 ≡ none
unfolding pop_offer
get-pop_offer now tid token offers o h = elim (Option-cases (get tid offers)) [
  | inl e ↦ ground arith
  | inr (x, e) ↦ ground (arith, get-pop tid tid offers, str_eq_refl tid)
]

-- After a pop that gave an offer, a pop of the same transfer gives nothing, with any token, at
-- any time.
pub pop_offer_once :
    (now later : ℕ) (tid token other : Str) (offers : Dict Offer) (o : Offer)
    → (pop_offer now tid token offers).1 ≡ some o
    → (pop_offer later tid other (pop_offer now tid token offers).0).1 ≡ none
pop_offer_once now later tid token other offers o h =
    (peek_offer_lem later tid other (pop_offer now tid token offers).0).1
    ∙ ap (taken later other) (get-pop_offer now tid token offers o h)

abbrev pub progressed : ℕ → Option Offer → Option Offer
progressed bytes none = none
progressed bytes (some o) = some (record o { bytes_sent = max bytes o.bytes_sent })

-- Progress is recorded for the one transfer, and never goes back.
pub get-set_offer_progress :
    (tid k : Str) (bytes : ℕ) (offers : Dict Offer)
    → get k (set_offer_progress tid bytes offers)
      ≡ (if str_eq tid k then progressed bytes (get k offers) else get k offers)
unfolding set_offer_progress
get-set_offer_progress tid k bytes offers = elim (Option-cases (get tid offers)) [
  | inl e ↦ ground (arith, str_eq_iff tid k)
  | inr (o, e) ↦ ground (
    arith,
    get-put tid k (record o { bytes_sent = max bytes o.bytes_sent }) offers,
    str_eq_iff tid k,
  )
]

max_zero : (n : ℕ) → max n 0 ≡ n
max_zero n = omega arith

-- Registering an offer, then recording any progress, then popping it with its token no later than
-- the time to live gives the offer with that progress.
pub pop_offer-register_offer :
    (now later : ℕ) (tid token : Str) (r : Request) (offers : Dict Offer) (bytes : ℕ)
    → later ≤ now + r.ttl
    → (pop_offer later tid token
        (set_offer_progress tid bytes (register_offer now token tid r offers).0)).1
      ≡ some (record (new_offer now token r) { bytes_sent = bytes })
unfolding register_offer
pop_offer-register_offer now later tid token r offers bytes h =
    let o = new_offer now token r in
    let d = put tid o offers in
    let there : get tid (set_offer_progress tid bytes d) ≡ some (record o { bytes_sent = bytes }) =
      ground (
        arith,
        get-set_offer_progress tid tid bytes d,
        get-put tid tid o offers,
        str_eq_refl tid,
        max_zero bytes,
      ) in
    (peek_offer_lem later tid token (set_offer_progress tid bytes d)).1
    ∙ ap (taken later token) there
    ∙ in_time later token (record o { bytes_sent = bytes }) (str_eq_refl token) h

get-remove_each :
    (k : Str) (tids : List Str) (d : Dict Offer)
    → get k (remove_each tids d) ≡ (if str_mem k tids then none else get k d)
unfolding remove_each str_mem
get-remove_each k [] d = refl
get-remove_each k (t ∷ tids) d =
    ground (arith, get-remove_each k tids (pop t d), get-pop t k d, str_eq_iff k t, str_eq_iff t k)

abbrev pub unless_over : ℕ → Option Offer → Option Offer
unless_over now none = none
unless_over now (some o) = if is_over now o then none else some o

expired_absent :
    (now : ℕ) (k : Str) (d : Dict Offer) → has_key k d ≡ false → str_mem k (expired now d) ≡ false
unfolding expired has_key str_mem
expired_absent now k [] h = refl
expired_absent now k ((t, o) ∷ d) h =
    ground (arith, expired_absent now k d, str_eq_iff k t, str_eq_iff t k)

expired_lem :
    (now : ℕ) (k : Str) (d : Dict Offer)
    → IsDistinct d
    → (if str_mem k (expired now d) then none else get k d) ≡ unless_over now (get k d)
unfolding expired get str_mem
expired_lem now k [] h = refl
expired_lem now k ((t, o) ∷ d) h =
    ground
      (arith, expired_lem now k d h.1, expired_absent now t d h.0, str_eq_iff k t, str_eq_iff t k)

-- From offers with no key twice, a clean-up removes exactly those that are over.
pub get-cleanup_expired :
    (now : ℕ) (k : Str) (d : Dict Offer)
    → IsDistinct d
    → get k (cleanup_expired now d) ≡ unless_over now (get k d)
unfolding cleanup_expired
get-cleanup_expired now k d h = get-remove_each k (expired now d) d ∙ expired_lem now k d h
