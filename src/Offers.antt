-- ===== src/Offers.antt =====
-- The offers of direct HTTP transfers in chatxz/core/lan_transfer.py. Time is a number of ticks, and a
-- call under `_offers_lock` is one step on the dict.
pub mod Laws
use chatxz.Prelude.{
  ℕ, zero, suc, ◌+◌, max, Bool, not, Option, none, some, List, [], ◌∷◌, ltb, if◌then◌else◌, Str,
  str_eq,
}
use chatxz.Discovery.State.{normalize_hash}
use chatxz.Dict.{Dict, get, pop, put}

-- The dict of one offer.
pub record Offer : Type 0 where
  pub path : Str
  pub token : Str
  pub peer : Str
  pub host : Str
  pub port : ℕ
  pub expires : ℕ
  pub bytes_sent : ℕ

-- `int(port or 8742)`
abbrev port_or_default : Option ℕ → ℕ
port_or_default none = 8742
port_or_default (some zero) = 8742
port_or_default (some (suc n)) = suc n

-- What `register_offer` stores under a fresh token.
pub record Request : Type 0 where
  pub file_path : Str
  pub peer_hash : Option Str
  pub host : Str
  pub port : Option ℕ
  pub ttl : ℕ

abbrev pub new_offer : ℕ → Str → Request → Offer
new_offer now token r = record {
  path = r.file_path;
  token = token;
  peer = normalize_hash r.peer_hash;
  host = r.host;
  port = port_or_default r.port;
  expires = now + r.ttl;
  bytes_sent = 0;
}

unfoldable pub register_offer : ℕ → Str → Str → Request → Dict Offer → Dict Offer × Str
register_offer now token tid r offers = (put tid (new_offer now token r) offers, token)

unfoldable pub set_offer_progress : Str → ℕ → Dict Offer → Dict Offer
set_offer_progress tid bytes offers = elim (get tid offers) [
  | none ↦ offers
  | some o ↦ put tid (record o { bytes_sent = max bytes o.bytes_sent }) offers
]

-- `time.time() > expires`
abbrev pub is_over : ℕ → Offer → Bool
is_over now o = ltb o.expires now

-- The offer, unless it is over; one that is over is dropped.
while_open : ℕ → Str → Offer → Dict Offer → Dict Offer × Option Offer
while_open now tid o offers = if is_over now o then (pop tid offers, none) else (offers, some o)

unfoldable pub get_offer_state : ℕ → Str → Dict Offer → Dict Offer × Option Offer
unfolding while_open
get_offer_state now tid offers = elim (get tid offers) [
  | none ↦ (offers, none)
  | some o ↦ while_open now tid o offers
]

unfoldable pub peek_offer : ℕ → Str → Str → Dict Offer → Dict Offer × Option Offer
unfolding while_open
peek_offer now tid token offers = elim (get tid offers) [
  | none ↦ (offers, none)
  | some o ↦ if not (str_eq o.token token) then (offers, none) else while_open now tid o offers
]

unfoldable pub pop_offer : ℕ → Str → Str → Dict Offer → Dict Offer × Option Offer
pop_offer now tid token offers = elim (get tid offers) [
  | none ↦ (offers, none)
  | some o ↦
      if not (str_eq o.token token)
      then (offers, none)
      else if is_over now o
      then (pop tid offers, none)
      else (pop tid offers, some o)
]

abbrev remove_offer : Str → Dict Offer → Dict Offer
remove_offer tid offers = pop tid offers

-- The list `expired`.
unfoldable pub expired : ℕ → Dict Offer → List Str
expired now [] = []
expired now ((tid, o) ∷ offers) =
    let rest = expired now offers in if is_over now o then tid ∷ rest else rest

unfoldable pub remove_each : List Str → Dict Offer → Dict Offer
remove_each [] offers = offers
remove_each (tid ∷ tids) offers = remove_each tids (remove_offer tid offers)

unfoldable pub cleanup_expired : ℕ → Dict Offer → Dict Offer
unfolding expired remove_each
cleanup_expired now offers = remove_each (expired now offers) offers
