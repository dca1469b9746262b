-- ===== src/Examples/Transfers.antt =====
-- One transfer of lan_transfer.py, and one probe of peer_probe.py.
use chatxz.Prelude.{◌≡◌, refl, false, none, some, [], ◌∷◌, arith, codes, str_eq}
use chatxz.Dict.{Dict, get, IsDistinct, has_key}
use chatxz.Offers.{
  Offer, Request, new_offer, register_offer, set_offer_progress, pop_offer, cleanup_expired,
}
use chatxz.Offers.Laws.{pop_offer_once, pop_offer-register_offer, get-cleanup_expired, unless_over}
use chatxz.Probe.{Ack, Entry, Probes, probe_udp_peer}
use chatxz.Probe.Laws.{first_rtt, probe_udp_peer_lem}

abbrev request : Request
request = record {
  file_path = codes "/tmp/a.bin";
  peer_hash = some (codes "<ab:cd>");
  host = codes "10.0.0.2";
  port = none;
  ttl = 7200;
}

abbrev stored : Offer
stored = new_offer 100 (codes "secret") request

abbrev open_offers : Dict Offer
open_offers = (codes "t1", stored) ∷ []

popped_in_time : (pop_offer 500 (codes "t1") (codes "secret") open_offers).1 ≡ some stored
unfolding pop_offer get codes str_eq
popped_in_time = refl

pop_offer_once_example :
    (pop_offer 501
      (codes "t1")
      (codes "secret")
      (pop_offer 500 (codes "t1") (codes "secret") open_offers).0).1
    ≡ none
pop_offer_once_example =
    pop_offer_once 500 501 (codes "t1") (codes "secret") (codes "secret") open_offers stored
      popped_in_time

pop_offer-register_offer_example :
    (pop_offer 7300 (codes "t1") (codes "secret") (
      set_offer_progress
        (codes "t1")
        64
        (register_offer 100 (codes "secret") (codes "t1") request []).0)).1
    ≡ some (record (new_offer 100 (codes "secret") request) { bytes_sent = 64 })
pop_offer-register_offer_example =
    pop_offer-register_offer 100 7300 (codes "t1") (codes "secret") request [] 64 (omega arith)

one_offer : IsDistinct open_offers
unfolding has_key
one_offer = (refl, tt)

get-cleanup_expired_example :
    get (codes "t1") (cleanup_expired 9000 open_offers)
    ≡ unless_over 9000 (get (codes "t1") open_offers)
get-cleanup_expired_example = get-cleanup_expired 9000 (codes "t1") open_offers one_offer

-- A probe whose answer arrives at once.
abbrev prompt_ack : Ack
prompt_ack = record { probe_id = codes "p1"; rtt_ms = 12; source_ip = codes "10.0.0.2" }

abbrev no_entry : Entry
no_entry = record { rtt_ms = none; source_ip = none; event_set = false }

abbrev no_probes : Probes
no_probes = record { pending = []; entries = λ q. no_entry; next = 0 }

probe_udp_peer_lem_example :
    ((probe_udp_peer (codes "p1") (prompt_ack ∷ []) no_probes).1 ≡ none)
    × (((probe_udp_peer (codes "p1") (prompt_ack ∷ []) no_probes).0.entries 0).rtt_ms
        ≡ first_rtt (codes "p1") (prompt_ack ∷ []))
probe_udp_peer_lem_example = probe_udp_peer_lem (codes "p1") (prompt_ack ∷ []) no_probes tt
