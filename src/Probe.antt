-- ===== src/Probe.antt =====
-- Probe intervals, pending UDP probes and the window of samples in chatxz/core/peer_probe.py. An
-- acknowledgement and a call of `probe_udp_peer` are handled by different threads, whose locked
-- regions are steps.
pub mod Laws
use chatxz.Prelude.{
  ℕ, ◌+◌, ◌/◌, min, max, Bool, true, false, not, Option, none, some, List, [], ◌∷◌, ◌++◌, leb, ◌==◌,
  if◌then◌else◌, length, Str,
}
use chatxz.Prelude.Int.{ℤ, pos, negsuc}
use chatxz.Dict.{Dict, get, pop, put}

-- `max(0, min(top, value))`
abbrev cut : ℕ → ℤ → ℕ
cut top (pos n) = min top n
cut top (negsuc n) = 0

-- The argument is what `int` reads; `none` is the TypeError or ValueError.
unfoldable pub clamp_probe_interval : Option ℤ → ℕ
clamp_probe_interval none = cut 18000 (pos 30)
clamp_probe_interval (some v) = cut 18000 v

-- `if value <= 0: return 0`, and the bounds otherwise
abbrev cut_serial : ℤ → ℕ
cut_serial (pos n) = if n == 0 then 0 else max 3 (min 18000 n)
cut_serial (negsuc n) = 0

unfoldable pub clamp_serial_probe_interval : Option ℤ → ℕ
clamp_serial_probe_interval none = cut_serial (pos 30)
clamp_serial_probe_interval (some v) = cut_serial v

unfoldable pub clamp_announce_interval : Option ℤ → ℕ
clamp_announce_interval none = 0
clamp_announce_interval (some v) = cut 18000 v

-- The dict of one probe, an object that the table and the waiting thread share; its `ts` is not read.
pub record Entry : Type 0 where
  pub rtt_ms : Option ℕ
  pub source_ip : Option Str
  pub event_set : Bool

-- `_pending_probes` holds references; `entries` is what they refer to, and `next` the first free one.
pub record Probes : Type 0 where
  pub pending : Dict ℕ
  pub entries : ℕ → Entry
  pub next : ℕ

pub record Ack : Type 0 where
  pub probe_id : Str
  pub rtt_ms : ℕ
  pub source_ip : Str

unfoldable pub write_entry : ℕ → Entry → (ℕ → Entry) → ℕ → Entry
write_entry p e entries q = if q == p then e else entries q

-- The reference is taken out of the table; then the entry is filled in and its event set.
unfoldable pub register_probe_ack : Ack → Probes → Probes × Bool
register_probe_ack a s = elim (get a.probe_id s.pending) [
  | none ↦ (s, false)
  | some p ↦ (
    record s {
      pending = pop a.probe_id s.pending;
      entries =
          write_entry p
            (record { rtt_ms = some a.rtt_ms; source_ip = some a.source_ip; event_set = true })
            s.entries;
    },
    true,
  )
]

-- The acknowledgements that come while `event.wait` waits.
unfoldable pub receive_acks : List Ack → Probes → Probes
receive_acks [] s = s
receive_acks (a ∷ acks) s = receive_acks acks (register_probe_ack a s).0

-- A new entry under the id.
unfoldable pub open_probe : Str → Probes → Probes
open_probe id s = record {
  pending = put id s.next s.pending;
  entries =
      write_entry s.next (record { rtt_ms = none; source_ip = none; event_set = false }) s.entries;
  next = s.next + 1;
}

-- `int(entry["rtt_ms"])`, if there is an entry
abbrev rtt_of : Option ℕ → Probes → Option ℕ
rtt_of none s = none
rtt_of (some p) s = (s.entries p).rtt_ms

-- `probe_udp_peer` for a host that is not blank, with the id that it drew and no error of the socket.
unfoldable pub probe_udp_peer : Str → List Ack → Probes → Probes × Option ℕ
unfolding open_probe
probe_udp_peer id acks s =
    let after = receive_acks acks (open_probe id s) in
    let closed = record after { pending = pop id after.pending } in
    if not (after.entries s.next).event_set
    then (closed, none)
    else (closed, rtt_of (get id after.pending) after)

-- `samples[-PROBE_AVG_WINDOW:]`
unfoldable pub last_six : List ℕ → List ℕ
last_six [] = []
last_six (x ∷ xs) = let rest = last_six xs in if leb (length (x ∷ xs)) 6 then x ∷ xs else rest

unfoldable pub rolling_avg_ms : List ℕ → Option ℕ → List ℕ
rolling_avg_ms samples none = samples
rolling_avg_ms samples (some v) = last_six (samples ++ v ∷ [])

sum : List ℕ → ℕ
sum [] = 0
sum (x ∷ xs) = x + sum xs

-- `int(sum(vals) / len(vals))`, exact where the quotient is
unfoldable pub avg_ms : List ℕ → Option ℕ
unfolding sum
avg_ms [] = none
avg_ms (x ∷ xs) = some (sum (x ∷ xs) / length (x ∷ xs))
