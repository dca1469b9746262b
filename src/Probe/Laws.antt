-- ===== src/Probe/Laws.antt =====
-- Bounds of the intervals and the window, and what a UDP probe returns.
use chatxz.Prelude.{
  ℕ, ◌≤◌, ◌≡◌, refl, ap, ◌∙◌, ◌⊎◌, inl, inr, true, false, not, ◌&&◌, Option, none, some, List, [],
  ◌∷◌, ◌++◌, arith, ◌==◌, if◌then◌else◌, Bool-cases, Option-cases, length, Str, str_eq, str_eq_refl,
  str_eq_iff,
}
use chatxz.Prelude.Int.{ℤ, pos, negsuc}
use chatxz.Dict.{Dict, pop, get}
use chatxz.Dict.Items.{AllItems, AllItems-pop, AllItems-put, AllItems-get}
use chatxz.Dict.Laws.{get-pop, get-put}
use chatxz.Probe.{
  clamp_serial_probe_interval, write_entry, open_probe, Entry, Probes, Ack, register_probe_ack,
  receive_acks, probe_udp_peer, last_six, rolling_avg_ms,
}

-- A serial probe interval is off or between 3 seconds and 5 hours, and clamping it again does not
-- change it.
pub clamp_serial_probe_interval_lem :
    (v : Option ℤ)
    → ((clamp_serial_probe_interval v ≡ 0)
        ⊎ ((3 ≤ clamp_serial_probe_interval v) × (clamp_serial_probe_interval v ≤ 18000)))
      × (clamp_serial_probe_interval (some (pos (clamp_serial_probe_interval v)))
          ≡ clamp_serial_probe_interval v)
unfolding clamp_serial_probe_interval
clamp_serial_probe_interval_lem none = (inr (omega arith, omega arith), ground arith)
clamp_serial_probe_interval_lem (some (negsuc n)) = (inl refl, ground arith)
clamp_serial_probe_interval_lem (some (pos n)) = elim (Bool-cases (n == 0)) [
  | inl e ↦ (inl (ground arith), ground arith)
  | inr e ↦ (inr (ground arith, ground arith), ground arith)
]

-- The time in the first acknowledgement with the id.
unfoldable pub first_rtt : Str → List Ack → Option ℕ
first_rtt id [] = none
first_rtt id (a ∷ acks) =
    let rest = first_rtt id acks in if str_eq a.probe_id id then some a.rtt_ms else rest

-- No key, or none but the id, refers to the entry.
abbrev IsUnshared : ℕ → Str → ℕ → Type 0
IsUnshared p k q = (q == p) ≡ false

abbrev IsOwn : Str → ℕ → Str → ℕ → Type 0
IsOwn id p k q = (not (str_eq k id) && (q == p)) ≡ false

pop-IsUnshared :
    (id : Str) (p : ℕ) (d : Dict ℕ) → AllItems (IsOwn id p) d → AllItems (IsUnshared p) (pop id d)
unfolding pop
pop-IsUnshared id p [] h = tt
pop-IsUnshared id p ((k, q) ∷ d) h = elim (Bool-cases (str_eq k id)) [
  | inl e ↦ rw (e, pop) (pop-IsUnshared id p d h.1)
  | inr e ↦ rw (e, pop) (ground (arith, h.0), pop-IsUnshared id p d h.1)
]

abbrev answered : Ack → ℕ → Probes → Probes
answered a q s = record s {
  pending = pop a.probe_id s.pending;
  entries =
      write_entry q
        (record { rtt_ms = some a.rtt_ms; source_ip = some a.source_ip; event_set = true })
        s.entries;
}

ack_unknown :
    (a : Ack) (s : Probes) → get a.probe_id s.pending ≡ none → (register_probe_ack a s).0 ≡ s
unfolding register_probe_ack
ack_unknown a s e = rw (e, register_probe_ack) refl

ack_known :
    (a : Ack) (q : ℕ) (s : Probes)
    → get a.probe_id s.pending ≡ some q
    → (register_probe_ack a s).0 ≡ answered a q s
unfolding register_probe_ack
ack_known a q s e = rw (e, register_probe_ack) refl

-- Once nothing refers to the entry, no acknowledgement changes it.
settled :
    (id : Str) (p : ℕ) (acks : List Ack) (s : Probes)
    → AllItems (IsUnshared p) s.pending
    → get id s.pending ≡ none
    → ((receive_acks acks s).entries p ≡ s.entries p)
      × (get id (receive_acks acks s).pending ≡ none)
unfolding receive_acks write_entry
settled id p [] s h g = (refl, g)
settled id p (a ∷ acks) s h g = elim (Option-cases (get a.probe_id s.pending)) [
  | inl e ↦ rw (receive_acks, ack_unknown a s e) (settled id p acks s h g)
  | inr (q, e) ↦
      let other : (p == q) ≡ false =
        ground (arith, AllItems-get (IsUnshared p) a.probe_id q s.pending e h) in
      let (same, gone) =
        settled id p acks (answered a q s) (AllItems-pop (IsUnshared p) a.probe_id s.pending h)
          (ground (arith, get-pop a.probe_id id s.pending, g)) in
      rw (receive_acks, ack_known a q s e) (same ∙ ground (arith, other), gone)
]

-- What the entry of a probe holds, and whether its key is still there, after some acknowledgements.
abbrev IsHeard : Str → ℕ → Option ℕ → Probes → Type 0
IsHeard id p rtt s =
    ((s.entries p).rtt_ms ≡ rtt) × (((s.entries p).event_set ≡ false) ⊎ (get id s.pending ≡ none))

waiting :
    (id : Str) (p : ℕ) (acks : List Ack) (s : Probes)
    → AllItems (IsOwn id p) s.pending
    → get id s.pending ≡ some p
    → (s.entries p).event_set ≡ false
    → (s.entries p).rtt_ms ≡ none
    → IsHeard id p (first_rtt id acks) (receive_acks acks s)
unfolding receive_acks write_entry first_rtt
waiting id p [] s h g quiet blank = (blank, inl quiet)
waiting id p (a ∷ acks) s h g quiet blank = elim (Option-cases (get a.probe_id s.pending)) [
  | inl e ↦
      let other : str_eq a.probe_id id ≡ false = ground (arith, str_eq_iff a.probe_id id) in
      rw (receive_acks, ack_unknown a s e, first_rtt, other) (waiting id p acks s h g quiet blank)
  | inr (q, e) ↦ elim (Bool-cases (str_eq a.probe_id id)) [
    | inl mine ↦
        let its : (p == q) ≡ true = ground (arith, str_eq_iff a.probe_id id) in
        let unshared : AllItems (IsUnshared p) (pop a.probe_id s.pending) =
          rw ((str_eq_iff a.probe_id id).0 mine) (pop-IsUnshared id p s.pending h) in
        let (same, gone) =
          settled id p acks (answered a q s) unshared
            (ground (arith, get-pop a.probe_id id s.pending)) in
        rw (receive_acks, ack_known a q s e, first_rtt, mine)
          (ap (λ (x : Entry). x.rtt_ms) same ∙ ground (arith, its), inr gone)
    | inr theirs ↦
        let other : (p == q) ≡ false =
          ground (arith, AllItems-get (IsOwn id p) a.probe_id q s.pending e h) in
        rw (receive_acks, ack_known a q s e, first_rtt, theirs)
          (waiting id p acks (answered a q s) (AllItems-pop (IsOwn id p) a.probe_id s.pending h)
            (ground (arith, get-pop a.probe_id id s.pending, g)) (ground arith) (ground arith))
  ]
]

IsOwn-of_free :
    (id : Str) (p : ℕ) (d : Dict ℕ) → AllItems (IsUnshared p) d → AllItems (IsOwn id p) d
IsOwn-of_free id p [] h = tt
IsOwn-of_free id p ((k, q) ∷ d) h = (ground arith, IsOwn-of_free id p d h.1)

-- Where no pending probe refers to the entry that the call makes, a UDP probe returns nothing,
-- whatever acknowledgements come in, although its entry then holds the time of the first one with
-- its id, if there is one.
pub probe_udp_peer_lem :
    (id : Str) (acks : List Ack) (s : Probes)
    → AllItems (IsUnshared s.next) s.pending
    → ((probe_udp_peer id acks s).1 ≡ none)
      × (((probe_udp_peer id acks s).0.entries s.next).rtt_ms ≡ first_rtt id acks)
unfolding probe_udp_peer open_probe write_entry
probe_udp_peer_lem id acks s h =
    let opened = open_probe id s in
    let (rtt, or_gone) =
      waiting id s.next acks opened
        (AllItems-put (IsOwn id s.next) id s.next s.pending (ground (arith, str_eq_refl id))
          (IsOwn-of_free id s.next s.pending h))
        (ground (arith, get-put id id s.next s.pending, str_eq_refl id)) (ground arith)
        (ground arith) in
    (
      elim or_gone [
        | inl quiet ↦ rw (probe_udp_peer, quiet) refl
        | inr gone ↦ rw (probe_udp_peer, gone) (ground arith)
      ],
      ground (arith, rtt),
    )

length-last_six : (xs : List ℕ) → length (last_six xs) ≤ 6
unfolding last_six length
length-last_six [] = omega arith
length-last_six (x ∷ xs) = ground (arith, length-last_six xs)

-- The window of samples holds at most six, once a sample came in.
pub length-rolling_avg_ms :
    (samples : List ℕ) (v : ℕ) → length (rolling_avg_ms samples (some v)) ≤ 6
unfolding rolling_avg_ms
length-rolling_avg_ms samples v = length-last_six (samples ++ v ∷ [])
