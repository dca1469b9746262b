-- ===== src/Contacts/Sync/Refresh/Laws.antt =====
-- What a discovered peer can and cannot change in a saved contact.
use chatxz.Scope.{same_lan_scope}
use chatxz.Contacts.Sync.Match.{should_update_contact_ip}
use chatxz.Prelude.{
  ◌≡◌, ap, ◌∙◌, inl, inr, true, false, Option, arith, Bool-cases, Option-cases, Str, truthy,
  or_empty, strip, strip-strip,
}
use chatxz.Contacts.Record.{Contact, Port, clean, stripped, normalize_contact}
use chatxz.Contacts.Record.Fields.{SameLabels, normalize_contact-SameLabels}
use chatxz.Contacts.Names.{is_custom, is_serial_via}
use chatxz.Contacts.Blocklist.{Peer}
use chatxz.Contacts.Save.{port_number}
use chatxz.Contacts.Sync.Refresh.{
  Draft, refreshed, refresh_serial, refresh_lan, refresh_lan_hash, refresh_ip, refresh_port,
  refresh_lan_identity, refresh_name,
}

-- What the steps keep of a draft.
module _ (d : Draft) where
  refresh_serial-SameLabels :
      (hash ident : Str) → SameLabels (refresh_serial hash ident d).entry d.entry
  unfolding refresh_serial
  refresh_serial-SameLabels hash ident = record {
    name = ground arith;
    ip = ground arith;
    port = ground arith;
    custom = ground arith;
  }

  refresh_lan_hash-SameLabels : (hash : Str) → SameLabels (refresh_lan_hash hash d).entry d.entry
  unfolding refresh_lan_hash
  refresh_lan_hash-SameLabels hash = record {
    name = ground arith;
    ip = ground arith;
    port = ground arith;
    custom = ground arith;
  }

  refresh_lan_identity-SameLabels :
      (ident : Str) → SameLabels (refresh_lan_identity ident d).entry d.entry
  unfolding refresh_lan_identity
  refresh_lan_identity-SameLabels ident = record {
    name = ground arith;
    ip = ground arith;
    port = ground arith;
    custom = ground arith;
  }

  refresh_port_keeps :
      (port : Option Port)
      → ((refresh_port port d).entry.ip ≡ d.entry.ip)
        × ((refresh_port port d).entry.name ≡ d.entry.name)
        × (is_custom (refresh_port port d).entry ≡ is_custom d.entry)
  unfolding refresh_port
  refresh_port_keeps port = elim (Option-cases (port_number port)) [
    | inl e ↦ (ground arith, ground arith, ground arith)
    | inr (n, e) ↦ (ground arith, ground arith, ground arith)
  ]

  refresh_ip_keeps :
      (ip : Str) (scope : Option Str)
      → ((refresh_ip ip scope d).entry.name ≡ d.entry.name)
        × (is_custom (refresh_ip ip scope d).entry ≡ is_custom d.entry)
  unfolding refresh_ip
  refresh_ip_keeps ip scope = (ground arith, ground arith)

  -- A name that the user chose stays; an address and a port are not the name's business.
  refresh_name_keeps :
      (name : Option Str)
      → ((refresh_name name d).entry.ip ≡ d.entry.ip)
        × ((refresh_name name d).entry.port ≡ d.entry.port)
        × (is_custom (refresh_name name d).entry ≡ is_custom d.entry)
  unfolding refresh_name
  refresh_name_keeps name =
      let l = normalize_contact-SameLabels d.entry in
      (ground (arith, l.ip), ground (arith, l.port), ground (arith, l.custom))

  refresh_name_custom :
      (name : Option Str)
      → is_custom d.entry ≡ true
      → (refresh_name name d).entry.name ≡ d.entry.name
  unfolding refresh_name
  refresh_name_custom name custom = ground arith

-- The record that all updates start from.
abbrev draft_of : Contact → Draft
draft_of c = record { entry = normalize_contact c; changed = false }

-- A peer that is discovered over serial changes neither the address nor the port of the contact.
pub refreshed_serial :
    (p : Peer) (scope : Option Str) (c : Contact)
    → is_serial_via p.via ≡ true
    → ((refreshed p scope c).entry.ip ≡ c.ip) × ((refreshed p scope c).entry.port ≡ c.port)
unfolding refreshed
refreshed_serial p scope c serial =
    let l = normalize_contact-SameLabels c in
    let d = refresh_serial (clean p.hash) (clean p.identity_hash) (draft_of c) in
    let k = refresh_serial-SameLabels (draft_of c) (clean p.hash) (clean p.identity_hash) in
    let n = refresh_name_keeps d p.name in rw serial (n.0 ∙ k.ip ∙ l.ip, n.1 ∙ k.port ∙ l.port)

refresh_lan_keeps :
    (p : Peer) (scope : Option Str) (d : Draft)
    → ((refresh_lan p scope d).entry.name ≡ d.entry.name)
      × (is_custom (refresh_lan p scope d).entry ≡ is_custom d.entry)
unfolding refresh_lan
refresh_lan_keeps p scope d =
    let d₁ = refresh_lan_hash (clean p.hash) d in
    let d₂ = refresh_ip (stripped p.ip) scope d₁ in
    let d₃ = refresh_port p.port d₂ in
    let k₁ = refresh_lan_hash-SameLabels d (clean p.hash) in
    let k₂ = refresh_ip_keeps d₁ (stripped p.ip) scope in
    let k₃ = refresh_port_keeps d₂ p.port in
    let k₄ = refresh_lan_identity-SameLabels d₃ (clean p.identity_hash) in
    (k₄.name ∙ k₃.1 ∙ k₂.0 ∙ k₁.name, k₄.custom ∙ k₃.2 ∙ k₂.1 ∙ k₁.custom)

-- A name that the user chose stays as it is, and stays marked as chosen, whatever peer a
-- discovery finds for the contact, on either transport.
pub refreshed_custom :
    (p : Peer) (scope : Option Str) (c : Contact)
    → is_custom c ≡ true
    → ((refreshed p scope c).entry.name ≡ c.name) × (is_custom (refreshed p scope c).entry ≡ true)
unfolding refreshed
refreshed_custom p scope c custom =
    let l = normalize_contact-SameLabels c in
    let sd = refresh_serial (clean p.hash) (clean p.identity_hash) (draft_of c) in
    let ld = refresh_lan p scope (draft_of c) in
    let s = refresh_serial-SameLabels (draft_of c) (clean p.hash) (clean p.identity_hash) in
    let k = refresh_lan_keeps p scope (draft_of c) in
    elim (Bool-cases (is_serial_via p.via)) [
      | inl e ↦
          let still = s.custom ∙ l.custom ∙ custom in
          rw e (
            refresh_name_custom sd p.name still ∙ s.name ∙ l.name,
            (refresh_name_keeps sd p.name).2 ∙ still,
          )
      | inr e ↦
          let still = k.1 ∙ l.custom ∙ custom in
          rw e (
            refresh_name_custom ld p.name still ∙ k.0 ∙ l.name,
            (refresh_name_keeps ld p.name).2 ∙ still,
          )
    ]

refresh_ip_local :
    (ip : Str) (scope : Option Str) (d : Draft)
    → truthy (stripped d.entry.ip) ≡ true
    → truthy (stripped scope) ≡ true
    → same_lan_scope (strip ip) (stripped scope) ≡ false
    → same_lan_scope (strip (stripped d.entry.ip)) (stripped scope) ≡ true
    → (refresh_ip ip scope d).entry.ip ≡ d.entry.ip
unfolding refresh_ip should_update_contact_ip
refresh_ip_local ip scope d real real_scope out here =
    ground (arith, strip-strip (or_empty d.entry.ip))

-- A peer that is discovered over the LAN at an address outside the local scope does not change
-- the address of a contact that is inside it.
pub refreshed_local :
    (p : Peer) (scope : Option Str) (c : Contact)
    → is_serial_via p.via ≡ false
    → truthy (stripped c.ip) ≡ true
    → truthy (stripped scope) ≡ true
    → same_lan_scope (stripped p.ip) (stripped scope) ≡ false
    → same_lan_scope (stripped c.ip) (stripped scope) ≡ true
    → (refreshed p scope c).entry.ip ≡ c.ip
unfolding refreshed refresh_lan
refreshed_local p scope c lan real real_scope out here =
    let l = normalize_contact-SameLabels c in
    let d₁ = refresh_lan_hash (clean p.hash) (draft_of c) in
    let d₂ = refresh_ip (stripped p.ip) scope d₁ in
    let d₃ = refresh_port p.port d₂ in
    let d₄ = refresh_lan_identity (clean p.identity_hash) d₃ in
    let k₁ = refresh_lan_hash-SameLabels (draft_of c) (clean p.hash) in
    let same : d₁.entry.ip ≡ c.ip = k₁.ip ∙ l.ip in
    let kept : d₂.entry.ip ≡ d₁.entry.ip =
      refresh_ip_local (stripped p.ip) scope d₁ (ap (λ o. truthy (stripped o)) same ∙ real)
        real_scope (ap (λ t. same_lan_scope t (stripped scope)) (strip-strip (or_empty p.ip)) ∙ out)
        (ap (λ o. same_lan_scope (strip (stripped o)) (stripped scope)) same
          ∙ ap (λ t. same_lan_scope t (stripped scope)) (strip-strip (or_empty c.ip))
          ∙ here) in
    rw lan (
      (refresh_name_keeps d₄ p.name).0
      ∙ (refresh_lan_identity-SameLabels d₃ (clean p.identity_hash)).ip
      ∙ (refresh_port_keeps d₂ p.port).0
      ∙ kept
      ∙ same)
