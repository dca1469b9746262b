-- ===== src/Contacts/Record/Hashes.antt =====
-- The hashes of a contact of chatxz/core/contacts.py and of its normal form.
use chatxz.Prelude.{
  ◌≡◌, refl, sym, ◌∙◌, inl, inr, Bool, true, ◌&&◌, ◌||◌, Option, List, arith, Bool-cases, Str,
  str_eq, truthy, str_mem, str_eq_refl, str_eq_iff,
}
use chatxz.Contacts.Record.{
  Contact, clean, is_entry, settle_twins, drop_serial_alias, adopt_as_lan, fill_hash, fill_identity,
  fill_custom, normalize_contact, cons_hash, stored_hashes, contact_hashes, stored_primary,
  contact_primary_hash,
}
use chatxz.Contacts.Record.Laws.{clean-clean, clean-none, clean-holds}

-- `t` is the hash in this field.
abbrev pub is_at : Str → Option Str → Bool
is_at t o = truthy (clean o) && str_eq t (clean o)

abbrev pub is_in : Str → Contact → Bool
is_in t c =
    is_at t c.hash
    || (is_at t c.lan_hash
        || (is_at t c.serial_hash
            || (is_at t c.identity_hash
                || (is_at t c.lan_identity_hash || is_at t c.serial_identity_hash))))

pub str_mem-cons_hash :
    (t h : Str) (hs : List Str)
    → str_mem t (cons_hash h hs) ≡ (truthy h && str_eq t h) || str_mem t hs
unfolding str_mem
str_mem-cons_hash t h hs = ground arith

pub str_mem-stored_hashes : (t : Str) (c : Contact) → str_mem t (stored_hashes c) ≡ is_in t c
unfolding stored_hashes
str_mem-stored_hashes t c = simp str_mem-cons_hash (unfold str_mem in ground arith)

module _ (t : Str) (c : Contact) where
  is_in-settle_twins : is_in t (settle_twins c) ≡ is_in t c
  unfolding settle_twins
  is_in-settle_twins = ground (
    arith,
    clean-none,
    str_eq_iff (clean c.lan_hash) (clean c.serial_hash),
    str_eq_iff (clean c.hash) (clean c.serial_hash),
  )

  is_in-drop_serial_alias : is_in t (drop_serial_alias c) ≡ is_in t c
  unfolding drop_serial_alias
  is_in-drop_serial_alias =
      ground (arith, clean-none, str_eq_iff (clean c.hash) (clean c.serial_hash))

  is_in-adopt_as_lan : is_in t (adopt_as_lan c) ≡ is_in t c
  unfolding adopt_as_lan
  is_in-adopt_as_lan = ground (arith, clean-clean c.hash)

  is_in-fill_hash : is_in t (fill_hash c) ≡ is_in t c
  unfolding fill_hash
  is_in-fill_hash = ground (arith, clean-clean c.lan_hash, clean-holds c.hash)

  is_in-fill_identity : is_in t (fill_identity c) ≡ is_in t c
  unfolding fill_identity
  is_in-fill_identity = ground (arith, clean-holds c.identity_hash)

  is_in-fill_custom : is_in t (fill_custom c) ≡ is_in t c
  unfolding fill_custom
  is_in-fill_custom = ground arith

-- The normal form has exactly the hashes that stand in the record.
pub str_mem-contact_hashes :
    (t : Str) (c : Contact) → str_mem t (contact_hashes c) ≡ str_mem t (stored_hashes c)
unfolding contact_hashes normalize_contact
str_mem-contact_hashes t c = elim (Bool-cases (is_entry c)) [
  | inr e ↦ rw e refl
  | inl e ↦
      let c₁ = settle_twins c in
      let c₂ = drop_serial_alias c₁ in
      let c₃ = adopt_as_lan c₂ in
      let c₄ = fill_hash c₃ in
      rw e (
        str_mem-stored_hashes t (fill_custom (fill_identity c₄))
        ∙ is_in-fill_custom t (fill_identity c₄)
        ∙ is_in-fill_identity t c₄
        ∙ is_in-fill_hash t c₃
        ∙ is_in-adopt_as_lan t c₂
        ∙ is_in-drop_serial_alias t c₁
        ∙ is_in-settle_twins t c
        ∙ sym (str_mem-stored_hashes t c))
]

is_in_primary : (n : Contact) → truthy (stored_primary n) ≡ true → is_in (stored_primary n) n ≡ true
unfolding stored_primary
is_in_primary n h = ground (
  arith,
  str_eq_refl (clean n.lan_hash),
  str_eq_refl (clean n.serial_hash),
  str_eq_refl (clean n.hash),
)

-- The key of a contact is one of its hashes, unless it is empty.
pub contact_primary_hash-mem :
    (c : Contact)
    → truthy (contact_primary_hash c) ≡ true
    → str_mem (contact_primary_hash c) (contact_hashes c) ≡ true
unfolding contact_primary_hash contact_hashes
contact_primary_hash-mem c h =
    str_mem-stored_hashes (stored_primary (normalize_contact c)) (normalize_contact c)
    ∙ is_in_primary (normalize_contact c) h
