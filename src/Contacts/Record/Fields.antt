-- ===== src/Contacts/Record/Fields.antt =====
-- The name and the address of a contact and of its normal form.
use chatxz.Prelude.{◌≡◌, refl, ◌∙◌, inl, inr, arith, Bool-cases}
use chatxz.Contacts.Record.{
  Contact, is_entry, settle_twins, drop_serial_alias, adopt_as_lan, fill_hash, fill_identity,
  fill_custom, normalize_contact,
}
use chatxz.Contacts.Names.{is_custom}

-- What normalising keeps: the name, the address, and whether the user chose the name.
pub record SameLabels (a b : Contact) : Type 0 where
  pub name : a.name ≡ b.name
  pub ip : a.ip ≡ b.ip
  pub port : a.port ≡ b.port
  pub custom : is_custom a ≡ is_custom b

module _ (c : Contact) where
  settle_twins-SameLabels : SameLabels (settle_twins c) c
  unfolding settle_twins
  settle_twins-SameLabels = record {
    name = ground arith;
    ip = ground arith;
    port = ground arith;
    custom = ground arith;
  }

  drop_serial_alias-SameLabels : SameLabels (drop_serial_alias c) c
  unfolding drop_serial_alias
  drop_serial_alias-SameLabels = record {
    name = ground arith;
    ip = ground arith;
    port = ground arith;
    custom = ground arith;
  }

  adopt_as_lan-SameLabels : SameLabels (adopt_as_lan c) c
  unfolding adopt_as_lan
  adopt_as_lan-SameLabels = record {
    name = ground arith;
    ip = ground arith;
    port = ground arith;
    custom = ground arith;
  }

  fill_hash-SameLabels : SameLabels (fill_hash c) c
  unfolding fill_hash
  fill_hash-SameLabels = record {
    name = ground arith;
    ip = ground arith;
    port = ground arith;
    custom = ground arith;
  }

  fill_identity-SameLabels : SameLabels (fill_identity c) c
  unfolding fill_identity
  fill_identity-SameLabels = record {
    name = ground arith;
    ip = ground arith;
    port = ground arith;
    custom = ground arith;
  }

  fill_custom-SameLabels : SameLabels (fill_custom c) c
  unfolding fill_custom
  fill_custom-SameLabels = record {
    name = ground arith;
    ip = ground arith;
    port = ground arith;
    custom = ground arith;
  }

SameLabels-trans : {a b c : Contact} → SameLabels a b → SameLabels b c → SameLabels a c
SameLabels-trans p q = record {
  name = p.name ∙ q.name;
  ip = p.ip ∙ q.ip;
  port = p.port ∙ q.port;
  custom = p.custom ∙ q.custom;
}

-- Normalising changes neither the name nor the address of a contact, nor who chose the name.
pub normalize_contact-SameLabels : (c : Contact) → SameLabels (normalize_contact c) c
unfolding normalize_contact
normalize_contact-SameLabels c = elim (Bool-cases (is_entry c)) [
  | inr e ↦ rw e (record { name = refl; ip = refl; port = refl; custom = refl })
  | inl e ↦
      let c₁ = settle_twins c in
      let c₂ = drop_serial_alias c₁ in
      let c₃ = adopt_as_lan c₂ in
      let c₄ = fill_hash c₃ in
      let c₅ = fill_identity c₄ in
      rw e (
        SameLabels-trans (fill_custom-SameLabels c₅) (
          SameLabels-trans (fill_identity-SameLabels c₄) (
            SameLabels-trans (fill_hash-SameLabels c₃) (
              SameLabels-trans (adopt_as_lan-SameLabels c₂)
                (SameLabels-trans (drop_serial_alias-SameLabels c₁) (settle_twins-SameLabels c))))))
]
