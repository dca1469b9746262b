-- ===== src/Discovery/Lifecycle/Rescope.antt =====
-- The table of chatxz/core/discovery.py after the machine moved to another network.
use chatxz.Prelude.{
  ◌≡◌, sym, ◌∙◌, inl, inr, Bool, true, false, ◌&&◌, Option, none, some, List, arith, Bool-cases,
  Str, truthy, or_empty, strip, strip-strip,
}
use chatxz.Dict.Items.{AllItems-get, AllItems-get_all}
use chatxz.Dict.Sweep.{spared}
use chatxz.Scope.{peer_in_scope}
use chatxz.Discovery.State.{Row, PeerDiscovery}
use chatxz.Discovery.Remove.{purge_out_of_scope, purge_ipless_non_serial, is_out_of_scope, is_ghost}
use chatxz.Discovery.Remove.Laws.{purge_out_of_scope-Purged, purge_ipless_non_serial-Purged}
use chatxz.Discovery.Invariant.{IsFit, IsSound, is_placed}

spared-some :
    (doomed : Str → Row → Bool) (k : Str) (o : Option Row) (r : Row)
    → spared doomed k o ≡ some r
    → (o ≡ some r) × (doomed k r ≡ false)
spared-some doomed k none r e = cc
spared-some doomed k (some q) r e = elim (Bool-cases (doomed k q)) [
  | inl a ↦ ground arith
  | inr a ↦ ground arith
]

-- A row with an address in the new scope has its place there.
new_scope-is_placed :
    (old scope : Str) (k : Str) (r : Row)
    → strip scope ≡ scope
    → truthy scope ≡ true
    → is_placed old r ≡ true
    → is_out_of_scope scope k r ≡ false
    → is_ghost k r ≡ false
    → is_placed scope r ≡ true
unfolding peer_in_scope
new_scope-is_placed old scope k r trim real p inside ghost =
    ground (arith, strip-strip (or_empty r.ip))

-- Purging a table that is in order for some scope, first of the rows outside a scope that is not
-- blank and then of the LAN rows without an address, leaves a table that is in order for the new
-- scope.
pub rescoped-IsSound :
    (scope : Str) (locals : List Str) (scope_ip : Option Str) (d : PeerDiscovery)
    → truthy (strip (or_empty scope_ip)) ≡ true
    → IsSound scope locals d
    → IsSound
        (strip (or_empty scope_ip))
        locals
        (purge_ipless_non_serial (purge_out_of_scope scope_ip d).0).0
rescoped-IsSound scope locals scope_ip d real s =
    let new = strip (or_empty scope_ip) in
    let first = purge_out_of_scope-Purged scope_ip d s.distinct in
    let second = purge_ipless_non_serial-Purged (purge_out_of_scope scope_ip d).0 first.distinct in
    record {
      rows = AllItems-get_all (IsFit new locals) _ second.distinct (λ k r at.
          let a = spared-some is_ghost k _ r (sym (second.rows k) ∙ at) in
          let b =
            spared-some (λ k r. truthy new && is_out_of_scope new k r) k _ r
              (sym (first.rows k) ∙ a.0) in
          let f = AllItems-get (IsFit scope locals) k r d.peers b.0 s.rows in
          record {
            keyed = f.keyed;
            real = f.real;
            plain = f.plain;
            placed =
                new_scope-is_placed scope new k r (strip-strip (or_empty scope_ip)) real f.placed
                  (ground (arith, b.1, real)) a.1;
            foreign = f.foreign;
          });
      distinct = second.distinct;
      locals_same = second.locals ∙ first.locals ∙ s.locals_same;
    }
