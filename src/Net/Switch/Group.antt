-- ===== src/Net/Switch/Group.antt =====
-- The ports that a multicast packet is for: multicast_pkt of net/net_switch.c looks the address up in
-- each port's table.
use heterogeneous_multicore.Base.{
  ℕ, ◌≡◌, ◌≢◌, refl, Bool, true, not, ◌&&◌, List, [], ◌∷◌, arith, ◌==◌, Bool-cases, inl, inr,
}
use heterogeneous_multicore.Net.Port.{SwitchPort, cmp_mac_addr, cable_link_is_on, fdb_has}
use heterogeneous_multicore.Net.Fdb.Laws.{mac_of, same_mac, cmp_of_same}

-- An entry of the table has the same six bytes as a packet begins with.
pub data Listed (mac : List ℕ) : List (List ℕ) → Type 0 where
  here : {e : List ℕ} {t : List (List ℕ)} → mac_of e ≡ mac_of mac → Listed mac (e ∷ t)
  there : {e : List ℕ} {t : List (List ℕ)} → Listed mac t → Listed mac (e ∷ t)

pub fdb_has-Listed : (t : List (List ℕ)) (mac : List ℕ) → fdb_has t mac ≡ true → Listed mac t
unfolding fdb_has
fdb_has-Listed [] mac h = cc
fdb_has-Listed (e ∷ t) mac h = elim (Bool-cases (cmp_mac_addr e mac)) [
  | inl c ↦ Listed.here (same_mac e mac c)
  | inr c ↦
      let later : fdb_has t mac ≡ true = ground arith in Listed.there (fdb_has-Listed t mac later)
]

pub Listed-fdb_has : {mac : List ℕ} {t : List (List ℕ)} → Listed mac t → fdb_has t mac ≡ true
unfolding fdb_has
Listed-fdb_has {mac} (Listed.here {e} same) = rw (cmp_of_same e mac same) refl
Listed-fdb_has (Listed.there l) = let later = Listed-fdb_has l in ground (arith, later)

-- A port in the group: another one than the sender, with its link on, that uses its table and has
-- the address there.
pub record InGroup (id : ℕ) (mac : List ℕ) (p : SwitchPort) : Type 0 where
  pub other : p.id ≢ id
  pub link : cable_link_is_on p ≡ true
  pub enabled : p.fdb_enabled ≡ true
  pub listed : Listed mac p.fdb_table

module _ (id : ℕ) (mac : List ℕ) (p : SwitchPort) where
  abbrev pub tests : Bool
  tests = not (p.id == id) && cable_link_is_on p && p.fdb_enabled && fdb_has p.fdb_table mac

  pub tests-InGroup : tests ≡ true → InGroup id mac p
  tests-InGroup h =
      let found : fdb_has p.fdb_table mac ≡ true = ground arith in
      record {
        other = ground arith;
        link = ground arith;
        enabled = ground arith;
        listed = fdb_has-Listed p.fdb_table mac found;
      }

  pub InGroup-tests : InGroup id mac p → tests ≡ true
  InGroup-tests g = ground (arith, g.other, g.link, g.enabled, Listed-fdb_has g.listed)
