-- ===== src/Net/Fdb/Laws.antt =====
-- The forwarding table as a set of addresses.
use heterogeneous_multicore.Base.{
  ℕ, zero, suc, ◌≡◌, refl, sym, ◌∙◌, Bool, true, false, not, ◌&&◌, ◌||◌, List, [], ◌∷◌, ◌++◌, arith,
  if◌then◌else◌, Bool-cases, inl, inr,
}
use heterogeneous_multicore.Base.Int.{pos, negsuc}
use heterogeneous_multicore.Net.Port.{SwitchPort, cmp_mac_addr, mac_addr_len, rest, cmp_from}
use heterogeneous_multicore.Net.Fdb.{
  copy_mac, fdb_finds, remove_first, is_empty, vs_port_add_fdb_entry, vs_port_remove_fdb_entry,
}

-- Two addresses are the same if their first bytes are, as many as a MAC address has.
cmp_from_iff : (n : ℕ) (a b : List ℕ) → cmp_from n a b ≡ true → copy_mac n a ≡ copy_mac n b
unfolding cmp_from
cmp_from_iff zero a b h = refl
cmp_from_iff (suc n) a b h = ground (arith, cmp_from_iff n (rest a) (rest b))

cmp_from_of_eq : (n : ℕ) (a b : List ℕ) → copy_mac n a ≡ copy_mac n b → cmp_from n a b ≡ true
unfolding cmp_from
cmp_from_of_eq zero a b h = refl
cmp_from_of_eq (suc n) a b h = ground (arith, cmp_from_of_eq n (rest a) (rest b))

cmp_from-copy_mac : (n : ℕ) (x m : List ℕ) → cmp_from n x (copy_mac n m) ≡ cmp_from n x m
unfolding cmp_from
cmp_from-copy_mac zero x m = refl
cmp_from-copy_mac (suc n) x m = ground (arith, cmp_from-copy_mac n (rest x) (rest m))

-- The address that a comparison sees.
abbrev pub mac_of : List ℕ → List ℕ
mac_of m = copy_mac mac_addr_len m

module _ (x y : List ℕ) where
  pub same_mac : cmp_mac_addr x y ≡ true → mac_of x ≡ mac_of y
  unfolding cmp_mac_addr
  same_mac h = cmp_from_iff mac_addr_len x y h

  pub cmp_of_same : mac_of x ≡ mac_of y → cmp_mac_addr x y ≡ true
  unfolding cmp_mac_addr
  cmp_of_same h = cmp_from_of_eq mac_addr_len x y h

  cmp-copy : cmp_mac_addr x (mac_of y) ≡ cmp_mac_addr x y
  unfolding cmp_mac_addr
  cmp-copy = cmp_from-copy_mac mac_addr_len x y

bool_eq : (a b : Bool) → (a ≡ true → b ≡ true) → (b ≡ true → a ≡ true) → a ≡ b
bool_eq true b f g = sym (f refl)
bool_eq false true f g = g refl
bool_eq false false f g = refl

-- Addresses that compare equal compare alike with any third.
cmp_alike : (x y z : List ℕ) → cmp_mac_addr x y ≡ true → cmp_mac_addr x z ≡ cmp_mac_addr y z
cmp_alike x y z h =
    bool_eq _ _ (λ p. cmp_of_same y z (sym (same_mac x y h) ∙ same_mac x z p))
      (λ p. cmp_of_same x z (same_mac x y h ∙ same_mac y z p))

cmp_sym : (x y : List ℕ) → cmp_mac_addr x y ≡ cmp_mac_addr y x
cmp_sym x y =
    bool_eq _ _ (λ p. cmp_of_same y x (sym (same_mac x y p)))
      (λ p. cmp_of_same x y (sym (same_mac y x p)))

finds_alike :
    (x y : List ℕ) (t : List (List ℕ)) → cmp_mac_addr x y ≡ true → fdb_finds x t ≡ fdb_finds y t
unfolding fdb_finds
finds_alike x y [] h = refl
finds_alike x y (e ∷ t) h = rw (cmp_alike x y e h, finds_alike x y t h)

fdb_finds-append :
    (x e : List ℕ) (t : List (List ℕ))
    → fdb_finds x (t ++ e ∷ []) ≡ (fdb_finds x t || cmp_mac_addr x e)
unfolding fdb_finds
fdb_finds-append x e [] = ground arith
fdb_finds-append x e (y ∷ t) = ground (arith, fdb_finds-append x e t)

-- No two entries are the same address.
abbrev pub Distinct : List (List ℕ) → Type 0
Distinct [] = Unit
Distinct (e ∷ t) = (fdb_finds e t ≡ false) × Distinct t

-- The table of a port: no address twice, and enabled just when there is one.
pub record FdbOk (p : SwitchPort) : Type 0 where
  pub enabled : p.fdb_enabled ≡ not (is_empty p.fdb_table)
  pub distinct : Distinct p.fdb_table

finds-remove_first :
    (x mac : List ℕ) (t : List (List ℕ))
    → Distinct t
    → fdb_finds x (remove_first mac t) ≡ (fdb_finds x t && not (cmp_mac_addr x mac))
unfolding fdb_finds remove_first
finds-remove_first x mac [] d = refl
finds-remove_first x mac (e ∷ t) d = ground (
  arith,
  cmp_sym x mac,
  cmp_sym x e,
  cmp_sym e mac,
  cmp_alike mac e x,
  cmp_alike x e mac,
  finds_alike x e t,
  finds-remove_first x mac t d.1,
)

Distinct-append :
    (t : List (List ℕ)) (e : List ℕ) → Distinct t → fdb_finds e t ≡ false → Distinct (t ++ e ∷ [])
unfolding fdb_finds
Distinct-append [] e d new = (refl, tt)
Distinct-append (y ∷ t) e d new =
    (ground (arith, fdb_finds-append y e t, cmp_sym e y), Distinct-append t e d.1 (ground arith))

Distinct-remove_first :
    (t : List (List ℕ)) (mac : List ℕ) → Distinct t → Distinct (remove_first mac t)
unfolding remove_first
Distinct-remove_first [] mac d = tt
Distinct-remove_first (e ∷ t) mac d = elim (Bool-cases (cmp_mac_addr mac e)) [
  | inl here ↦ rw here d.1
  | inr later ↦
      rw later (ground (arith, finds-remove_first e mac t d.1), Distinct-remove_first t mac d.1)
]

empty-append : (t : List (List ℕ)) (e : List ℕ) → is_empty (t ++ e ∷ []) ≡ false
empty-append [] e = refl
empty-append (x ∷ t) e = refl

-- The table without the entry that was just added.
remove-append :
    (t : List (List ℕ)) (mac : List ℕ)
    → fdb_finds mac t ≡ false
    → remove_first mac (t ++ mac_of mac ∷ []) ≡ t
unfolding fdb_finds remove_first
remove-append [] mac new = ground (arith, cmp-copy mac mac, cmp_of_same mac mac refl)
remove-append (e ∷ t) mac new = ground (arith, remove-append t mac)

finds_empty : (x : List ℕ) (t : List (List ℕ)) → is_empty t ≡ true → fdb_finds x t ≡ false
unfolding fdb_finds
finds_empty x [] e = refl
finds_empty x (y ∷ t) e = cc

module _ (has_remote : Bool) (p : SwitchPort) (mac : List ℕ) (ok : FdbOk p) where
  new_entry : fdb_finds mac p.fdb_table ≡ false → fdb_finds (mac_of mac) p.fdb_table ≡ false
  new_entry new = finds_alike (mac_of mac) mac p.fdb_table (cmp_of_same (mac_of mac) mac refl) ∙ new

  -- Adding an address keeps the table free of repetitions and enabled just when it is not empty.
  -- It answers 0 or -1, and afterwards the table finds what it found before and the address, also
  -- if the call answered -1.
  pub vs_port_add_fdb_entry_adds :
      let (r, q, ops) = vs_port_add_fdb_entry has_remote p mac in
      FdbOk q
      × ((x : List ℕ) → fdb_finds x q.fdb_table ≡ (fdb_finds x p.fdb_table || cmp_mac_addr x mac))
      × (r ≡ (if fdb_finds mac p.fdb_table then negsuc 0 else pos 0))
  unfolding vs_port_add_fdb_entry
  vs_port_add_fdb_entry_adds = elim (Bool-cases (fdb_finds mac p.fdb_table)) [
    | inl old ↦ rw old (ok, (λ x. ground (arith, finds_alike x mac p.fdb_table)), refl)
    | inr new ↦ rw new (
      record {
        enabled = ground (arith, empty-append p.fdb_table (mac_of mac));
        distinct = Distinct-append p.fdb_table (mac_of mac) ok.distinct (new_entry new);
      },
      (λ x. ground (arith, fdb_finds-append x (mac_of mac) p.fdb_table, cmp-copy x mac)),
      refl,
    )
  ]

  -- Removing an address keeps the same, answers 0 just when the address was in the table and -1 if
  -- not, and afterwards the table finds what it found before except the address.
  pub vs_port_remove_fdb_entry_removes :
      let (r, q, ops) = vs_port_remove_fdb_entry has_remote p mac in
      FdbOk q
      × ((x : List ℕ)
          → fdb_finds x q.fdb_table ≡ (fdb_finds x p.fdb_table && not (cmp_mac_addr x mac)))
      × (r ≡ (if fdb_finds mac p.fdb_table then pos 0 else negsuc 0))
  unfolding vs_port_remove_fdb_entry
  vs_port_remove_fdb_entry_removes = elim (Bool-cases p.fdb_enabled) [
    | inr off ↦
        let nothing = λ (x : List ℕ). finds_empty x p.fdb_table (ground (arith, ok.enabled)) in
        rw off (
          record { enabled = ground (arith, ok.enabled); distinct = ok.distinct },
          (λ x. ground (arith, nothing x)),
          ground (arith, nothing mac),
        )
    | inl on ↦ elim (Bool-cases (fdb_finds mac p.fdb_table)) [
      | inr missing ↦
          rw (on, missing)
            (
              record { enabled = ground (arith, ok.enabled); distinct = ok.distinct },
              (λ x. ground (arith, finds_alike x mac p.fdb_table)),
              refl,
            )
      | inl there ↦
          rw (on, there)
            (
              record {
                enabled = ground arith;
                distinct = Distinct-remove_first p.fdb_table mac ok.distinct;
              },
              (λ x. finds-remove_first x mac p.fdb_table ok.distinct),
              refl,
            )
    ]
  ]

  -- An address that is added and then removed leaves the table as it was.
  pub remove-add :
      fdb_finds mac p.fdb_table ≡ false
      → let q = (vs_port_add_fdb_entry has_remote p mac).1 in
        let (r, q', ops) = vs_port_remove_fdb_entry has_remote q mac in
        (r ≡ pos 0) × (q'.fdb_table ≡ p.fdb_table) × (q'.fdb_enabled ≡ p.fdb_enabled)
  unfolding vs_port_add_fdb_entry vs_port_remove_fdb_entry
  remove-add new =
      let there : fdb_finds mac (p.fdb_table ++ mac_of mac ∷ []) ≡ true =
        fdb_finds-append mac (mac_of mac) p.fdb_table
        ∙ ground (arith, cmp-copy mac mac, cmp_of_same mac mac refl) in
      rw (new, there, remove-append p.fdb_table mac new) (refl, refl, ground (arith, ok.enabled))
