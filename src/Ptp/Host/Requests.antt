-- ===== src/Ptp/Host/Requests.antt =====
-- What the tag of a frame of the host asks for, in genavb_host_to_sw_stack.
use heterogeneous_multicore.Base.{
  ℕ, ◌+◌, ◌-◌, ◌%◌, ◌<◌, ◌≤◌, ◌≡◌, refl, Bool, true, false, List, ◌++◌, Option, none, some,
  test_bit, arith, Bool-cases, inl, inr, leb, ◌==◌, ◌&&◌,
}
use heterogeneous_multicore.Base.Bytes.{bytes_at}
use heterogeneous_multicore.Ptp.Tag.{
  Frame, mac_addr_total_length, vlan_tag_length, ethertype_vlan, dsa_8021q_tpid, remove_tag,
}
use heterogeneous_multicore.Ptp.Tag.Laws.{content, remove_tag-content}
use heterogeneous_multicore.Ptp.Host.{
  Request, meta, malformed, to_port, to_endpoint, ether_type, dsa_custom, ts_id, meta_bit,
  take_ts_bit, nonts_tag_len, ts_tag_len, tx_remove_vlan_bit, tx_remove_dsa_bit, dsa_request,
  request, untagged,
}

module _ (flags : ℕ) (f : Frame) where
  -- A VLAN tag, or the tag of the switch for PTP frames, that the device takes out.
  pub record IsVlan : Type 0 where
    pub type_vlan : ether_type f ≡ ethertype_vlan
    pub removes_vlan : test_bit flags tx_remove_vlan_bit ≡ true

  pub record IsDsa : Type 0 where
    pub type_dsa : ether_type f ≡ dsa_8021q_tpid
    pub removes_dsa : test_bit flags tx_remove_dsa_bit ≡ true

  -- Neither of them.
  pub record Plain : Type 0 where
    pub no_vlan : (ether_type f == ethertype_vlan && test_bit flags tx_remove_vlan_bit) ≡ false
    pub no_dsa : (ether_type f == dsa_8021q_tpid && test_bit flags tx_remove_dsa_bit) ≡ false

  -- The length of a frame's tag, and the number of the time stamp to be taken.
  pub data Tagged : ℕ → Option ℕ → Type 0 where
    vlan : IsVlan → Tagged vlan_tag_length none
    dsa :
        IsDsa
        → test_bit (dsa_custom f) meta_bit ≡ false
        → test_bit (dsa_custom f) take_ts_bit ≡ false
        → Tagged nonts_tag_len none
    dsa_ts :
        IsDsa
        → test_bit (dsa_custom f) meta_bit ≡ false
        → test_bit (dsa_custom f) take_ts_bit ≡ true
        → Tagged ts_tag_len (some (ts_id f))

-- The bytes of a frame without its tag of k bytes.
abbrev pub stripped : ℕ → Frame → List ℕ
stripped k f =
    bytes_at f.data_addr mac_addr_total_length f.mem
    ++ bytes_at (f.data_addr + mac_addr_total_length + k) (f.data_len - k - mac_addr_total_length)
        f.mem

-- What a frame asks for, by its tag.
pub data Asks (flags : ℕ) (f : Frame) : Request → Type 0 where
  asks_meta : IsDsa flags f → test_bit (dsa_custom f) meta_bit ≡ true → Asks flags f meta
  asks_port :
      {k : ℕ} {ts : Option ℕ} (g : Frame)
      → Tagged flags f k ts
      → mac_addr_total_length + k < f.data_len
      → content g ≡ stripped k f
      → Asks flags f (to_port g (dsa_custom f % 16) ts)
  asks_short :
      {k : ℕ} {ts : Option ℕ} (g : Frame)
      → Tagged flags f k ts
      → f.data_len ≤ mac_addr_total_length + k
      → Asks flags f (malformed g)
  asks_endpoint : Plain flags f → Asks flags f (to_endpoint f)

Tagged-pos : {flags : ℕ} {f : Frame} {k : ℕ} {ts : Option ℕ} → Tagged flags f k ts → 0 < k
Tagged-pos (Tagged.vlan v) = omega arith
Tagged-pos (Tagged.dsa d m t) = omega arith
Tagged-pos (Tagged.dsa_ts d m t) = omega arith

module _ (flags : ℕ) (f : Frame) where
  untagged-long :
      (k : ℕ) (ts : Option ℕ) (r : Frame × Bool)
      → Tagged flags f k ts
      → mac_addr_total_length + k < f.data_len
      → content r.0 ≡ stripped k f
      → r.1 ≡ true
      → Asks flags f (untagged r (dsa_custom f % 16) ts)
  untagged-long k ts (g, true) tagged long bytes done = asks_port g tagged long bytes
  untagged-long k ts (g, false) tagged long bytes done = cc

  untagged-short :
      (k : ℕ) (ts : Option ℕ) (r : Frame × Bool)
      → Tagged flags f k ts
      → f.data_len ≤ mac_addr_total_length + k
      → r.1 ≡ false
      → Asks flags f (untagged r (dsa_custom f % 16) ts)
  untagged-short k ts (g, true) tagged short failed = cc
  untagged-short k ts (g, false) tagged short failed = asks_short g tagged short

  untagged-Asks :
      (k : ℕ) (ts : Option ℕ)
      → Tagged flags f k ts
      → Asks flags f (untagged (remove_tag f k) (dsa_custom f % 16) ts)
  untagged-Asks k ts tagged = elim (Bool-cases (leb f.data_len (mac_addr_total_length + k))) [
    | inl e ↦
        untagged-short k ts (remove_tag f k) tagged (ground arith) (unfold remove_tag in rw e refl)
    | inr e ↦
        let long : mac_addr_total_length + k < f.data_len = ground arith in
        let (bytes, done) = remove_tag-content k f (Tagged-pos tagged) long in
        untagged-long k ts (remove_tag f k) tagged long bytes done
  ]

  dsa_request-Asks : IsDsa flags f → Asks flags f (dsa_request f)
  unfolding dsa_request
  dsa_request-Asks d = elim (Bool-cases (test_bit (dsa_custom f) meta_bit)) [
    | inl m ↦ rw m (asks_meta d m)
    | inr m ↦ elim (Bool-cases (test_bit (dsa_custom f) take_ts_bit)) [
      | inl t ↦ rw (m, t) (untagged-Asks ts_tag_len (some (ts_id f)) (Tagged.dsa_ts d m t))
      | inr t ↦ rw (m, t) (untagged-Asks nonts_tag_len none (Tagged.dsa d m t))
    ]
  ]

  pub request-Asks : Asks flags f (request flags f)
  unfolding request
  request-Asks =
      elim (Bool-cases (ether_type f == ethertype_vlan && test_bit flags tx_remove_vlan_bit)) [
        | inl v ↦ rw v (
            untagged-Asks vlan_tag_length none
              (Tagged.vlan (record { type_vlan = ground arith; removes_vlan = ground arith })))
        | inr v ↦
            elim (Bool-cases (ether_type f == dsa_8021q_tpid && test_bit flags tx_remove_dsa_bit)) [
              | inl d ↦
                  rw (v, d)
                    (dsa_request-Asks
                      (record { type_dsa = ground arith; removes_dsa = ground arith }))
              | inr d ↦ rw (v, d) (asks_endpoint (record { no_vlan = v; no_dsa = d }))
            ]
      ]
