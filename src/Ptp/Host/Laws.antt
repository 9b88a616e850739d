-- ===== src/Ptp/Host/Laws.antt =====
-- A frame that the switch's side has tagged, and that comes back.
use heterogeneous_multicore.Base.{
  ℕ, ◌+◌, ◌-◌, ◌<◌, ◌≤◌, ◌%◌, ◌/◌, ◌^◌, ◌≡◌, refl, sym, ap, ◌∙◌, inl, inr, Bool, true, false, List,
  [], ◌∷◌, none, some, test_bit, arith, get_or, Bool-cases,
}
use heterogeneous_multicore.Base.Bytes.{get_or-bytes_at}
use heterogeneous_multicore.Ptp.Tag.{
  Frame, mac_addr_total_length, bytes_of, vlan_tag_length, vlan_tag, insert_bytes, insert_vlan_tag,
  remove_tag,
}
use heterogeneous_multicore.Ptp.Tag.Laws.{Fits, content, inserted_tag, remove_tag-insert_bytes}
use heterogeneous_multicore.Ptp.Host.{
  GenavbDev, PortDev, Sent, tx, to_port, ether_type, dsa_custom, tx_remove_vlan_bit, request,
  untagged, find_switch_port, transmit, to_found, call_of, serve, genavb_host_to_sw_stack,
}

-- The bytes of the tag that the switch's port puts into a frame.
vlan_tag-bytes : (p : ℕ) → bytes_of vlan_tag_length (vlan_tag p) ≡ 0x81 ∷ 0x00 ∷ 0x0C ∷ p % 16 ∷ []
unfolding vlan_tag
vlan_tag-bytes p =
    let a : vlan_tag p % 256 ≡ 0x81 = omega arith in
    let b : vlan_tag p / 256 % 256 ≡ 0 = omega arith in
    let c : vlan_tag p / 256 / 256 % 256 ≡ 0x0C = omega arith in
    let d : vlan_tag p / 256 / 256 / 256 % 256 ≡ p % 16 = omega arith in cc

to_found-tx :
    (success : Sent → Bool) (dev : GenavbDev) (f : Frame) (b : PortDev)
    → let o = to_found success dev f none (some b) in
      (o.sent ≡ tx b.sock_tx (content f) ∷ []) × (o.answer ≡ success (tx b.sock_tx (content f)))
unfolding transmit call_of
to_found-tx success dev f b = elim (Bool-cases (success (tx b.sock_tx (content f)))) [
  | inl e ↦ rw e (refl, refl)
  | inr e ↦ rw e (refl, refl)
]

module _ (f : Frame) (p : ℕ) (room : vlan_tag_length ≤ f.data_addr)
    (more : mac_addr_total_length < f.data_len)
    (short : f.data_len + vlan_tag_length < 2 ^ 32) where
  abbrev tag : List ℕ
  tag = bytes_of vlan_tag_length (vlan_tag p)

  vlan-Fits : Fits tag f
  vlan-Fits = (omega arith, room, omega arith, short)

  tag_byte :
      (i x : ℕ)
      → i < vlan_tag_length
      → x ≡ (insert_vlan_tag f p).data_addr + mac_addr_total_length + i
      → (insert_vlan_tag f p).mem x ≡ get_or (0x81 ∷ 0x00 ∷ 0x0C ∷ p % 16 ∷ []) i 0
  unfolding insert_vlan_tag insert_bytes
  tag_byte i x h e =
      let m = (insert_bytes tag f).mem in
      let a = f.data_addr - vlan_tag_length + mac_addr_total_length in
      ap m e
      ∙ sym (get_or-bytes_at a vlan_tag_length m i h)
      ∙ ap (λ xs. get_or xs i 0) (inserted_tag tag f vlan-Fits ∙ vlan_tag-bytes p)

  tagged_type : ether_type (insert_vlan_tag f p) ≡ 0x8100
  unfolding ether_type
  tagged_type =
      let a = (insert_vlan_tag f p).data_addr + mac_addr_total_length in
      omega (
        arith,
        tag_byte 0 a (omega arith) (omega arith),
        tag_byte 1 (a + 1) (omega arith) (omega arith),
      )

  tagged_port : dsa_custom (insert_vlan_tag f p) % 16 ≡ p % 16
  unfolding dsa_custom
  tagged_port =
      let a = (insert_vlan_tag f p).data_addr + mac_addr_total_length in
      omega (
        arith,
        tag_byte 2 (a + 2) (omega arith) (omega arith),
        tag_byte 3 (a + 2 + 1) (omega arith) (omega arith),
      )

  removed :
      ((remove_tag (insert_vlan_tag f p) vlan_tag_length).1 ≡ true)
      × (content (remove_tag (insert_vlan_tag f p) vlan_tag_length).0 ≡ content f)
  unfolding insert_vlan_tag
  removed =
      let (done, start, len, bytes) = remove_tag-insert_bytes tag f vlan-Fits more in (done, bytes)

untagged_done :
    (r : Frame × Bool) (dst_port : ℕ)
    → r.1 ≡ true
    → untagged r dst_port none ≡ to_port r.0 dst_port none
untagged_done (g, true) dst_port e = refl
untagged_done (g, false) dst_port e = cc

request_vlan :
    (flags : ℕ) (g : Frame)
    → ether_type g ≡ 0x8100
    → test_bit flags tx_remove_vlan_bit ≡ true
    → (remove_tag g vlan_tag_length).1 ≡ true
    → request flags g ≡ to_port (remove_tag g vlan_tag_length).0 (dsa_custom g % 16) none
unfolding request
request_vlan flags g e on done =
    rw (e, on) (untagged_done (remove_tag g vlan_tag_length) (dsa_custom g % 16) done)

-- A frame that the switch's side has tagged for the host, and that comes back as it is, is sent
-- without the tag, byte for byte as it was, through the socket of the first port with the number in
-- the tag, and the answer is 0 just when the stack sends it.
pub tagged_frame_returns :
    (success : Sent → Bool) (dev : GenavbDev) (f : Frame) (p : ℕ) (b : PortDev)
    → vlan_tag_length ≤ f.data_addr
    → mac_addr_total_length < f.data_len
    → f.data_len + vlan_tag_length < 2 ^ 32
    → test_bit dev.flags tx_remove_vlan_bit ≡ true
    → find_switch_port dev.bridge_port (p % 16) ≡ some b
    → let o = genavb_host_to_sw_stack success dev (insert_vlan_tag f p) in
      (o.sent ≡ tx b.sock_tx (content f) ∷ []) × (o.answer ≡ success (tx b.sock_tx (content f)))
unfolding genavb_host_to_sw_stack serve
tagged_frame_returns success dev f p b room more short on found =
    let g = insert_vlan_tag f p in
    let h = (remove_tag g vlan_tag_length).0 in
    let (done, bytes) = removed f p room more short in
    let (sent, answer) = to_found-tx success dev h b in
    rw
      (
        request_vlan dev.flags g (tagged_type f p room more short) on done,
        tagged_port f p room more short,
        found,
      )
      (
        sent ∙ ap (λ xs. tx b.sock_tx xs ∷ []) bytes,
        answer ∙ ap (λ xs. success (tx b.sock_tx xs)) bytes,
      )
