-- ===== src/Net/Software/Laws.antt =====
-- No packet that a software port hands to the switch is forgotten there.
use heterogeneous_multicore.Base.{
  ℕ, ◌+◌, ◌≤◌, ◌<◌, ◌≡◌, refl, ◌∙◌, Bool, true, false, List, [], ◌∷◌, Option, none, some, arith,
  map, ltb, Bool-cases, inl, inr,
}
use heterogeneous_multicore.Net.DataPkt.{DataPkt}
use heterogeneous_multicore.Net.DataPkt.Laws.{gone, occurs}
use heterogeneous_multicore.Net.Switch.Counts.{queued, is_buffer}
use heterogeneous_multicore.Net.Switch.Ownership.{
  port_in_pkt_nocpy_owns, notify_ports-queued, heap-notify_ports,
}
use heterogeneous_multicore.Net.Port.{SwitchPort, notify_port}
use heterogeneous_multicore.Net.Switch.{Net, Ref, notify_ports, port_in_pkt_nocpy, map_option}
use heterogeneous_multicore.Net.Software.{SoftVportDev, soft_vport_in_nocpy, soft_vport_in_kick}

-- No port has a packet that its thread has not been told of.
abbrev pub AllTold : List SwitchPort → Type 0
AllTold [] = Unit
AllTold (p ∷ ps) = (p.need_notify ≡ false) × AllTold ps

abbrev pub Told? : Option SwitchPort → Type 0
Told? none = Unit
Told? (some p) = p.need_notify ≡ false

pub record Quiet (net : Net) : Type 0 where
  pub remote_told : Told? net.remote_port
  pub locals_told : AllTold net.local_port_list

told : (p : SwitchPort) → (notify_port p).need_notify ≡ false
unfolding notify_port
told p = ground arith

all_told : (ps : List SwitchPort) → AllTold (map notify_port ps)
all_told [] = tt
all_told (p ∷ ps) = (told p, all_told ps)

told? : (o : Option SwitchPort) → Told? (map_option notify_port o)
told? none = tt
told? (some p) = told p

pub notify_ports-Quiet : (net : Net) → Quiet (notify_ports net)
unfolding notify_ports
notify_ports-Quiet net = record {
  remote_told = told? net.remote_port;
  locals_told = all_told net.local_port_list;
}

-- The switch keeps its account of the packets, whatever is handed to it through the port.
pub soft_vport_in_nocpy_owns :
    (malloc : ℕ → Bool) (k : ℕ) (dev : SoftVportDev) (pkt : DataPkt) (net : Net)
    → let net' = (soft_vport_in_nocpy malloc dev pkt net).1 in
      queued k net' + gone k net'.heap + occurs k net.heap.made
      ≡ queued k net + is_buffer k pkt + gone k net.heap + occurs k net'.heap.made
unfolding soft_vport_in_nocpy
soft_vport_in_nocpy_owns malloc k dev pkt net =
    port_in_pkt_nocpy_owns malloc k pkt dev.port_dev (ltb dev.in_threshhold dev.in_count) net

pub soft_vport_in_kick_owns :
    (k : ℕ) (dev : SoftVportDev) (net : Net)
    → let net' = (soft_vport_in_kick dev net).1 in
      (queued k net' ≡ queued k net) × (net'.heap ≡ net.heap)
unfolding soft_vport_in_kick
soft_vport_in_kick_owns k dev net = elim (Bool-cases (ltb 0 dev.in_count)) [
  | inl e ↦ rw e (notify_ports-queued k net, heap-notify_ports k net)
  | inr e ↦ rw e (refl, refl)
]

-- What the code at a software port may do with it.
pub data Op : Type 0 where
  give : DataPkt → Op
  kick : Op

-- The count stays within its bound, and is 0 only if nobody is left to be told.
pub record Counting (dev : SoftVportDev) (net : Net) : Type 0 where
  pub bounded : dev.in_count ≤ dev.in_threshhold + 1
  pub waiting : dev.in_count ≡ 0 → Quiet net

module _ (malloc : ℕ → Bool) where
  abbrev pub step : Op → SoftVportDev × Net → SoftVportDev × Net
  step (give pkt) (dev, net) = soft_vport_in_nocpy malloc dev pkt net
  step kick (dev, net) = soft_vport_in_kick dev net

  abbrev pub run : List Op → SoftVportDev × Net → SoftVportDev × Net
  run [] s = s
  run (op ∷ ops) s = run ops (step op s)

  notified-Quiet :
      (src : Ref) (pkt : DataPkt) (net : Net) → Quiet (port_in_pkt_nocpy malloc src pkt true net)
  unfolding port_in_pkt_nocpy
  notified-Quiet src pkt net = notify_ports-Quiet _

  pub give-Counting :
      (dev : SoftVportDev) (pkt : DataPkt) (net : Net)
      → dev.in_threshhold < 255
      → Counting dev net
      → let (dev', net') = soft_vport_in_nocpy malloc dev pkt net in
        Counting dev' net' × (dev'.in_threshhold ≡ dev.in_threshhold)
  unfolding soft_vport_in_nocpy
  give-Counting dev pkt net small c = elim (Bool-cases (ltb dev.in_threshhold dev.in_count)) [
    | inl e ↦
        rw e (
          record { bounded = omega arith; waiting = λ z. notified-Quiet dev.port_dev pkt net },
          refl,
        )
    | inr e ↦ rw e (record { bounded = ground arith; waiting = λ z. absurd (ground arith) }, refl)
  ]

  pub kick-Quiet :
      (dev : SoftVportDev) (net : Net)
      → Counting dev net
      → let (dev', net') = soft_vport_in_kick dev net in
        Counting dev' net' × (dev'.in_threshhold ≡ dev.in_threshhold) × Quiet net'
  unfolding soft_vport_in_kick
  kick-Quiet dev net c = elim (Bool-cases (ltb 0 dev.in_count)) [
    | inl e ↦
        let q = notify_ports-Quiet net in
        rw e (record { bounded = omega arith; waiting = λ z. q }, refl, q)
    | inr e ↦ rw e (c, refl, c.waiting (ground arith))
  ]

  run-Counting :
      (ops : List Op) (dev : SoftVportDev) (net : Net)
      → dev.in_threshhold < 255
      → Counting dev net
      → let (dev', net') = run ops (dev, net) in
        Counting dev' net' × (dev'.in_threshhold ≡ dev.in_threshhold)
  run-Counting [] dev net small c = (c, refl)
  run-Counting (give pkt ∷ ops) dev net small c =
      let (c', same) = give-Counting dev pkt net small c in
      let (dev', net') = soft_vport_in_nocpy malloc dev pkt net in
      let (c'', same') = run-Counting ops dev' net' (omega arith) c' in (c'', same' ∙ same)
  run-Counting (kick ∷ ops) dev net small c =
      let (c', same, q) = kick-Quiet dev net c in
      let (dev', net') = soft_vport_in_kick dev net in
      let (c'', same') = run-Counting ops dev' net' (omega arith) c' in (c'', same' ∙ same)

  -- A software port whose threshold is below 255, and that begins with a count of 0 on a switch where
  -- no port still has to be notified: whatever packets are given and kicks made, the count is at most
  -- the threshold and one; and after one more kick no port of the switch has to be notified.
  pub kick_tells_all :
      (ops : List Op) (dev : SoftVportDev) (net : Net)
      → dev.in_threshhold < 255
      → dev.in_count ≡ 0
      → Quiet net
      → let (dev', net') = run ops (dev, net) in
        (dev'.in_count ≤ dev.in_threshhold + 1) × Quiet (soft_vport_in_kick dev' net').1
  kick_tells_all ops dev net small zero_count q =
      let (dev', net') = run ops (dev, net) in
      let (c, same) =
        run-Counting ops dev net small (record { bounded = omega arith; waiting = λ z. q }) in
      (omega (arith, c.bounded, same), (kick-Quiet dev' net' c).2)
