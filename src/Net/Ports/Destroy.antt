-- ===== src/Net/Ports/Destroy.antt =====
-- What becomes of the packets in a switch that is destroyed.
use heterogeneous_multicore.Base.{
  ℕ, ◌+◌, ◌≡◌, refl, sym, ap, subst, false, List, [], ◌∷◌, some, arith, Bool-cases, inl, inr,
}
use heterogeneous_multicore.Net.DataPkt.Laws.{gone}
use heterogeneous_multicore.Net.Port.{SwitchPort}
use heterogeneous_multicore.Net.Switch.{Net}
use heterogeneous_multicore.Net.Switch.Counts.{in_queue, in_port?, in_ports, queued}
use heterogeneous_multicore.Net.Ports.{switch_remove_port, remove_all, switch_destroy}
use heterogeneous_multicore.Net.Ports.Laws.{AllFreeable, gone-free_all, retained-freeable}

-- Every packet in the queues of some ports may be freed.
abbrev pub AllQueuesFreeable : List SwitchPort → Type 0
AllQueuesFreeable [] = Unit
AllQueuesFreeable (p ∷ ps) = AllFreeable p.data_out × AllQueuesFreeable ps

remove_port-gone :
    (k : ℕ) (p : SwitchPort) (net : Net)
    → AllFreeable p.data_out
    → gone k (switch_remove_port p net).0.heap ≡ in_queue k p.data_out + gone k net.heap
unfolding switch_remove_port
remove_port-gone k p net f =
    let freed = gone-free_all k p.data_out net.heap in
    let none_stays = ap (in_queue k) (retained-freeable p.data_out f) in
    elim (Bool-cases p.is_local) [
      | inl e ↦ rw e (omega (arith, freed, none_stays))
      | inr e ↦ rw e (omega (arith, freed, none_stays))
    ]

remove_all-gone :
    (k : ℕ) (ps : List SwitchPort) (net : Net)
    → AllQueuesFreeable ps
    → gone k (remove_all ps net).heap ≡ in_ports k ps + gone k net.heap
unfolding remove_all
remove_all-gone k [] net f = omega arith
remove_all-gone k (p ∷ ps) net f =
    omega
      (arith, remove_port-gone k p net f.0, remove_all-gone k ps (switch_remove_port p net).0 f.1)

locals_stay :
    (p : SwitchPort) (net : Net)
    → p.is_local ≡ false
    → (switch_remove_port p net).0.local_port_list ≡ net.local_port_list
unfolding switch_remove_port
locals_stay p net e = rw e refl

-- A switch that is destroyed gives back every buffer of its ports' queues as often as it stands in
-- them, on top of what was given back before, if there is a remote port and every queued packet may
-- be freed.
pub switch_destroy-gone :
    (net : Net) (r : SwitchPort)
    → net.remote_port ≡ some r
    → r.is_local ≡ false
    → AllFreeable r.data_out
    → AllQueuesFreeable net.local_port_list
    → (net' : Net) × (switch_destroy net ≡ some net')
      × ((k : ℕ) → gone k net'.heap ≡ queued k net + gone k net.heap)
unfolding switch_destroy
switch_destroy-gone net r there off fr f =
    let net1 = (switch_remove_port r net).0 in
    let same = locals_stay r net off in
    (
      remove_all net1.local_port_list net1,
      rw there refl,
      λ k. omega (
        arith,
        remove_all-gone k net1.local_port_list net1 (subst AllQueuesFreeable (sym same) f),
        remove_port-gone k r net fr,
        ap (in_ports k) same,
        ap (in_port? k) there,
      ),
    )
