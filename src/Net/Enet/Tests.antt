-- ===== src/Net/Enet/Tests.antt =====
-- The Ethernet and the software port on small inputs: the theorems where their hypotheses hold.
use heterogeneous_multicore.Base.{◌<◌, ◌≤◌, List, [], arith, none, refl, true, ℕ, ◌∷◌, ◌≡◌}
use heterogeneous_multicore.Net.DataPkt.{DataPkt}
use heterogeneous_multicore.Net.DataPkt.Laws.{occurs}
use heterogeneous_multicore.Net.Switch.{local}
use heterogeneous_multicore.Net.Software.{SoftVportDev, soft_vport_in_kick}
use heterogeneous_multicore.Net.Software.Laws.{Quiet, give, run, kick_tells_all}
use heterogeneous_multicore.Net.Enet.{
  EnetStats, success, drop, all_unused, rx_buff_alloc, enet_process_pkts,
}
use heterogeneous_multicore.Net.Enet.Pool.{ask, give_back, rx_buff_alloc_safe}
use heterogeneous_multicore.Net.Enet.Pool
use heterogeneous_multicore.Net.Enet.Laws.{Owned, enet_process_pkts_owns}
use heterogeneous_multicore.Net.Tests.{three, flooded, grouped, memory}

three-Quiet : Quiet three
three-Quiet = record { remote_told = refl; locals_told = (refl, (refl, (refl, tt))) }

abbrev soft_port : SoftVportDev
soft_port = record { in_count = 0; in_threshhold = 1; port_dev = local 1 }

-- The third packet comes after two of which the threads were not told.
kick_tells_all_example :
    let (dev', net') =
      run memory (give flooded ∷ give grouped ∷ give flooded ∷ []) (soft_port, three) in
    (dev'.in_count ≤ 2) × Quiet (soft_vport_in_kick dev' net').1
kick_tells_all_example =
    kick_tells_all memory (give flooded ∷ give grouped ∷ give flooded ∷ []) soft_port three
      (omega arith) refl three-Quiet

abbrev buffers : List DataPkt
buffers = record flooded { buffer = 0 } ∷ record flooded { buffer = 1 } ∷ []

-- Two buffers: the first is given back and asked for again.
rx_buff_alloc_safe_example :
    let (ps, held) = Pool.run (ask ∷ ask ∷ give_back 0 ∷ ask ∷ []) (all_unused buffers, []) in
    ((j : ℕ) → occurs j held ≤ 1)
    × ((rx_buff_alloc ps).0 ≡ none → (j : ℕ) → j < 2 → occurs j held ≡ 1)
rx_buff_alloc_safe_example = rx_buff_alloc_safe (ask ∷ ask ∷ give_back 0 ∷ ask ∷ []) buffers

abbrev no_enet_stats : EnetStats
no_enet_stats = record {
  rx_pkts = 0;
  rx_dropped = 0;
  err_stats = record {
    truncate_err = 0;
    crc_err = 0;
    over_run_err = 0;
    align_err = 0;
    rx_len_greater_err = 0;
  };
  tx_pkts = 0;
  tx_err_pkts = 0;
}

enet_process_pkts_owns_example :
    let net' =
      (enet_process_pkts memory (local 1) (success flooded 7 ∷ drop ∷ []) no_enet_stats three).1 in
    Owned 5 1 three net' × (true ≡ true → Quiet net')
enet_process_pkts_owns_example =
    enet_process_pkts_owns memory (local 1) 5 (success flooded 7 ∷ drop ∷ []) no_enet_stats three
