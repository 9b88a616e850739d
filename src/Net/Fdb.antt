-- ===== src/Net/Fdb.antt =====
-- The forwarding table of a local port: vs_port_add_fdb_entry and vs_port_remove_fdb_entry of
-- net/net_switch.c, and the switching on and off of ports.
pub mod Laws
use heterogeneous_multicore.Base.{
  ℕ, zero, suc, Bool, true, false, not, List, [], ◌∷◌, ◌++◌, Option, none, some, if◌then◌else◌,
}
use heterogeneous_multicore.Base.Int.{ℤ, pos, negsuc}
use heterogeneous_multicore.Net.Port.{SwitchPort, cmp_mac_addr, mac_addr_len, first, rest}

-- The calls of the remote port's setup_address_cb.
pub data AddrOp : Type 0 where
  add : List ℕ → AddrOp
  del : List ℕ → AddrOp
  update : List ℕ → List ℕ → AddrOp

-- memcpy of MAC_ADDR_LEN bytes
abbrev pub copy_mac : ℕ → List ℕ → List ℕ
copy_mac zero mac = []
copy_mac (suc n) mac = first mac ∷ copy_mac n (rest mac)

-- The calls are made if there is a remote port.
abbrev pub told : Bool → AddrOp → List AddrOp
told has_remote op = if has_remote then op ∷ [] else []

-- The search of both functions compares the new address with each entry.
unfoldable pub fdb_finds : List ℕ → List (List ℕ) → Bool
fdb_finds mac [] = false
fdb_finds mac (entry ∷ table) = if cmp_mac_addr mac entry then true else fdb_finds mac table

-- `port->is_local` is asserted: the port is a local one.
unfoldable pub vs_port_add_fdb_entry : Bool → SwitchPort → List ℕ → ℤ × SwitchPort × List AddrOp
unfolding fdb_finds
vs_port_add_fdb_entry has_remote port mac =
    if fdb_finds mac port.fdb_table then (negsuc 0, port, []) else (
      pos 0,
      record port {
        fdb_table = port.fdb_table ++ copy_mac mac_addr_len mac ∷ [];
        fdb_enabled = true;
        power_on = true;
      },
      told has_remote (add mac),
    )

unfoldable pub remove_first : List ℕ → List (List ℕ) → List (List ℕ)
remove_first mac [] = []
remove_first mac (entry ∷ table) =
    if cmp_mac_addr mac entry then table else entry ∷ remove_first mac table

abbrev pub is_empty : List (List ℕ) → Bool
is_empty [] = true
is_empty (entry ∷ table) = false

unfoldable pub vs_port_remove_fdb_entry : Bool → SwitchPort → List ℕ → ℤ × SwitchPort × List AddrOp
unfolding fdb_finds remove_first
vs_port_remove_fdb_entry has_remote port mac =
    if not port.fdb_enabled
    then (negsuc 0, port, [])
    else if fdb_finds mac port.fdb_table
    then (
      pos 0,
      record port {
        fdb_table = remove_first mac port.fdb_table;
        fdb_enabled =
            if is_empty (remove_first mac port.fdb_table) then false else port.fdb_enabled;
        power_on = true;
      },
      told has_remote (del mac),
    )
    else (negsuc 0, port, [])

unfoldable pub port_update_addr : Bool → SwitchPort → List ℕ → SwitchPort × List AddrOp
port_update_addr has_remote port mac = (
  record port { mac_addr = copy_mac mac_addr_len mac; power_on = true },
  told has_remote (update mac port.mac_addr),
)

unfoldable pub port_on : SwitchPort → Bool → SwitchPort
port_on port on = record port { power_on = on }
