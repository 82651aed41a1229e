-- ===== src/Xdmcp/Indirect.antt =====
-- daemon/scdm-xdmcp-display-factory.c: the table of indirect clients, and the choice that a chooser
-- reports for one of them.
pub mod Laws
use scdm.Address.{Address, is_loopback, get_family_type}
use scdm.Prelude.{
  ℕ, zero, suc, ◌+◌, Bool, true, false, ◌&&◌, ◌||◌, Option, none, some, List, [], ◌∷◌, ltb, ◌==◌,
  if◌then◌else◌, Bytes, ◌>>=◌,
}
use scdm.Xdmcp.Types.{
  Factory, IndirectClient, Host, same_address, same_address?, is_local_address, xdm_udp_port,
}

unfoldable pub indirect_client_create : Address → Factory → Factory
indirect_client_create dsp_address factory = record factory {
  indirect_clients =
      record {
        pointer = factory.next_pointer;
        dsp_address = dsp_address;
        chosen_address = none;
        acctime = 0;
      }
      ∷ factory.indirect_clients;
  next_pointer = suc factory.next_pointer;
}

remove_client : ℕ → List IndirectClient → List IndirectClient
remove_client pointer [] = []
remove_client pointer (ic ∷ rest) =
    if ic.pointer == pointer then rest else ic ∷ remove_client pointer rest

unfoldable pub indirect_client_destroy : IndirectClient → Factory → Factory
unfolding remove_client
indirect_client_destroy ic factory = record factory {
  indirect_clients = remove_client ic.pointer factory.indirect_clients;
}

-- The test of `indirect_client_lookup_by_chosen`.
unfoldable pub matches_choice : Host → (chosen origin : Address) → IndirectClient → Bool
unfolding same_address?
matches_choice host chosen origin ic =
    same_address? host ic.chosen_address chosen
    && (same_address host ic.dsp_address origin
        || (is_loopback ic.dsp_address && is_local_address host origin))

lookup_chosen : Host → (chosen origin : Address) → List IndirectClient → Option IndirectClient
unfolding matches_choice
lookup_chosen host chosen origin [] = none
lookup_chosen host chosen origin (ic ∷ rest) =
    if matches_choice host chosen origin ic then some ic else lookup_chosen host chosen origin rest

unfoldable pub indirect_client_lookup_by_chosen :
    Host → (chosen origin : Address) → Factory → Option IndirectClient
unfolding lookup_chosen
indirect_client_lookup_by_chosen host chosen origin factory =
    lookup_chosen host chosen origin factory.indirect_clients

-- The loop of `indirect_client_lookup` over a copy of the list.
unfoldable pub lookup_clients :
    Host → Address → List IndirectClient → Factory → Option IndirectClient × Factory
unfolding indirect_client_destroy
lookup_clients host address [] factory = (none, factory)
lookup_clients host address (ic ∷ rest) factory =
    let stale = ltb 0 ic.acctime && ltb (ic.acctime + factory.max_wait_indirect) host.now in
    let later =
      lookup_clients host address rest
        (if stale then indirect_client_destroy ic factory else factory) in
    if same_address host ic.dsp_address address then (some ic, factory) else later

unfoldable pub indirect_client_lookup : Host → Address → Factory → Option IndirectClient × Factory
unfolding lookup_clients
indirect_client_lookup host address factory =
    lookup_clients host address factory.indirect_clients factory

set_choice : ℕ → Option Address → List IndirectClient → List IndirectClient
set_choice pointer chosen [] = []
set_choice pointer chosen (ic ∷ rest) =
    if ic.pointer == pointer
    then record ic { chosen_address = chosen } ∷ rest
    else ic ∷ set_choice pointer chosen rest

select : Option Address → Option IndirectClient × Factory → Option Factory
unfolding set_choice
select chosen (none, factory) = none
select chosen (some ic, factory) =
    some
      (record factory { indirect_clients = set_choice ic.pointer chosen factory.indirect_clients })

-- `on_hostname_selected` for a display at `address` whose user chose a host: `host_bytes` are the
-- bytes that the name resolves to. An answer that cannot be resolved leaves no choice, and a client
-- that is gone is a null pointer.
unfoldable pub on_hostname_selected : Host → Address → Bytes → Factory → Option Factory
unfolding select
on_hostname_selected host address host_bytes factory =
    select (host.get_addr_info host_bytes xdm_udp_port (get_family_type address))
      (indirect_client_lookup host address factory)
