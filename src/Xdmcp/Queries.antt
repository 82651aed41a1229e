-- ===== src/Xdmcp/Queries.antt =====
-- daemon/scdm-xdmcp-display-factory.c: WILLING and UNWILLING, and the handlers of the four queries.
-- What libXdmcp reads from the packet is an argument, `none` for a value that cannot be read.

pub mod Willing
use scdm.Address.{Address, is_loopback, get_family_type}
use scdm.Prelude.{
  ℕ, zero, suc, ◌+◌, ◌*◌, Bool, true, false, not, ◌&&◌, ◌||◌, Option, none, some, List, [], ◌∷◌,
  ◌++◌, ltb, leb, ◌==◌, if◌then◌else◌, Bytes, codes, length, ◌>>=◌, is_some,
}
use scdm.Xdmcp.Forward.{forward_query_lookup, forward_query_destroy, forward_query_create}
use scdm.Xdmcp.Indirect.{indirect_client_lookup, indirect_client_destroy, indirect_client_create}
use scdm.Xdmcp.Managed.{whack_queued_managed_forwards}
use scdm.Xdmcp.Send.{
  willing_packet, unwilling_packet, forward_query_packet, port_for_request, address_for_request,
}
use scdm.Xdmcp.Sessions.{num_displays_from_host}
use scdm.Xdmcp.Types.{
  Factory, Host, ForwardQuery, IndirectClient, is_local_address, flush, xdm_udp_port,
}

pub or_sysid : Option Bytes → Bytes → Bytes
or_sysid none sysid = sysid
or_sysid (some output) sysid = output

-- `last_status`, taken anew if `last_willing` is 0 or more than three seconds ago.
unfoldable pub refresh_status : Host → Factory → Factory
unfolding or_sysid
refresh_status host factory =
    if (factory.last_willing == 0) || ltb (factory.last_willing + 3) host.now
    then record factory { last_status = or_sysid host.willing_output factory.sysid }
    else factory

-- A remote host that has its displays already is told that the server is busy.
unfoldable pub is_busy : Host → Address → Factory → Bool
is_busy host address factory =
    not (is_local_address host address)
    && leb factory.max_displays_per_host (num_displays_from_host host address factory)

unfoldable pub willing_status : Host → Address → Factory → Bytes
unfolding is_busy
willing_status host address factory =
    if is_busy host address factory
    then factory.last_status ++ codes " (Server is busy)"
    else factory.last_status

unfoldable pub send_willing : Host → Address → Factory → Factory
unfolding refresh_status willing_status flush
send_willing host address factory =
    let refreshed = refresh_status host factory in
    flush address (willing_packet refreshed.servhost (willing_status host address refreshed))
      refreshed

-- At most one packet per second.
unfoldable pub send_unwilling : Host → Address → Factory → Factory
unfolding flush
send_unwilling host address factory =
    if leb host.now (factory.last_time + 1)
    then factory
    else record (flush address (unwilling_packet factory.servhost) factory) { last_time = host.now }

-- The loop of the handlers over the names that were read.
unfoldable pub add_names : ℕ → List Bytes → ℕ
add_names expected [] = expected
add_names expected (a ∷ rest) = add_names (expected + (2 + length a)) rest

unfoldable pub query_read : Host → Address → (len : ℕ) → Option (List Bytes) → Factory → Factory
query_read host address len none factory = factory
query_read host address len (some authlist) factory =
    if len == add_names 1 authlist then send_willing host address factory else factory

unfoldable pub handle_direct_query :
    Host → Address → (len : ℕ) → Option (List Bytes) → Factory → Factory
unfolding query_read add_names
handle_direct_query host address len authlist factory = query_read host address len authlist factory

unfoldable pub handle_broadcast_query :
    Host → Address → (len : ℕ) → Option (List Bytes) → Factory → Factory
handle_broadcast_query host address len authlist factory =
    if host.host_allow address
    then handle_direct_query host address len authlist factory
    else factory

unfoldable pub handle_query : Host → Address → (len : ℕ) → Option (List Bytes) → Factory → Factory
handle_query host address len authlist factory =
    if host.host_allow address
    then handle_direct_query host address len authlist factory
    else send_unwilling host address factory

-- `ic->chosen_address` is the destination; the port is that of the sender. `none` is a crash.
unfoldable pub send_forward_query :
    (chosen address display_address : Address) → List Bytes → Factory → Option Factory
unfolding flush
send_forward_query chosen address display_address authlist factory = do
  port ← port_for_request address
  some (
      flush chosen (forward_query_packet (address_for_request display_address) port authlist)
        factory)

-- One FORWARD_QUERY for each local address that is no loopback.
unfoldable pub forward_each :
    (chosen address : Address) → List Address → List Bytes → Factory → Option Factory
unfolding send_forward_query
forward_each chosen address [] authlist factory = some factory
forward_each chosen address (saddr ∷ rest) authlist factory =
    (if not (is_loopback saddr)
      then send_forward_query chosen address saddr authlist factory
      else some factory)
    >>= λ sent. forward_each chosen address rest authlist sent

-- The client has chosen a host.
unfoldable pub indirect_chosen :
    Host → Address → List Bytes → IndirectClient → Address → Factory → Option Factory
unfolding forward_each
indirect_chosen host address authlist ic chosen factory =
    if is_local_address host chosen
    then some (send_willing host address (indirect_client_destroy ic factory))
    else if is_loopback address
    then forward_each chosen address host.local_list authlist factory
    else send_forward_query chosen address address authlist factory

unfoldable pub indirect_client_found :
    Host → Address → List Bytes → IndirectClient → Option Address → Factory → Option Factory
unfolding indirect_chosen
indirect_client_found host address authlist ic none factory =
    some (send_willing host address factory)
indirect_client_found host address authlist ic (some chosen) factory =
    indirect_chosen host address authlist ic chosen factory

unfoldable pub indirect_looked_up :
    Host → Address → List Bytes → Option IndirectClient × Factory → Option Factory
unfolding indirect_client_found
indirect_looked_up host address authlist (none, factory) =
    some (send_willing host address (indirect_client_create address factory))
indirect_looked_up host address authlist (some ic, factory) =
    indirect_client_found host address authlist ic ic.chosen_address factory

unfoldable pub indirect_read :
    Host → Address → (len : ℕ) → Option (List Bytes) → Factory → Option Factory
unfolding indirect_looked_up add_names
indirect_read host address len none factory = some factory
indirect_read host address len (some authlist) factory =
    if len == add_names 1 authlist
    then indirect_looked_up host address authlist (indirect_client_lookup host address factory)
    else some factory

-- The limits of an indirect query.
unfoldable pub is_full : Host → Address → Factory → Bool
is_full host address factory =
    ltb factory.max_displays factory.num_sessions
    || (not (is_local_address host address)
        && ltb factory.max_displays_per_host (num_displays_from_host host address factory))

unfoldable pub handle_indirect_query :
    Host → Address → (len : ℕ) → Option (List Bytes) → Factory → Option Factory
unfolding indirect_read is_full
handle_indirect_query host address len authlist factory =
    if not (host.host_allow address)
    then some factory
    else if not factory.honor_indirect
    then some factory
    else if is_full host address factory
    then some factory
    else indirect_read host address len authlist factory
