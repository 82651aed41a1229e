-- ===== src/Xdmcp/ForwardQueries.antt =====
-- daemon/scdm-xdmcp-display-factory.c: FORWARD_QUERY, which another manager sends for a display, and
-- the addresses that packets carry.
pub mod Checksum
use scdm.Address.{Address, get_family_type}
use scdm.Prelude.{
  ℕ, ◌+◌, ◌*◌, Bool, true, false, ◌||◌, Option, none, some, List, [], ◌∷◌, ◌==◌, if◌then◌else◌,
  Bytes, length, ◌>>=◌,
}
use scdm.Xdmcp.Forward.{forward_query_lookup, forward_query_destroy, forward_query_create}
use scdm.Xdmcp.Managed.{whack_queued_managed_forwards}
use scdm.Xdmcp.Queries.{send_willing, add_names}
use scdm.Xdmcp.Types.{Factory, Host, ForwardQuery, xdm_udp_port}

-- The two bytes of a port, in network order.
port_number : Bytes → Option ℕ
port_number (hi ∷ lo ∷ []) = some (256 * hi + lo)
port_number _ = none

request_port : Option Bytes → Option ℕ
unfolding port_number
request_port none = some xdm_udp_port
request_port (some port) = port_number port

-- `create_address_from_request`: a port of another length than 2, an address of another length
-- than 4 or 16, and a name that does not resolve are refused.
unfoldable pub create_address_from_request :
    Host → (req_addr : Bytes) → (req_port : Option Bytes) → (family : ℕ) → Option Address
unfolding request_port
create_address_from_request host req_addr req_port family = do
  port ← request_port req_port
  if (length req_addr == 4) || (length req_addr == 16)
      then host.get_addr_info req_addr port family
      else none

-- The values of a FORWARD_QUERY.
pub record ForwardRead : Type 0 where
  pub clnt_addr : Bytes
  pub clnt_port : Bytes
  pub clnt_authlist : List Bytes

unfoldable pub forward_expected_length : ForwardRead → ℕ
unfolding add_names
forward_expected_length r =
    add_names (1 + (2 + length r.clnt_addr) + (2 + length r.clnt_port)) r.clnt_authlist

unfoldable pub drop_query : Option ForwardQuery × Factory → Factory
drop_query (none, factory) = factory
drop_query (some q, factory) = forward_query_destroy q factory

-- The query for this display replaces an older one.
unfoldable pub forward_allowed : Host → (address disp_address : Address) → Factory → Factory
unfolding drop_query
forward_allowed host address disp_address factory = send_willing host disp_address (
    forward_query_create address disp_address
      (drop_query (forward_query_lookup host disp_address factory)))

unfoldable pub forward_addressed : Host → Address → Option Address → Factory → Factory
unfolding forward_allowed
forward_addressed host address none factory = factory
forward_addressed host address (some disp_address) factory =
    let whacked = whack_queued_managed_forwards host address disp_address factory in
    if host.host_allow disp_address
    then forward_allowed host address disp_address whacked
    else whacked

unfoldable pub forward_read : Host → Address → (len : ℕ) → Option ForwardRead → Factory → Factory
unfolding forward_expected_length create_address_from_request forward_addressed
forward_read host address len none factory = factory
forward_read host address len (some r) factory =
    if len == forward_expected_length r
    then forward_addressed host address
        (create_address_from_request host r.clnt_addr (some r.clnt_port) (get_family_type address))
        factory
    else factory

unfoldable pub handle_forward_query :
    Host → Address → (len : ℕ) → Option ForwardRead → Factory → Factory
unfolding forward_read
handle_forward_query host address len read factory =
    if host.host_allow address then forward_read host address len read factory else factory
