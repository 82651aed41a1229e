-- ===== src/Xdmcp/ForwardQueries/Checksum.antt =====
-- The length checks of the query handlers against the packets that are sent:
-- daemon/scdm-xdmcp-display-factory.c.
use scdm.Prelude.{ℕ, ◌+◌, ◌<◌, ◌≡◌, List, [], ◌∷◌, arith, Bytes, length}
use scdm.Xdmcp.ForwardQueries.{forward_expected_length}
use scdm.Xdmcp.Queries.{add_names}
use scdm.Xdmcp.Send.Lengths.{Standard-DeclaresItsSize}
use scdm.Xdmcp.Send.Lengths
use scdm.Xdmcp.Send.{forward_query_packet}
use scdm.Xdmcp.Types.{DeclaresItsSize, wire_size, array8_size, array_of_array8}

add_names_lem : (n : ℕ) (names : List Bytes) → add_names n names ≡ n + array8_size names
unfolding add_names array8_size
add_names_lem n [] = omega arith
add_names_lem n (a ∷ rest) = omega (arith, add_names_lem (n + (2 + length a)) rest)

-- The handlers of the direct and the indirect queries expect the size that the protocol gives to a
-- list of names.
pub query_expected_length :
    (authlist : List Bytes) → add_names 1 authlist ≡ wire_size (array_of_array8 authlist ∷ [])
unfolding wire_size
query_expected_length authlist = omega (arith, add_names_lem 1 authlist)

-- A FORWARD_QUERY that one manager sends passes the length check of the manager that reads the same
-- values from it, as long as the size fits the 16 bits of the header.
pub forward_query_accepted :
    (addr port : Bytes) (authlist : List Bytes)
    → wire_size (forward_query_packet addr port authlist).fields < 65536
    → (forward_query_packet addr port authlist).length
      ≡ forward_expected_length
          (record { clnt_addr = addr; clnt_port = port; clnt_authlist = authlist })
unfolding forward_expected_length DeclaresItsSize wire_size forward_query_packet
forward_query_accepted addr port authlist h = omega (
  arith,
  Standard-DeclaresItsSize (Lengths.forward_query addr port authlist),
  add_names_lem (1 + (2 + length addr) + (2 + length port)) authlist,
)
