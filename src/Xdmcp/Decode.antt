-- ===== src/Xdmcp/Decode.antt =====
-- daemon/scdm-xdmcp-display-factory.c: the watch on the socket, which reads a packet and calls the
-- handler of its opcode.
pub mod Silence
use scdm.Address.{Address, new_from_sockaddr}
use scdm.Prelude.{
  ℕ, Bool, true, false, not, ◌&&◌, Option, none, some, List, [], ◌∷◌, ◌==◌, if◌then◌else◌, Bytes,
}
use scdm.Xdmcp.ForwardQueries.{ForwardRead, handle_forward_query}
use scdm.Xdmcp.Manage.{
  ManageRead, handle_manage, handle_managed_forward, handle_got_managed_forward, handle_keepalive,
}
use scdm.Xdmcp.Queries.{handle_broadcast_query, handle_query, handle_indirect_query}
use scdm.Xdmcp.Requests.{RequestRead, handle_request}
use scdm.Xdmcp.Types.{
  Factory, Host, Opcode, broadcast_query, query, indirect_query, forward_query, willing, unwilling,
  request, accept, decline, manage, refuse, failed, keepalive, alive, managed_forward,
  got_managed_forward, xdm_protocol_version, gdm_xdmcp_protocol_version,
}

-- What the readers of libXdmcp give behind the header, for the handler that asks for it.
pub record Reads : Type 0 where
  pub authlist : Option (List Bytes)
  pub forward : Option ForwardRead
  pub request : RequestRead
  pub manage : ManageRead
  pub display_address : Option Bytes
  pub session : Option (ℕ × ℕ)

-- A wake-up of the watch: whether there is something to read, whether it was read, the header
-- (version, opcode and length) if there is one, and the sender with the size of its address.
pub record Datagram : Type 0 where
  pub is_input : Bool
  pub is_filled : Bool
  pub header : Option (ℕ × ℕ × ℕ)
  pub sender : Address
  pub sender_size : ℕ
  pub reads : Reads

-- The numbers of the opcodes in the protocol's header file, and the two of this program.
abbrev opcodes : List (ℕ × Opcode)
opcodes =
    (1, broadcast_query)
    ∷ (2, query)
    ∷ (3, indirect_query)
    ∷ (4, forward_query)
    ∷ (5, willing)
    ∷ (6, unwilling)
    ∷ (7, request)
    ∷ (8, accept)
    ∷ (9, decline)
    ∷ (10, manage)
    ∷ (11, refuse)
    ∷ (12, failed)
    ∷ (13, keepalive)
    ∷ (14, alive)
    ∷ (1000, managed_forward)
    ∷ (1001, got_managed_forward)
    ∷ []

opcode_in : List (ℕ × Opcode) → ℕ → Option Opcode
opcode_in [] n = none
opcode_in ((number, opcode) ∷ rest) n = if number == n then some opcode else opcode_in rest n

unfoldable pub opcode_of : ℕ → Option Opcode
unfolding opcode_in
opcode_of n = opcode_in opcodes n

-- The switch; the opcodes that a server sends, and unknown ones, do nothing.
unfoldable pub dispatch :
    Host → Address → Option Opcode → (len : ℕ) → Reads → Factory → Option Factory
dispatch host address (some broadcast_query) len r factory =
    some (handle_broadcast_query host address len r.authlist factory)
dispatch host address (some query) len r factory =
    some (handle_query host address len r.authlist factory)
dispatch host address (some indirect_query) len r factory =
    handle_indirect_query host address len r.authlist factory
dispatch host address (some forward_query) len r factory =
    some (handle_forward_query host address len r.forward factory)
dispatch host address (some request) len r factory =
    handle_request host address len r.request factory
dispatch host address (some manage) len r factory = handle_manage host address r.manage factory
dispatch host address (some keepalive) len r factory =
    some (handle_keepalive host address r.session factory)
dispatch host address (some managed_forward) len r factory =
    some (handle_managed_forward host address r.display_address factory)
dispatch host address (some got_managed_forward) len r factory =
    some (handle_got_managed_forward host address r.display_address factory)
dispatch host address _ len r factory = some factory

unfoldable pub dispatch_from :
    Host → Option Address → Option Opcode → (len : ℕ) → Reads → Factory → Option Factory
unfolding dispatch
dispatch_from host none opcode len r factory = some factory
dispatch_from host (some address) opcode len r factory = dispatch host address opcode len r factory

unfoldable pub decode_header : Host → Datagram → Option (ℕ × ℕ × ℕ) → Factory → Option Factory
unfolding dispatch_from opcode_of new_from_sockaddr
decode_header host d none factory = some factory
decode_header host d (some (version, opcode, len)) factory =
    if not (version == xdm_protocol_version) && not (version == gdm_xdmcp_protocol_version)
    then some factory
    else dispatch_from host (new_from_sockaddr d.sender d.sender_size) (opcode_of opcode) len
        d.reads factory

unfoldable pub decode_packet : Host → Datagram → Factory → Option Factory
unfolding decode_header
decode_packet host d factory =
    if not d.is_input
    then some factory
    else if not d.is_filled
    then some factory
    else decode_header host d d.header factory
