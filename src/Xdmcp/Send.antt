-- ===== src/Xdmcp/Send.antt =====
-- daemon/scdm-xdmcp-display-factory.c, the functions scdm_xdmcp_send_*: the packets that they build,
-- with the header lengths as they compute them in a CARD16, and those that only build and flush.
pub mod Lengths
use scdm.Address.{Address, inet, inet6, other}
use scdm.Prelude.{
  ℕ, ◌+◌, Bool, Option, none, some, List, [], ◌∷◌, ◌++◌, Bytes, codes, length, if◌then◌else◌,
}
use scdm.Xdmcp.Types.{
  u16, Factory, Packet, Field, card8, card32, array8, array_of_array8, Opcode, willing, unwilling,
  forward_query, accept, decline, refuse, failed, alive, managed_forward, got_managed_forward,
  xdm_protocol_version, gdm_xdmcp_protocol_version, flush,
}

-- `serv_authlist.authentication`: no authentication scheme.
abbrev no_auth : Bytes
no_auth = []

unfoldable pub willing_packet : (servhost status : Bytes) → Packet
willing_packet servhost status = record {
  version = xdm_protocol_version;
  opcode = willing;
  length = u16 (u16 (6 + length no_auth) + (u16 (length servhost) + u16 (length status)));
  fields = array8 no_auth ∷ array8 servhost ∷ array8 status ∷ [];
}

abbrev pub not_authorized : Bytes
not_authorized = codes "Display not authorized to connect"

unfoldable pub unwilling_packet : (servhost : Bytes) → Packet
unwilling_packet servhost = record {
  version = xdm_protocol_version;
  opcode = unwilling;
  length = u16 (4 + u16 (length servhost) + u16 (length not_authorized));
  fields = array8 servhost ∷ array8 not_authorized ∷ [];
}

-- `set_port_for_request` has no data for another family, and writing it dies.
unfoldable pub port_for_request : Address → Option Bytes
port_for_request (inet addr port) = some port
port_for_request (inet6 addr port) = some port
port_for_request (other family) = none

unfoldable pub address_for_request : Address → Bytes
address_for_request (inet addr port) = addr
address_for_request (inet6 addr port) = addr
address_for_request (other family) = []

-- The loop over the authentication names.
unfoldable pub add_authlist : ℕ → List Bytes → ℕ
add_authlist n [] = n
add_authlist n (a ∷ rest) = add_authlist (u16 (n + (2 + u16 (length a)))) rest

unfoldable pub forward_query_packet : (addr port : Bytes) → List Bytes → Packet
unfolding add_authlist
forward_query_packet addr port authlist = record {
  version = xdm_protocol_version;
  opcode = forward_query;
  length =
      add_authlist (u16 (u16 (u16 (2 + u16 (length addr)) + (2 + u16 (length port))) + 1)) authlist;
  fields = array8 addr ∷ array8 port ∷ array_of_array8 authlist ∷ [];
}

unfoldable pub managed_forward_packet : (addr : Bytes) → Packet
managed_forward_packet addr = record {
  version = gdm_xdmcp_protocol_version;
  opcode = managed_forward;
  length = u16 (4 + u16 (length addr));
  fields = array8 addr ∷ [];
}

unfoldable pub got_managed_forward_packet : (addr : Bytes) → Packet
got_managed_forward_packet addr = record {
  version = gdm_xdmcp_protocol_version;
  opcode = got_managed_forward;
  length = u16 (4 + u16 (length addr));
  fields = array8 addr ∷ [];
}

unfoldable pub decline_packet : (reason : Bytes) → Packet
decline_packet reason = record {
  version = xdm_protocol_version;
  opcode = decline;
  length = u16 (u16 (u16 (2 + u16 (length reason)) + (2 + length no_auth)) + (2 + length no_auth));
  fields = array8 reason ∷ array8 no_auth ∷ array8 no_auth ∷ [];
}

unfoldable pub accept_packet :
    (session_id : ℕ)
    (authentication_name authentication_data authorization_name authorization_data : Bytes)
    → Packet
accept_packet session_id n d z e = record {
  version = xdm_protocol_version;
  opcode = accept;
  length = u16 (
      u16 (u16 (u16 (4 + (2 + u16 (length n))) + (2 + u16 (length d))) + (2 + u16 (length z)))
      + (2 + u16 (length e)));
  fields = card32 session_id ∷ array8 n ∷ array8 d ∷ array8 z ∷ array8 e ∷ [];
}

abbrev pub failed_to_start : Bytes
failed_to_start = codes "Failed to start session"

unfoldable pub failed_packet : (session_id : ℕ) → Packet
failed_packet session_id = record {
  version = xdm_protocol_version;
  opcode = failed;
  length = u16 (6 + u16 (length failed_to_start));
  fields = card32 session_id ∷ array8 failed_to_start ∷ [];
}

unfoldable pub refuse_packet : (session_id : ℕ) → Packet
refuse_packet session_id = record {
  version = xdm_protocol_version;
  opcode = refuse;
  length = 4;
  fields = card32 session_id ∷ [];
}

unfoldable pub alive_packet : (running session_id : ℕ) → Packet
alive_packet running session_id = record {
  version = xdm_protocol_version;
  opcode = alive;
  length = 5;
  fields = card8 running ∷ card32 session_id ∷ [];
}

unfoldable pub really_send_managed_forward : (address origin : Address) → Factory → Factory
unfolding flush
really_send_managed_forward address origin factory =
    flush address (managed_forward_packet (address_for_request origin)) factory

unfoldable pub send_got_managed_forward : (address origin : Address) → Factory → Factory
unfolding flush
send_got_managed_forward address origin factory =
    flush address (got_managed_forward_packet (address_for_request origin)) factory

unfoldable pub send_accept : Address → (session_id : ℕ) → (cookie : Bytes) → Factory → Factory
unfolding flush
send_accept address session_id cookie factory =
    flush address (accept_packet session_id [] [] (codes "MIT-MAGIC-COOKIE-1") cookie) factory

unfoldable pub send_failed : Address → (session_id : ℕ) → Factory → Factory
unfolding flush
send_failed address session_id factory = flush address (failed_packet session_id) factory
