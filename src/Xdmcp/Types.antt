-- ===== src/Xdmcp/Types.antt =====
-- daemon/scdm-xdmcp-display-factory.c: constants, packets, the factory's state, and what a handler
-- takes from outside. A `GSList` is a list, its head first; a pointer is a number from
-- `next_pointer`, the count of allocations; the configuration and the static variables of functions
-- are fields too. Packets that are sent are a log, newest first.
use scdm.AccessFile.{XauthHost}
use scdm.Address.{Address, is_local, equal}
use scdm.Display.Setup.{SetupHost}
use scdm.Display.{Display}
use scdm.DisplayStore.{Store}
use scdm.Prelude.{ℕ, ◌+◌, ◌%◌, ◌≡◌, Bool, false, Option, none, some, List, [], ◌∷◌, Bytes, length}

abbrev pub max_forward_queries : ℕ
max_forward_queries = 10

abbrev pub forward_query_timeout : ℕ
forward_query_timeout = 30

abbrev pub u32 : ℕ → ℕ
u32 n = n % 4294967296

abbrev pub xdm_protocol_version : ℕ
xdm_protocol_version = 1

abbrev pub gdm_xdmcp_protocol_version : ℕ
gdm_xdmcp_protocol_version = 1001

abbrev pub xdm_udp_port : ℕ
xdm_udp_port = 177

abbrev pub u16 : ℕ → ℕ
u16 n = n % 65536

-- The opcodes of XDMCP, and the two of this program (1000 and 1001).
pub data Opcode : Type 0 where
  broadcast_query query indirect_query forward_query willing unwilling request accept : Opcode
  decline manage refuse failed keepalive alive managed_forward got_managed_forward : Opcode

-- The values that libXdmcp writes into a packet.
pub data Field : Type 0 where
  card8 card32 : ℕ → Field
  array8 : Bytes → Field
  array_of_array8 : List Bytes → Field

-- A header with the values behind it.
pub record Packet : Type 0 where
  pub version : ℕ
  pub opcode : Opcode
  pub length : ℕ
  pub fields : List Field

pub record ForwardQuery : Type 0 where
  pub pointer : ℕ
  pub acctime : ℕ
  pub dsp_address : Address
  pub from_address : Address

pub record IndirectClient : Type 0 where
  pub pointer : ℕ
  pub dsp_address : Address
  pub chosen_address : Option Address
  pub acctime : ℕ

-- An entry has its timeout source as long as it is in the list.
pub record ManagedForward : Type 0 where
  pub pointer : ℕ
  pub times : ℕ
  pub manager : Address
  pub origin : Address

pub record Config : Type 0 where
  pub honor_indirect : Bool
  pub max_displays_per_host : ℕ
  pub max_displays : ℕ
  pub max_pending_displays : ℕ
  pub max_wait : ℕ
  pub max_wait_indirect : ℕ

pub record Factory : Type 0 where
  pub config : Config
  pub open config use *
  pub forward_queries : List ForwardQuery
  pub managed_forwards : List ManagedForward
  pub indirect_clients : List IndirectClient
  pub next_pointer : ℕ
  pub socket_open : Bool
  pub session_serial : ℕ
  pub num_sessions : ℕ
  pub num_pending_sessions : ℕ
  pub sysid : Bytes
  pub servhost : Bytes
  pub last_status : Bytes
  pub last_willing : ℕ
  pub last_time : ℕ
  pub store : Store Display
  pub purge_queued : Bool
  pub sent : List (Address × Packet)

-- What the handling of one packet takes from outside: the clock, the build option for IPv6, the
-- list that `scdm_address_peek_local_list` returns, tcp_wrappers, the numeric form of an address,
-- the output of the willing script, the resolver (address bytes, port, family), and what a new
-- display needs. The random numbers are those that `g_random_int` will give.
pub record Host : Type 0 where
  pub now : ℕ
  pub ipv6 : Bool
  pub local_list : List Address
  pub host_allow : Address → Bool
  pub numeric_host : Address → Bytes
  pub willing_output : Option Bytes
  pub get_addr_info : Bytes → ℕ → ℕ → Option Address
  pub random : List ℕ
  pub setup : SetupHost
  pub xauth : XauthHost

abbrev pub is_local_address : Host → Address → Bool
is_local_address host address = is_local host.ipv6 host.local_list address

abbrev pub same_address : Host → Address → Address → Bool
same_address host a b = equal host.ipv6 a b

-- `scdm_address_equal` is FALSE for a missing address.
unfoldable pub same_address? : Host → Option Address → Address → Bool
same_address? host none b = false
same_address? host (some a) b = same_address host a b

-- Writing the values and flushing them to an address.
unfoldable pub flush : Address → Packet → Factory → Factory
flush address packet factory = record factory { sent = (address, packet) ∷ factory.sent }

-- The number of bytes of each value in a packet, by the protocol: an ARRAY8 has a two-byte length
-- in front, an array of them a one-byte count.
unfoldable pub array8_size : List Bytes → ℕ
array8_size [] = 0
array8_size (a ∷ as_) = 2 + length a + array8_size as_

unfoldable pub field_size : Field → ℕ
unfolding array8_size
field_size (card8 n) = 1
field_size (card32 n) = 4
field_size (array8 a) = 2 + length a
field_size (array_of_array8 list) = 1 + array8_size list

unfoldable pub wire_size : List Field → ℕ
unfolding field_size
wire_size [] = 0
wire_size (f ∷ fields) = field_size f + wire_size fields

-- A packet whose header declares the bytes that follow it.
unfoldable pub DeclaresItsSize : Packet → Type 0
DeclaresItsSize packet = packet.length ≡ u16 (wire_size packet.fields)
