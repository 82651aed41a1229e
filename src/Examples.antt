-- ===== src/Examples.antt =====
-- Concrete hosts, packets and displays at which the theorems on the daemon's sources are tried.
pub mod Displays
pub mod Xdmcp
pub mod Packets
pub mod LocalFactory
pub mod Worker
pub mod WorkerMessages
pub mod Session
use scdm.AccessFile.{XauthHost, AccessFile, DisplayInfo}
use scdm.Address.{Address, inet, inet6}
use scdm.Display.Setup.{SetupHost}
use scdm.Display.{Display, unmanaged, xdmcp_display, managed}
use scdm.Prelude.{ℕ, Bool, true, false, Option, none, some, List, [], ◌∷◌, Bytes, codes}
use scdm.Xdmcp.Decode.{Datagram, Reads}
use scdm.Xdmcp.Displays.{display_new}
use scdm.Xdmcp.Events.{start}
use scdm.Xdmcp.Requests.{RequestRead, Request}
use scdm.Xdmcp.Types.{Host, Config, Factory}

abbrev pub client : Address
client = inet (10 ∷ 0 ∷ 0 ∷ 7 ∷ []) (176 ∷ 1 ∷ [])

abbrev pub manager : Address
manager = inet (10 ∷ 0 ∷ 0 ∷ 9 ∷ []) (0 ∷ 177 ∷ [])

abbrev pub own : Address
own = inet (10 ∷ 0 ∷ 0 ∷ 1 ∷ []) (0 ∷ 0 ∷ [])

abbrev pub setup : SetupHost
setup = record {
  cached_users = some 1;
  already_done = false;
  setup_argument = none;
  can_create_environment = true;
  setting = some true;
}

abbrev pub xauth : XauthHost
xauth = record {
  create_file = λ user. some (codes "/run/scdm/auth-for-scdm");
  random_bytes = some (1 ∷ 2 ∷ 3 ∷ []);
  write_first = true;
  write_second = true;
  hostname = some (codes "server");
}

abbrev pub host : Host
host = record {
  now = 1000;
  ipv6 = false;
  local_list = own ∷ [];
  host_allow = λ address. true;
  numeric_host = λ address. codes "10.0.0.7";
  willing_output = some (codes "ready");
  get_addr_info = λ bytes port family. some manager;
  random = 5 ∷ [];
  setup = setup;
  xauth = xauth;
}

abbrev pub config : Config
config = record {
  honor_indirect = true;
  max_displays_per_host = 2;
  max_displays = 16;
  max_pending_displays = 4;
  max_wait = 15;
  max_wait_indirect = 15;
}

abbrev pub empty : Factory
empty = start config 40 (codes "Linux") (codes "server")

abbrev pub request_read : RequestRead
request_read = record {
  clnt_dspnum = some 0;
  clnt_conntyp = some (0 ∷ []);
  clnt_addr = some ((10 ∷ 0 ∷ 0 ∷ 7 ∷ []) ∷ []);
  clnt_authname = some [];
  clnt_authdata = some [];
  clnt_authorization_names = some (codes "MIT-MAGIC-COOKIE-1" ∷ []);
  clnt_manufacturer = some [];
}

abbrev pub request : Request
request = record {
  dspnum = 0;
  conntyp = 0 ∷ [];
  addr = (10 ∷ 0 ∷ 0 ∷ 7 ∷ []) ∷ [];
  authname = [];
  authdata = [];
  authorization_names = codes "MIT-MAGIC-COOKIE-1" ∷ [];
  manufacturer = [];
}

abbrev pub reads : Reads
reads = record {
  authlist = some [];
  forward = none;
  request = request_read;
  manage = record { clnt_sessid = some 40; clnt_dspnum = some 0; clnt_dspclass = some [] };
  display_address = none;
  session = some (0, 40);
}

-- A REQUEST (its values take 39 bytes) and the MANAGE that follows it.
abbrev pub request_packet : Datagram
request_packet = record {
  is_input = true;
  is_filled = true;
  header = some (1, 7, 39);
  sender = client;
  sender_size = 16;
  reads = reads;
}

abbrev pub manage_packet : Datagram
manage_packet = record request_packet { header = some (1, 10, 8) }

abbrev pub display : Display
display = display_new host xdmcp_display 0 (codes "10.0.0.7") 0 client 40
