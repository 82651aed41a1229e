-- ===== src/Xdmcp/Displays.antt =====
-- daemon/scdm-xdmcp-display-factory.c, scdm-xdmcp-display.c and scdm-xdmcp-chooser-display.c: the
-- serial numbers of sessions, and how a display for a remote host comes into being and connects.
pub mod Serials
pub mod Settled
use scdm.AccessFile.{XauthHost}
use scdm.Address.{Address}
use scdm.Display.Setup.{DisplayClass, prepare}
use scdm.Display.{
  Display, DisplayKind, xdmcp_display, xdmcp_chooser_display, unmanaged, managed, create_authority,
  real_prepare, unmanage, set_status_property,
}
use scdm.DisplayStore
use scdm.Prelude.{
  ℕ, zero, suc, ◌+◌, Bool, true, false, not, ◌&&◌, Option, none, some, List, [], ◌∷◌, leb, ◌==◌,
  if◌then◌else◌, Bytes, codes, is_some, ◌>>=◌,
}
use scdm.Xdmcp.Indirect.{indirect_client_lookup}
use scdm.Xdmcp.Types.{Factory, Host, IndirectClient, u32}

-- `G_MAXINT32`; a gint32 is its bit pattern.
abbrev pub max_int32 : ℕ
max_int32 = 2147483647

-- Random numbers are drawn until one is not 0; `none` if the given ones are all 0.
unfoldable pub first_nonzero : List ℕ → Option ℕ
first_nonzero [] = none
first_nonzero (r ∷ rest) = if r == 0 then first_nonzero rest else some r

-- `get_next_session_serial`. At the greatest serial the counter stays where it is; a counter that
-- stands at 0 is passed over.
unfoldable pub get_next_session_serial : List ℕ → Factory → Option (ℕ × Factory)
unfolding first_nonzero
get_next_session_serial random factory =
    if factory.session_serial == max_int32
    then (do serial ← first_nonzero random; some (serial, factory))
    else if factory.session_serial == 0
    then some (1, record factory { session_serial = 2 })
    else some (
      factory.session_serial,
      record factory { session_serial = u32 (factory.session_serial + 1) },
    )

-- `scdm_xdmcp_display_new` and `scdm_xdmcp_chooser_display_new`: the fields that they set, and the
-- defaults of the others.
unfoldable pub display_new :
    Host
    → DisplayKind
    → (pointer : ℕ) → (hostname : Bytes) → (number : ℕ) → Address
    → (session_number : ℕ) → Display
display_new host kind pointer hostname number address session_number = record {
  id = pointer;
  kind = kind;
  status = unmanaged;
  notified = [];
  creation_time = host.now;
  seat_id = none;
  session_id = none;
  session_class = some (codes "greeter");
  session_type = none;
  remote_hostname = some hostname;
  x11_display_number = number;
  x11_cookie = none;
  access_file = none;
  user_access_file = none;
  finish_idle = false;
  xcb_connection = false;
  launch_environment = false;
  is_local = false;
  is_initial = false;
  have_existing_user_accounts = false;
  doing_initial_setup = false;
  session_registered = false;
  remote_address = some address;
  session_number = session_number;
  connection_attempts = 0;
  connect_timer = false;
}

unfoldable pub prepare_authorized : Display × Bool → Display × Bool
unfolding real_prepare
prepare_authorized (self, false) = (self, false)
prepare_authorized (self, true) = (real_prepare self, true)

-- `scdm_xdmcp_display_prepare`, which the chooser's own `prepare` ends in: a launch environment,
-- an authority file, and the status.
unfoldable pub xdmcp_display_prepare : XauthHost → Display → Display × Bool
unfolding prepare_authorized
xdmcp_display_prepare xauth self =
    prepare_authorized (create_authority xauth (record self { launch_environment = true }))

-- `scdm_xdmcp_display_manage`: a timeout that connects.
unfoldable pub xdmcp_display_manage : Display → Display
xdmcp_display_manage self = record self { connect_timer = true }

abbrev pub xdmcp_display_class : XauthHost → DisplayClass
xdmcp_display_class xauth = record {
  prepare = xdmcp_display_prepare xauth;
  manage = some xdmcp_display_manage;
}

abbrev max_connect_attempts : ℕ
max_connect_attempts = 10

-- `idle_connect_to_display`, by whether the connection succeeds; the result says whether the timeout
-- goes on.
unfoldable pub idle_connect_to_display : (connected : Bool) → Display → Display × Bool
unfolding set_status_property unmanage
idle_connect_to_display connected self =
    let tried = record self { connection_attempts = u32 (self.connection_attempts + 1) } in
    if connected
    then (
      set_status_property (record tried { xcb_connection = true; connect_timer = false }) managed,
      false,
    )
    else if leb max_connect_attempts tried.connection_attempts
    then (unmanage (record tried { xcb_connection = false; connect_timer = false }), false)
    else (record tried { xcb_connection = false }, true)

-- An indirect client that has not chosen yet gets a chooser.
unfoldable pub wants_chooser : Option IndirectClient → Bool
wants_chooser none = false
wants_chooser (some ic) = not (is_some ic.chosen_address)

unfoldable pub choose_kind : Host → Address → Factory → Bool × Factory
unfolding wants_chooser
choose_kind host address factory =
    let (ic, looked) = indirect_client_lookup host address factory in
    if factory.honor_indirect then (wants_chooser ic, looked) else (false, factory)

-- A display that cannot be prepared is unmanaged and dropped.
unfoldable pub store_prepared : Display × Bool → Factory → Option Display × Factory
store_prepared (display, false) factory = (none, factory)
store_prepared (display, true) factory = (
  some display,
  record factory {
    store = DisplayStore.add display.id display factory.store;
    num_pending_sessions = u32 (factory.num_pending_sessions + 1);
  },
)

-- `scdm_xdmcp_display_create`; `none` outside is the end of the process.
unfoldable pub display_create :
    Host
    → (hostname : Bytes) → Address
    → (displaynum : ℕ) → Factory
    → Option (Option Display × Factory)
unfolding choose_kind store_prepared
display_create host hostname address displaynum factory = do
  let chosen = choose_kind host address factory
  (session_number, serial_taken) ← get_next_session_serial host.random chosen.1
  let kind = if chosen.0 then xdmcp_chooser_display else xdmcp_display
  let allocated = record serial_taken { next_pointer = suc serial_taken.next_pointer }
  let display =
      display_new host kind serial_taken.next_pointer hostname displaynum address session_number
  result ← prepare host.setup (xdmcp_display_class host.xauth) display
  some (store_prepared result allocated)
