-- ===== src/Display.antt =====
-- daemon/scdm-display.c and scdm-display.h: a display and its life cycle. GObject properties are
-- the fields of a record; the signal `notify::status` is a log, newest first. What the program asks
-- of the system (accountsservice, files, the X server, logind) comes as arguments. Debug output and
-- reference counts are left out. `none` means that the process exits or dies.
pub mod Setup
pub mod Lifecycle
pub mod Clients
use mathlib.Core.Option
use scdm.AccessFile
use scdm.AccessFile.{AccessFile, XauthHost, DisplayInfo}
use scdm.Address.{Address}
use scdm.Prelude.{
  ℕ, ◌+◌, Bool, true, false, not, ◌&&◌, Option, none, some, List, [], ◌∷◌, if◌then◌else◌, Bytes,
  codes, bytes_eq, is_some,
}

pub data Status : Type 0 where
  unmanaged prepared managed waiting_to_finish finished failed : Status

-- The classes that derive from ScdmDisplay.
pub data DisplayKind : Type 0 where
  legacy_display local_display xdmcp_display xdmcp_chooser_display : DisplayKind

pub record Display : Type 0 where
  pub id : ℕ
  pub kind : DisplayKind
  pub status : Status
  pub notified : List Status
  pub creation_time : ℕ
  pub seat_id : Option Bytes
  pub session_id : Option Bytes
  pub session_class : Option Bytes
  pub session_type : Option Bytes
  pub remote_hostname : Option Bytes
  pub x11_display_number : ℕ
  pub x11_cookie : Option Bytes
  pub access_file : Option AccessFile
  pub user_access_file : Option AccessFile
  pub finish_idle : Bool
  pub xcb_connection : Bool
  pub launch_environment : Bool
  pub is_local : Bool
  pub is_initial : Bool
  pub have_existing_user_accounts : Bool
  pub doing_initial_setup : Bool
  pub session_registered : Bool
  pub remote_address : Option Address
  pub session_number : ℕ
  pub connection_attempts : ℕ
  pub connect_timer : Bool

unfoldable pub status_eq : Status → Status → Bool
status_eq unmanaged unmanaged = true
status_eq prepared prepared = true
status_eq managed managed = true
status_eq waiting_to_finish waiting_to_finish = true
status_eq finished finished = true
status_eq failed failed = true
status_eq _ _ = false

-- `_scdm_display_set_status`: the signal is emitted only for a change.
unfoldable pub set_status : Display → Status → Display
unfolding status_eq
set_status self status =
    if not (status_eq status self.status)
    then record self { status = status; notified = status ∷ self.notified }
    else self

-- `g_object_set` of the status: the property is not G_PARAM_EXPLICIT_NOTIFY, so that the signal is
-- emitted once for every call, also if the status stays the same.
unfoldable pub set_status_property : Display → Status → Display
set_status_property self status = record self { status = status; notified = status ∷ self.notified }

unfoldable pub real_prepare : Display → Display
unfolding set_status
real_prepare self = set_status self prepared

unfoldable pub queue_finish : Display → Display
queue_finish self = if self.finish_idle then self else record self { finish_idle = true }

unfoldable pub finish : Display → Display
unfolding set_status
finish self = set_status (record self { finish_idle = false }) finished

-- The idle source that `queue_finish` adds.
unfoldable pub finish_idle : Display → Display
unfolding finish
finish_idle self = finish (record self { finish_idle = false })

close_file : Option AccessFile → Option AccessFile
close_file none = none
close_file (some file) = none

-- The connection to the X server is closed (Clients has the loop that kills its clients), and the
-- authority files are closed and dropped.
unfoldable pub close_resources : Display → Display
unfolding close_file
close_resources self = record self {
  xcb_connection = false;
  user_access_file = close_file self.user_access_file;
  access_file = close_file self.access_file;
}

-- A display whose session never registered has failed.
unfoldable pub unmanage : Display → Display
unfolding close_resources
unmanage self =
    if not self.session_registered
    then set_status (close_resources self) failed
    else set_status (close_resources self) unmanaged

-- When the greeter stops, exits or dies.
unfoldable pub self_destruct : Display → Display
unfolding unmanage queue_finish set_status
self_destruct self =
    let stopped = if status_eq self.status managed then unmanage self else self in
    if not (status_eq stopped.status finished) then queue_finish stopped else stopped

unfoldable pub stop_greeter_session : Display → Display
stop_greeter_session self =
    if self.launch_environment then record self { launch_environment = false } else self

display_info : Display → Bytes → DisplayInfo
display_info self hostname = record {
  is_local = self.is_local;
  remote_hostname = hostname;
  display_number = self.x11_display_number;
}

-- A remote display has a host name; a local one does not use it.
hostname_of : Option Bytes → Bytes
hostname_of none = []
hostname_of (some hostname) = hostname

unfoldable pub create_file : XauthHost → Bytes → AccessFile × Bool
create_file host username = AccessFile.open_file host (AccessFile.new username)

unfoldable pub authority_added : Display → AccessFile × Option Bytes → Display × Bool
authority_added self (file, none) = (record self { x11_cookie = none }, false)
authority_added self (file, some cookie) =
    (record self { x11_cookie = some cookie; access_file = some file }, true)

unfoldable pub authority_created : XauthHost → Display → AccessFile × Bool → Display × Bool
unfolding display_info hostname_of authority_added
authority_created host self (file, false) = (self, false)
authority_created host self (file, true) =
    authority_added self
      (AccessFile.add_display host (display_info self (hostname_of self.remote_hostname)) file)

abbrev scdm_username : Bytes
scdm_username = codes "scdm"

-- `scdm_display_create_authority`; a display that has an authority file is refused.
unfoldable pub create_authority : XauthHost → Display → Display × Bool
unfolding create_file authority_created
create_authority host self =
    if is_some self.access_file
    then (self, false)
    else authority_created host self (create_file host scdm_username)

user_added : Display → AccessFile × Bool → Option (Display × Option Bytes)
user_added self (file, false) = some (self, none)
user_added self (file, true) = some (record self { user_access_file = some file }, file.path)

-- With no cookie the call fails without an error to report, and the message that is read crashes.
user_created : XauthHost → Display → AccessFile × Bool → Option (Display × Option Bytes)
unfolding display_info hostname_of user_added
user_created host self (file, false) = some (self, none)
user_created host self (file, true) =
    if is_some self.x11_cookie
    then user_added self (
        AccessFile.add_display_with_cookie host
          (display_info self (hostname_of self.remote_hostname)) self.x11_cookie file)
    else none

-- The path of the user's authority file, or `none` inside for a refusal. The X server is then told
-- to forget the greeter's entries, whatever it answers.
unfoldable pub add_user_authorization :
    XauthHost → Bytes → Display → Option (Display × Option Bytes)
unfolding create_file user_created
add_user_authorization host username self =
    if is_some self.user_access_file
    then some (self, none)
    else user_created host self (create_file host username)

-- The file is closed and stays in place; with no file the guard of the callee returns.
unfoldable pub remove_user_authorization : Display → Display
remove_user_authorization self = record self {
  user_access_file = Option.map AccessFile.close self.user_access_file;
}
