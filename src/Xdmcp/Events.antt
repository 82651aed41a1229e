-- ===== src/Xdmcp/Events.antt =====
-- daemon/scdm-xdmcp-display-factory.c and scdm-display-factory.c: what happens to a running XDMCP
-- server, as events in sequence. The handlers of a display's signals act on the display in the
-- store, and an event that its source does not fit changes nothing. A display that has left the
-- store keeps its handlers as long as its object is there, so that it has events of its own; its
-- state is not followed, and these events take any. The store holds the displays of this factory
-- alone.
use scdm.Display.{
  Display, Status, unmanaged, prepared, managed, waiting_to_finish, finished, failed, status_eq,
  unmanage, self_destruct, finish, finish_idle, stop_greeter_session,
}
use scdm.DisplayStore
use scdm.Prelude.{ℕ, ◌≡◌, Bool, true, false, Option, none, some, [], if◌then◌else◌, Bytes, ◌>>=◌}
use scdm.Xdmcp.Decode.{Datagram, decode_packet}
use scdm.Xdmcp.Displays.{idle_connect_to_display}
use scdm.Xdmcp.Indirect.{on_hostname_selected}
use scdm.Xdmcp.Manage.{send_alive}
use scdm.Xdmcp.Managed.{managed_forward_handler}
use scdm.Xdmcp.Types.{Config, Factory, Host}

-- `purge_display`: a display that is done with.
unfoldable pub is_done : Display → Bool
unfolding status_eq
is_done display =
    if status_eq display.status finished then true else status_eq display.status failed

-- `purge_displays`, an idle source.
unfoldable pub purge_displays : Factory → Factory
unfolding is_done
purge_displays factory = record factory {
  purge_queued = false;
  store = (DisplayStore.foreach_remove (λ id d. is_done d) factory.store).0;
}

-- `scdm_display_factory_queue_purge_displays`
unfoldable pub queue_purge_displays : Factory → Factory
queue_purge_displays factory =
    if factory.purge_queued then factory else record factory { purge_queued = true }

-- `on_display_status_changed`, by the status; a display that waits to finish fails an assertion. The
-- signals of the greeter's session that are connected and disconnected here lead to an event below.
unfoldable pub status_changed : Host → Display → Status → Factory → Option Factory
unfolding queue_purge_displays send_alive
status_changed host display finished factory = do
  address ← display.remote_address
  some (
      queue_purge_displays
        (send_alive host address display.x11_display_number display.session_number factory))
status_changed host display failed factory = some (queue_purge_displays factory)
status_changed host display unmanaged factory = some factory
status_changed host display prepared factory = some factory
status_changed host display managed factory = some factory
status_changed host display waiting_to_finish factory = none

unfoldable pub store_display : Display → Factory → Factory
store_display display factory = record factory {
  store = DisplayStore.replace display.id display factory.store;
}

-- The handler runs for a change. A status that is set without one is MANAGED, for which it does
-- nothing.
unfoldable pub change_found : Host → Display → Display → Factory → Option Factory
unfolding status_changed store_display status_eq
change_found host before after factory =
    if status_eq after.status before.status
    then some (store_display after factory)
    else status_changed host after after.status (store_display after factory)

-- The display that an event is on, where the store has it; the events of one that has left are
-- `left_display` and `left_hostname_selected` below.
unfoldable pub on_found : (Display → Option Factory) → Option Display → Factory → Option Factory
on_found act none factory = some factory
on_found act (some display) factory = act display

-- One change of a stored display, with the handler of its status.
unfoldable pub change_display : Host → (Display → Display) → (id : ℕ) → Factory → Option Factory
unfolding change_found on_found
change_display host change id factory =
    on_found (λ display. change_found host display (change display) factory)
      (DisplayStore.lookup id factory.store) factory

-- `on_client_disconnected`: two changes of the status.
unfoldable pub on_client_disconnected : Host → (id : ℕ) → Factory → Option Factory
unfolding on_found change_display status_eq
on_client_disconnected host id factory =
    on_found
      (λ display.
        if status_eq display.status managed
        then (do
          left ← change_display host (λ d. unmanage (stop_greeter_session d)) id factory
          change_display host finish id left)
        else some factory)
      (DisplayStore.lookup id factory.store) factory

-- What can happen. A display that has left the store may still change its
-- status, by its timeout and the other callbacks of its object, or have a host chosen.
pub data Event : Type 0 where
  packet : Datagram → Event
  forward_timeout : (pointer : ℕ) → Event
  connect_timeout : (id : ℕ) (connected : Bool) → Event
  greeter_gone : (id : ℕ) → Event
  idle_finish : (id : ℕ) → Event
  client_disconnected : (id : ℕ) → Event
  session_registered : (id : ℕ) → Event
  hostname_selected : (id : ℕ) (host_bytes : Bytes) → Event
  idle_purge : Event
  left_display : Display → Event
  left_hostname_selected : Display → (host_bytes : Bytes) → Event

unfoldable pub connect_timed : Bool → Display → Display
unfolding idle_connect_to_display
connect_timed connected d = if d.connect_timer then (idle_connect_to_display connected d).0 else d

unfoldable pub finish_idled : Display → Display
unfolding finish_idle
finish_idled d = if d.finish_idle then finish_idle d else d

unfoldable pub register_session : Display → Display
register_session d = record d { session_registered = true }

-- `none` is the end of the process.
unfoldable pub happen : Host → Event → Factory → Option Factory
unfolding connect_timed finish_idled register_session on_found change_display on_client_disconnected
happen host (packet d) factory = decode_packet host d factory
happen host (forward_timeout pointer) factory = some (managed_forward_handler pointer factory).0
happen host (connect_timeout id connected) factory =
    change_display host (connect_timed connected) id factory
happen host (greeter_gone id) factory = change_display host self_destruct id factory
happen host (idle_finish id) factory = change_display host finish_idled id factory
happen host (client_disconnected id) factory = on_client_disconnected host id factory
happen host (session_registered id) factory = change_display host register_session id factory
happen host (hostname_selected id host_bytes) factory =
    on_found
      (λ display.
        display.remote_address >>= λ address. on_hostname_selected host address host_bytes factory)
      (DisplayStore.lookup id factory.store) factory
happen host idle_purge factory =
    some (if factory.purge_queued then purge_displays factory else factory)
happen host (left_display display) factory = status_changed host display display.status factory
happen host (left_hostname_selected display host_bytes) factory =
    display.remote_address >>= λ address. on_hostname_selected host address host_bytes factory

-- `scdm_xdmcp_display_factory_init` and a successful `start`: a random first serial, and no
-- displays, queries or packets yet.
unfoldable pub start : Config → (serial : ℕ) → (sysid servhost : Bytes) → Factory
start config serial sysid servhost = record {
  config = config;
  forward_queries = [];
  managed_forwards = [];
  indirect_clients = [];
  next_pointer = 0;
  socket_open = true;
  session_serial = serial;
  num_sessions = 0;
  num_pending_sessions = 0;
  sysid = sysid;
  servhost = servhost;
  last_status = [];
  last_willing = 0;
  last_time = 0;
  store = DisplayStore.new;
  purge_queued = false;
  sent = [];
}

-- The states that a server can get into.
pub data Reachable : Factory → Type 0 where
  started :
      (config : Config) (serial : ℕ) (sysid servhost : Bytes)
      → Reachable (start config serial sysid servhost)
  after :
      {before next : Factory} (host : Host) (event : Event)
      → Reachable before
      → happen host event before ≡ some next
      → Reachable next
