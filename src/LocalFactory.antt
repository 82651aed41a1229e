-- ===== src/LocalFactory.antt =====
-- daemon/scdm-local-display-factory.c with scdm-legacy-display.c and scdm-local-display.c: the
-- factory of the displays of local seats. logind (seats, login windows) and the classes of the
-- displays, which start the greeter and the X server, come in as arguments.
pub mod Numbers
pub mod Retries
pub mod Ends
pub mod Totality
use scdm.Display.Setup.{SetupHost, DisplayClass, manage}
use scdm.Display.{
  Display, DisplayKind, legacy_display, local_display, Status, unmanaged, prepared, managed,
  finished, failed, waiting_to_finish, status_eq, set_status_property, unmanage,
}
use scdm.DisplayStore
use scdm.DisplayStore.{Store}
use scdm.LocalFactory.Numbers.{take_next_display_number}
use scdm.Prelude.{
  ℕ, zero, suc, ◌+◌, ◌%◌, Bool, true, false, not, ◌&&◌, ◌||◌, Option, none, some, List, [], ◌∷◌,
  ltb, ◌==◌, if◌then◌else◌, Bytes, codes, bytes_eq, filter,
}

-- The answers of logind, the build options and the setting for Wayland (with Xwayland installed),
-- the clock, and what the classes' `prepare` and `manage` do.
pub record LocalHost : Type 0 where
  pub can_multi_session : Bytes → Bool
  pub login_window : Bytes → Option Bytes
  pub seats : Option (List Bytes)
  pub user_display_server : Bool
  pub wayland_support : Bool
  pub use_wayland : Bool
  pub now : ℕ
  pub setup : SetupHost
  pub class : DisplayKind → DisplayClass

-- `activated` is a log of the sessions that were switched to, with their seats.
pub record LocalFactory : Type 0 where
  pub used_display_numbers : List ℕ
  pub num_failures : ℕ
  pub store : Store Display
  pub next_pointer : ℕ
  pub purge_queued : Bool
  pub activated : List (Bytes × Bytes)

-- A run ends with the factory, with the end of the process, or without fuel.
pub data Outcome : Type 0 where
  done : LocalFactory → Outcome
  exited out_of_fuel : Outcome

abbrev pub max_display_failures : ℕ
max_display_failures = 5

unfoldable pub same_string : Option Bytes → Bytes → Bool
same_string none text = false
same_string (some s) text = bytes_eq s text

-- A new display with the defaults of the properties; the local class has no X display number.
unfoldable pub new_display :
    LocalHost
    → DisplayKind
    → (pointer number : ℕ) → (seat : Bytes) → (session_type : Option Bytes) → (initial : Bool)
    → Display
new_display host kind pointer number seat session_type initial = record {
  id = pointer;
  kind = kind;
  status = unmanaged;
  notified = [];
  creation_time = host.now;
  seat_id = some seat;
  session_id = none;
  session_class = some (codes "greeter");
  session_type = session_type;
  remote_hostname = none;
  x11_display_number = number;
  x11_cookie = none;
  access_file = none;
  user_access_file = none;
  finish_idle = false;
  xcb_connection = false;
  launch_environment = false;
  is_local = true;
  is_initial = initial;
  have_existing_user_accounts = false;
  doing_initial_setup = false;
  session_registered = false;
  remote_address = none;
  session_number = 0;
  connection_attempts = 0;
  connect_timer = false;
}

-- The display that a seat has: a prepared one where logind can have several sessions on the seat.
unfoldable pub find_on_seat : LocalHost → (seat : Bytes) → LocalFactory → Option Display
unfolding same_string status_eq
find_on_seat host seat factory =
    if host.can_multi_session seat
    then DisplayStore.find (λ id d. status_eq d.status prepared && same_string d.seat_id seat)
        factory.store
    else DisplayStore.find (λ id d. same_string d.seat_id seat) factory.store

find_by_session : (session : Bytes) → LocalFactory → Option Display
unfolding same_string
find_by_session session factory =
    DisplayStore.find (λ id d. same_string d.session_id session) factory.store

unfoldable pub store_changed : Display → LocalFactory → LocalFactory
store_changed d factory = record factory { store = DisplayStore.replace d.id d factory.store }

-- A login window that is managed, or that waits to finish, is managed again and switched to.
switch_to : (seat session : Bytes) → Option Display → LocalFactory → Option LocalFactory
unfolding status_eq set_status_property store_changed
switch_to seat session none factory = none
switch_to seat session (some d) factory =
    if status_eq d.status managed || status_eq d.status waiting_to_finish
    then some (record (store_changed (set_status_property d managed) factory) {
      activated = (seat, session) ∷ factory.activated;
    })
    else none

switch_to_login : (seat : Bytes) → Option Bytes → LocalFactory → Option LocalFactory
unfolding switch_to find_by_session
switch_to_login seat none factory = none
switch_to_login seat (some session) factory =
    switch_to seat session (find_by_session session factory) factory

-- A display of the local class on seat0 where users have their own display server, and else one of
-- the legacy class, which takes a number.
make_display :
    LocalHost
    → (seat : Bytes) → (session_type : Option Bytes) → (initial : Bool) → LocalFactory
    → Display × LocalFactory
unfolding new_display
make_display host seat session_type initial factory =
    let counted = record factory { next_pointer = suc factory.next_pointer } in
    let (num, used) = take_next_display_number factory.used_display_numbers in
    if host.user_display_server && bytes_eq seat (codes "seat0")
    then (new_display host local_display factory.next_pointer 0 seat session_type initial, counted)
    else (
      new_display host legacy_display factory.next_pointer num seat none initial,
      record counted { used_display_numbers = used },
    )

-- A retry after a failure forgets the type of a Wayland session.
retry_type : LocalHost → Option Bytes → Option Bytes
unfolding same_string
retry_type host session_type =
    if host.wayland_support && same_string session_type (codes "wayland")
    then none
    else session_type

-- The case of a failed local display: it is counted, and replaced until there were too many.
pub after_failure :
    LocalHost
    → (again : (session_type : Option Bytes) → LocalFactory → Outcome) → Display
    → LocalFactory
    → Outcome
unfolding retry_type
after_failure host again d factory =
    let queued = record factory { purge_queued = true } in
    let counted = record queued { num_failures = (factory.num_failures + 1) % 4294967296 } in
    if d.is_local
    then (if ltb max_display_failures counted.num_failures
        then done counted
        else again (retry_type host d.session_type) counted)
    else done queued

-- A display that could not be managed is unmanaged. One whose X server did not start was so already.
settled : Display × Bool → Display
unfolding unmanage
settled (d, true) = d
settled (d, false) = unmanage d

after_manage :
    LocalHost
    → (again : (session_type : Option Bytes) → LocalFactory → Outcome) → Option (Display × Bool)
    → LocalFactory
    → Outcome
unfolding after_failure settled status_eq store_changed
after_manage host again none factory = exited
after_manage host again (some result) factory =
    let d = settled result in
    let stored = store_changed d factory in
    if status_eq d.status failed then after_failure host again d stored else done stored

make_and_manage :
    LocalHost
    → (again : (session_type : Option Bytes) → LocalFactory → Outcome) → Display × LocalFactory
    → Outcome
unfolding after_manage
make_and_manage host again (d, factory) =
    after_manage host again (manage host.setup (host.class d.kind) d)
      (record factory { store = DisplayStore.add d.id d factory.store })

create_or_switch : Option LocalFactory → Outcome → Outcome
create_or_switch (some switched) otherwise = done switched
create_or_switch none otherwise = otherwise

create_unless : Option Display → LocalFactory → Outcome → Outcome
create_unless (some existing) factory otherwise = done factory
create_unless none factory otherwise = otherwise

-- `create_display`: nothing for a seat that has its display.
unfoldable pub create_display :
    (fuel : ℕ)
    → LocalHost
    → (seat : Bytes) → (session_type : Option Bytes) → (initial : Bool) → LocalFactory
    → Outcome
unfolding create_unless create_or_switch switch_to_login make_and_manage make_display find_on_seat
create_display zero host seat session_type initial factory = out_of_fuel
create_display (suc fuel) host seat session_type initial factory =
    let again =
      λ (t : Option Bytes) (f : LocalFactory). create_display fuel host seat t initial f in
    create_unless (find_on_seat host seat factory) factory (
      create_or_switch (switch_to_login seat (host.login_window seat) factory)
        (make_and_manage host again (make_display host seat session_type initial factory)))

-- The number of a display, which the local class has none of.
number_of : DisplayKind → Display → Option ℕ
number_of local_display d = none
number_of kind d = some d.x11_display_number

release : Option ℕ → LocalFactory → LocalFactory
release none factory = factory
release (some num) factory = record factory {
  used_display_numbers = filter (λ n. not (n == num)) factory.used_display_numbers;
}

then_on : (LocalFactory → Outcome) → Outcome → Outcome
then_on next (done factory) = next factory
then_on next exited = exited
then_on next out_of_fuel = out_of_fuel

seat_type : LocalHost → (seat : Bytes) → Option Bytes
seat_type host seat =
    if bytes_eq seat (codes "seat0") && host.use_wayland then some (codes "wayland") else none

create_on_seats : (fuel : ℕ) → LocalHost → List Bytes → LocalFactory → Outcome
unfolding create_display seat_type then_on
create_on_seats fuel host [] factory = done factory
create_on_seats fuel host (seat ∷ rest) factory =
    then_on (λ created. create_on_seats fuel host rest created)
      (create_display fuel host seat (seat_type host seat) (bytes_eq seat (codes "seat0")) factory)

sync_listed : (fuel : ℕ) → LocalHost → Option (List Bytes) → LocalFactory → Outcome
unfolding create_on_seats
sync_listed fuel host none factory = done factory
sync_listed fuel host (some seats) factory = create_on_seats fuel host seats factory

-- `scdm_local_display_factory_sync_seats`: a display for each seat of logind's list.
unfoldable pub sync_seats : (fuel : ℕ) → LocalHost → LocalFactory → Outcome
unfolding sync_listed
sync_seats fuel host factory = sync_listed fuel host host.seats factory

-- A local display has its seat.
seat_of : Option Bytes → Bytes
seat_of none = []
seat_of (some seat) = seat

-- `on_display_status_changed`, which is connected to every display of the store. The end of a
-- session gives its seat a new login screen.
unfoldable pub status_changed : (fuel : ℕ) → LocalHost → Display → Status → LocalFactory → Outcome
unfolding number_of release seat_of sync_seats after_failure create_display same_string
status_changed fuel host d finished factory =
    let freed = record (release (number_of d.kind d) factory) { purge_queued = true } in
    if d.is_local && not (same_string d.session_class (codes "greeter"))
    then sync_seats fuel host (record freed { num_failures = 0 })
    else done freed
status_changed fuel host d failed factory =
    after_failure host (λ t f. create_display fuel host (seat_of d.seat_id) t d.is_initial f) d
      factory
status_changed fuel host d unmanaged factory = done factory
status_changed fuel host d prepared factory = done factory
status_changed fuel host d managed factory = done factory
status_changed fuel host d waiting_to_finish factory = done factory

-- `on_seat_new` and `on_seat_removed`.
unfoldable pub seat_new : (fuel : ℕ) → LocalHost → (seat : Bytes) → LocalFactory → Outcome
unfolding create_display
seat_new fuel host seat factory = create_display fuel host seat none false factory

unfoldable pub delete_display : (seat : Bytes) → LocalFactory → LocalFactory
unfolding same_string
delete_display seat factory = record factory {
  store = (DisplayStore.foreach_remove (λ id d. same_string d.seat_id seat) factory.store).0;
}
