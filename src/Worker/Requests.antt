-- ===== src/Worker/Requests.antt =====
-- daemon/scdm-session-worker.c: the methods that the session calls on the worker over D-Bus, and what
-- else happens to a worker, as events in sequence.
pub mod Refusals
use scdm.Prelude.{
  ℕ, Bool, true, false, not, Option, none, some, List, [], ◌∷◌, if◌then◌else◌, ◌==◌, ◌+◌, ◌++◌,
  Bytes, codes, ◌≡◌, filter, ◌>>=◌,
}
use scdm.SessionSettings
use scdm.SessionSettings.{SessionSettings, ActUser, Notify}
use scdm.Worker.Extensions.{filter_extensions}
use scdm.Worker.Open.{session_worker_child_watch}
use scdm.Worker.State.{
  state_eq, emit, reply, queue_state_change, load_settings, notify_all, set_environment_variable,
}
use scdm.Worker.Steps.{
  state_name, validate_state_change, validate_and_queue_state_change, state_change_idle,
}
use scdm.Worker.Types.{
  State, state_none, setup_complete, authenticated, authorized, accredited, account_details_saved,
  session_opened, session_started, establish_cred, reinitialize_cred, no_flags, DisplayMode,
  reuse_vt, wrong_state, in_reauth_session, parse_error, completed, failed_with, reauthenticated,
  Worker, WorkerHost,
}

-- The arguments that the three methods for setting up share.
pub record SetupArguments : Type 0 where
  pub service : Bytes
  pub x11_display_name : Bytes
  pub x11_authority_file : Bytes
  pub console : Bytes
  pub seat_id : Bytes
  pub hostname : Bytes
  pub display_is_local : Bool
  pub display_is_initial : Bool

-- The entries of the dictionary that `Initialize` takes, by their keys.
pub data Detail : Type 0 where
  with_service with_username with_log_file with_x11_display_name with_x11_authority_file
        with_console with_seat_id with_hostname :
      Bytes → Detail
  with_extensions : List Bytes → Detail
  with_is_program_session with_display_is_local with_display_is_initial : Bool → Detail
  other_key : Detail

unfoldable pub set_up : SetupArguments → (username : Option Bytes) → Worker → Worker
set_up arguments username worker = record worker {
  service = some arguments.service;
  x11_display_name = some arguments.x11_display_name;
  x11_authority_file = some arguments.x11_authority_file;
  display_device = some arguments.console;
  display_seat_id = some arguments.seat_id;
  hostname = some arguments.hostname;
  display_is_local = arguments.display_is_local;
  display_is_initial = arguments.display_is_initial;
  username = username;
}

unfoldable pub connect_names : Worker → Worker
connect_names worker = record worker { name_handlers = worker.name_handlers + 1 }

-- `scdm_session_worker_handle_setup`: the fields are set also for a request that was refused.
unfoldable pub handle_setup : (invocation : ℕ) → SetupArguments → Worker → Option Worker
unfolding set_up connect_names
handle_setup invocation arguments worker =
    validate_and_queue_state_change invocation setup_complete worker >>= λ w.
    some (connect_names (set_up arguments none w))

-- `scdm_session_worker_handle_setup_for_program`
unfoldable pub handle_setup_for_program :
    (invocation : ℕ) → SetupArguments → (username log_file : Bytes) → Worker → Option Worker
unfolding set_up
handle_setup_for_program invocation arguments username log_file worker =
    validate_and_queue_state_change invocation setup_complete worker >>= λ w.
    some (record (set_up arguments (some username) w) {
      log_file = some log_file;
      is_program_session = true;
    })

-- The state changes at once, or when the settings are loaded.
unfoldable pub wait_or_queue : (wait_for_settings : Bool) → Worker → Worker
unfolding queue_state_change
wait_or_queue wait_for_settings worker =
    if wait_for_settings then record worker { loaded_handler = true } else queue_state_change worker

unfoldable pub load_and_queue : (Bytes → ActUser) → Option Bytes → Worker → Option Worker
unfolding wait_or_queue load_settings
load_and_queue act_user username worker =
    load_settings act_user username worker >>= λ r. some (wait_or_queue (not r.1) r.0)

-- `scdm_session_worker_handle_setup_for_user`
unfoldable pub handle_setup_for_user :
    (Bytes → ActUser)
    → (invocation : ℕ) → SetupArguments
    → (username : Bytes) → Worker
    → Option Worker
unfolding set_up connect_names load_and_queue
handle_setup_for_user act_user invocation arguments username worker =
    validate_state_change invocation setup_complete worker >>= λ r.
    if r.1
    then load_and_queue act_user (some username)
        (record (connect_names (set_up arguments (some username) r.0)) {
          pending_invocation = some invocation;
        })
    else some r.0

unfoldable pub set_detail : Detail → Worker → Worker
unfolding filter_extensions
set_detail (with_service text) worker = record worker { service = some text }
set_detail (with_extensions names) worker = record worker {
  extensions = some (filter_extensions names);
}
set_detail (with_username text) worker = record worker { username = some text }
set_detail (with_is_program_session b) worker = record worker { is_program_session = b }
set_detail (with_log_file text) worker = record worker { log_file = some text }
set_detail (with_x11_display_name text) worker = record worker { x11_display_name = some text }
set_detail (with_x11_authority_file text) worker = record worker { x11_authority_file = some text }
set_detail (with_console text) worker = record worker { display_device = some text }
set_detail (with_seat_id text) worker = record worker { display_seat_id = some text }
set_detail (with_hostname text) worker = record worker { hostname = some text }
set_detail (with_display_is_local b) worker = record worker { display_is_local = b }
set_detail (with_display_is_initial b) worker = record worker { display_is_initial = b }
set_detail other_key worker = worker

unfoldable pub set_details : List Detail → Worker → Worker
unfolding set_detail
set_details [] worker = worker
set_details (detail ∷ rest) worker = set_details rest (set_detail detail worker)

unfoldable pub initialize_for : (Bytes → ActUser) → Option Bytes → Worker → Option Worker
unfolding load_and_queue wait_or_queue
initialize_for act_user none worker = some (wait_or_queue false worker)
initialize_for act_user (some username) worker = load_and_queue act_user (some username) worker

unfoldable pub initialized : (Bytes → ActUser) → Worker → Option Worker
unfolding connect_names initialize_for wait_or_queue
initialized act_user worker =
    if worker.is_program_session
    then some (wait_or_queue false worker)
    else initialize_for act_user worker.username (connect_names worker)

-- `scdm_session_worker_handle_initialize`
unfoldable pub handle_initialize :
    (Bytes → ActUser) → (invocation : ℕ) → List Detail → Worker → Option Worker
unfolding set_details initialized
handle_initialize act_user invocation details worker =
    validate_state_change invocation setup_complete worker >>= λ r.
    if r.1
    then initialized act_user
        (record (set_details details r.0) { pending_invocation = some invocation })
    else some r.0

-- `scdm_session_worker_handle_establish_credentials`: the flags are set in any case.
unfoldable pub handle_establish_credentials : (invocation : ℕ) → Worker → Option Worker
handle_establish_credentials invocation worker =
    validate_and_queue_state_change invocation accredited worker >>= λ w.
    some
      (record w { cred_flags = if w.is_reauth_session then reinitialize_cred else establish_cred })

-- The text of the error that the parser of the command line gives is left out.
unfoldable pub with_arguments : (invocation : ℕ) → Option (List Bytes) → Worker → Worker
unfolding reply queue_state_change
with_arguments invocation none worker =
    reply invocation (failed_with parse_error []) (record worker { arguments = [] })
with_arguments invocation (some arguments) worker =
    queue_state_change
      (record worker { arguments = arguments; pending_invocation = some invocation })

-- `scdm_session_worker_handle_start_program`: it goes on also if the state may not change.
unfoldable pub handle_start_program :
    WorkerHost → (invocation : ℕ) → (text : Bytes) → Worker → Option Worker
unfolding with_arguments reply
handle_start_program host invocation text worker =
    validate_state_change invocation session_started worker >>= λ r. some (
      if r.0.is_reauth_session
      then reply invocation
          (failed_with in_reauth_session (codes "Cannot start a program while in a reauth session"))
          r.0
      else with_arguments invocation (host.parse_argv text) r.0)

unfoldable pub replace_request : (pid uid : ℕ) → List (ℕ × ℕ) → List (ℕ × ℕ)
replace_request pid uid requests = (pid, uid) ∷ filter (λ r. not (r.0 == pid)) requests

-- `scdm_session_worker_handle_start_reauthentication`: the reply has the address of a session.
unfoldable pub handle_start_reauthentication : (invocation pid uid : ℕ) → Worker → Worker
unfolding state_eq reply replace_request state_name
handle_start_reauthentication invocation pid uid worker =
    if not (state_eq worker.state session_started)
    then reply invocation
        (failed_with wrong_state
          (codes "Cannot reauthenticate while in state " ++ state_name worker.state))
        worker
    else record (reply invocation completed worker) {
      reauthentication_requests = replace_request pid uid worker.reauthentication_requests;
    }

pub data Method : Type 0 where
  setup : SetupArguments → Method
  setup_for_user : SetupArguments → (username : Bytes) → Method
  setup_for_program : SetupArguments → (username log_file : Bytes) → Method
  initialize : List Detail → Method
  authenticate authorize establish_credentials open_session : Method
  start_program : (text : Bytes) → Method
  set_variable : (key : Bytes) (value : Option Bytes) → Method
  set_session_name set_language_name : Bytes → Method
  set_display_mode : DisplayMode → Method
  start_reauthentication : (pid uid : ℕ) → Method

-- A setter of the user's settings, with the signals that it leads to.
unfoldable pub set_settings :
    (Bytes → ActUser) → (invocation : ℕ) → SessionSettings × List Notify → Worker → Option Worker
unfolding notify_all reply
set_settings act_user invocation (settings, notes) worker =
    notify_all act_user notes (record worker { user_settings = settings }) >>= λ w.
    some (reply invocation completed w)

-- A method call.
unfoldable pub handle : WorkerHost → (invocation : ℕ) → Method → Worker → Option Worker
unfolding handle_setup handle_setup_for_user handle_setup_for_program handle_initialize
    handle_establish_credentials handle_start_program handle_start_reauthentication set_settings
    reply
handle host invocation (setup arguments) worker = handle_setup invocation arguments worker
handle host invocation (setup_for_user arguments username) worker =
    handle_setup_for_user host.act_user invocation arguments username worker
handle host invocation (setup_for_program arguments username log_file) worker =
    handle_setup_for_program invocation arguments username log_file worker
handle host invocation (initialize details) worker =
    handle_initialize host.act_user invocation details worker
handle host invocation authenticate worker =
    validate_and_queue_state_change invocation authenticated worker
handle host invocation authorize worker =
    validate_and_queue_state_change invocation authorized worker
handle host invocation establish_credentials worker = handle_establish_credentials invocation worker
handle host invocation open_session worker =
    validate_and_queue_state_change invocation account_details_saved worker
handle host invocation (start_program text) worker =
    handle_start_program host invocation text worker
handle host invocation (set_variable key value) worker =
    some (reply invocation completed (set_environment_variable key value worker))
handle host invocation (set_session_name name) worker =
    set_settings host.act_user invocation
      (SessionSettings.set_session_name name worker.user_settings) worker
handle host invocation (set_language_name name) worker =
    set_settings host.act_user invocation
      (SessionSettings.set_language_name name worker.user_settings) worker
handle host invocation (set_display_mode mode) worker =
    some (reply invocation completed (record worker { display_mode = mode }))
handle host invocation (start_reauthentication pid uid) worker =
    some (handle_start_reauthentication invocation pid uid worker)
