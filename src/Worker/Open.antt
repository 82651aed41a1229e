-- ===== src/Worker/Open.antt =====
-- daemon/scdm-session-worker.c: the terminal of a session, the session with PAM, and the program
-- that is started in it. What the child process does after `fork` is no part of the worker's state:
-- it is logged with the user id that it takes.
use scdm.Prelude.{
  ℕ, zero, suc, Bool, true, false, not, ◌&&◌, Option, none, some, [], ◌∷◌, if◌then◌else◌, Bytes,
  codes, ◌>>=◌,
}
use scdm.Worker.Conversation.{run_pam}
use scdm.Worker.Pam.{
  Failure, is_success, finish, on_seat0, jump_to_vt, set_pam_item, set_if_nonempty, nonempty,
  decimal, tty_name, uninitialize_pam,
}
use scdm.Worker.State.{
  get_username, state_eq, set_state, emit, report, call, set_environment_variable,
}
use scdm.Worker.Types.{
  account_details_saved, session_opened, session_started, success, abort, tty, xdisplay, xauthdata,
  open_session, DisplayMode, reuse_vt, new_vt, logind_managed, authenticating, opening_session,
  login, session_exited, Worker, WorkerHost,
}

-- `set_xdg_vtnr_to_current_vt`
unfoldable pub set_vtnr : Option ℕ → Worker → Worker
unfolding set_environment_variable decimal
set_vtnr none worker = worker
set_vtnr (some vt) worker = set_environment_variable (codes "XDG_VTNR") (some (decimal vt)) worker

-- `set_up_for_current_vt`: the items that PAM has to take, and the number of the terminal.
unfoldable pub set_up_for_current_vt : WorkerHost → Worker → Worker × Bool
unfolding set_if_nonempty nonempty on_seat0 set_vtnr is_success
set_up_for_current_vt host worker =
    let (on_tty, first) = set_if_nonempty host tty (nonempty worker.x11_display_name) worker in
    let (shown, second) = set_if_nonempty host xdisplay (nonempty on_tty.x11_display_name) on_tty in
    let (known, third) =
      set_if_nonempty host xauthdata (host.read_xauth shown.x11_authority_file) shown in
    if not (is_success first)
    then (on_tty, false)
    else if not (is_success second)
    then (shown, false)
    else if not (is_success third)
    then (known, false)
    else ((if on_seat0 known.display_seat_id then set_vtnr host.active_vt known else known), true)

-- The terminal that the session gets; it has a number other than 0.
unfoldable pub take_vt : WorkerHost → (fd : Option ℕ) → (vt : ℕ) → Worker → Option (Worker × Bool)
unfolding set_vtnr set_pam_item tty_name
take_vt host fd zero worker = none
take_vt host fd (suc vt) worker = some (
  set_pam_item host tty (tty_name (suc vt))
      (record (set_vtnr (some (suc vt)) (record worker { session_vt = suc vt })) {
        session_tty_fd = fd;
      }),
  true,
)

unfoldable pub query_vt : WorkerHost → Option ℕ → Worker → Option (Worker × Bool)
unfolding take_vt
query_vt host none worker = some (worker, false)
query_vt host (some vt) worker = take_vt host (host.open_tty vt) vt worker

unfoldable pub with_initial_vt : WorkerHost → Option ℕ → Worker → Option (Worker × Bool)
unfolding take_vt query_vt
with_initial_vt host none worker = some (worker, false)
with_initial_vt host (some fd) worker =
    if worker.display_is_initial
    then take_vt host (some fd) host.initial_vt worker
    else query_vt host host.open_query worker

-- `set_up_for_new_vt`
unfoldable pub set_up_for_new_vt : WorkerHost → Worker → Option (Worker × Bool)
unfolding with_initial_vt
set_up_for_new_vt host worker = with_initial_vt host (host.open_tty host.initial_vt) worker

unfoldable pub set_up_vt : WorkerHost → DisplayMode → Worker → Option (Worker × Bool)
unfolding set_up_for_current_vt set_up_for_new_vt
set_up_vt host reuse_vt worker = some (set_up_for_current_vt host worker)
set_up_vt host new_vt worker = set_up_for_new_vt host worker
set_up_vt host logind_managed worker = set_up_for_new_vt host worker

unfoldable pub vt_failure : DisplayMode → Failure
vt_failure reuse_vt = some (authenticating, [])
vt_failure new_vt = some (opening_session, codes "Unable to open VT")
vt_failure logind_managed = some (opening_session, codes "Unable to open VT")

unfoldable pub keep_session_id : Option Bytes → Worker → Worker
keep_session_id none worker = worker
keep_session_id (some id) worker = record worker { session_id = some id }

-- The session is open, and its id is that of logind.
unfoldable pub opened : WorkerHost → Worker → Option (Worker × Failure)
unfolding set_state keep_session_id report
opened host worker =
    get_username host.pam_user
      (keep_session_id (host.pam_getenv (codes "XDG_SESSION_ID")) (set_state session_opened worker))
    >>= λ r. some (report login r.0, none)

unfoldable pub open_with_vt : WorkerHost → Worker × Bool → Option (Worker × Failure)
unfolding vt_failure call is_success finish opened
open_with_vt host (worker, false) = some (worker, vt_failure worker.display_mode)
open_with_vt host (worker, true) = run_pam host host.pam_open_session worker >>= λ r.
    let asked = call (open_session r.0.is_program_session r.1) r.0 in
    if is_success r.1
    then opened host asked
    else finish host r.1 asked (some (opening_session, host.pam_strerror r.1))

-- `scdm_session_worker_open_session`. A terminal that cannot be set up leaves PAM as it is.
unfoldable pub open_user_session : WorkerHost → Worker → Option (Worker × Failure)
unfolding state_eq set_up_vt open_with_vt
open_user_session host worker =
    if state_eq worker.state account_details_saved && host.is_root
    then set_up_vt host worker.display_mode worker >>= open_with_vt host
    else none

unfoldable pub is_new_vt : DisplayMode → Bool
is_new_vt reuse_vt = false
is_new_vt new_vt = true
is_new_vt logind_managed = false

-- `run_script`: only for the sessions of users.
unfoldable pub script_runs : WorkerHost → Bytes → Worker → Bool
script_runs host name worker = if worker.is_program_session then true else host.run_script name

unfoldable pub close_tty : Option ℕ → Option ℕ
close_tty none = none
close_tty (some zero) = some zero
close_tty (some (suc fd)) = none

-- The child takes the worker's user id and runs its arguments; the worker watches it.
unfoldable pub forked : WorkerHost → Option ℕ → Worker → Option (Worker × Failure)
unfolding finish set_state close_tty
forked host none worker = finish host abort worker (some (opening_session, host.fork_error))
forked host (some pid) worker = some (
  record (set_state session_started
      (record worker { session_tty_fd = close_tty worker.session_tty_fd; child_pid = some pid })) {
        child_watched = true;
        spawned = record { uid = worker.uid; arguments = worker.arguments } ∷ worker.spawned;
      },
  none,
)

-- `scdm_session_worker_start_session`
unfoldable pub start_session : WorkerHost → Worker → Option (Worker × Failure)
unfolding on_seat0 is_new_vt jump_to_vt script_runs finish forked
start_session host worker =
    let shown =
      if on_seat0 worker.display_seat_id && is_new_vt worker.display_mode
      then jump_to_vt worker.session_vt worker
      else worker in
    if not (script_runs host (codes "/PostLogin") shown)
    then finish host abort shown
        (some (opening_session, codes "Failed to execute PostLogin script"))
    else if not (script_runs host (codes "/PreSession") shown)
    then finish host abort shown
        (some (opening_session, codes "Failed to execute PreSession script"))
    else forked host host.fork shown

-- `session_worker_child_watch`: the end of the program ends the session. The script after it runs
-- whatever it answers.
unfoldable pub session_worker_child_watch : WorkerHost → (status : ℕ) → Worker → Option Worker
unfolding uninitialize_pam emit
session_worker_child_watch host status worker = uninitialize_pam host success worker >>= λ w.
    some (record (emit (session_exited w.service status) w) {
      child_pid = none;
      child_watched = false;
    })
