-- ===== src/Worker/Pam.antt =====
-- daemon/scdm-session-worker.c: the steps of a login with PAM, from its start to the user's
-- credentials. A step returns the error that it failed with; `none` around all is the end of the
-- process by an assertion or a null pointer.
use scdm.Prelude.{
  ℕ, zero, suc, ◌+◌, ◌/◌, ◌%◌, Bool, true, false, not, ◌&&◌, Option, none, some, List, [], ◌∷◌,
  ◌++◌, if◌then◌else◌, ◌==◌, Bytes, codes, bytes_eq, ◌>>=◌,
}
use scdm.Worker.Extensions.{advertise}
use scdm.Worker.State.{get_username, reached, set_state, report, call, set_environment_variable}
use scdm.Worker.Types.{
  state_none, setup_complete, accredited, session_opened, PamCode, success, PamItem, user_prompt,
  rhost, tty, delete_cred, start, set_item, setcred, close_session, end_pam, WorkerError,
  service_unavailable, authenticating, logout, login_failure, Worker, WorkerHost,
}

-- How a step ends: with nothing, or with the error that the invocation gets.
abbrev pub Failure : Type 0
Failure = Option (WorkerError × Bytes)

unfoldable pub is_success : PamCode → Bool
is_success success = true
is_success _ = false

-- `g_strcmp0 (display_seat_id, "seat0") == 0`
unfoldable pub on_seat0 : Option Bytes → Bool
on_seat0 none = false
on_seat0 (some seat) = bytes_eq seat (codes "seat0")

unfoldable pub jump_to_vt : ℕ → Worker → Worker
jump_to_vt vt worker = record worker { vt_jumps = vt ∷ worker.vt_jumps }

-- The session is closed if it was opened, and the credentials are deleted if they were set.
unfoldable pub close_pam : PamCode → Worker → Worker
unfolding reached call report
close_pam status worker =
    let opened = reached session_opened worker.state in
    let closed =
      if opened
      then report logout (call close_session worker)
      else report (login_failure status) worker in
    let deleted =
      if reached accredited worker.state
      then call (setcred delete_cred success) closed
      else closed in
    record (call (end_pam status) deleted) {
      pam_handle = false;
      auditor = false;
      audit_username = none;
    }

-- The login screen's terminal comes back, where sessions have terminals of their own.
unfoldable pub leave_vt : WorkerHost → Worker → Worker
unfolding on_seat0 jump_to_vt
leave_vt host worker =
    if host.user_display_server
      && (on_seat0 worker.display_seat_id && not (worker.session_vt == host.initial_vt))
    then jump_to_vt host.initial_vt worker
    else worker

-- `scdm_session_worker_uninitialize_pam`
unfoldable pub uninitialize_pam : WorkerHost → PamCode → Worker → Option Worker
unfolding close_pam leave_vt set_state
uninitialize_pam host status worker =
    if not worker.pam_handle
    then some worker
    else get_username host.pam_user worker >>= λ r.
        some
          (set_state state_none (record (leave_vt host (close_pam status r.0)) { session_vt = 0 }))

-- What each step does at its end with the code it got to.
unfoldable pub finish : WorkerHost → PamCode → Worker → Failure → Option (Worker × Failure)
unfolding uninitialize_pam
finish host status worker failure = uninitialize_pam host status worker >>= λ w. some (w, failure)

unfoldable pub set_pam_item : WorkerHost → PamItem → Bytes → Worker → Worker
unfolding call
set_pam_item host item value worker = call (set_item item value (host.pam_set_item item)) worker

-- A number in decimal digits.
digits : (fuel n : ℕ) → Bytes → Bytes
digits zero n after = after
digits (suc fuel) n after =
    let rest = digits fuel (n / 10) ((b'0' + n % 10) ∷ after) in
    if n / 10 == 0 then (b'0' + n % 10) ∷ after else rest

unfoldable pub decimal : ℕ → Bytes
unfolding digits
decimal n = digits (suc n) n []

unfoldable pub tty_name : ℕ → Bytes
unfolding decimal
tty_name vt = codes "/dev/tty" ++ decimal vt

-- A text that is there and not empty.
unfoldable pub nonempty : Option Bytes → Option Bytes
nonempty none = none
nonempty (some []) = none
nonempty (some (c ∷ cs)) = some (c ∷ cs)

-- A PAM item that has a value; the step fails with the code if PAM does not take it.
unfoldable pub set_if_nonempty : WorkerHost → PamItem → Option Bytes → Worker → Worker × PamCode
unfolding set_pam_item
set_if_nonempty host item none worker = (worker, success)
set_if_nonempty host item (some value) worker =
    (set_pam_item host item value worker, host.pam_set_item item)

unfoldable pub set_seat : Option Bytes → Worker → Worker
unfolding set_environment_variable
set_seat none worker = worker
set_seat (some seat) worker = set_environment_variable (codes "XDG_SEAT") (some seat) worker

unfoldable pub prompt_of : Option Bytes → Option Bytes
prompt_of none = some (codes "Username:")
prompt_of (some name) = none

-- The session of a greeter is marked as one.
unfoldable pub set_class : (service : Bytes) → Worker → Worker
unfolding set_environment_variable
set_class service worker =
    if bytes_eq service (codes "scdm-launch-environment")
    then set_environment_variable (codes "XDG_SESSION_CLASS") (some (codes "greeter")) worker
    else worker

unfoldable pub require_password : Worker → Worker
require_password worker =
    if worker.display_is_local then worker else record worker { password_is_required = true }

-- From the seat on: the service is compared, which is a null pointer if it is not set.
unfoldable pub set_up_service : WorkerHost → Option Bytes → Worker → Option (Worker × Failure)
set_up_service host none worker = none
set_up_service host (some service) worker = some (
  require_password (
      set_pam_item host tty (tty_name host.initial_vt) (
        set_state setup_complete
          (set_class service (set_seat (nonempty worker.display_seat_id) worker)))),
  none,
)

unfoldable pub set_up_items : WorkerHost → Worker → Option (Worker × Failure)
set_up_items host worker =
    let (prompted, first) = set_if_nonempty host user_prompt (prompt_of worker.username) worker in
    let (named, second) = set_if_nonempty host rhost (nonempty prompted.hostname) prompted in
    if not (is_success first)
    then finish host first prompted (some (authenticating, []))
    else if not (is_success second)
    then finish host second named (some (authenticating, []))
    else set_up_service host named.service named

-- PAM is started, with an auditor. A start that fails may leave the handle set.
unfoldable pub begin_pam : WorkerHost → Worker → Worker
unfolding call is_success
begin_pam host worker = call (start host.pam_start) (record worker {
  auditor = true;
  audit_username = none;
  pam_handle = if is_success host.pam_start then true else host.failed_start_leaves_handle;
})

unfoldable pub advertise_if_some : WorkerHost → Option (List Bytes) → Worker → Worker
unfolding advertise
advertise_if_some host none worker = worker
advertise_if_some host (some extensions) worker =
    if host.supports_pam_extensions
    then record worker { advertised = advertise extensions worker.advertised }
    else worker

-- `scdm_session_worker_initialize_pam`, with the worker's own fields for its arguments.
unfoldable pub initialize_pam : WorkerHost → Worker → Option (Worker × Failure)
initialize_pam host worker =
    let begun = begin_pam host (advertise_if_some host worker.extensions worker) in
    if worker.pam_handle
    then none
    else if is_success host.pam_start
    then set_up_items host begun
    else finish host host.pam_start begun (some (service_unavailable, []))
