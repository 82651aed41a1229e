-- ===== src/Worker/Steps.antt =====
-- daemon/scdm-session-worker.c: the idle source that takes a worker to its next state, and the
-- answer to the invocation that waits for it.
use scdm.Prelude.{
  ℕ, suc, Bool, true, false, not, Option, none, some, [], ◌++◌, if◌then◌else◌, ◌==◌, Bytes, codes,
  ◌>>=◌,
}
use scdm.SessionSettings
use scdm.Worker.Login.{authenticate_user, authorize_user, accredit_user}
use scdm.Worker.Open.{open_user_session, start_session}
use scdm.Worker.Pam.{Failure, initialize_pam}
use scdm.Worker.State.{
  number, state_eq, reply, queue_state_change, save_account_details_now, load_settings,
  update_username,
}
use scdm.Worker.Types.{
  State, state_none, setup_complete, authenticated, authorized, accredited, account_details_saved,
  session_opened, session_started, wrong_state, outstanding_request, Reply, completed,
  session_id_is, pid_is, failed_with, Worker, WorkerHost,
}

unfoldable pub answer : Option ℕ → Reply → Worker → Worker
unfolding reply
answer none r worker = worker
answer (some invocation) r worker = record (reply invocation r worker) { pending_invocation = none }

-- The invocation that waits gets its reply, and none waits any more.
unfoldable pub answer_pending : Reply → Worker → Worker
unfolding answer
answer_pending r worker = answer worker.pending_invocation r worker

unfoldable pub reply_of : Reply → Failure → Reply
reply_of r none = r
reply_of r (some (error, message)) = failed_with error message

unfoldable pub do_setup : WorkerHost → Worker → Option Worker
unfolding answer_pending reply_of
do_setup host worker =
    initialize_pam host worker >>= λ r. some (answer_pending (reply_of completed r.1) r.0)

-- The user of a session may have another name by now; then the invocation is answered.
unfoldable pub after_login : WorkerHost → Worker × Failure → Option Worker
unfolding answer_pending reply_of
after_login host (worker, some failure) =
    some (answer_pending (reply_of completed (some failure)) worker)
after_login host (worker, none) =
    (if worker.is_program_session
      then some worker
      else update_username host.act_user host.pam_user worker)
    >>= λ w. some (answer_pending completed w)

unfoldable pub do_authenticate : WorkerHost → Worker → Option Worker
unfolding after_login
do_authenticate host worker = authenticate_user host worker >>= after_login host

unfoldable pub do_authorize : WorkerHost → Worker → Option Worker
unfolding answer_pending reply_of
do_authorize host worker =
    authorize_user host worker >>= λ r. some (answer_pending (reply_of completed r.1) r.0)

unfoldable pub do_accredit : WorkerHost → Worker → Option Worker
unfolding answer_pending reply_of
do_accredit host worker =
    accredit_user host worker >>= λ r. some (answer_pending (reply_of completed r.1) r.0)

-- The settings of a user that is not loaded are waited for, and the invocation with them.
unfoldable pub do_save_account_details_when_ready : WorkerHost → Worker → Option Worker
unfolding state_eq save_account_details_now load_settings
do_save_account_details_when_ready host worker =
    if not (state_eq worker.state accredited)
    then none
    else if SessionSettings.is_loaded worker.user_settings
    then save_account_details_now host.act_user worker
    else load_settings host.act_user worker.username (record worker { loaded_handler = true })
      >>= λ r. some r.0

unfoldable pub id_or_empty : Option Bytes → Bytes
id_or_empty none = []
id_or_empty (some id) = id

unfoldable pub do_open_session : WorkerHost → Worker → Option Worker
unfolding answer_pending reply_of id_or_empty
do_open_session host worker = open_user_session host worker >>= λ r.
    some (answer_pending (reply_of (session_id_is (id_or_empty r.0.session_id)) r.1) r.0)

unfoldable pub pid_of : Option ℕ → Reply
pid_of none = completed
pid_of (some pid) = pid_is pid

unfoldable pub do_start_session : WorkerHost → Worker → Option Worker
unfolding answer_pending reply_of pid_of
do_start_session host worker = start_session host worker >>= λ r.
    some (answer_pending (reply_of (pid_of r.0.child_pid) r.1) r.0)

-- The step from a state; there is none after the last.
unfoldable pub step_from : WorkerHost → State → Worker → Option Worker
unfolding do_setup do_authenticate do_authorize do_accredit do_save_account_details_when_ready
    do_open_session do_start_session
step_from host state_none worker = do_setup host worker
step_from host setup_complete worker = do_authenticate host worker
step_from host authenticated worker = do_authorize host worker
step_from host authorized worker = do_accredit host worker
step_from host accredited worker = do_save_account_details_when_ready host worker
step_from host account_details_saved worker = do_open_session host worker
step_from host session_opened worker = do_start_session host worker
step_from host session_started worker = none

-- `state_change_idle`
unfoldable pub state_change_idle : WorkerHost → Worker → Option Worker
unfolding step_from
state_change_idle host worker =
    step_from host worker.state (record worker { state_change_queued = false })

-- `get_state_name`
unfoldable pub state_name : State → Bytes
state_name state_none = codes "NONE"
state_name setup_complete = codes "SETUP_COMPLETE"
state_name authenticated = codes "AUTHENTICATED"
state_name authorized = codes "AUTHORIZED"
state_name accredited = codes "ACCREDITED"
state_name account_details_saved = codes "ACCOUNT_DETAILS_SAVED"
state_name session_opened = codes "SESSION_OPENED"
state_name session_started = codes "SESSION_STARTED"

-- The name of the state after a state, which the last one has none of.
unfoldable pub next_name : State → Option Bytes
unfolding state_name
next_name state_none = some (state_name setup_complete)
next_name setup_complete = some (state_name authenticated)
next_name authenticated = some (state_name authorized)
next_name authorized = some (state_name accredited)
next_name accredited = some (state_name account_details_saved)
next_name account_details_saved = some (state_name session_opened)
next_name session_opened = some (state_name session_started)
next_name session_started = none

-- The name of the state that a state is to be moved to from.
unfoldable pub last_name : State → Bytes
unfolding state_name
last_name state_none = []
last_name setup_complete = state_name state_none
last_name authenticated = state_name setup_complete
last_name authorized = state_name authenticated
last_name accredited = state_name authorized
last_name account_details_saved = state_name accredited
last_name session_opened = state_name account_details_saved
last_name session_started = state_name session_opened

unfoldable pub wrong_state_message : (new_state state : State) → Bytes
unfolding state_name last_name
wrong_state_message new_state state =
    codes "Cannot move to state "
    ++ (state_name new_state
        ++ (codes ", in state " ++ (state_name state ++ (codes ", not " ++ last_name new_state))))

unfoldable pub in_order : (invocation : ℕ) → State → Worker → Worker × Bool
unfolding reply wrong_state_message number
in_order invocation new_state worker =
    if suc (number worker.state) == number new_state then (worker, true) else (
      reply invocation (failed_with wrong_state (wrong_state_message new_state worker.state))
          worker,
      false,
    )

unfoldable pub refuse : (invocation : ℕ) → State → Option Bytes → Worker → Option (Worker × Bool)
unfolding reply state_name
refuse invocation new_state none worker = none
refuse invocation new_state (some name) worker = some (
  reply invocation
      (failed_with outstanding_request (
        codes "Cannot process state change to "
        ++ (state_name new_state
            ++ (codes ", as there is already an outstanding request to move to state " ++ name))))
      worker,
  false,
)

unfoldable pub validate_with : Option ℕ → (invocation : ℕ) → State → Worker → Option (Worker × Bool)
unfolding in_order refuse next_name
validate_with none invocation new_state worker = some (in_order invocation new_state worker)
validate_with (some pending) invocation new_state worker =
    refuse invocation new_state (next_name worker.state) worker

-- `validate_state_change`: the invocation is refused with an error, or the state may change. The
-- error names the state that is waited for, which the last state has none of.
unfoldable pub validate_state_change : (invocation : ℕ) → State → Worker → Option (Worker × Bool)
unfolding validate_with
validate_state_change invocation new_state worker =
    validate_with worker.pending_invocation invocation new_state worker

-- `validate_and_queue_state_change`
unfoldable pub validate_and_queue_state_change : (invocation : ℕ) → State → Worker → Option Worker
unfolding queue_state_change
validate_and_queue_state_change invocation new_state worker =
    validate_state_change invocation new_state worker >>= λ r.
    some (
      if r.1 then queue_state_change (record r.0 { pending_invocation = some invocation }) else r.0)
