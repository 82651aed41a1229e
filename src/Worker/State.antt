-- ===== src/Worker/State.antt =====
-- daemon/scdm-session-worker.c: the worker's state, its signals and audit reports, the user's name
-- and the handlers of the user's settings. `none` means that the process ends, by an assertion.
use scdm.Prelude.{
  ℕ, zero, suc, Bool, true, false, Option, none, some, List, [], ◌∷◌, if◌then◌else◌, ◌==◌, leb,
  Bytes, bytes_eq, ◌>>=◌,
}
use scdm.SessionSettings
use scdm.SessionSettings.{
  SessionSettings, ActUser, Notify, session_name_changed, language_name_changed, is_loaded_changed,
}
use scdm.Worker.Types.{
  State, state_none, setup_complete, authenticated, authorized, accredited, account_details_saved,
  session_opened, session_started, Signal, username_changed, saved_language_name_read,
  saved_session_name_read, Audit, Worker, PamCall, put_env, Reply,
}

-- The value of a state in C.
unfoldable pub number : State → ℕ
number state_none = 0
number setup_complete = 1
number authenticated = 2
number authorized = 3
number accredited = 4
number account_details_saved = 5
number session_opened = 6
number session_started = 7

unfoldable pub state_eq : State → State → Bool
unfolding number
state_eq s t = number s == number t

unfoldable pub reached : State → State → Bool
unfolding number
reached s t = leb (number s) (number t)

unfoldable pub set_state : State → Worker → Worker
unfolding state_eq
set_state state worker =
    if state_eq worker.state state
    then worker
    else record worker { state = state; state_changes = state ∷ worker.state_changes }

unfoldable pub emit : Signal → Worker → Worker
emit signal worker = record worker { signals = signal ∷ worker.signals }

-- A report of the auditor.
unfoldable pub report : Audit → Worker → Worker
report event worker = record worker { audit = event ∷ worker.audit }

unfoldable pub call : PamCall → Worker → Worker
call c worker = record worker { calls = c ∷ worker.calls }

-- A reply to an invocation.
unfoldable pub reply : ℕ → Reply → Worker → Worker
reply invocation r worker = record worker { replies = (invocation, r) ∷ worker.replies }

unfoldable pub set_environment_variable : Bytes → Option Bytes → Worker → Worker
unfolding call
set_environment_variable key value worker = call (put_env key value) worker

unfoldable pub audit_name : Option Bytes → Worker → Worker
audit_name name worker = if worker.auditor then record worker { audit_username = name } else worker

unfoldable pub got_username : Option (Option Bytes) → Worker → Worker × Option (Option Bytes)
unfolding audit_name
got_username none worker = (worker, none)
got_username (some name) worker = (audit_name name worker, some name)

-- `scdm_session_worker_get_username`, where PAM tells this name.
unfoldable pub get_username :
    Option (Option Bytes) → Worker → Option (Worker × Option (Option Bytes))
unfolding got_username
get_username item worker = if worker.pam_handle then some (got_username item worker) else none

unfoldable pub queue_state_change : Worker → Worker
queue_state_change worker =
    if worker.state_change_queued then worker else record worker { state_change_queued = true }

-- `save_account_details_now`; that the settings could not be saved is a warning.
unfoldable pub save_account_details_now : (Bytes → ActUser) → Worker → Option Worker
unfolding state_eq set_state queue_state_change
save_account_details_now act_user worker =
    if state_eq worker.state accredited
    then (let saved = set_state account_details_saved worker in
        some (
          queue_state_change (record saved {
            user_settings = (SessionSettings.save act_user worker.username worker.user_settings).0;
          })))
    else none

-- By the state in which the settings come in; in others the handler stays.
unfoldable pub loaded_in : (Bytes → ActUser) → State → Worker → Option Worker
unfolding queue_state_change save_account_details_now
loaded_in act_user state_none worker =
    some (record (queue_state_change worker) { loaded_handler = false })
loaded_in act_user accredited worker =
    save_account_details_now act_user worker >>= λ w. some (record w { loaded_handler = false })
loaded_in act_user setup_complete worker = some worker
loaded_in act_user authenticated worker = some worker
loaded_in act_user authorized worker = some worker
loaded_in act_user account_details_saved worker = some worker
loaded_in act_user session_opened worker = some worker
loaded_in act_user session_started worker = some worker

unfoldable pub on_settings_is_loaded_changed : (Bytes → ActUser) → Worker → Option Worker
unfolding loaded_in
on_settings_is_loaded_changed act_user worker =
    if SessionSettings.is_loaded worker.user_settings
    then loaded_in act_user worker.state (record worker { name_handlers = 0 })
    else some worker

-- One signal for each connection of the handler.
unfoldable pub emit_times : ℕ → Signal → Worker → Worker
unfolding emit
emit_times zero signal worker = worker
emit_times (suc n) signal worker = emit_times n signal (emit signal worker)

unfoldable pub notified : (Bytes → ActUser) → Notify → Worker → Option Worker
unfolding emit_times on_settings_is_loaded_changed
notified act_user session_name_changed worker = some (
    emit_times worker.name_handlers (saved_session_name_read worker.user_settings.session_name)
      worker)
notified act_user language_name_changed worker = some (
    emit_times worker.name_handlers (saved_language_name_read worker.user_settings.language_name)
      worker)
notified act_user is_loaded_changed worker =
    if worker.loaded_handler then on_settings_is_loaded_changed act_user worker else some worker

-- The handlers of what the settings notify of.
unfoldable pub notify_all : (Bytes → ActUser) → List Notify → Worker → Option Worker
unfolding notified
notify_all act_user [] worker = some worker
notify_all act_user (note ∷ rest) worker =
    notified act_user note worker >>= notify_all act_user rest

-- `scdm_session_settings_load` on the worker's settings, and whether it succeeded.
unfoldable pub load_settings : (Bytes → ActUser) → Option Bytes → Worker → Option (Worker × Bool)
unfolding notify_all
load_settings act_user username worker =
    let (settings, notes, ok) = SessionSettings.load act_user username worker.user_settings in
    notify_all act_user notes (record worker { user_settings = settings }) >>= λ w. some (w, ok)

unfoldable pub same_username : Option Bytes → Option Bytes → Bool
same_username none none = true
same_username none (some b) = false
same_username (some a) none = false
same_username (some a) (some b) = bytes_eq a b

-- A first name to try, with settings that were not read: they are read.
unfoldable pub try_settings : (Bytes → ActUser) → Option Bytes → Worker → Option Worker
unfolding load_settings
try_settings act_user none worker = some worker
try_settings act_user (some []) worker = some worker
try_settings act_user (some (c ∷ cs)) worker =
    if SessionSettings.is_loaded worker.user_settings
    then some worker
    else load_settings act_user (some (c ∷ cs)) worker >>= λ r. some r.0

unfoldable pub renamed : (Bytes → ActUser) → Option (Option Bytes) → Worker → Option Worker
unfolding audit_name same_username try_settings emit
renamed act_user none worker = some worker
renamed act_user (some name) worker =
    let old = audit_name worker.username worker in
    if same_username worker.username name
    then some old
    else try_settings act_user name (emit (username_changed name) (record old { username = name }))

-- `scdm_session_worker_update_username`
unfoldable pub update_username : (Bytes → ActUser) → Option (Option Bytes) → Worker → Option Worker
unfolding get_username renamed
update_username act_user item worker = get_username item worker >>= λ r. renamed act_user r.1 r.0
