-- ===== src/Worker/Events.antt =====
-- daemon/scdm-session-worker.c: what happens to a worker, as events in sequence: method calls, the
-- idle source, accountsservice, the end of the program, and the sessions that authenticate again.
use scdm.Prelude.{
  ℕ, Bool, false, not, Option, none, some, [], if◌then◌else◌, ◌==◌, Bytes, ◌≡◌, filter,
}
use scdm.SessionSettings
use scdm.SessionSettings.{ActUser}
use scdm.Worker.Open.{session_worker_child_watch}
use scdm.Worker.Requests.{Method, handle}
use scdm.Worker.State.{emit, notify_all}
use scdm.Worker.Steps.{state_change_idle}
use scdm.Worker.Types.{state_none, no_flags, reuse_vt, reauthenticated, Worker, WorkerHost}

pub data Event : Type 0 where
  method : (invocation : ℕ) → Method → Event
  idle : Event
  user_loaded : ActUser → Event
  child_exited : (status : ℕ) → Event
  reauthentication_client_gone : (pid : ℕ) → Event
  verification_complete : (service : Bytes) → Event

-- Accountsservice tells of the user that the settings wait for.
unfoldable pub user_tells : WorkerHost → ActUser → Worker → Option Worker
unfolding notify_all
user_tells host user worker =
    let (settings, notes) = SessionSettings.on_user_is_loaded_changed user worker.user_settings in
    if worker.user_settings.loading
    then notify_all host.act_user notes (record worker { user_settings = settings })
    else some worker

-- `none` is the end of the process.
unfoldable pub happen : WorkerHost → Event → Worker → Option Worker
unfolding user_tells emit
happen host (method invocation m) worker = handle host invocation m worker
happen host idle worker =
    if worker.state_change_queued then state_change_idle host worker else some worker
happen host (user_loaded user) worker = user_tells host user worker
happen host (child_exited status) worker =
    if worker.child_watched then session_worker_child_watch host status worker else some worker
happen host (reauthentication_client_gone pid) worker = some (record worker {
  reauthentication_requests = filter (λ r. not (r.0 == pid)) worker.reauthentication_requests;
})
happen host (verification_complete service) worker = some (emit (reauthenticated service) worker)

-- `scdm_session_worker_new`
unfoldable pub new : (is_reauth_session : Bool) → Worker
new is_reauth_session = record {
  state = state_none;
  state_changes = [];
  pam_handle = false;
  calls = [];
  child_pid = some 0;
  child_watched = false;
  service = none;
  x11_display_name = none;
  x11_authority_file = none;
  display_device = none;
  display_seat_id = none;
  hostname = none;
  username = none;
  log_file = none;
  session_id = none;
  uid = 0;
  gid = 0;
  password_is_required = false;
  extensions = none;
  advertised = none;
  cred_flags = no_flags;
  session_vt = 0;
  session_tty_fd = some 0;
  arguments = [];
  cancelled = false;
  timed_out = false;
  is_program_session = false;
  is_reauth_session = is_reauth_session;
  display_is_local = false;
  display_is_initial = false;
  state_change_queued = false;
  display_mode = reuse_vt;
  reauthentication_requests = [];
  auditor = false;
  audit_username = none;
  audit = [];
  user_settings = SessionSettings.new;
  name_handlers = 0;
  loaded_handler = false;
  pending_invocation = none;
  replies = [];
  signals = [];
  vt_jumps = [];
  spawned = [];
}

-- The states that a worker can get into.
pub data Reachable : Worker → Type 0 where
  created : (is_reauth_session : Bool) → Reachable (new is_reauth_session)
  after :
      {before next : Worker} (host : WorkerHost) (event : Event)
      → Reachable before
      → happen host event before ≡ some next
      → Reachable next
