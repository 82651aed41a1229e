-- ===== src/Examples/Worker.antt =====
-- A session worker from the set-up to the program of the session, at which the theorems on
-- daemon/scdm-session-worker.c are tried.
use scdm.Prelude.{
  ◌+◌, ◌≡◌, ◌⊎◌, refl, true, false, Option, none, some, List, [], ◌∷◌, ◌>>=◌, ◌==◌, codes, bytes_eq,
  subst, length, count, Holds, is_some,
}
use scdm.SessionSettings
use scdm.SessionSettings.{ActUser}
use scdm.Worker.Conversation.{run_pam, process_pam_message}
use scdm.Worker.Events.{Event, method, idle, happen, new, Reachable, created, after}
use scdm.Worker.Protocol.Answers.{waiting}
use scdm.Worker.Protocol.History.{Reachable-Follows, program_needs_session, happen_answers}
use scdm.Worker.Protocol.{stage, stage_of, has_handle, is_login, is_logout, open_sessions, opened}
use scdm.Worker.Requests.Refusals.{start_program_out_of_order, refused}
use scdm.Worker.Requests.{
  SetupArguments, setup_for_user, authenticate, authorize, establish_credentials, open_session,
  start_program, handle,
}
use scdm.Worker.Login.{authenticate_user, authorize_user, accredit_user}
use scdm.Worker.Open.{open_user_session, start_session}
use scdm.Worker.State.{number, update_username}
use scdm.Worker.Pam.{
  require_password, set_class, set_seat, initialize_pam, set_up_items, is_success, set_if_nonempty,
  prompt_of, begin_pam, advertise_if_some, nonempty, set_up_service,
}
use scdm.Worker.Steps.{validate_and_queue_state_change, validate_state_change, state_change_idle}
use scdm.Worker.Types.{
  session_opened, session_started, success, Message, prompt_echo_off, PamRun, Worker, WorkerHost,
}

abbrev pub quiet_run : PamRun
quiet_run = record { batches = []; result = λ replies. success }

abbrev pub asking_for_password : List Message
asking_for_password = record { msg_style = prompt_echo_off; msg = codes "Password: " } ∷ []

-- The password is asked for, and the answer is good if there is one.
abbrev pub password_run : PamRun
password_run = record {
  batches = record { user = some (some (codes "ada")); messages = some asking_for_password } ∷ [];
  result = λ replies. success;
}

abbrev pub user : ActUser
user = record {
  is_loaded = true;
  x_session = some (codes "plasma");
  language = some (codes "en_GB");
}

abbrev pub host : WorkerHost
host = record {
  user_display_server = true;
  supports_pam_extensions = false;
  initial_vt = 7;
  bindir = codes "/usr/bin";
  locale_to_utf8 = λ text. some text;
  utf8_validate = λ text. none;
  info_query = λ text. (true, some (codes "ada"));
  secret_info_query = λ text. (true, some (codes "secret"));
  info = λ text. true;
  problem = λ text. true;
  choice_list_query = λ prompt list. (true, some (codes "first"));
  act_user = λ name. user;
  pam_start = success;
  failed_start_leaves_handle = false;
  pam_set_item = λ item. success;
  pam_authenticate = λ flag. password_run;
  pam_acct_mgmt = λ flag. quiet_run;
  pam_chauthtok = quiet_run;
  pam_setcred = quiet_run;
  pam_open_session = quiet_run;
  pam_strerror = λ code. codes "error";
  pam_user = some (some (codes "ada"));
  pam_getenv = λ key. none;
  getpwnam = λ name. some (record {
    pw_uid = 1000;
    pw_gid = 1000;
    pw_dir = some (codes "/home/ada");
    pw_shell = some (codes "/bin/sh");
  });
  setgid = λ gid. true;
  initgroups = λ name gid. true;
  is_root = true;
  read_xauth = λ file. file;
  open_tty = λ vt. some 9;
  open_query = some 8;
  active_vt = some 7;
  run_script = λ name. true;
  fork = some 4242;
  fork_error = codes "Resource temporarily unavailable";
  parse_argv = λ text. some (text ∷ []);
}

abbrev pub set_up_arguments : SetupArguments
set_up_arguments = record {
  service = codes "scdm-password";
  x11_display_name = codes ":0";
  x11_authority_file = codes "/run/auth";
  console = [];
  seat_id = codes "seat0";
  hostname = [];
  display_is_local = true;
  display_is_initial = false;
}

abbrev pub or_new : Option Worker → Worker
or_new none = new false
or_new (some w) = w

some_of : (o : Option Worker) → is_some o ≡ true → o ≡ some (or_new o)
some_of none h = cc
some_of (some w) h = refl

-- The events in order; the first worker is the last one's successor.
abbrev pub run : List Event → Worker → Option Worker
run [] w = some w
run (e ∷ rest) w = happen host e w >>= run rest

run-Reachable :
    (es : List Event) (w next : Worker) → Reachable w → run es w ≡ some next → Reachable next
run-Reachable [] w next r q = subst (Holds Reachable) q r
run-Reachable (e ∷ rest) w next r q =
    go (happen host e w) refl (λ x h k. run-Reachable rest x next h k) q
  where
    go :
        (o : Option Worker)
        → happen host e w ≡ o
        → ((x : Worker) → Reachable x → run rest x ≡ some next → Reachable next)
        → (o >>= run rest) ≡ some next
        → Reachable next
    go none h more k = cc
    go (some x) h more k = more x (after host e r h) k

abbrev pub set_up_events : List Event
set_up_events = method 1 (setup_for_user set_up_arguments (codes "ada")) ∷ idle ∷ []

-- PAM has started, and authenticates the user.
abbrev pub begun : Worker
begun = or_new (run set_up_events (new false))

abbrev login_events : List Event
login_events =
    method 2 authenticate
    ∷ idle
    ∷ method 3 authorize
    ∷ idle
    ∷ method 4 establish_credentials
    ∷ idle
    ∷ method 5 open_session
    ∷ idle
    ∷ idle
    ∷ []

-- The session is open.
abbrev ready : Worker
ready = or_new (run login_events begun)

begun_runs : is_some (run set_up_events (new false)) ≡ true
unfolding happen handle validate_and_queue_state_change SessionSettings.load
    SessionSettings.is_loaded new initialize_pam set_up_items state_change_idle is_success
    set_if_nonempty prompt_of begin_pam advertise_if_some nonempty set_up_service require_password
    set_class bytes_eq set_seat authenticate_user run_pam process_pam_message update_username
    authorize_user accredit_user validate_state_change open_user_session
begun_runs = refl

ready_runs : is_some (run login_events begun) ≡ true
unfolding happen handle validate_and_queue_state_change SessionSettings.load
    SessionSettings.is_loaded new initialize_pam set_up_items state_change_idle is_success
    set_if_nonempty prompt_of begin_pam advertise_if_some nonempty set_up_service require_password
    set_class bytes_eq set_seat authenticate_user run_pam process_pam_message update_username
    authorize_user accredit_user validate_state_change open_user_session
ready_runs = refl

ready_state : ready.state ≡ session_opened
unfolding happen handle validate_and_queue_state_change SessionSettings.load
    SessionSettings.is_loaded new initialize_pam set_up_items state_change_idle is_success
    set_if_nonempty prompt_of begin_pam advertise_if_some nonempty set_up_service require_password
    set_class bytes_eq set_seat authenticate_user run_pam process_pam_message update_username
    authorize_user accredit_user validate_state_change open_user_session
ready_state = refl

begun-Reachable : Reachable begun
begun-Reachable =
    run-Reachable set_up_events (new false) begun (created false) (some_of _ begun_runs)

ready-Reachable : Reachable ready
ready-Reachable = run-Reachable login_events begun ready begun-Reachable (some_of _ ready_runs)

-- The session asks for a program, which is started next.
abbrev asked_to_start : Worker
asked_to_start = or_new (happen host (method 6 (start_program (codes "plasma"))) ready)

asked_to_start_runs : is_some (happen host (method 6 (start_program (codes "plasma"))) ready) ≡ true
unfolding happen handle validate_and_queue_state_change SessionSettings.load
    SessionSettings.is_loaded new initialize_pam set_up_items state_change_idle is_success
    set_if_nonempty prompt_of begin_pam advertise_if_some nonempty set_up_service require_password
    set_class bytes_eq set_seat authenticate_user run_pam process_pam_message update_username
    authorize_user accredit_user validate_state_change open_user_session
asked_to_start_runs = refl

asked_to_start-Reachable : Reachable asked_to_start
asked_to_start-Reachable =
    after host (method 6 (start_program (codes "plasma"))) ready-Reachable
      (some_of _ asked_to_start_runs)

abbrev busy : Worker
busy = or_new (happen host idle asked_to_start)

busy_runs : is_some (happen host idle asked_to_start) ≡ true
unfolding happen handle validate_and_queue_state_change SessionSettings.load
    SessionSettings.is_loaded new initialize_pam set_up_items state_change_idle is_success
    set_if_nonempty prompt_of begin_pam advertise_if_some nonempty set_up_service require_password
    set_class bytes_eq set_seat authenticate_user run_pam process_pam_message update_username
    authorize_user accredit_user validate_state_change open_user_session start_session
busy_runs = refl

busy_state : (busy.state ≡ session_started) × (length busy.spawned ≡ 1)
unfolding happen handle validate_and_queue_state_change SessionSettings.load
    SessionSettings.is_loaded new initialize_pam set_up_items state_change_idle is_success
    set_if_nonempty prompt_of begin_pam advertise_if_some nonempty set_up_service require_password
    set_class bytes_eq set_seat authenticate_user run_pam process_pam_message update_username
    authorize_user accredit_user validate_state_change open_user_session start_session
busy_state = (refl, refl)

Reachable-Follows_example :
    (stage ready.is_reauth_session ready.calls ≡ stage_of ready.state)
    × (ready.pam_handle ≡ has_handle (stage_of ready.state))
    × (count is_login ready.audit
        ≡ count is_logout ready.audit + open_sessions (stage_of ready.state))
Reachable-Follows_example = Reachable-Follows ready-Reachable

program_needs_session_example :
    (busy.spawned ≡ asked_to_start.spawned)
    ⊎ (stage asked_to_start.is_reauth_session asked_to_start.calls ≡ opened)
program_needs_session_example =
    program_needs_session host idle asked_to_start-Reachable (some_of _ busy_runs)

ready_may : (ready.pending_invocation ≡ none) × (ready.state ≡ session_opened)
unfolding happen handle validate_and_queue_state_change SessionSettings.load
    SessionSettings.is_loaded new initialize_pam set_up_items state_change_idle is_success
    set_if_nonempty prompt_of begin_pam advertise_if_some nonempty set_up_service require_password
    set_class bytes_eq set_seat authenticate_user run_pam process_pam_message update_username
    authorize_user accredit_user validate_state_change open_user_session
ready_may = (refl, refl)

happen_answers_example :
    length asked_to_start.replies + waiting asked_to_start.pending_invocation
    ≡ length ready.replies + waiting ready.pending_invocation + 1
happen_answers_example =
    happen_answers host (method 6 (start_program (codes "plasma"))) ready-Reachable ready_may
      (some_of _ asked_to_start_runs)

begun_free :
    (begun.pending_invocation ≡ none)
    × ((number begun.state == 6) ≡ false)
    × (begun.is_reauth_session ≡ false)
unfolding happen handle validate_and_queue_state_change SessionSettings.load
    SessionSettings.is_loaded new initialize_pam set_up_items state_change_idle is_success
    set_if_nonempty prompt_of begin_pam advertise_if_some nonempty set_up_service require_password
    set_class bytes_eq set_seat authenticate_user run_pam process_pam_message update_username
    authorize_user accredit_user validate_state_change open_user_session
begun_free = (refl, refl, refl)

start_program_out_of_order_example :
    (next : Worker) × (handle host 7 (start_program (codes "plasma")) begun ≡ some next)
    × (next.replies ≡ (refused 7 session_started begun).replies)
    × (next.pending_invocation ≡ some 7)
    × (next.state ≡ begun.state)
    × (next.state_change_queued ≡ true)
start_program_out_of_order_example =
    start_program_out_of_order host 7 (codes "plasma") (codes "plasma" ∷ []) begun begun_free.0
      begun_free.1 begun_free.2 refl
