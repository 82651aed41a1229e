-- ===== src/Examples/Session.antt =====
-- A session with one worker, at which the theorems on daemon/scdm-session.c are tried.
use scdm.Examples.Worker.{host}
use scdm.Prelude.{◌≡◌, refl, true, false, Option, none, some, List, [], ◌∷◌, Bytes, codes}
use scdm.Session.Conversations.{session_start_conversation, find_conversation_by_name}
use scdm.Session.Order.Login.{session_calls_in_order}
use scdm.Session.Order.{calls_of, on_reached, asked_next}
use scdm.Session.Queries.Answers.{secret_query_answered}
use scdm.Session.Queries.{handle_secret_info_query, answer_query}
use scdm.Session.Types.{Conversation, Session, SessionHost, login, answered}
use scdm.Worker.Events.{new}
use scdm.Worker.Requests
use scdm.Worker.Requests.{Method, handle}
use scdm.Worker.Types.{authenticated, Worker}

abbrev session_host : SessionHost
session_host = record {
  wayland_support = true;
  user_display_server = true;
  load_from_dirs = λ file. none;
  base_names = [];
  is_prog_in_path = λ program. true;
  is_wayland_path = λ path. false;
  worker_job_start = none;
  locale = some (codes "C");
  language_variables = [];
  windowpath = none;
  disallow_tcp = true;
  libexecdir = codes "/usr/libexec";
  confdir = codes "/etc/scdm";
}

abbrev service : Bytes
service = codes "scdm-password"

abbrev conversation : Conversation
conversation = record {
  id = 0;
  service_name = service;
  worker_pid = 4000;
  has_job = true;
  starting_invocation = some 1;
  starting_username = none;
  pending_invocation = none;
  worker_manager_interface = true;
  worker_proxy = true;
  connected = true;
  session_id = none;
  is_stopping = false;
  reauth_pid_of_caller = 0;
  calls = [];
}

abbrev session : Session
session = record {
  selected_program = none;
  selected_session = none;
  saved_session = none;
  saved_language = none;
  selected_user = some (codes "ada");
  user_x11_authority_file = none;
  timed_login = none;
  conversations = (service, some conversation) ∷ [];
  next_id = 1;
  session_conversation = none;
  user_verifier_interface = true;
  user_verifier_extensions = [];
  greeter_interface = true;
  pending_worker_connections = [];
  session_pid = 0;
  session_type = none;
  display_name = some (codes ":0");
  display_hostname = none;
  display_device = none;
  display_seat_id = some (codes "seat0");
  display_x11_authority_file = none;
  display_is_local = true;
  verification_mode = login;
  fallback_session_name = none;
  environment = [];
  is_program_session = false;
  display_is_initial = false;
  signals = [];
  notices = [];
  answers = [];
}

session_has : find_conversation_by_name session service ≡ some conversation
unfolding find_conversation_by_name
session_has = refl

abbrev autologin : Bytes
autologin = codes "scdm-autologin"

-- The table that this leaves, walked in another order.
abbrev walked : List (Bytes × Option Conversation)
walked = (service, some conversation) ∷ (autologin, none) ∷ []

abbrev started : Session
started = (session_start_conversation session_host autologin session).0

secret_query_answered_example :
    (waiting done : Session) × (handle_secret_info_query 5 service (codes "Password: ") session
      ≡ some waiting)
    × (answer_query service (codes "secret") waiting ≡ done)
    × (done.answers ≡ (5, answered (codes "secret")) ∷ [])
    × (answer_query service (codes "more") done ≡ done)
    × (handle_secret_info_query 6 service (codes "Again: ") waiting ≡ none)
secret_query_answered_example =
    secret_query_answered session conversation 5 6 (codes "Password: ") (codes "Again: ")
      (codes "secret") (codes "more") session_has refl refl

abbrev authenticated_worker : Worker
authenticated_worker = record (new false) { state = authenticated }

worker_free :
    (authenticated_worker.pending_invocation ≡ none)
    × (asked_next authenticated_worker.state ≡ some Requests.authorize)
unfolding new asked_next
worker_free = (refl, refl)

session_calls_in_order_example :
    ((earlier : List Method) × (calls_of service
          (on_reached session_host authenticated_worker.state conversation session)
        ≡ Requests.authorize ∷ earlier))
    × ((next : Worker) × (handle host 9 Requests.authorize authenticated_worker ≡ some next)
        × (next.pending_invocation ≡ some 9)
        × (next.state_change_queued ≡ true))
session_calls_in_order_example =
    session_calls_in_order session_host host session conversation 9 authenticated_worker
      Requests.authorize session_has refl refl worker_free.0 worker_free.1
