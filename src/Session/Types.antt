-- ===== src/Session/Types.antt =====
-- daemon/scdm-session.c: the state of a session and of its conversations, and what the session says.
-- The calls of a worker are those that Worker.Requests handles, and their results its replies.
use scdm.Prelude.{ℕ, Bool, Option, List, Bytes}
use scdm.Worker.Requests.{Method}

pub data VerificationMode : Type 0 where
  login reauthenticate chooser : VerificationMode

-- `ScdmSessionConversation`. The number stands for the pointer; `worker_pid` is -1 only while the
-- worker starts. A `worker_proxy` can be there with its connection closed. The calls that were sent
-- are a log, newest first.
pub record Conversation : Type 0 where
  pub id : ℕ
  pub service_name : Bytes
  pub worker_pid : ℕ
  pub has_job : Bool
  pub starting_invocation : Option ℕ
  pub starting_username : Option Bytes
  pub pending_invocation : Option ℕ
  pub worker_manager_interface : Bool
  pub worker_proxy : Bool
  pub connected : Bool
  pub session_id : Option Bytes
  pub is_stopping : Bool
  pub reauth_pid_of_caller : ℕ
  pub calls : List Method

-- The GObject signals of the session.
pub data Signal : Type 0 where
  conversation_started conversation_stopped setup_complete verification_complete reauthenticated :
      (service : Bytes) → Signal
  cancelled disconnected : Signal
  hostname_selected : (hostname : Bytes) → Signal
  client_rejected client_connected client_disconnected : (pid_of_client : ℕ) → Signal
  authentication_failed : (service : Bytes) (worker_pid : ℕ) → Signal
  session_opened : (service : Bytes) (session_id : Bytes) → Signal
  session_started : (service : Bytes) (pid : ℕ) → Signal
  session_start_failed : (service message : Bytes) → Signal
  session_exited session_died : ℕ → Signal
  reauthentication_started : (pid_of_caller : ℕ) → Signal
  client_ready_for_session_to_start : (service : Bytes) (client_is_ready : Bool) → Signal

-- The D-Bus signals to the login screen, by the interface that has them.
pub data Notice : Type 0 where
  service_unavailable problem info_query secret_info_query info : (service text : Bytes) → Notice
  choice_query : (service prompt : Bytes) → Notice
  verification_failed verifier_verification_complete verifier_conversation_started
        verifier_conversation_stopped greeter_session_opened :
      (service : Bytes) → Notice
  verifier_reset : Notice
  timed_login_requested : (username : Bytes) (delay : ℕ) → Notice
  default_language_name_changed default_session_name_changed : Bytes → Notice

-- The answers to D-Bus invocations of workers and of the login screen.
pub data Answer : Type 0 where
  completed query_cancelled not_supported spawn_failed access_denied : Answer
  answered : Bytes → Answer
  failed : (message : Bytes) → Answer

pub record DesktopFile : Type 0 where
  pub full_path : Bytes
  pub hidden : Option Bool
  pub try_exec : Option Bytes
  pub exec : Option Bytes
  pub session_registers : Option Bool
  pub bypass_xsession : Option Bool
  pub desktop_names : Option Bytes

-- `ScdmSession`. The conversation of the session is a pointer. A conversation that could not be
-- started is a null pointer in the table. The interfaces of the login screen are there or not. `session_pid` is 0
-- where no program runs.
pub record Session : Type 0 where
  pub selected_program : Option Bytes
  pub selected_session : Option Bytes
  pub saved_session : Option Bytes
  pub saved_language : Option Bytes
  pub selected_user : Option Bytes
  pub user_x11_authority_file : Option Bytes
  pub timed_login : Option (Bytes × ℕ)
  pub conversations : List (Bytes × Option Conversation)
  pub next_id : ℕ
  pub session_conversation : Option ℕ
  pub user_verifier_interface : Bool
  pub user_verifier_extensions : List Bytes
  pub greeter_interface : Bool
  pub pending_worker_connections : List ℕ
  pub session_pid : ℕ
  pub session_type : Option Bytes
  pub display_name : Option Bytes
  pub display_hostname : Option Bytes
  pub display_device : Option Bytes
  pub display_seat_id : Option Bytes
  pub display_x11_authority_file : Option Bytes
  pub display_is_local : Bool
  pub verification_mode : VerificationMode
  pub fallback_session_name : Option Bytes
  pub environment : List (Bytes × Bytes)
  pub is_program_session : Bool
  pub display_is_initial : Bool
  pub signals : List Signal
  pub notices : List Notice
  pub answers : List (ℕ × Answer)

-- What the session finds: how it is built, the session files in their directories, the worker that a
-- job starts (its process id), and the environment of the daemon.
pub record SessionHost : Type 0 where
  pub wayland_support : Bool
  pub user_display_server : Bool
  pub load_from_dirs : Bytes → Option DesktopFile
  pub base_names : List Bytes
  pub is_prog_in_path : Bytes → Bool
  pub is_wayland_path : Bytes → Bool
  pub worker_job_start : Option ℕ
  pub locale : Option Bytes
  pub language_variables : List (Bytes × Bytes)
  pub windowpath : Option Bytes
  pub disallow_tcp : Bool
  pub libexecdir : Bytes
  pub confdir : Bytes
