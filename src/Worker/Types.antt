-- ===== src/Worker/Types.antt =====
-- daemon/scdm-session-worker.c, scdm-session-worker.h and scdm-session-worker-common.h: the state of
-- a session worker, and what it asks of the system. PAM is a library: what its calls answer comes
-- from a `WorkerHost`, and the calls are a log, newest first.
use scdm.Prelude.{ℕ, Bool, Option, List, Bytes}
use scdm.SessionSettings.{SessionSettings, ActUser}

-- `ScdmSessionWorkerState`, in the order of the source.
pub data State : Type 0 where
  state_none setup_complete authenticated authorized accredited account_details_saved session_opened
        session_started :
      State

-- The results of PAM calls that the worker tells apart.
pub data PamCode : Type 0 where
  success ignore authinfo_unavail user_unknown auth_err new_authtok_reqd acct_expired
        authtok_expired conv_err abort system_err :
      PamCode
  other_code : ℕ → PamCode

pub data PamItem : Type 0 where
  user_prompt rhost tty xdisplay xauthdata : PamItem

pub data CredFlags : Type 0 where
  no_flags establish_cred reinitialize_cred delete_cred : CredFlags

pub data PamCall : Type 0 where
  start : PamCode → PamCall
  set_item : PamItem → Bytes → PamCode → PamCall
  put_env : (key : Bytes) (value : Option Bytes) → PamCall
  authenticate : (disallow_null_authtok : Bool) → PamCode → PamCall
  acct_mgmt : (disallow_null_authtok : Bool) → PamCode → PamCall
  chauthtok : PamCode → PamCall
  setcred : CredFlags → PamCode → PamCall
  open_session : (silent : Bool) → PamCode → PamCall
  close_session : PamCall
  end_pam : PamCode → PamCall

-- A binary message of the repository's own PAM extension: its declared length and type, and the
-- request for a choice from a list.
pub record Extended : Type 0 where
  pub length_declared : ℕ
  pub type : ℕ
  pub prompt_message : Bytes
  pub items : List (Option Bytes × Bytes)

pub data Style : Type 0 where
  prompt_echo_on prompt_echo_off text_info error_msg radio_type unknown_style : Style
  binary_prompt : Extended → Style

pub record Message : Type 0 where
  pub msg_style : Style
  pub msg : Bytes

-- One call of the conversation function while PAM works: what `PAM_USER` is then (`none` if it
-- cannot be read, `some none` if it is not set), and the messages (`none` for a negative number).
pub record Batch : Type 0 where
  pub user : Option (Option Bytes)
  pub messages : Option (List Message)

-- A call of PAM: the conversations that it holds, and its result, by the replies that it got.
pub record PamRun : Type 0 where
  pub batches : List Batch
  pub result : List (Option (List (Option Bytes))) → PamCode

pub data DisplayMode : Type 0 where
  reuse_vt new_vt logind_managed : DisplayMode

-- `ScdmSessionWorkerError`, those that the worker replies with, and a parse error.
pub data WorkerError : Type 0 where
  service_unavailable authenticating authorizing opening_session giving_credentials wrong_state
        outstanding_request in_reauth_session parse_error :
      WorkerError

pub data Reply : Type 0 where
  completed : Reply
  session_id_is : Bytes → Reply
  pid_is : ℕ → Reply
  failed_with : WorkerError → (message : Bytes) → Reply

pub data Signal : Type 0 where
  username_changed saved_language_name_read saved_session_name_read : Option Bytes → Signal
  session_exited : (service : Option Bytes) (status : ℕ) → Signal
  reauthenticated : (service : Bytes) → Signal
  cancel_pending_query : Signal

pub data Audit : Type 0 where
  login logout user_accredited password_changed password_change_failure : Audit
  login_failure : PamCode → Audit

-- A program that was started, by the user that the child process becomes.
pub record Spawn : Type 0 where
  pub uid : ℕ
  pub arguments : List Bytes

pub record Passwd : Type 0 where
  pub pw_uid : ℕ
  pub pw_gid : ℕ
  pub pw_dir : Option Bytes
  pub pw_shell : Option Bytes

-- `ScdmSessionWorkerPrivate`. `session_tty_fd` and `child_pid` are `none` for -1. `name_handlers`
-- counts the connections of the two handlers of saved names, `loaded_handler` is that of
-- `notify::is-loaded`. `advertised` is the environment variable of the PAM extensions.
pub record Worker : Type 0 where
  pub state : State
  pub state_changes : List State
  pub pam_handle : Bool
  pub calls : List PamCall
  pub child_pid : Option ℕ
  pub child_watched : Bool
  pub service : Option Bytes
  pub x11_display_name : Option Bytes
  pub x11_authority_file : Option Bytes
  pub display_device : Option Bytes
  pub display_seat_id : Option Bytes
  pub hostname : Option Bytes
  pub username : Option Bytes
  pub log_file : Option Bytes
  pub session_id : Option Bytes
  pub uid : ℕ
  pub gid : ℕ
  pub password_is_required : Bool
  pub extensions : Option (List Bytes)
  pub advertised : Option Bytes
  pub cred_flags : CredFlags
  pub session_vt : ℕ
  pub session_tty_fd : Option ℕ
  pub arguments : List Bytes
  pub cancelled : Bool
  pub timed_out : Bool
  pub is_program_session : Bool
  pub is_reauth_session : Bool
  pub display_is_local : Bool
  pub display_is_initial : Bool
  pub state_change_queued : Bool
  pub display_mode : DisplayMode
  pub reauthentication_requests : List (ℕ × ℕ)
  pub auditor : Bool
  pub audit_username : Option Bytes
  pub audit : List Audit
  pub user_settings : SessionSettings
  pub name_handlers : ℕ
  pub loaded_handler : Bool
  pub pending_invocation : Option ℕ
  pub replies : List (ℕ × Reply)
  pub signals : List Signal
  pub vt_jumps : List ℕ
  pub spawned : List Spawn

-- What the worker finds: how it is built, the session that answers its queries, accountsservice, PAM,
-- the user database, the terminals, scripts, `fork` and the parsing of a command line. The entry of
-- the user database is what `getpwnam_r` tells when no signal interrupts it.
pub record WorkerHost : Type 0 where
  pub user_display_server : Bool
  pub supports_pam_extensions : Bool
  pub initial_vt : ℕ
  pub bindir : Bytes
  pub locale_to_utf8 : Bytes → Option Bytes
  pub utf8_validate : Bytes → Option ℕ
  pub info_query : Bytes → Bool × Option Bytes
  pub secret_info_query : Bytes → Bool × Option Bytes
  pub info : Bytes → Bool
  pub problem : Bytes → Bool
  pub choice_list_query : Bytes → List (Bytes × Bytes) → Bool × Option Bytes
  pub act_user : Bytes → ActUser
  pub pam_start : PamCode
  pub failed_start_leaves_handle : Bool
  pub pam_set_item : PamItem → PamCode
  pub pam_authenticate : (disallow_null_authtok : Bool) → PamRun
  pub pam_acct_mgmt : (disallow_null_authtok : Bool) → PamRun
  pub pam_chauthtok : PamRun
  pub pam_setcred : PamRun
  pub pam_open_session : PamRun
  pub pam_strerror : PamCode → Bytes
  pub pam_user : Option (Option Bytes)
  pub pam_getenv : Bytes → Option Bytes
  pub getpwnam : Bytes → Option Passwd
  pub setgid : ℕ → Bool
  pub initgroups : Bytes → ℕ → Bool
  pub is_root : Bool
  pub read_xauth : Option Bytes → Option Bytes
  pub open_tty : ℕ → Option ℕ
  pub open_query : Option ℕ
  pub active_vt : Option ℕ
  pub run_script : Bytes → Bool
  pub fork : Option ℕ
  pub fork_error : Bytes
  pub parse_argv : Bytes → Option (List Bytes)
