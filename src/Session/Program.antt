-- ===== src/Session/Program.antt =====
-- daemon/scdm-session.c: the start of the session's program, with its command line and environment.
use scdm.Prelude.{
  ℕ, Bool, true, false, not, ◌&&◌, Option, none, some, List, [], ◌∷◌, ◌++◌, if◌then◌else◌, Bytes,
  codes, bytes_eq, is_some, filter, ◌>>=◌,
}
use scdm.Session.Conversations.{
  emit, find_conversation_by_name, put, call, stop_others, session_stop_conversation,
}
use scdm.Session.Names.{
  desktop, get_session_name, get_session_command_for_name, get_default_language_name,
  get_display_mode, is_wayland_session, is_wayland_type,
}
use scdm.Session.Types.{
  Conversation, Session, SessionHost, DesktopFile, session_started, session_start_failed,
}
use scdm.Worker.Requests
use scdm.Worker.Types.{Reply, pid_is, failed_with, DisplayMode, reuse_vt, new_vt, logind_managed}

is_true : Option Bool → Bool
is_true (some true) = true
is_true _ = false

registers : Option DesktopFile → Bool
unfolding is_true
registers none = false
registers (some file) = is_true file.session_registers

-- `scdm_session_session_registers`
unfoldable pub session_registers : SessionHost → Session → Option (Session × Bool)
unfolding registers
session_registers host self =
    get_session_name host self >>= λ r. some (r.0, registers (host.load_from_dirs (r.1 ++ desktop)))

bypasses : Option DesktopFile → Bool
unfolding is_true
bypasses none = false
bypasses (some file) = is_true file.bypass_xsession

by_file : SessionHost → Session → Option (Session × Bool)
unfolding bypasses
by_file host self =
    get_session_name host self >>= λ r. some (r.0, bypasses (host.load_from_dirs (r.1 ++ desktop)))

wayland_or_file : SessionHost → Session × Bool → Option (Session × Bool)
unfolding by_file
wayland_or_file host (self, true) = some (self, true)
wayland_or_file host (self, false) = by_file host self

-- `scdm_session_bypasses_xsession`
unfoldable pub bypasses_xsession : SessionHost → Session → Option (Session × Bool)
unfolding wayland_or_file by_file
bypasses_xsession host self =
    if host.wayland_support
    then (is_wayland_session host self >>= wayland_or_file host)
    else by_file host self

-- `get_session_command`: the process ends where the session has no command.
unfoldable pub get_session_command : SessionHost → Session → Option (Session × Bytes)
get_session_command host self = get_session_name host self >>= λ r.
    get_session_command_for_name host r.1 >>= λ command. some (r.0, command)

unfoldable pub needs_launcher : DisplayMode → Bool
needs_launcher reuse_vt = false
needs_launcher new_vt = true
needs_launcher logind_managed = true

text_if : Bool → Bytes → Bytes
text_if true text = text
text_if false text = []

quoted : Bytes → Bytes
quoted text = codes "\"" ++ (text ++ codes "\"")

-- The command line of a user's session.
unfoldable pub user_program :
    SessionHost
    → (run_launcher is_x11 register_session run_script remote : Bool) → (command : Bytes) → Bytes
unfolding text_if quoted
user_program host true true register_session run_script remote command =
    host.libexecdir
    ++ (codes "/scdm-x-session "
        ++ (text_if register_session (codes "--register-session ")
            ++ (text_if run_script (codes "--run-script ")
                ++ (codes " "
                    ++ (text_if remote (codes "--allow-remote-connections ") ++ quoted command)))))
user_program host true false register_session run_script remote command =
    host.libexecdir
    ++ (codes "/scdm-wayland-session "
        ++ (text_if register_session (codes "--register-session ") ++ quoted command))
user_program host false is_x11 register_session true remote command =
    host.confdir ++ (codes "/Xsession " ++ quoted command)
user_program host false is_x11 register_session false remote command = command

-- The command line of a program that was selected, e.g. the login screen.
unfoldable pub selected_program_line :
    SessionHost → (run_launcher is_x11 register_session : Bool) → (program : Bytes) → Bytes
unfolding text_if quoted
selected_program_line host run_launcher is_x11 register_session program =
    let line = codes "dbus-run-session -- " ++ program in
    if run_launcher
    then host.libexecdir
      ++ ((if is_x11 then codes "/scdm-x-session " else codes "/scdm-wayland-session ")
          ++ (text_if register_session (codes "--register-session ") ++ quoted line))
    else line

unfoldable pub program_of :
    SessionHost
    → (run_launcher is_x11 register_session : Bool) → Option Bytes
    → Session
    → Option (Session × Bytes)
unfolding get_session_command bypasses_xsession user_program selected_program_line
program_of host run_launcher is_x11 register_session (some program) self =
    some (self, selected_program_line host run_launcher is_x11 register_session program)
program_of host run_launcher is_x11 register_session none self =
    get_session_command host self >>= λ c. bypasses_xsession host c.0 >>= λ b. some (
      b.0,
      user_program host run_launcher is_x11 register_session (not b.1)
          (if self.display_is_local then not host.disallow_tcp else true) c.1,
    )

-- `scdm_session_set_environment_variable`
unfoldable pub set_variable : Bytes → Bytes → Session → Session
set_variable key value self = record self {
  environment = (key, value) ∷ filter (λ v. not (bytes_eq key v.0)) self.environment;
}

set_if : Bytes → Option Bytes → Session → Session
unfolding set_variable
set_if key none self = self
set_if key (some value) self = set_variable key value self

set_variables : List (Bytes × Bytes) → Session → Session
unfolding set_variable
set_variables [] self = self
set_variables ((key, value) ∷ rest) self = set_variables rest (set_variable key value self)

names_of_file : Option DesktopFile → Option Bytes
names_of_file none = none
names_of_file (some file) = file.desktop_names

set_names : SessionHost → Option Bytes → Session → Option Session
unfolding set_variable set_if names_of_file
set_names host (some program) self =
    some (set_variable (codes "XDG_CURRENT_DESKTOP") (codes "GNOME-Greeter:GNOME") self)
set_names host none self = get_session_name host self >>= λ r. some (
    set_if (codes "XDG_CURRENT_DESKTOP") (names_of_file (host.load_from_dirs (r.1 ++ desktop))) (
      set_variable (codes "XDG_SESSION_DESKTOP") r.1
        (set_variable (codes "DESKTOP_SESSION") r.1 (set_variable (codes "GDMSESSION") r.1 r.0))))

set_language : Option Bytes → Session → Session
unfolding set_variable
set_language none self = self
set_language (some []) self = self
set_language (some (c ∷ cs)) self =
    set_variable (codes "SCDM_LANG") (c ∷ cs) (set_variable (codes "LANG") (c ∷ cs) self)

set_display : DisplayMode → Session → Session
unfolding set_if
set_display reuse_vt self =
    set_if (codes "XAUTHORITY") self.user_x11_authority_file
      (set_if (codes "DISPLAY") self.display_name self)
set_display _ self = self

-- `set_up_session_environment`
unfoldable pub set_up_session_environment : SessionHost → Session → Option Session
unfolding set_names set_variables set_language set_display set_if
set_up_session_environment host self = set_names host self.selected_program self >>= λ named.
    let spoken = set_variables host.language_variables named in
    let language = set_language (get_default_language_name host spoken) spoken in
    some (
      set_if (codes "WINDOWPATH") host.windowpath
        (set_display (get_display_mode host language) language))

-- `send_environment`
unfoldable pub send_environment : List (Bytes × Bytes) → Conversation → Conversation
unfolding call
send_environment [] conversation = conversation
send_environment ((key, value) ∷ rest) conversation =
    send_environment rest (call (Requests.set_variable key (some value)) conversation)

unfoldable pub start_program_of : SessionHost → Conversation → Session → Option Session
unfolding stop_others needs_launcher program_of set_up_session_environment send_environment put call
    session_registers
start_program_of host conversation self =
    stop_others conversation.id self.conversations >>= λ stopped.
    session_registers host (record self { conversations = stopped }) >>= λ r.
    program_of host (needs_launcher (get_display_mode host self))
      (not (host.wayland_support && is_wayland_type self.session_type)) (not r.1)
      self.selected_program r.0
    >>= λ p. set_up_session_environment host p.0 >>= λ set. some (
        put (call (Requests.start_program p.1) (send_environment set.environment conversation)) set)

-- `scdm_session_start_session`: nothing for a session that has a conversation already.
unfoldable pub start_session : SessionHost → Bytes → Session → Option Session
unfolding find_conversation_by_name start_program_of
start_session host service self =
    if is_some self.session_conversation
    then some self
    else elim (find_conversation_by_name self service) [
      | none ↦ some self
      | some conversation ↦ start_program_of host conversation self
    ]

pid_of : Reply → ℕ
pid_of (pid_is pid) = pid
pid_of _ = 0

unfoldable pub on_start_program_cb : Reply → Conversation → Session → Session
unfolding emit session_stop_conversation pid_of
on_start_program_cb (failed_with error message) conversation self =
    emit (session_start_failed conversation.service_name message)
      (session_stop_conversation conversation.service_name self)
on_start_program_cb reply conversation self =
    emit (session_started conversation.service_name (pid_of reply))
      (record self { session_pid = pid_of reply; session_conversation = some conversation.id })
