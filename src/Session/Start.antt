-- ===== src/Session/Start.antt =====
-- daemon/scdm-session.c: workers that start, register and are set up. `none` is the end of the process.
use scdm.Prelude.{
  ℕ, Bool, true, false, not, Option, none, some, List, [], ◌∷◌, if◌then◌else◌, ◌==◌, Bytes, filter,
  ◌>>=◌,
}
use scdm.Session.Conversations.{
  emit, tell_verifier, answer, find_conversation_by_name, find_conversation_by_pid, put,
  call_worker, session_start_conversation,
}
use scdm.Session.Names.{defaults_changed, update_session_type}
use scdm.Session.Queries.{select_user}
use scdm.Session.Types.{
  Conversation, Session, SessionHost, conversation_started, setup_complete, completed, failed,
  spawn_failed, access_denied, verifier_conversation_started,
}
use scdm.Worker.Requests
use scdm.Worker.Requests.{
  Detail, with_service, with_extensions, with_username, with_log_file, with_is_program_session,
  with_x11_display_name, with_hostname, with_display_is_local, with_display_is_initial,
  with_console, with_seat_id, with_x11_authority_file,
}
use scdm.Worker.Types.{Reply, failed_with}
use scdm.Session.Setup.{report_and_stop_conversation, authenticate}

detail_if : {A : Type 0} → (A → Detail) → Option A → List Detail → List Detail
detail_if detail none rest = rest
detail_if detail (some value) rest = detail value ∷ rest

true_if : Bool → Option Bool
true_if true = some true
true_if false = none

unfoldable pub details_of :
    Session → (service : Bytes) → (username log_file : Option Bytes) → List Detail
unfolding detail_if true_if
details_of self service username log_file =
    with_service service
    ∷ with_extensions self.user_verifier_extensions
    ∷ (detail_if with_username username (
        detail_if with_log_file log_file (
          detail_if with_is_program_session (true_if self.is_program_session) (
            detail_if with_x11_display_name self.display_name (
              detail_if with_hostname self.display_hostname (
                detail_if with_display_is_local (true_if self.display_is_local) (
                  detail_if with_display_is_initial (true_if self.display_is_initial) (
                    detail_if with_console self.display_device (
                      detail_if with_seat_id self.display_seat_id (
                        detail_if with_x11_authority_file self.display_x11_authority_file
                          []))))))))))

-- `initialize`
unfoldable pub initialize :
    (service : Bytes) → (username log_file : Option Bytes) → Session → Session
unfolding call_worker details_of
initialize service username log_file self =
    call_worker service (Requests.initialize (details_of self service username log_file)) self

-- `scdm_session_setup`
unfoldable pub session_setup : SessionHost → Bytes → Session → Option Session
unfolding update_session_type initialize defaults_changed
session_setup host service self = update_session_type host self >>= λ typed.
    defaults_changed host (initialize service none none typed)

-- `scdm_session_setup_for_user`
unfoldable pub session_setup_for_user :
    SessionHost → (service username : Bytes) → Session → Option Session
unfolding update_session_type select_user initialize defaults_changed
session_setup_for_user host service username self = update_session_type host self >>= λ typed.
    defaults_changed host (
      initialize service (some username) none
        (record (select_user (some username) typed) { is_program_session = false }))

-- `scdm_session_setup_for_program`
unfoldable pub session_setup_for_program :
    (service : Bytes) → (username log_file : Option Bytes) → Session → Session
unfolding initialize
session_setup_for_program service username log_file self =
    initialize service username log_file (record self { is_program_session = true })

unfoldable pub answer_start : Option ℕ → Reply → Session → Session
unfolding answer
answer_start none reply self = self
answer_start (some invocation) (failed_with error message) self =
    answer invocation (failed message) self
answer_start (some invocation) _ self = answer invocation completed self

unfoldable pub start_answered : Bytes → Session → Session
unfolding find_conversation_by_name put
start_answered service self = elim (find_conversation_by_name self service) [
  | none ↦ self
  | some conversation ↦ put (record conversation { starting_invocation = none }) self
]

-- `on_initialization_complete_cb`; a failure with no invocation to answer is only a message of GLib.
unfoldable pub on_initialization_complete_cb : Reply → Conversation → Session → Session
unfolding answer_start report_and_stop_conversation emit authenticate start_answered
on_initialization_complete_cb (failed_with error message) conversation self =
    start_answered conversation.service_name (
      report_and_stop_conversation conversation.service_name error message
        (answer_start conversation.starting_invocation (failed_with error message) self))
on_initialization_complete_cb reply conversation self = start_answered conversation.service_name (
    authenticate conversation.service_name (
      emit (setup_complete conversation.service_name)
        (answer_start conversation.starting_invocation reply self)))

set_up_started :
    SessionHost
    → (invocation : Option ℕ) → (username : Option Bytes) → Bytes
    → Session
    → Option Session
unfolding find_conversation_by_name put session_setup_for_user session_setup
set_up_started host none username service self = some self
set_up_started host (some invocation) none service self = session_setup host service self
set_up_started host (some invocation) (some username) service self =
    session_setup_for_user host service username self >>= λ set.
    some (elim (find_conversation_by_name set service) [
      | none ↦ set
      | some conversation ↦ put (record conversation { starting_username = none }) set
    ])

unfoldable pub register_as : SessionHost → ℕ → Option Conversation → Session → Option Session
unfolding answer put emit tell_verifier set_up_started
register_as host invocation none self = some (answer invocation access_denied self)
register_as host invocation (some conversation) self =
    let service = conversation.service_name in
    let registered = record conversation {
      worker_proxy = true;
      connected = true;
      worker_manager_interface = true;
    } in
    set_up_started host conversation.starting_invocation conversation.starting_username service (
      tell_verifier (verifier_conversation_started service)
        (emit (conversation_started service) (put registered (answer invocation completed self))))

waits : ℕ → List ℕ → Bool
waits connection [] = false
waits connection (other ∷ rest) =
    let later = waits connection rest in if connection == other then true else later

-- `register_worker`, for a connection of this process: `false` if it is not handled.
unfoldable pub register_worker :
    SessionHost → (invocation connection pid : ℕ) → Session → Option (Session × Bool)
unfolding waits find_conversation_by_pid register_as
register_worker host invocation connection pid self =
    if waits connection self.pending_worker_connections
    then (let left = record self {
      pending_worker_connections =
          filter (λ c. not (c == connection)) self.pending_worker_connections;
    } in
        find_conversation_by_pid left pid >>= λ found.
        register_as host invocation found left >>= λ registered. some (registered, true))
    else some (self, false)

-- `begin_verification_conversation`, and `scdm_session_handle_client_begin_verification` with its kin
-- for a user.
unfoldable pub begin_verification :
    SessionHost
    → (invocation : ℕ) → (service : Bytes) → (username : Option Bytes) → Session
    → Session
unfolding session_start_conversation find_conversation_by_name put answer
begin_verification host invocation service username self =
    let (started, ok) = session_start_conversation host service self in
    elim (if ok then find_conversation_by_name started service else none) [
      | none ↦ answer invocation spawn_failed started
      | some conversation ↦
          put
            (record conversation {
              starting_invocation = some invocation;
              starting_username = username;
            })
            started
    ]
