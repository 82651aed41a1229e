-- ===== src/Session/Setup.antt =====
-- daemon/scdm-session.c: the calls that take a worker from its start to an open session, each in the
-- callback of the one before. `none` is the end of the process.
use scdm.Prelude.{Bool, true, false, Option, none, some, [], if◌then◌else◌, Bytes, codes}
use scdm.Session.Conversations.{emit, put, call_worker, session_stop_conversation}
use scdm.Session.Names.{tell, get_display_mode}
use scdm.Session.Types.{
  VerificationMode, login, reauthenticate, chooser, Conversation, Session, SessionHost,
  authentication_failed, verification_complete, session_opened, session_start_failed,
  service_unavailable, problem, verification_failed, verifier_verification_complete,
  greeter_session_opened,
}
use scdm.Worker.Requests
use scdm.Worker.Requests.{
  Detail, with_service, with_extensions, with_username, with_log_file, with_is_program_session,
  with_x11_display_name, with_hostname, with_display_is_local, with_display_is_initial,
  with_console, with_seat_id, with_x11_authority_file,
}
use scdm.Worker.Types.{Reply, session_id_is, failed_with, WorkerError}

-- Whether an error is that the service is unavailable.
is_unavailable : WorkerError → Bool
is_unavailable WorkerError.service_unavailable = true
is_unavailable _ = false

-- `report_and_stop_conversation`
unfoldable pub report_and_stop_conversation : Bytes → WorkerError → Bytes → Session → Session
unfolding is_unavailable tell session_stop_conversation
report_and_stop_conversation service error message self =
    let report =
      if is_unavailable error
      then service_unavailable service message
      else problem service message in
    session_stop_conversation service (
      if self.user_verifier_interface
      then tell (verification_failed service) (tell report self)
      else self)

unfoldable pub authorize : Bytes → Session → Session
unfolding call_worker
authorize service self = call_worker service Requests.authorize self

unfoldable pub authenticate : Bytes → Session → Session
unfolding call_worker
authenticate service self = call_worker service Requests.authenticate self

unfoldable pub accredit : Bytes → Session → Session
unfolding call_worker
accredit service self = call_worker service Requests.establish_credentials self

-- `send_session_type`
unfoldable pub type_or_x11 : Option Bytes → Bytes
type_or_x11 none = codes "x11"
type_or_x11 (some session_type) = session_type

-- `scdm_session_open_session`
unfoldable pub open_session : SessionHost → Bytes → Session → Session
unfolding call_worker get_display_mode type_or_x11
open_session host service self = call_worker service Requests.open_session (
    call_worker service
      (Requests.set_variable (codes "XDG_SESSION_TYPE") (some (type_or_x11 self.session_type)))
      (call_worker service (Requests.set_display_mode (get_display_mode host self)) self))

unfoldable pub on_authenticate_cb : Reply → Conversation → Session → Session
unfolding authorize emit report_and_stop_conversation
on_authenticate_cb (failed_with error message) conversation self =
    report_and_stop_conversation conversation.service_name error message
      (emit (authentication_failed conversation.service_name conversation.worker_pid) self)
on_authenticate_cb _ conversation self = authorize conversation.service_name self

unfoldable pub on_authorize_cb : Reply → Conversation → Session → Session
unfolding accredit report_and_stop_conversation
on_authorize_cb (failed_with error message) conversation self =
    report_and_stop_conversation conversation.service_name error message self
on_authorize_cb _ conversation self = accredit conversation.service_name self

-- The user is verified, as far as someone has asked.
unfoldable pub verified : Bytes → Session → Session
unfolding emit tell
verified service self =
    if self.user_verifier_interface
    then emit (verification_complete service) (tell (verifier_verification_complete service) self)
    else self

unfoldable pub open_by_mode : SessionHost → VerificationMode → Bytes → Session → Session
unfolding open_session
open_by_mode host login service self = open_session host service self
open_by_mode host chooser service self = open_session host service self
open_by_mode host reauthenticate service self = self

unfoldable pub on_establish_credentials_cb : SessionHost → Reply → Conversation → Session → Session
unfolding verified open_by_mode report_and_stop_conversation
on_establish_credentials_cb host (failed_with error message) conversation self =
    report_and_stop_conversation conversation.service_name error message self
on_establish_credentials_cb host _ conversation self =
    open_by_mode host self.verification_mode conversation.service_name
      (verified conversation.service_name self)

id_of : Reply → Bytes
id_of (session_id_is id) = id
id_of _ = []

unfoldable pub session_is_open : (id : Bytes) → Conversation → Session → Session
unfolding put tell verified emit
session_is_open id conversation self =
    let service = conversation.service_name in
    let known = put (record conversation { session_id = some id }) self in
    emit (session_opened service id) (
      verified service
        (if self.greeter_interface then tell (greeter_session_opened service) known else known))

unfoldable pub on_opened : Reply → Conversation → Session → Session
unfolding session_is_open emit report_and_stop_conversation id_of
on_opened (failed_with error message) conversation self =
    emit (session_start_failed conversation.service_name message)
      (report_and_stop_conversation conversation.service_name error message self)
on_opened reply conversation self = session_is_open (id_of reply) conversation self
