-- ===== src/Session/Greeter.antt =====
-- daemon/scdm-session.c: the requests of the login screen, and the reset of a session.
pub mod FailedStart
use scdm.Prelude.{
  ℕ, Bool, Option, none, some, List, [], ◌∷◌, ◌++◌, if◌then◌else◌, ltb, Bytes, codes, ◌>>=◌,
}
use scdm.Session.Conversations.{emit, tell_verifier, answer, call, do_reset}
use scdm.Session.Names.{tell, update_session_type}
use scdm.Session.Queries.{select_user}
use scdm.Session.Start.{session_setup_for_user}
use scdm.Session.Types.{
  Conversation, Session, SessionHost, client_ready_for_session_to_start, verifier_reset, completed,
  failed, timed_login_requested,
}
use scdm.Worker.Requests

unfoldable pub is_running : Session → Bool
is_running self = ltb 0 self.session_pid

set_names_of_workers :
    Bytes → List (Bytes × Option Conversation) → Option (List (Bytes × Option Conversation))
unfolding call
set_names_of_workers name [] = some []
set_names_of_workers name ((key, none) ∷ rest) = none
set_names_of_workers name ((key, some conversation) ∷ rest) =
    set_names_of_workers name rest >>= λ others.
    some ((key, some (call (Requests.set_session_name name) conversation)) ∷ others)

-- `scdm_session_select_session`
unfoldable pub select_session : SessionHost → Bytes → Session → Option Session
unfolding update_session_type set_names_of_workers
select_session host text self =
    update_session_type host (record self { selected_session = some text }) >>= λ typed.
    set_names_of_workers text typed.conversations >>= λ told.
    some (record typed { conversations = told })

-- The requests of the login screen that a session refuses once its program runs.
pub data GreeterRequest : Type 0 where
  request_session request_user request_auto_login : Bytes → GreeterRequest
  request_start : (service : Bytes) (client_is_ready : Bool) → GreeterRequest
  request_timed_login : GreeterRequest

serve : SessionHost → GreeterRequest → Session → Option Session
unfolding select_session select_user session_setup_for_user emit
serve host (request_session text) self = select_session host text self
serve host (request_user username) self = some (select_user (some username) self)
serve host (request_auto_login username) self =
    session_setup_for_user host (codes "scdm-autologin") username self
serve host (request_start service client_is_ready) self =
    some (emit (client_ready_for_session_to_start service client_is_ready) self)
serve host request_timed_login self = some (elim self.timed_login [
  | none ↦ self
  | some (username, delay) ↦ tell (timed_login_requested username delay) self
])

name_or_null : Option Bytes → Bytes
name_or_null none = codes "(null)"
name_or_null (some username) = username

unfoldable pub running_message : GreeterRequest → Option Bytes → Bytes
unfolding name_or_null
running_message (request_auto_login username) user =
    codes "Session already owned by user " ++ name_or_null user
running_message _ user = codes "Session already running for user " ++ name_or_null user

-- `scdm_session_handle_client_select_session` and the other handlers of the greeter's requests.
unfoldable pub handle_greeter_request :
    SessionHost → (invocation : ℕ) → GreeterRequest → Session → Option Session
unfolding is_running answer running_message serve
handle_greeter_request host invocation request self =
    if is_running self
    then some (answer invocation (failed (running_message request self.selected_user)) self)
    else serve host request
        (if self.greeter_interface then answer invocation completed self else self)

-- `scdm_session_reset`
unfoldable pub reset : Session → Option Session
unfolding tell_verifier do_reset
reset self = do_reset (tell_verifier verifier_reset self)
