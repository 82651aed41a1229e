-- ===== src/Session/Order.antt =====
-- The calls that daemon/scdm-session.c sends to a worker, and the worker (scdm-session-worker.c) that
-- gets them.
pub mod Sent
pub mod Granted
pub mod Login
use scdm.Prelude.{
  ℕ, suc, ◌≡◌, ◌∙◌, refl, ap, sym, subst, Bool, true, false, Option, none, some, List, [], ◌∷◌,
  if◌then◌else◌, Bytes, codes, ◌>>=◌,
}
use scdm.Session.Conversations.Table.{find-put}
use scdm.Session.Conversations.{
  find_in, emit, answer, find_conversation_by_name, put, call, call_worker,
}
use scdm.Session.Names.{tell, get_display_mode}
use scdm.Session.Setup.{
  on_authenticate_cb, on_authorize_cb, on_establish_credentials_cb, open_by_mode, open_session,
  authorize, authenticate, accredit, verified, type_or_x11,
}
use scdm.Session.Start.{start_answered, answer_start, on_initialization_complete_cb}
use scdm.Session.Types.{
  setup_complete, verification_complete, verifier_verification_complete, login, Conversation,
  Session, SessionHost,
}
use scdm.Worker.Protocol.Run.{validate_granted}
use scdm.Worker.Requests
use scdm.Worker.Requests.Refusals.{queued-pending}
use scdm.Worker.Requests.{Method, handle, handle_establish_credentials}
use scdm.Worker.State.{number, queue_state_change}
use scdm.Worker.Steps.{validate_and_queue_state_change}
use scdm.Worker.Types.{
  State, state_none, setup_complete, authenticated, authorized, accredited, account_details_saved,
  session_opened, session_started, completed, establish_cred, reinitialize_cred, Worker, WorkerHost,
}

-- What a worker in a state is asked for next.
unfoldable pub asked_next : State → Option Method
asked_next setup_complete = some Requests.authenticate
asked_next authenticated = some Requests.authorize
asked_next authorized = some Requests.establish_credentials
asked_next accredited = some Requests.open_session
asked_next _ = none

-- The callback of the call that took the worker to a state, with a reply that is no error.
unfoldable pub on_reached : SessionHost → State → Conversation → Session → Session
unfolding on_initialization_complete_cb on_authenticate_cb on_authorize_cb
    on_establish_credentials_cb
on_reached host setup_complete c self = on_initialization_complete_cb completed c self
on_reached host authenticated c self = on_authenticate_cb completed c self
on_reached host authorized c self = on_authorize_cb completed c self
on_reached host accredited c self = on_establish_credentials_cb host completed c self
on_reached host _ c self = self

abbrev pub calls_in : Option Conversation → List Method
calls_in none = []
calls_in (some c) = c.calls

-- The calls that a conversation's worker was sent, the newest first.
abbrev pub calls_of : Bytes → Session → List Method
calls_of name self = calls_in (find_conversation_by_name self name)

abbrev pub Newest : Method → List Method → Type 0
Newest m calls = (earlier : List Method) × (calls ≡ m ∷ earlier)

abbrev pub asked : Option Method → Method
asked none = Requests.open_session
asked (some m) = m

pub is :
    {n : Method} {calls : List Method} (m : Method)
    → some n ≡ some m
    → Newest n calls
    → Newest m calls
is {n} {calls} m q h = subst (λ k. Newest k calls) (ap asked q) h
