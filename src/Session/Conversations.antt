-- ===== src/Session/Conversations.antt =====
-- daemon/scdm-session.c: the table of conversations, and the workers that start, register and end.
-- `none` is the end of the process, by an assertion or a null pointer. The hash table is a list with
-- one entry for a key; a walk goes through it in the list's order, which stands for any order.
pub mod Table
use scdm.Prelude.{
  ℕ, zero, suc, ◌+◌, Bool, true, false, not, ◌&&◌, ◌||◌, Option, none, some, List, [], ◌∷◌, ◌++◌,
  if◌then◌else◌, ◌==◌, Bytes, codes, bytes_eq, is_some, filter, ◌>>=◌,
}
use scdm.Session.Names.{tell}
use scdm.Session.Types.{
  Conversation, Session, SessionHost, Signal, conversation_started, conversation_stopped,
  session_exited, session_died, Answer, answered, query_cancelled, completed, access_denied, Notice,
  verifier_conversation_started, verifier_conversation_stopped,
}
use scdm.Worker.Requests.{Method}

unfoldable pub emit : Signal → Session → Session
emit signal self = record self { signals = signal ∷ self.signals }

unfoldable pub tell_verifier : Notice → Session → Session
unfolding tell
tell_verifier notice self = if self.user_verifier_interface then tell notice self else self

unfoldable pub answer : ℕ → Answer → Session → Session
answer invocation a self = record self { answers = (invocation, a) ∷ self.answers }

unfoldable pub find_in : Bytes → List (Bytes × Option Conversation) → Option Conversation
unfolding bytes_eq
find_in name [] = none
find_in name ((key, value) ∷ rest) =
    let later = find_in name rest in if bytes_eq name key then value else later

-- `find_conversation_by_name`, also none for a null pointer in the table.
unfoldable pub find_conversation_by_name : Session → Bytes → Option Conversation
unfolding find_in
find_conversation_by_name self name = find_in name self.conversations

-- The null pointers that the walk comes to before a match are looked at too, which ends the process.
unfoldable pub find_pid : ℕ → List (Bytes × Option Conversation) → Option (Option Conversation)
find_pid pid [] = some none
find_pid pid ((key, none) ∷ rest) = none
find_pid pid ((key, some conversation) ∷ rest) =
    let later = find_pid pid rest in
    if conversation.worker_pid == pid then some (some conversation) else later

unfoldable pub find_conversation_by_pid : Session → (pid : ℕ) → Option (Option Conversation)
unfolding find_pid
find_conversation_by_pid self pid = find_pid pid self.conversations

unfoldable pub steal :
    Bytes → List (Bytes × Option Conversation) → List (Bytes × Option Conversation)
steal name [] = []
steal name ((key, value) ∷ rest) =
    let kept = steal name rest in if bytes_eq name key then kept else (key, value) ∷ kept

-- `g_hash_table_insert`: the old value of the key is freed.
unfoldable pub insert :
    Bytes
    → Option Conversation
    → List (Bytes × Option Conversation)
    → List (Bytes × Option Conversation)
unfolding steal
insert name value table = (name, value) ∷ steal name table

unfoldable pub put : Conversation → Session → Session
unfolding insert
put conversation self = record self {
  conversations = insert conversation.service_name (some conversation) self.conversations;
}

-- A call of the worker, if it has a proxy.
unfoldable pub call : Method → Conversation → Conversation
call method conversation =
    if conversation.worker_proxy
    then record conversation { calls = method ∷ conversation.calls }
    else conversation

unfoldable pub call_worker : Bytes → Method → Session → Session
unfolding call put find_conversation_by_name
call_worker name method self = elim (find_conversation_by_name self name) [
  | none ↦ self
  | some conversation ↦ put (call method conversation) self
]

unfoldable pub close_conversation : Conversation → Conversation
close_conversation conversation = record conversation {
  worker_manager_interface = false;
  connected = false;
}

unfoldable pub stop_conversation : Conversation → Conversation
unfolding close_conversation
stop_conversation conversation = record (close_conversation conversation) { is_stopping = true }

-- `scdm_session_stop_conversation`
unfoldable pub session_stop_conversation : Bytes → Session → Session
unfolding stop_conversation put find_conversation_by_name
session_stop_conversation name self = elim (find_conversation_by_name self name) [
  | none ↦ self
  | some conversation ↦ put (stop_conversation conversation) self
]

new_conversation : ℕ → Bytes → (pid : ℕ) → Conversation
new_conversation id name pid = record {
  id = id;
  service_name = name;
  worker_pid = pid;
  has_job = true;
  starting_invocation = none;
  starting_username = none;
  pending_invocation = none;
  worker_manager_interface = false;
  worker_proxy = false;
  connected = false;
  session_id = none;
  is_stopping = false;
  reauth_pid_of_caller = 0;
  calls = [];
}

-- `start_conversation`, a null pointer if the worker's job does not start.
unfoldable pub start_conversation : SessionHost → Bytes → Session → Option Conversation
unfolding new_conversation
start_conversation host name self =
    host.worker_job_start >>= λ pid. some (new_conversation self.next_id name pid)

unfoldable pub is_busy : Option Conversation → Bool
is_busy none = false
is_busy (some conversation) = not conversation.is_stopping

-- `scdm_session_start_conversation`: a conversation that is stopping is replaced. It succeeds also if
-- the worker does not start.
unfoldable pub session_start_conversation : SessionHost → Bytes → Session → Session × Bool
unfolding find_conversation_by_name insert start_conversation is_busy
session_start_conversation host name self =
    if is_busy (find_conversation_by_name self name) then (self, false) else (
      record self {
        conversations = insert name (start_conversation host name self) self.conversations;
        next_id = suc self.next_id;
      },
      true,
    )

unfoldable pub is_session_conversation : Session → Conversation → Bool
is_session_conversation self conversation = elim self.session_conversation [
  | none ↦ false
  | some id ↦ id == conversation.id
]

-- `worker_exited` and `worker_died`, by the signal of the session that its end leads to.
unfoldable pub worker_gone : (ℕ → Signal) → ℕ → Conversation → Session → Session
unfolding emit tell_verifier is_session_conversation steal
worker_gone signal code conversation self =
    let stolen = record self {
      conversations = steal conversation.service_name self.conversations;
    } in
    let ended =
      if is_session_conversation self conversation
      then record (emit (signal code) stolen) { session_conversation = none }
      else stolen in
    tell_verifier (verifier_conversation_stopped conversation.service_name)
      (emit (conversation_stopped conversation.service_name) ended)

unfoldable pub worker_exited : ℕ → Conversation → Session → Session
unfolding worker_gone
worker_exited code conversation self = worker_gone session_exited code conversation self

unfoldable pub worker_died : ℕ → Conversation → Session → Session
unfolding worker_gone
worker_died signum conversation self = worker_gone session_died signum conversation self

-- `stop_all_other_conversations` with `now`: those that are not kept are stopped and freed. A null
-- pointer in the table is the same as no conversation to keep, and is taken out; if there is one to
-- keep, the null pointer is stopped, which ends the process.
unfoldable pub keep :
    (kept : Option ℕ)
    → List (Bytes × Option Conversation)
    → Option (List (Bytes × Option Conversation))
keep kept [] = some []
keep none ((key, none) ∷ rest) = keep none rest
keep (some id) ((key, none) ∷ rest) = none
keep kept ((key, some conversation) ∷ rest) = keep kept rest >>= λ others. some (elim kept [
  | none ↦ others
  | some id ↦ if id == conversation.id then (key, some conversation) ∷ others else others
])

-- Without `now` those other than the one to keep are asked to stop, and stay in the table until they
-- have ended; a null pointer ends the process.
unfoldable pub stop_others :
    (kept : ℕ) → List (Bytes × Option Conversation) → Option (List (Bytes × Option Conversation))
unfolding stop_conversation
stop_others kept [] = some []
stop_others kept ((key, none) ∷ rest) = none
stop_others kept ((key, some conversation) ∷ rest) = stop_others kept rest >>= λ others. some (
    (key, some (if kept == conversation.id then conversation else stop_conversation conversation))
    ∷ others)

unfoldable pub stop_all_conversations : Session → Option Session
unfolding keep
stop_all_conversations self = keep none self.conversations >>= λ left.
    some (record self { conversations = left; session_conversation = none })

-- `do_reset`
unfoldable pub do_reset : Session → Option Session
unfolding stop_all_conversations
do_reset self = stop_all_conversations self >>= λ stopped. some (record stopped {
  pending_worker_connections = [];
  selected_user = none;
  selected_session = none;
  saved_session = none;
  saved_language = none;
  user_x11_authority_file = none;
  environment = [];
  session_pid = 0;
  session_conversation = none;
})
