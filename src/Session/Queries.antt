-- ===== src/Session/Queries.antt =====
-- daemon/scdm-session.c: the queries of a worker, which the login screen answers, and what else a
-- worker tells. `none` is the end of the process.
pub mod Answers
use scdm.Prelude.{
  ℕ, Bool, true, false, not, Option, none, some, List, [], ◌∷◌, ◌++◌, if◌then◌else◌, ◌==◌, Bytes,
  codes, bytes_eq, is_some, filter, ◌>>=◌,
}
use scdm.Session.Conversations.{
  emit, tell_verifier, answer, find_conversation_by_name, find_conversation_by_pid, put,
}
use scdm.Session.Names.{
  tell, defaults_changed, get_session_command_for_name, get_default_session_name,
  update_session_type,
}
use scdm.Session.Types.{
  Conversation, Session, SessionHost, Signal, session_exited, session_died, reauthenticated, Answer,
  answered, query_cancelled, not_supported, completed, failed, Notice, info_query,
  secret_info_query, choice_query, info, problem, default_language_name_changed,
  default_session_name_changed, greeter_session_opened,
}

unfoldable pub cancel_with : Option ℕ → Conversation → Session → Session
unfolding put answer
cancel_with none conversation self = self
cancel_with (some invocation) conversation self =
    put (record conversation { pending_invocation = none }) (answer invocation query_cancelled self)

unfoldable pub cancel_pending_query : Conversation → Session → Session
unfolding cancel_with
cancel_pending_query conversation self =
    cancel_with conversation.pending_invocation conversation self

-- `answer_pending_query`; without a query GLib refuses to answer, with a message.
unfoldable pub answer_with : Option ℕ → Bytes → Conversation → Session → Session
unfolding put answer
answer_with none text conversation self = self
answer_with (some invocation) text conversation self =
    put (record conversation { pending_invocation = none }) (answer invocation (answered text) self)

unfoldable pub answer_pending_query : Bytes → Conversation → Session → Session
unfolding answer_with
answer_pending_query text conversation self =
    answer_with conversation.pending_invocation text conversation self

unfoldable pub set_pending_query : ℕ → Conversation → Session → Option Session
unfolding put
set_pending_query invocation conversation self =
    if is_some conversation.pending_invocation
    then none
    else some (put (record conversation { pending_invocation = some invocation }) self)

-- A query for a conversation that there is; else it gets no answer.
unfoldable pub query_for :
    Option Conversation → (invocation : ℕ) → Notice → Session → Option Session
unfolding set_pending_query tell
query_for none invocation notice self = some self
query_for (some conversation) invocation notice self =
    set_pending_query invocation conversation self >>= λ set. some (tell notice set)

abbrev pub choice_list_interface : Bytes
choice_list_interface = codes "io.github.scarecrow_de.DisplayManager.UserVerifier.ChoiceList"

contains : Bytes → List Bytes → Bool
contains name [] = false
contains name (x ∷ xs) = let later = contains name xs in if bytes_eq name x then true else later

-- `scdm_session_handle_choice_list_query`
unfoldable pub handle_choice_list_query :
    (invocation : ℕ) (service prompt : Bytes) → Session → Option Session
unfolding contains query_for answer find_conversation_by_name
handle_choice_list_query invocation service prompt self =
    if contains choice_list_interface self.user_verifier_extensions
    then query_for (find_conversation_by_name self service) invocation (choice_query service prompt)
        self
    else some (answer invocation not_supported self)

-- `scdm_session_handle_info_query` and `scdm_session_handle_secret_info_query`. Without a login screen
-- the invocation is not handled, which D-Bus answers with an error.
unfoldable pub handle_query : (invocation : ℕ) (service : Bytes) → Notice → Session → Option Session
unfolding query_for answer find_conversation_by_name
handle_query invocation service notice self =
    if self.user_verifier_interface
    then query_for (find_conversation_by_name self service) invocation notice self
    else some (answer invocation (failed []) self)

unfoldable pub handle_info_query :
    (invocation : ℕ) (service query : Bytes) → Session → Option Session
unfolding handle_query
handle_info_query invocation service query self =
    handle_query invocation service (info_query service query) self

unfoldable pub handle_secret_info_query :
    (invocation : ℕ) (service query : Bytes) → Session → Option Session
unfolding handle_query
handle_secret_info_query invocation service query self =
    handle_query invocation service (secret_info_query service query) self

unfoldable pub handle_info : (invocation : ℕ) (service text : Bytes) → Session → Session
unfolding answer tell_verifier
handle_info invocation service text self =
    tell_verifier (info service text) (answer invocation completed self)

unfoldable pub handle_problem : (invocation : ℕ) (service text : Bytes) → Session → Session
unfolding answer tell_verifier
handle_problem invocation service text self =
    tell_verifier (problem service text) (answer invocation completed self)

-- `scdm_session_answer_query`
unfoldable pub answer_query : (service text : Bytes) → Session → Session
unfolding answer_pending_query find_conversation_by_name
answer_query service text self = elim (find_conversation_by_name self service) [
  | none ↦ self
  | some conversation ↦ answer_pending_query text conversation self
]

-- `scdm_session_handle_client_answer_query` and `scdm_session_handle_client_select_choice`
unfoldable pub handle_client_answer_query :
    (invocation : ℕ) (service text : Bytes) → Session → Session
unfolding answer answer_query
handle_client_answer_query invocation service text self =
    answer_query service text (answer invocation completed self)

unfoldable pub select_user : Option Bytes → Session → Session
select_user text self = record self {
  selected_user = text;
  saved_session = none;
  saved_language = none;
}

nonempty : Bytes → Option Bytes
nonempty [] = none
nonempty (c ∷ cs) = some (c ∷ cs)

unfoldable pub worker_on_username_changed :
    SessionHost → (username : Bytes) → Session → Option Session
unfolding select_user nonempty defaults_changed
worker_on_username_changed host username self =
    defaults_changed host (select_user (nonempty username) self)

-- A program that ended by a signal or by itself, by its wait status: the low seven bits are the signal.
unfoldable pub worker_on_session_exited : (signalled : Bool) → ℕ → Session → Session
unfolding emit
worker_on_session_exited signalled code self =
    emit (if signalled then session_died code else session_exited code)
      (record self { session_conversation = none })

unfoldable pub worker_on_saved_language_name_read : Bytes → Session → Session
unfolding tell
worker_on_saved_language_name_read [] self = self
worker_on_saved_language_name_read (c ∷ cs) self =
    let saved = record self { saved_language = some (c ∷ cs) } in
    if self.greeter_interface then tell (default_language_name_changed (c ∷ cs)) saved else saved

save_unless : (same : Bool) → Bytes → Session → Session
unfolding tell
save_unless true name self = self
save_unless false name self =
    let saved = record self { saved_session = some name } in
    if self.greeter_interface then tell (default_session_name_changed name) saved else saved

-- A session that there is no file for is ignored.
unfoldable pub worker_on_saved_session_name_read : SessionHost → Bytes → Session → Option Session
unfolding save_unless get_default_session_name update_session_type
worker_on_saved_session_name_read host name self =
    (if is_some (get_session_command_for_name host name)
      then (get_default_session_name host self >>= λ r.
          some (save_unless (bytes_eq name r.1) name r.0))
      else some (record self { saved_session = none }))
    >>= update_session_type host
