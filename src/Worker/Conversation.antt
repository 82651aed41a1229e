-- ===== src/Worker/Conversation.antt =====
-- daemon/scdm-session-worker.c: the conversation that PAM holds with the user through the worker.
-- Queries go to the session over D-Bus; a reply is `some none` where the message has no answer.
pub mod Replies
use scdm.Prelude.{
  ℕ, zero, suc, ◌+◌, ◌-◌, Bool, true, false, not, Option, none, some, List, [], ◌∷◌, ◌++◌,
  if◌then◌else◌, ◌==◌, ltb, Bytes, codes, bytes_eq, length, drop, ◌>>=◌,
}
use scdm.Worker.Extensions.{choice_list, invalid_type}
use scdm.Worker.State.{update_username, emit}
use scdm.Worker.Types.{
  PamCode, success, conv_err, Style, prompt_echo_on, prompt_echo_off, text_info, error_msg,
  radio_type, unknown_style, binary_prompt, Extended, Message, Batch, PamRun, Worker, WorkerHost,
  cancel_pending_query,
}

abbrev pub pam_max_resp_size : ℕ
pam_max_resp_size = 512

abbrev pub take : ℕ → Bytes → Bytes
take zero bs = []
take (suc n) [] = []
take (suc n) (b ∷ bs) = b ∷ take n bs

-- The loop of `convert_to_utf8`: each invalid byte becomes a question mark; `utf8_validate` tells how
-- many bytes are valid before one. The rest is what follows the last one.
replace_invalid : (fuel : ℕ) (utf8_validate : Bytes → Option ℕ) → Bytes → Bytes
replace_invalid zero utf8_validate text = text
replace_invalid (suc fuel) utf8_validate text = elim (utf8_validate text) [
  | none ↦ text
  | some q ↦ take q text ++ b'?' ∷ replace_invalid fuel utf8_validate (drop (suc q) text)
]

to_utf8 : (utf8_validate : Bytes → Option ℕ) → Bytes → Option Bytes → Bytes
unfolding replace_invalid
to_utf8 utf8_validate text none = replace_invalid (length text) utf8_validate text
to_utf8 utf8_validate text (some utf8) = utf8

unfoldable pub convert_to_utf8 : WorkerHost → Bytes → Bytes
unfolding to_utf8
convert_to_utf8 host text = to_utf8 host.utf8_validate text (host.locale_to_utf8 text)

-- The choices that are presented; an item without a key spoils the list.
choices : List (Option Bytes × Bytes) → Option (List (Bytes × Bytes))
choices [] = some []
choices ((none, text) ∷ rest) = none
choices ((some key, text) ∷ rest) = choices rest >>= λ more. some ((key, text) ∷ more)

asked : Bool × Option Bytes → Option (Option Bytes)
asked (true, answer) = some answer
asked (false, answer) = none

ask_choices : WorkerHost → Bytes → Option (List (Bytes × Bytes)) → Option (Option Bytes)
unfolding asked
ask_choices host prompt none = none
ask_choices host prompt (some list) = asked (host.choice_list_query prompt list)

-- `scdm_session_worker_ask_list_of_choices`, `none` for failure.
unfoldable pub ask_list_of_choices : WorkerHost → Extended → Option (Option Bytes)
unfolding choices ask_choices
ask_list_of_choices host request = ask_choices host request.prompt_message (choices request.items)

unfoldable pub name_at : ℕ → List Bytes → Option Bytes
name_at i [] = none
name_at zero (name ∷ rest) = some name
name_at (suc i) (name ∷ rest) = name_at i rest

unfoldable pub names_of : Option (List Bytes) → List Bytes
names_of none = []
names_of (some names) = names

-- Some name that the worker advertises stands at the type; else a null pointer is compared.
unfoldable pub by_name : WorkerHost → Extended → Option Bytes → Option (Option (Option Bytes))
unfolding ask_list_of_choices
by_name host message none = none
by_name host message (some name) =
    some (if bytes_eq name choice_list then ask_list_of_choices host message else none)

-- `scdm_session_worker_process_extended_pam_message`
unfoldable pub process_extended_pam_message :
    WorkerHost → Extended → Worker → Option (Worker × Option (Option Bytes))
unfolding name_at names_of by_name invalid_type
process_extended_pam_message host message worker =
    if ltb message.length_declared 8
    then some (worker, none)
    else if invalid_type worker.advertised message.type
    then some (worker, none)
    else by_name host message (name_at message.type (names_of worker.extensions)) >>= λ got.
        some (worker, got)

-- What becomes of an answer: a text answers the message, also if the query failed; without one the
-- result of the query counts.
unfoldable pub answered : Bool × Option Bytes → Option (Option Bytes)
answered (res, some answer) =
    some (if res then some (take (pam_max_resp_size - 1) answer) else none)
answered (true, none) = some none
answered (false, none) = none

unfoldable pub ask : WorkerHost → Style → Bytes → Option (Option Bytes)
unfolding answered
ask host prompt_echo_on text = answered (host.info_query text)
ask host prompt_echo_off text = answered (host.secret_info_query text)
ask host text_info text = answered (host.info text, none)
ask host error_msg text = answered (host.problem text, none)
ask host radio_type text = answered (host.info_query (text ++ codes " (yes/no)"))
ask host unknown_style text = none
ask host (binary_prompt message) text = none

-- The flag of a query that timed out is put back.
unfoldable pub clear_timed_out : Worker → Worker
unfolding emit
clear_timed_out worker =
    if worker.timed_out
    then record (emit cancel_pending_query worker) { timed_out = false }
    else worker

unfoldable pub plain_message :
    WorkerHost → Message → Worker → Option (Worker × Option (Option Bytes))
unfolding ask convert_to_utf8 clear_timed_out
plain_message host query worker =
    let fresh = record worker { cancelled = false; timed_out = false } in
    some (clear_timed_out fresh, ask host query.msg_style (convert_to_utf8 host query.msg))

unfoldable pub by_style :
    WorkerHost → Style → Message → Worker → Option (Worker × Option (Option Bytes))
unfolding plain_message process_extended_pam_message
by_style host (binary_prompt message) query worker =
    if host.supports_pam_extensions
    then process_extended_pam_message host message worker
    else plain_message host query worker
by_style host prompt_echo_on query worker = plain_message host query worker
by_style host prompt_echo_off query worker = plain_message host query worker
by_style host text_info query worker = plain_message host query worker
by_style host error_msg query worker = plain_message host query worker
by_style host radio_type query worker = plain_message host query worker
by_style host unknown_style query worker = plain_message host query worker

-- `scdm_session_worker_process_pam_message`, `none` for no response.
unfoldable pub process_pam_message :
    WorkerHost
    → (user : Option (Option Bytes)) → Message
    → Worker
    → Option (Worker × Option (Option Bytes))
unfolding by_style
process_pam_message host user query worker =
    update_username host.act_user user worker >>= by_style host query.msg_style query

-- The replies of the messages after this one are added, unless one of them fails: then no reply
-- is left.
unfoldable pub add_reply :
    Option Bytes → Option (List (Option Bytes)) → Option (List (Option Bytes))
add_reply first none = none
add_reply first (some rest) = some (first ∷ rest)

-- The loop of the handler, which stops at a message without a response.
unfoldable pub process_messages :
    WorkerHost
    → (user : Option (Option Bytes)) → List Message
    → Worker
    → Option (Worker × Option (List (Option Bytes)))
unfolding add_reply
process_messages host user [] worker = some (worker, some [])
process_messages host user (query ∷ rest) worker =
    process_pam_message host user query worker >>= λ r. elim r.1 [
      | none ↦ some (r.0, none)
      | some response ↦
          process_messages host user rest r.0 >>= λ s. some (s.0, add_reply response s.1)
    ]

unfoldable pub conv_code : Option (List (Option Bytes)) → PamCode
conv_code none = conv_err
conv_code (some replies) = success

-- No messages are no error; a negative number of them is.
unfoldable pub handle_messages :
    WorkerHost
    → (user : Option (Option Bytes)) → Option (List Message)
    → Worker
    → Option (Worker × PamCode × Option (List (Option Bytes)))
unfolding process_messages conv_code
handle_messages host user none worker = some (worker, conv_err, none)
handle_messages host user (some messages) worker =
    process_messages host user messages worker >>= λ r. some (r.0, conv_code r.1, r.1)

-- `scdm_session_worker_pam_new_messages_handler`: its result, and the replies.
unfoldable pub new_messages_handler :
    WorkerHost → Batch → Worker → Option (Worker × PamCode × Option (List (Option Bytes)))
unfolding handle_messages
new_messages_handler host batch worker = handle_messages host batch.user batch.messages worker

-- A call of PAM, with its conversations in order.
unfoldable pub converse :
    WorkerHost → List Batch → Worker → Option (Worker × List (Option (List (Option Bytes))))
unfolding new_messages_handler
converse host [] worker = some (worker, [])
converse host (batch ∷ rest) worker = new_messages_handler host batch worker >>= λ r.
    converse host rest r.0 >>= λ s. some (s.0, r.2 ∷ s.1)

unfoldable pub run_pam : WorkerHost → PamRun → Worker → Option (Worker × PamCode)
unfolding converse
run_pam host run worker = converse host run.batches worker >>= λ r. some (r.0, run.result r.1)
