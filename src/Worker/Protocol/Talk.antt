-- ===== src/Worker/Protocol/Talk.antt =====
-- The conversation leaves the protocol alone (daemon/scdm-session-worker.c).
use scdm.Prelude.{
  ◌≡◌, refl, Option, none, some, List, [], ◌∷◌, Bytes, ltb, Holds, bind-Holds, if-Holds, ◌>>=◌,
}
use scdm.Worker.Conversation.{
  clear_timed_out, plain_message, by_style, by_name, name_at, names_of,
  process_extended_pam_message, process_pam_message, process_messages, add_reply, handle_messages,
  new_messages_handler, converse, run_pam,
}
use scdm.Worker.Extensions.{invalid_type}
use scdm.Worker.Protocol.Quiet.{LeavesWith, go_on, update_username-Leaves}
use scdm.Worker.Protocol.{view}
use scdm.Worker.State.{update_username, emit}
use scdm.Worker.Types.{
  Style, prompt_echo_on, prompt_echo_off, text_info, error_msg, radio_type, unknown_style,
  binary_prompt, Extended, Message, Batch, PamRun, Worker, WorkerHost,
}

plain-Leaves :
    (host : WorkerHost) (query : Message) (w : Worker)
    → LeavesWith (view w) (plain_message host query w)
unfolding plain_message clear_timed_out emit view
plain-Leaves host query w = refl

extended-Leaves :
    (host : WorkerHost) (message : Extended) (w : Worker)
    → LeavesWith (view w) (process_extended_pam_message host message w)
unfolding process_extended_pam_message
extended-Leaves host message w =
    if-Holds (λ r. view r.0 ≡ view w) (ltb message.length_declared 8) _ _ (λ _. refl)
      (λ _.
        if-Holds (λ r. view r.0 ≡ view w) (invalid_type w.advertised message.type) _ _ (λ _. refl)
          (λ _.
            bind-Holds (λ _. Unit {0}) (λ r. view r.0 ≡ view w)
              (by_name host message (name_at message.type (names_of w.extensions))) _ (any _)
              (λ _ _. refl)))
  where
    any : (o : Option (Option (Option Bytes))) → Holds (λ _. Unit {0}) o
    any none = tt
    any (some x) = tt

by_style-Leaves :
    (host : WorkerHost) (style : Style) (query : Message) (w : Worker)
    → LeavesWith (view w) (by_style host style query w)
unfolding by_style
by_style-Leaves host (binary_prompt message) query w =
    if-Holds (λ r. view r.0 ≡ view w) host.supports_pam_extensions _ _
      (λ _. extended-Leaves host message w) (λ _. plain-Leaves host query w)
by_style-Leaves host prompt_echo_on query w = plain-Leaves host query w
by_style-Leaves host prompt_echo_off query w = plain-Leaves host query w
by_style-Leaves host text_info query w = plain-Leaves host query w
by_style-Leaves host error_msg query w = plain-Leaves host query w
by_style-Leaves host radio_type query w = plain-Leaves host query w
by_style-Leaves host unknown_style query w = plain-Leaves host query w

pub process_pam_message-Leaves :
    (host : WorkerHost) (user : Option (Option Bytes)) (query : Message) (w : Worker)
    → LeavesWith (view w) (process_pam_message host user query w)
unfolding process_pam_message
process_pam_message-Leaves host user query w =
    bind-Holds (λ x. view x ≡ view w) (λ r. view r.0 ≡ view w)
      (update_username host.act_user user w) _ (update_username-Leaves host.act_user user w)
      (λ x h.
        go_on (λ r. view r.0) (view x) (view w) (by_style host query.msg_style query x) h
          (by_style-Leaves host query.msg_style query x))

process_messages-Leaves :
    (host : WorkerHost) (user : Option (Option Bytes)) (queries : List Message) (w : Worker)
    → LeavesWith (view w) (process_messages host user queries w)
unfolding process_messages
process_messages-Leaves host user [] w = refl
process_messages-Leaves host user (query ∷ rest) w =
    bind-Holds (λ r. view r.0 ≡ view w) (λ r. view r.0 ≡ view w)
      (process_pam_message host user query w) _ (process_pam_message-Leaves host user query w)
      (λ r h. after r.1 r.0 h (process_messages-Leaves host user rest r.0))
  where
    after :
        (got : Option (Option Bytes)) (x : Worker)
        → view x ≡ view w
        → LeavesWith (view x) (process_messages host user rest x)
        → LeavesWith (view w) (elim got [
          | none ↦ some (x, none)
          | some response ↦
              process_messages host user rest x >>= λ s. some (s.0, add_reply response s.1)
        ])
    after none x h ih = h
    after (some response) x h ih =
        bind-Holds (λ r. view r.0 ≡ view w) (λ r. view r.0 ≡ view w)
          (process_messages host user rest x) _
          (go_on (λ r. view r.0) (view x) (view w) (process_messages host user rest x) h ih)
          (λ s k. k)

handle_messages-Leaves :
    (host : WorkerHost) (user : Option (Option Bytes)) (queries : Option (List Message))
    → (w : Worker) → Holds (λ r. view r.0 ≡ view w) (handle_messages host user queries w)
unfolding handle_messages
handle_messages-Leaves host user none w = refl
handle_messages-Leaves host user (some queries) w =
    bind-Holds (λ r. view r.0 ≡ view w) (λ r. view r.0 ≡ view w)
      (process_messages host user queries w) _ (process_messages-Leaves host user queries w)
      (λ r h. h)

converse-Leaves :
    (host : WorkerHost) (batches : List Batch) (w : Worker)
    → LeavesWith (view w) (converse host batches w)
unfolding converse new_messages_handler
converse-Leaves host [] w = refl
converse-Leaves host (batch ∷ rest) w =
    bind-Holds (λ r. view r.0 ≡ view w) (λ r. view r.0 ≡ view w)
      (handle_messages host batch.user batch.messages w) _
      (handle_messages-Leaves host batch.user batch.messages w)
      (λ r h.
        bind-Holds (λ s. view s.0 ≡ view w) (λ s. view s.0 ≡ view w) (converse host rest r.0) _
          (go_on (λ s. view s.0) (view r.0) (view w) (converse host rest r.0) h
            (converse-Leaves host rest r.0))
          (λ s k. k))

-- A call of PAM leaves the view but for what the caller logs of it.
pub run_pam-Leaves :
    (host : WorkerHost) (run : PamRun) (w : Worker) → LeavesWith (view w) (run_pam host run w)
unfolding run_pam
run_pam-Leaves host run w =
    bind-Holds (λ r. view r.0 ≡ view w) (λ r. view r.0 ≡ view w) (converse host run.batches w) _
      (converse-Leaves host run.batches w) (λ r h. h)
