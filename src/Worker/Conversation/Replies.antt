-- ===== src/Worker/Conversation/Replies.antt =====
-- The replies to the messages of a conversation with PAM (daemon/scdm-session-worker.c).
use scdm.Prelude.{
  ℕ, zero, suc, ◌≤◌, ◌≡◌, refl, ap, Bool, true, false, Option, none, some, List, [], ◌∷◌, ◌++◌,
  arith, Bytes, codes, length, Holds, bind-Holds, if-Holds, ◌>>=◌,
}
use scdm.Worker.Conversation.{
  take, answered, ask, plain_message, by_style, process_pam_message, add_reply, process_messages,
  conv_code, handle_messages, new_messages_handler, convert_to_utf8,
}
use scdm.Worker.State.{update_username}
use scdm.Worker.Types.{
  PamCode, success, conv_err, Style, prompt_echo_on, prompt_echo_off, text_info, error_msg,
  radio_type, unknown_style, binary_prompt, Message, Worker, WorkerHost,
}

-- Either the conversation is a success with a reply for each message, or it failed with none.
abbrev pub IsComplete : ℕ → PamCode → Option (List (Option Bytes)) → Type 0
IsComplete n code none = code ≡ conv_err
IsComplete n code (some replies) = (code ≡ success) × (length replies ≡ n)

abbrev Counts : ℕ → Option (List (Option Bytes)) → Type 0
Counts n none = Unit
Counts n (some replies) = length replies ≡ n

abbrev pub FitsReply : Option Bytes → Type 0
FitsReply none = Unit
FitsReply (some answer) = length answer ≤ 511

abbrev pub AllFit : List (Option Bytes) → Type 0
AllFit [] = Unit
AllFit (reply ∷ rest) = FitsReply reply × AllFit rest

take-length : (n : ℕ) (bs : Bytes) → length (take n bs) ≤ n
take-length zero bs = omega arith
take-length (suc n) [] = omega arith
take-length (suc n) (b ∷ bs) = omega (arith, take-length n bs)

any : {A : Type 0} (o : Option A) → Holds {0, 0} (λ a. Unit) o
any none = tt
any (some a) = tt

add-Counts :
    (n : ℕ) (first : Option Bytes) (o : Option (List (Option Bytes)))
    → Counts n o
    → Counts (suc n) (add_reply first o)
unfolding add_reply
add-Counts n first none h = tt
add-Counts n first (some replies) h = ap suc h

process-Counts :
    (host : WorkerHost) (user : Option (Option Bytes)) (messages : List Message) (w : Worker)
    → Holds (λ r. Counts (length messages) r.1) (process_messages host user messages w)
unfolding process_messages
process-Counts host user [] w = refl
process-Counts host user (query ∷ rest) w =
    bind-Holds (λ r. Unit) (λ r. Counts (length (query ∷ rest)) r.1)
      (process_pam_message host user query w) _ (any (process_pam_message host user query w))
      (λ r h. go r.0 (process-Counts host user rest r.0) r.1)
  where
    go :
        (x : Worker)
        → Holds (λ r. Counts (length rest) r.1) (process_messages host user rest x)
        → (o : Option (Option Bytes))
        → Holds {A = Worker × Option (List (Option Bytes))}
            (λ r. Counts (length (query ∷ rest)) r.1)
            (elim o [
              | none ↦ some (x, none)
              | some response ↦
                  process_messages host user rest x >>= λ s. some (s.0, add_reply response s.1)
            ])
    go x k none = tt
    go x k (some response) =
        bind-Holds (λ r. Counts (length rest) r.1) (λ r. Counts (length (query ∷ rest)) r.1)
          (process_messages host user rest x) _ k (λ s c. add-Counts (length rest) response s.1 c)

complete : (n : ℕ) (o : Option (List (Option Bytes))) → Counts n o → IsComplete n (conv_code o) o
unfolding conv_code
complete n none h = refl
complete n (some replies) h = (refl, h)

-- Where the process does not end, a conversation over any messages ends with PAM_SUCCESS and a reply
-- for each of them, or with PAM_CONV_ERR and no reply at all.
pub new_messages_handler-IsComplete :
    (host : WorkerHost) (user : Option (Option Bytes)) (messages : List Message) (w : Worker)
    → Holds
        (λ r. IsComplete (length messages) r.1 r.2)
        (new_messages_handler host (record { user = user; messages = some messages }) w)
unfolding new_messages_handler handle_messages
new_messages_handler-IsComplete host user messages w =
    bind-Holds (λ r. Counts (length messages) r.1) (λ r. IsComplete (length messages) r.1 r.2)
      (process_messages host user messages w) _ (process-Counts host user messages w)
      (λ r h. complete (length messages) r.1 h)

answered-Fits : (query : Bool × Option Bytes) → Holds FitsReply (answered query)
unfolding answered
answered-Fits (true, some answer) = take-length 511 answer
answered-Fits (false, some answer) = tt
answered-Fits (true, none) = tt
answered-Fits (false, none) = tt

ask-Fits :
    (host : WorkerHost) (style : Style) (text : Bytes) → Holds FitsReply (ask host style text)
unfolding ask
ask-Fits host prompt_echo_on text = answered-Fits (host.info_query text)
ask-Fits host prompt_echo_off text = answered-Fits (host.secret_info_query text)
ask-Fits host text_info text = answered-Fits (host.info text, none)
ask-Fits host error_msg text = answered-Fits (host.problem text, none)
ask-Fits host radio_type text = answered-Fits (host.info_query (text ++ codes " (yes/no)"))
ask-Fits host unknown_style text = tt
ask-Fits host (binary_prompt message) text = tt

plain-Fits :
    (host : WorkerHost) (query : Message) (w : Worker)
    → Holds (λ r. Holds FitsReply r.1) (plain_message host query w)
unfolding plain_message
plain-Fits host query w = ask-Fits host query.msg_style (convert_to_utf8 host query.msg)

by_style-Fits :
    (host : WorkerHost) (style : Style) (query : Message) (w : Worker)
    → host.supports_pam_extensions ≡ false
    → Holds (λ r. Holds FitsReply r.1) (by_style host style query w)
unfolding by_style
by_style-Fits host (binary_prompt message) query w e =
    if-Holds (λ r. Holds FitsReply r.1) host.supports_pam_extensions _ _
      (λ q. absurd (ground (arith, q, e))) (λ _. plain-Fits host query w)
by_style-Fits host _ query w e = plain-Fits host query w

add-Fits :
    (first : Option Bytes) (o : Option (List (Option Bytes)))
    → FitsReply first
    → Holds AllFit o
    → Holds AllFit (add_reply first o)
unfolding add_reply
add-Fits first none h k = tt
add-Fits first (some replies) h k = (h, k)

-- Without PAM extensions, no reply to PAM is longer than PAM_MAX_RESP_SIZE - 1 bytes, whatever the
-- session answers.
pub process_messages-AllFit :
    (host : WorkerHost) (user : Option (Option Bytes)) (messages : List Message) (w : Worker)
    → host.supports_pam_extensions ≡ false
    → Holds (λ r. Holds AllFit r.1) (process_messages host user messages w)
unfolding process_messages process_pam_message
process_messages-AllFit host user [] w e = tt
process_messages-AllFit host user (query ∷ rest) w e =
    bind-Holds (λ r. Holds FitsReply r.1) (λ r. Holds AllFit r.1)
      (process_pam_message host user query w) _
      (bind-Holds (λ x. Unit) (λ r. Holds FitsReply r.1) (update_username host.act_user user w) _
        (any (update_username host.act_user user w))
        (λ x _. by_style-Fits host query.msg_style query x e))
      (λ r h. go r.0 (process_messages-AllFit host user rest r.0 e) r.1 h)
  where
    go :
        (x : Worker)
        → Holds (λ r. Holds AllFit r.1) (process_messages host user rest x)
        → (o : Option (Option Bytes)) → Holds FitsReply o
        → Holds {A = Worker × Option (List (Option Bytes))}
            (λ r. Holds AllFit r.1)
            (elim o [
              | none ↦ some (x, none)
              | some response ↦
                  process_messages host user rest x >>= λ s. some (s.0, add_reply response s.1)
            ])
    go x k none h = tt
    go x k (some response) h =
        bind-Holds (λ r. Holds AllFit r.1) (λ r. Holds AllFit r.1)
          (process_messages host user rest x) _ k (λ s c. add-Fits response s.1 h c)
