-- ===== src/Session/Conversations/Table.antt =====
-- The table of conversations of daemon/scdm-session.c: what is put is found, and what a worker that
-- does not start leaves in it.
use scdm.Prelude.{
  ℕ, ◌≡◌, ◌≢◌, ◌∙◌, refl, ap, true, false, Option, none, some, List, [], ◌∷◌, if◌then◌else◌, Bytes,
  bytes_eq_refl, All, In, inl, inr, arith, sym,
}
use scdm.Session.Conversations.{
  find_in, find_pid, find_conversation_by_name, steal, insert, put, do_reset, keep, stop_others,
  stop_all_conversations, is_busy, start_conversation, session_start_conversation,
}
use scdm.Session.Types.{Conversation, Session, SessionHost}

pub find-insert :
    (name : Bytes) (value : Option Conversation) (table : List (Bytes × Option Conversation))
    → find_in name (insert name value table) ≡ value
unfolding insert find_in
find-insert name value table =
    ap (λ b. if b then value else find_in name (steal name table)) (bytes_eq_refl name)

pub find-put :
    (conversation : Conversation) (self : Session)
    → find_conversation_by_name (put conversation self) conversation.service_name
      ≡ some conversation
unfolding find_conversation_by_name put
find-put conversation self =
    find-insert conversation.service_name (some conversation) self.conversations

-- Not the conversation of a worker.
NotPid : (pid : ℕ) → Option Conversation → Type 0
NotPid pid none = Unit
NotPid pid (some conversation) = conversation.worker_pid ≢ pid

-- No conversation of the table is that of the worker.
unfoldable pub HasNoPid : (pid : ℕ) → List (Bytes × Option Conversation) → Type 0
unfolding NotPid
HasNoPid pid table = All (λ entry. NotPid pid entry.1) table

module _ (name : Bytes) where
  -- A walk that asks all others to stop does not get past a null pointer, wherever it stands.
  pub stop_others-null :
      (kept : ℕ) (table : List (Bytes × Option Conversation))
      → In (name, none) table
      → stop_others kept table ≡ none
  unfolding stop_others
  stop_others-null kept [] i = absurd i
  stop_others-null kept ((key, none) ∷ rest) i = refl
  stop_others-null kept ((key, some c) ∷ rest) (inl e) = cc
  stop_others-null kept ((key, some c) ∷ rest) (inr i) = rw (stop_others-null kept rest i) refl

  -- Nor does a search that finds nothing before it.
  pub find_pid-null :
      (pid : ℕ) (table : List (Bytes × Option Conversation))
      → In (name, none) table
      → HasNoPid pid table
      → find_pid pid table ≡ none
  unfolding find_pid HasNoPid
  find_pid-null pid [] i n = absurd i
  find_pid-null pid ((key, none) ∷ rest) i n = refl
  find_pid-null pid ((key, some c) ∷ rest) (inl e) n = cc
  find_pid-null pid ((key, some c) ∷ rest) (inr i) n =
      ground (arith, n.0, find_pid-null pid rest i n.1)

-- With nothing to keep, null pointers are taken out, and all else is stopped.
pub keep-none : (table : List (Bytes × Option Conversation)) → keep none table ≡ some []
unfolding keep
keep-none [] = refl
keep-none ((key, none) ∷ rest) = keep-none rest
keep-none ((key, some c) ∷ rest) = rw (keep-none rest) refl

-- A reset leaves no conversation.
pub do_reset_lem :
    (self : Session) → (after : Session) × (do_reset self ≡ some after) × (after.conversations ≡ [])
unfolding do_reset stop_all_conversations
do_reset_lem self = (
  record self {
    conversations = [];
    pending_worker_connections = [];
    selected_user = none;
    selected_session = none;
    saved_session = none;
    saved_language = none;
    user_x11_authority_file = none;
    environment = [];
    session_pid = 0;
    session_conversation = none;
  },
  rw (keep-none self.conversations) refl,
  refl,
)

-- What a worker that does not start leaves in the table.
pub start-null :
    (host : SessionHost) (name : Bytes) (self : Session)
    → host.worker_job_start ≡ none
    → is_busy (find_conversation_by_name self name) ≡ false
    → ((session_start_conversation host name self).1 ≡ true)
      × (find_conversation_by_name (session_start_conversation host name self).0 name ≡ none)
      × In (name, none) (session_start_conversation host name self).0.conversations
unfolding session_start_conversation find_conversation_by_name insert
start-null host name self fails free =
    rw free (refl, found, inl (ap (λ value. (name, value)) (sym null)))
  where
    null : start_conversation host name self ≡ none
    null = rw fails refl

    found : find_in name (insert name (start_conversation host name self) self.conversations) ≡ none
    found = find-insert name (start_conversation host name self) self.conversations ∙ null
