-- ===== src/Session/Queries/Answers.antt =====
-- A query of a worker and its answer (daemon/scdm-session.c).
use scdm.Prelude.{
  ℕ, ◌≡◌, ◌∙◌, refl, ap, true, none, some, [], ◌∷◌, if◌then◌else◌, Bytes, is_some, ◌>>=◌,
}
use scdm.Session.Conversations.Table.{find-put}
use scdm.Session.Conversations.{answer, put, find_conversation_by_name}
use scdm.Session.Names.{tell}
use scdm.Session.Queries.{
  answer_with, answer_pending_query, answer_query, set_pending_query, query_for, handle_query,
  handle_secret_info_query,
}
use scdm.Session.Types.{Conversation, Session, Answer, answered, secret_info_query}

module _ (self : Session) (c : Conversation)
    (found : find_conversation_by_name self c.service_name ≡ some c) where
  -- With a login screen, a query goes to the conversation of its service.
  asks :
      (invocation : ℕ) (query : Bytes)
      → self.user_verifier_interface ≡ true
      → handle_secret_info_query invocation c.service_name query self ≡ (
          set_pending_query invocation c self >>= λ set.
          some (tell (secret_info_query c.service_name query) set))
  unfolding handle_secret_info_query handle_query query_for
  asks invocation query shown =
      ap
        (λ b.
          if b
          then query_for (find_conversation_by_name self c.service_name) invocation
              (secret_info_query c.service_name query) self
          else some (answer invocation (Answer.failed []) self))
        shown
      ∙ ap (λ o. query_for o invocation (secret_info_query c.service_name query) self) found

  answers :
      (text : Bytes) → answer_query c.service_name text self ≡ answer_pending_query text c self
  unfolding answer_query
  answers text =
      ap
        (λ o. elim o [
          | none ↦ self
          | some conversation ↦ answer_pending_query text conversation self
        ])
        found

-- A secret that a worker asks for, in a conversation that waits for no other answer, while there is a
-- login screen: the first answer for its service goes to its invocation, a second one goes nowhere, and
-- a second query before the answer ends the process.
pub secret_query_answered :
    (self : Session) (c : Conversation) (invocation other : ℕ) (query again text more : Bytes)
    → find_conversation_by_name self c.service_name ≡ some c
    → self.user_verifier_interface ≡ true
    → c.pending_invocation ≡ none
    → (waiting done : Session) × (handle_secret_info_query invocation c.service_name query self
        ≡ some waiting)
      × (answer_query c.service_name text waiting ≡ done)
      × (done.answers ≡ (invocation, answered text) ∷ self.answers)
      × (answer_query c.service_name more done ≡ done)
      × (handle_secret_info_query other c.service_name again waiting ≡ none)
unfolding set_pending_query answer_pending_query answer_with put tell answer
secret_query_answered self c invocation other query again text more found shown free = (
  waiting,
  done,
  asks self c found invocation query shown
      ∙ ap (λ o. (if is_some o then none else some (put asked self)) >>= λ set. some (told set))
          free,
  answers waiting asked waiting_has text,
  refl,
  answers done idle done_has more,
  asks waiting asked waiting_has other again shown,
)
  where
    asked : Conversation
    asked = record c { pending_invocation = some invocation }

    idle : Conversation
    idle = record asked { pending_invocation = none }

    told : Session → Session
    told = tell (secret_info_query c.service_name query)

    waiting : Session
    waiting = told (put asked self)

    done : Session
    done = put idle (answer invocation (answered text) waiting)

    waiting_has : find_conversation_by_name waiting c.service_name ≡ some asked
    waiting_has = unfold find_conversation_by_name in find-put asked self

    done_has : find_conversation_by_name done c.service_name ≡ some idle
    done_has = find-put idle (answer invocation (answered text) waiting)
