-- ===== src/Session/Order/Sent.antt =====
-- The calls that the callbacks of daemon/scdm-session.c send.
use scdm.Prelude.{
  ℕ, ◌≡◌, ◌∙◌, refl, ap, sym, subst, Bool, true, false, Option, none, some, ◌∷◌, if◌then◌else◌,
  Bytes, codes,
}
use scdm.Session.Conversations.Table.{find-put}
use scdm.Session.Conversations.{
  find_in, emit, answer, find_conversation_by_name, put, call, call_worker,
}
use scdm.Session.Names.{tell, get_display_mode}
use scdm.Session.Setup.{
  on_authenticate_cb, on_authorize_cb, on_establish_credentials_cb, open_by_mode, open_session,
  authorize, authenticate, accredit, verified, type_or_x11,
}
use scdm.Session.Start.{start_answered, answer_start, on_initialization_complete_cb}
use scdm.Session.Types.{
  setup_complete, verification_complete, verifier_verification_complete, login, Conversation,
  Session, SessionHost,
}
use scdm.Worker.Requests
use scdm.Worker.Requests.{Method, handle, handle_establish_credentials}
use scdm.Worker.Types.{
  State, state_none, setup_complete, authenticated, authorized, accredited, account_details_saved,
  session_opened, session_started, completed,
}
use scdm.Session.Order.{asked_next, on_reached, calls_in, calls_of, Newest, is}

module _ (c : Conversation) (proxy : c.worker_proxy ≡ true) where
  called : (m : Method) → call m c ≡ record c { calls = m ∷ c.calls }
  unfolding call
  called m = ap (λ b. if b then record c { calls = m ∷ c.calls } else c) proxy

  -- A call arrives at the worker's proxy.
  call_worker-find :
      (m : Method) (self : Session)
      → find_conversation_by_name self c.service_name ≡ some c
      → find_conversation_by_name (call_worker c.service_name m self) c.service_name
        ≡ some (record c { calls = m ∷ c.calls })
  unfolding call_worker
  call_worker-find m self e =
      ap
        (λ o.
          find_conversation_by_name
            (elim o [ none ↦ self | some conversation ↦ put (call m conversation) self ])
            c.service_name)
        e
      ∙ (ap (λ d. find_conversation_by_name (put d self) c.service_name) (called m)
          ∙ find-put (record c { calls = m ∷ c.calls }) self)

  newest :
      (m : Method) (self : Session)
      → find_conversation_by_name self c.service_name ≡ some c
      → Newest m (calls_of c.service_name (call_worker c.service_name m self))
  newest m self e = (c.calls, ap calls_in (call_worker-find m self e))

-- An answer, a signal or a notice leaves the conversations alone.
quiet-find :
    (name : Bytes) (self other : Session)
    → other.conversations ≡ self.conversations
    → find_conversation_by_name other name ≡ find_conversation_by_name self name
unfolding find_conversation_by_name
quiet-find name self other e = ap (find_in name) e

start_answered-calls :
    (name : Bytes) (self : Session) (c : Conversation)
    → c.service_name ≡ name
    → find_conversation_by_name self name ≡ some c
    → calls_of name (start_answered name self) ≡ c.calls
unfolding start_answered
start_answered-calls name self c named e =
    ap
      (λ o. calls_of name (elim o [
        | none ↦ self
        | some conversation ↦ put (record conversation { starting_invocation = none }) self
      ]))
      e
    ∙ subst (λ n. calls_of n (put (record c { starting_invocation = none }) self) ≡ c.calls) named
        (ap calls_in (find-put (record c { starting_invocation = none }) self))

verified-same :
    (name : Bytes) (self : Session) → (verified name self).conversations ≡ self.conversations
unfolding verified emit tell
verified-same name self = go self.user_verifier_interface
  where
    go :
        (b : Bool)
        → (if b
            then emit (verification_complete name) (tell (verifier_verification_complete name) self)
            else self).conversations
          ≡ self.conversations
    go true = refl
    go false = refl

answer_start-same :
    (invocation : Option ℕ) (self : Session)
    → (answer_start invocation completed self).conversations ≡ self.conversations
unfolding answer_start answer
answer_start-same none self = refl
answer_start-same (some invocation) self = refl

module _ (host : SessionHost) (self : Session) (c : Conversation) (proxy : c.worker_proxy ≡ true)
    (found : find_conversation_by_name self c.service_name ≡ some c) where
  initialized-asks :
      Newest Requests.authenticate
        (calls_of c.service_name (on_initialization_complete_cb completed c self))
  unfolding on_initialization_complete_cb authenticate
  initialized-asks = (
    c.calls,
    start_answered-calls c.service_name _ (record c { calls = Requests.authenticate ∷ c.calls })
        refl
        (call_worker-find c proxy Requests.authenticate set_up (
          quiet-find c.service_name self set_up
            (unfold emit in answer_start-same c.starting_invocation self)
          ∙ found)),
  )
    where
      set_up : Session
      set_up =
          emit (setup_complete c.service_name) (answer_start c.starting_invocation completed self)

  -- Three calls, of which the one that opens the session comes last.
  opens :
      (other : Session)
      → other.conversations ≡ self.conversations
      → Newest Requests.open_session
          (calls_of c.service_name (open_session host c.service_name other))
  unfolding open_session
  opens other same = newest typed proxy Requests.open_session _ (
      call_worker-find shown proxy variable _
        (call_worker-find c proxy mode other (quiet-find c.service_name self other same ∙ found)))
    where
      mode : Method
      mode = Requests.set_display_mode (get_display_mode host other)

      variable : Method
      variable =
          Requests.set_variable (codes "XDG_SESSION_TYPE") (some (type_or_x11 other.session_type))

      shown : Conversation
      shown = record c { calls = mode ∷ c.calls }

      typed : Conversation
      typed = record shown { calls = variable ∷ shown.calls }

  pub session-asks :
      (s : State) (m : Method)
      → self.verification_mode ≡ login
      → asked_next s ≡ some m
      → Newest m (calls_of c.service_name (on_reached host s c self))
  unfolding asked_next on_reached on_authenticate_cb on_authorize_cb on_establish_credentials_cb
      authorize accredit
  session-asks setup_complete m e q = is m q initialized-asks
  session-asks authenticated m e q = is m q (newest c proxy Requests.authorize self found)
  session-asks authorized m e q = is m q (newest c proxy Requests.establish_credentials self found)
  session-asks accredited m e q = is m q (
      subst
        (λ mode. Newest Requests.open_session (
          calls_of c.service_name
            (open_by_mode host mode c.service_name (verified c.service_name self))))
        (sym e)
        (unfold open_by_mode in
          opens (verified c.service_name self) (verified-same c.service_name self)))
  session-asks state_none m e q = cc
  session-asks account_details_saved m e q = cc
  session-asks session_opened m e q = cc
  session-asks session_started m e q = cc
