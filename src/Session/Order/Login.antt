-- ===== src/Session/Order/Login.antt =====
-- The calls that daemon/scdm-session.c sends to a worker, and the worker that gets them.
use scdm.Prelude.{ℕ, ◌≡◌, refl, true, none, some, List, ◌∷◌}
use scdm.Session.Conversations.{find_conversation_by_name}
use scdm.Session.Types.{login, Conversation, Session, SessionHost}
use scdm.Worker.Requests.{Method, handle}
use scdm.Worker.Types.{Worker, WorkerHost}
use scdm.Session.Order.{asked_next, on_reached, calls_of}
use scdm.Session.Order.Sent.{session-asks}
use scdm.Session.Order.Granted.{Takes, worker-Takes}

-- When a worker has got to a state and its session, which logs a user in, hears of that without an
-- error, the newest call that the session sends to the worker is that for the next state; and a worker
-- in that state which answers no other call takes it: it waits with the invocation and queues the
-- change of its state.
pub session_calls_in_order :
    (host : SessionHost) (worker_host : WorkerHost) (self : Session) (c : Conversation)
    (invocation : ℕ) (w : Worker) (m : Method)
    → find_conversation_by_name self c.service_name ≡ some c
    → c.worker_proxy ≡ true
    → self.verification_mode ≡ login
    → w.pending_invocation ≡ none
    → asked_next w.state ≡ some m
    → ((earlier : List Method) × (calls_of c.service_name (on_reached host w.state c self)
          ≡ m ∷ earlier))
      × ((next : Worker) × (handle worker_host invocation m w ≡ some next)
          × (next.pending_invocation ≡ some invocation)
          × (next.state_change_queued ≡ true))
unfolding Takes
session_calls_in_order host worker_host self c invocation w m found proxy mode free next = (
  session-asks host self c proxy found w.state m mode next,
  worker-Takes worker_host invocation w free w.state m refl next,
)
