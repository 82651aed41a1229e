-- ===== src/Session/Order/Granted.antt =====
-- A worker in the state before takes the request (daemon/scdm-session-worker.c).
use scdm.Prelude.{ℕ, suc, ◌≡◌, ap, subst, true, Option, none, some, if◌then◌else◌, ◌>>=◌}
use scdm.Session.Types.{setup_complete}
use scdm.Worker.Protocol.Run.{validate_granted}
use scdm.Worker.Requests.Refusals.{queued-pending}
use scdm.Worker.Requests.{Method, handle, handle_establish_credentials}
use scdm.Worker.State.{number, queue_state_change}
use scdm.Worker.Steps.{validate_and_queue_state_change}
use scdm.Worker.Types.{
  State, state_none, setup_complete, authenticated, authorized, accredited, account_details_saved,
  session_opened, session_started, establish_cred, reinitialize_cred, Worker, WorkerHost,
}
use scdm.Session.Order.{asked_next, asked}

-- A worker in the state that comes before takes the request.
unfoldable pub Takes : WorkerHost → (invocation : ℕ) → Method → Worker → Type 0
Takes host invocation m w =
    (next : Worker) × (handle host invocation m w ≡ some next)
    × (next.pending_invocation ≡ some invocation)
    × (next.state_change_queued ≡ true)

queued :
    (w : Worker)
    → ((queue_state_change w).pending_invocation ≡ w.pending_invocation)
      × ((queue_state_change w).state_change_queued ≡ true)
queued w = let (pending, replies, state, waits) = queued-pending w in (pending, waits)

module _ (host : WorkerHost) (invocation : ℕ) (w : Worker)
    (free : w.pending_invocation ≡ none) where
  waiting_worker : Worker
  waiting_worker = queue_state_change (record w { pending_invocation = some invocation })

  granted :
      (s : State)
      → suc (number w.state) ≡ number s
      → validate_and_queue_state_change invocation s w ≡ some waiting_worker
  unfolding validate_and_queue_state_change waiting_worker
  granted s next =
      ap
        (λ o. o >>= λ r. some (
          if r.1
          then queue_state_change (record r.0 { pending_invocation = some invocation })
          else r.0))
        (validate_granted invocation s w free next)

  queues :
      (s : State)
      → suc (number w.state) ≡ number s
      → (next : Worker) × (validate_and_queue_state_change invocation s w ≡ some next)
        × (next.pending_invocation ≡ some invocation)
        × (next.state_change_queued ≡ true)
  unfolding waiting_worker
  queues s next =
      let (pending, waits) = queued (record w { pending_invocation = some invocation }) in
      (waiting_worker, granted s next, pending, waits)

  takes :
      {n : Method} (m : Method)
      → some n ≡ some m
      → Takes host invocation n w
      → Takes host invocation m w
  takes m q h = subst (λ k. Takes host invocation k w) (ap asked q) h

  pub worker-Takes :
      (s : State) (m : Method) → w.state ≡ s → asked_next s ≡ some m → Takes host invocation m w
  unfolding asked_next handle Takes waiting_worker number handle_establish_credentials
  worker-Takes setup_complete m e q = takes m q (queues authenticated (ap (λ t. suc (number t)) e))
  worker-Takes authenticated m e q = takes m q (queues authorized (ap (λ t. suc (number t)) e))
  worker-Takes authorized m e q = takes m q (
    record (waiting_worker) {
      cred_flags = if waiting_worker.is_reauth_session then reinitialize_cred else establish_cred;
    },
    ap
        (λ (o : Option Worker). o >>= λ (x : Worker). some (record x {
          cred_flags = if x.is_reauth_session then reinitialize_cred else establish_cred;
        }))
        (granted accredited (ap (λ t. suc (number t)) e)),
    (queued (record w { pending_invocation = some invocation })).0,
    (queued (record w { pending_invocation = some invocation })).1,
  )
  worker-Takes accredited m e q =
      takes m q (queues account_details_saved (ap (λ t. suc (number t)) e))
  worker-Takes state_none m e q = cc
  worker-Takes account_details_saved m e q = cc
  worker-Takes session_opened m e q = cc
  worker-Takes session_started m e q = cc
