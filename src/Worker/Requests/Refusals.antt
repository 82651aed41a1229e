-- ===== src/Worker/Requests/Refusals.antt =====
-- Requests that daemon/scdm-session-worker.c refuses, and what it does all the same.
use scdm.Prelude.{
  ℕ, suc, ◌≡◌, ◌∙◌, refl, ap, Bool, true, false, none, some, List, arith, if◌then◌else◌, ◌==◌,
  codes, Bytes, ◌>>=◌,
}
use scdm.Worker.Requests.{start_program, handle, handle_start_program, with_arguments}
use scdm.Worker.State.{number, reply, queue_state_change}
use scdm.Worker.Steps.{in_order, wrong_state_message, validate_with, validate_state_change}
use scdm.Worker.Types.{
  State, session_started, failed_with, wrong_state, in_reauth_session, Worker, WorkerHost,
}

-- The worker with a reply that refuses.
abbrev pub refused : (invocation : ℕ) → State → Worker → Worker
refused invocation s w =
    reply invocation (failed_with wrong_state (wrong_state_message s w.state)) w

-- A request for a state that does not come next is refused, where no invocation waits.
pub validate_wrong :
    (invocation : ℕ) (s : State) (w : Worker)
    → w.pending_invocation ≡ none
    → (suc (number w.state) == number s) ≡ false
    → validate_state_change invocation s w ≡ some (refused invocation s w, false)
unfolding validate_state_change validate_with in_order
validate_wrong invocation s w free other =
    ap (λ p. validate_with p invocation s w) free
    ∙ ap (λ b. some (if b then (w, true) else (refused invocation s w, false))) other

pub queued-pending :
    (w : Worker)
    → ((queue_state_change w).pending_invocation ≡ w.pending_invocation)
      × ((queue_state_change w).replies ≡ w.replies)
      × ((queue_state_change w).state ≡ w.state)
      × ((queue_state_change w).state_change_queued ≡ true)
unfolding queue_state_change
queued-pending w = go w.state_change_queued refl
  where
    go :
        (b : Bool)
        → w.state_change_queued ≡ b
        → ((if b then w else record w { state_change_queued = true }).pending_invocation
            ≡ w.pending_invocation)
          × ((if b then w else record w { state_change_queued = true }).replies ≡ w.replies)
          × ((if b then w else record w { state_change_queued = true }).state ≡ w.state)
          × ((if b then w else record w { state_change_queued = true }).state_change_queued ≡ true)
    go true e = (refl, refl, refl, e)
    go false e = (refl, refl, refl, refl)

module _ (host : WorkerHost) (invocation : ℕ) (text : Bytes) (arguments : List Bytes)
    (w : Worker) where
  -- `StartProgram` on a worker in any state but SESSION_OPENED, outside of a session that authenticates
  -- again, with a command line that can be parsed and no invocation that waits, is answered with an error,
  -- and waits for the next state change all the same, which is queued.
  pub start_program_out_of_order :
      w.pending_invocation ≡ none
      → (number w.state == 6) ≡ false
      → w.is_reauth_session ≡ false
      → host.parse_argv text ≡ some arguments
      → (next : Worker) × (handle host invocation (start_program text) w ≡ some next)
        × (next.replies ≡ (refused invocation session_started w).replies)
        × (next.pending_invocation ≡ some invocation)
        × (next.state ≡ w.state)
        × (next.state_change_queued ≡ true)
  unfolding handle handle_start_program reply with_arguments
  start_program_out_of_order free other no_reauth parsed =
      let next = queue_state_change asked in
      let (pending, replies, state, queued) = queued-pending asked in
      (next, runs, replies, pending, state, queued)
    where
      asked : Worker
      asked = record (refused invocation session_started w) {
        arguments = arguments;
        pending_invocation = some invocation;
      }

      later : (suc (number w.state) == 7) ≡ false
      later = ground (arith, other)

      runs : handle host invocation (start_program text) w ≡ some (queue_state_change asked)
      runs =
          ap
            (λ o. o >>= λ r. some (
              if r.0.is_reauth_session
              then reply invocation
                  (failed_with in_reauth_session
                    (codes "Cannot start a program while in a reauth session"))
                  r.0
              else with_arguments invocation (host.parse_argv text) r.0))
            (validate_wrong invocation session_started w free (unfold number in later))
          ∙ (ap
                (λ b. some (
                  if b
                  then reply invocation
                      (failed_with in_reauth_session
                        (codes "Cannot start a program while in a reauth session"))
                      (refused invocation session_started w)
                  else with_arguments invocation (host.parse_argv text)
                      (refused invocation session_started w)))
                no_reauth
              ∙ ap (λ p. some (with_arguments invocation p (refused invocation session_started w)))
                  parsed)
