-- ===== src/Worker/Protocol/Run.antt =====
-- Whatever happens to a session worker, its state is that of its PAM calls, and every invocation gets
-- one reply (daemon/scdm-session-worker.c).
use scdm.Prelude.{
  ℕ, suc, ◌≡◌, ◌∙◌, inl, refl, ap, sym, subst, Bool, true, false, not, Option, none, some, List,
  arith, if◌then◌else◌, ◌==◌, ==_refl, Holds, bind-Holds, ◌>>=◌, Bytes,
}
use scdm.SessionSettings
use scdm.SessionSettings.{ActUser, SessionSettings, Notify}
use scdm.Worker.Protocol.Answers.{waiting, Spawns, Takes}
use scdm.Worker.Protocol.Close.{if-both}
use scdm.Worker.Protocol.Quiet.{queue-view}
use scdm.Worker.Protocol.Methods.{
  Validated, granted-Takes, settings-Takes, set_details-view, initialized-Leaves,
  load_and_queue-Leaves, replied-Takes, validate-Validated, queue-Takes,
}
use scdm.Worker.Protocol.{View, view, stage, advance, Follows}
use scdm.Worker.Requests.{
  set_up, connect_names, handle_setup, handle_setup_for_program, load_and_queue,
  handle_setup_for_user, set_details, initialized, handle_initialize, handle_establish_credentials,
  with_arguments, handle_start_program, handle_start_reauthentication, Method, setup,
  setup_for_user, setup_for_program, initialize, authenticate, authorize, establish_credentials,
  open_session, start_program, set_variable, set_session_name, set_language_name, set_display_mode,
  start_reauthentication, handle,
}
use scdm.Worker.State.{number, reply, call, set_environment_variable, state_eq}
use scdm.Worker.Steps.{
  in_order, wrong_state_message, validate_with, validate_state_change,
  validate_and_queue_state_change,
}
use scdm.Worker.Types.{
  State, failed_with, wrong_state, setup_complete, authenticated, authorized, accredited,
  account_details_saved, session_opened, session_started, completed, Worker, WorkerHost,
}

-- A program is started only on a worker whose session is open, and which answers no other call.
abbrev pub MayCall : Method → Worker → Type 0
MayCall (start_program text) w = (w.pending_invocation ≡ none) × (w.state ≡ session_opened)
MayCall _ w = Unit

-- The protocol is followed, and no program is started.
abbrev pub Stays : View → View → Type 0
Stays from v = Follows v × Spawns from v

pub validate_granted :
    (invocation : ℕ) (s : State) (w : Worker)
    → w.pending_invocation ≡ none
    → suc (number w.state) ≡ number s
    → validate_state_change invocation s w ≡ some (w, true)
unfolding validate_state_change validate_with in_order
validate_granted invocation s w free next =
    ap (λ p. validate_with p invocation s w) free
    ∙ ap (λ b. some (if b then (w, true) else (refused, false))) same
  where
    refused : Worker
    refused = reply invocation (failed_with wrong_state (wrong_state_message s w.state)) w

    same : (suc (number w.state) == number s) ≡ true
    same = rw next (==_refl (number s))

module _ (host : WorkerHost) (invocation : ℕ) (w : Worker) (h : Follows (view w)) where
  arguments-Stays :
      (from : View) (arguments : Option (List Bytes)) (x : Worker)
      → Stays from (view x)
      → Stays from (view (with_arguments invocation arguments x))
  unfolding with_arguments view
  arguments-Stays from none x k = unfold reply in k
  arguments-Stays from (some arguments) x k = subst (Stays from) (sym (queue-view _)) k

  Validated-Stays : (r : Worker × Bool) → Validated (view w) r → Stays (view w) (view r.0)
  Validated-Stays (x, true) k = subst (Stays (view w)) (sym (k.0 refl).0) (h, inl refl)
  Validated-Stays (x, false) k = let (follows, more, spawns) = k.1 refl in (follows, spawns)

  pub program-Stays :
      (text : Bytes)
      → Holds (λ x. Stays (view w) (view x)) (handle_start_program host invocation text w)
  unfolding handle_start_program reply view
  program-Stays text =
      bind-Holds (Validated (view w)) (λ x. Stays (view w) (view x))
        (validate_state_change invocation session_started w) _
        (validate-Validated invocation session_started w h)
        (λ r k.
          if-both (λ x. Stays (view w) (view x)) r.0.is_reauth_session _ _
            (λ _. Validated-Stays r k)
            (λ _. arguments-Stays (view w) (host.parse_argv text) r.0 (Validated-Stays r k)))

  arguments-Takes :
      (arguments : Option (List Bytes))
      → w.pending_invocation ≡ none
      → Takes 1 (view w) (view (with_arguments invocation arguments w))
  unfolding with_arguments view
  arguments-Takes none e = unfold reply in (h, omega arith, inl refl)
  arguments-Takes (some arguments) e =
      subst (Takes 1 (view w)) (sym (queue-view _)) (h, omega (arith, ap waiting e), inl refl)

  -- In the right state the request is granted.
  program-Takes :
      (text : Bytes)
      → MayCall (start_program text) w
      → Holds (λ x. Takes 1 (view w) (view x)) (handle_start_program host invocation text w)
  unfolding handle_start_program
  program-Takes text (free, opened_) =
      rw
        (validate_granted invocation session_started w free
          (unfold number in ap (λ s. suc (number s)) opened_))
        (if-both (λ x. Takes 1 (view w) (view x)) w.is_reauth_session _ _
          (λ _. replied-Takes invocation _ w h) (λ _. arguments-Takes (host.parse_argv text) free))

  variable-Takes :
      (key : Bytes) (value : Option Bytes)
      → Takes 1 (view w) (view (reply invocation completed (set_environment_variable key value w)))
  unfolding set_environment_variable call reply view stage advance
  variable-Takes key value = (h, omega arith, inl refl)

  reauthentication-Takes :
      (pid uid : ℕ) → Takes 1 (view w) (view (handle_start_reauthentication invocation pid uid w))
  unfolding handle_start_reauthentication reply view
  reauthentication-Takes pid uid =
      if-both (λ x. Takes 1 (view w) (view x)) (not (state_eq w.state session_started)) _ _
        (λ _. (h, omega arith, inl refl)) (λ _. (h, omega arith, inl refl))

  setup-Takes :
      (prepare : Worker → Worker) (s : State)
      → ((x : Worker) → view (prepare x) ≡ view x)
      → Holds
          (λ x. Takes 1 (view w) (view x))
          (validate_and_queue_state_change invocation s w >>= λ x. some (prepare x))
  setup-Takes prepare s same =
      bind-Holds (λ x. Takes 1 (view w) (view x)) (λ x. Takes 1 (view w) (view x))
        (validate_and_queue_state_change invocation s w) _ (queue-Takes invocation s w h)
        (λ x k. subst (Takes 1 (view w)) (sym (same x)) k)

  -- Every method but one takes its invocation in every state.
  pub handle-Takes :
      (m : Method)
      → MayCall m w
      → Holds (λ x. Takes 1 (view w) (view x)) (handle host invocation m w)
  unfolding handle handle_setup handle_setup_for_user handle_setup_for_program handle_initialize
      handle_establish_credentials set_up connect_names view reply
  handle-Takes (setup arguments) may = setup-Takes _ setup_complete (λ x. refl)
  handle-Takes (setup_for_user arguments username) may =
      granted-Takes host invocation w h setup_complete
        (λ x. connect_names (set_up arguments (some username) x))
        (load_and_queue host.act_user (some username)) (λ x. refl)
        (load_and_queue-Leaves host.act_user (some username))
  handle-Takes (setup_for_program arguments username log_file) may =
      setup-Takes _ setup_complete (λ x. refl)
  handle-Takes (initialize details) may =
      granted-Takes host invocation w h setup_complete (set_details details)
        (initialized host.act_user) (set_details-view details) (initialized-Leaves host.act_user)
  handle-Takes authenticate may = queue-Takes invocation authenticated w h
  handle-Takes authorize may = queue-Takes invocation authorized w h
  handle-Takes establish_credentials may = setup-Takes _ accredited (λ x. refl)
  handle-Takes open_session may = queue-Takes invocation account_details_saved w h
  handle-Takes (start_program text) may = program-Takes text may
  handle-Takes (set_variable key value) may = variable-Takes key value
  handle-Takes (set_session_name name) may =
      settings-Takes host invocation w h (SessionSettings.set_session_name name w.user_settings).0
        (SessionSettings.set_session_name name w.user_settings).1
  handle-Takes (set_language_name name) may =
      settings-Takes host invocation w h (SessionSettings.set_language_name name w.user_settings).0
        (SessionSettings.set_language_name name w.user_settings).1
  handle-Takes (set_display_mode mode) may = (h, omega arith, inl refl)
  handle-Takes (start_reauthentication pid uid) may = reauthentication-Takes pid uid
