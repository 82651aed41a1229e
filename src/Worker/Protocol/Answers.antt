-- ===== src/Worker/Protocol/Answers.antt =====
-- The steps of a session worker between its states, with the reply to the invocation that waits
-- (daemon/scdm-session-worker.c).
use scdm.Prelude.{
  ℕ, ◌+◌, ◌≡◌, ◌⊎◌, inl, inr, refl, ap, sym, subst, true, not, Option, none, some, arith,
  if◌then◌else◌, length, Holds, bind-Holds, if-Holds, weaken-Holds, ◌>>=◌,
}
use scdm.SessionSettings
use scdm.SessionSettings.{ActUser}
use scdm.Worker.Login.{authenticate_user, authorize_user, accredit_user}
use scdm.Worker.Open.{open_user_session, start_session}
use scdm.Worker.Pam.{Failure, initialize_pam}
use scdm.Worker.Protocol.Accredit.{accredit-Follows}
use scdm.Worker.Protocol.Authorize.{authorize-Follows}
use scdm.Worker.Protocol.Login.{authenticate-Follows, AtStage}
use scdm.Worker.Protocol.Open.{open-Follows, start-Follows}
use scdm.Worker.Protocol.Quiet.{
  save-Leaves, load_settings-Leaves, update_username-Leaves, state_eq_sound,
}
use scdm.Worker.Protocol.Start.{initialize-Follows}
use scdm.Worker.Protocol.{View, view, stage_of, opened, Follows, FollowsFrom, FollowsBut}
use scdm.Worker.State.{state_eq, reply, save_account_details_now, load_settings, update_username}
use scdm.Worker.Steps.{
  answer, answer_pending, reply_of, do_setup, after_login, do_authenticate, do_authorize,
  do_accredit, do_save_account_details_when_ready, do_open_session, do_start_session, step_from,
  id_or_empty, pid_of,
}
use scdm.Worker.Types.{
  State, state_none, setup_complete, authenticated, authorized, accredited, account_details_saved,
  session_opened, session_started, Reply, completed, session_id_is, Worker, WorkerHost,
}

abbrev pub waiting : Option ℕ → ℕ
waiting none = 0
waiting (some invocation) = 1

-- The invocations that were answered, and the one that waits.
abbrev pub taken : View → ℕ
taken v = length v.replies + waiting v.pending

-- Programs are as they were, unless a session is open.
abbrev pub Spawns : View → View → Type 0
Spawns from v = (v.spawned ≡ from.spawned) ⊎ (from.at ≡ opened)

-- The protocol is followed, with so many more invocations taken.
abbrev pub Takes : ℕ → View → View → Type 0
Takes n from v = Follows v × (taken v ≡ taken from + n) × Spawns from v

pub quiet-Takes : (from v : View) → Follows from → v ≡ from → Takes 0 from v
quiet-Takes from v h e = subst (Takes 0 from) (sym e) (h, omega arith, inl refl)

-- A worker in a state is at its stage.
at_stage :
    (w : Worker) (s : State)
    → w.state ≡ s
    → Follows (view w)
    → AtStage (view w) (stage_of s) (view w)
unfolding view
at_stage w s e h = ((h, (refl, refl, refl)), ap stage_of e)

module _ (host : WorkerHost) where
  -- The reply to the invocation that waits takes its place.
  answer-Takes :
      (from : View) (r : Reply) (w : Worker)
      → FollowsBut from (view w)
      → Spawns from (view w)
      → Takes 0 from (view (answer_pending r w))
  unfolding answer_pending answer view reply
  answer-Takes from r w (h, replies, pending) spawns = go w.pending_invocation refl
    where
      go : (p : Option ℕ) → w.pending_invocation ≡ p → Takes 0 from (view (answer p r w))
      go none e = (h, omega (arith, ap length replies, ap waiting pending), spawns)
      go (some invocation) e =
          (h, omega (arith, ap length replies, ap waiting pending, ap waiting e), spawns)

  -- A step that keeps the ledger, and its reply.
  replied-Takes :
      (from : View) (ok : Worker → Reply) (o : Option (Worker × Failure))
      → Holds (λ r. FollowsFrom from (view r.0)) o
      → Holds
          (λ w. Takes 0 from (view w))
          (o >>= λ r. some (answer_pending (reply_of (ok r.0) r.1) r.0))
  replied-Takes from ok o h =
      bind-Holds (λ r. FollowsFrom from (view r.0)) (λ w. Takes 0 from (view w)) o _ h
        (λ r k. answer-Takes from _ r.0 (k.0, k.1.0, k.1.1) (inl k.1.2))

  after_login-Takes :
      (from : View) (w : Worker) (failure : Failure)
      → FollowsFrom from (view w)
      → Holds (λ x. Takes 0 from (view x)) (after_login host (w, failure))
  unfolding after_login
  after_login-Takes from w (some failure) h = answer-Takes from _ w (h.0, h.1.0, h.1.1) (inl h.1.2)
  after_login-Takes from w none h =
      bind-Holds (λ x. view x ≡ view w) (λ x. Takes 0 from (view x))
        (if w.is_program_session then some w else update_username host.act_user host.pam_user w) _
        (if-Holds (λ x. view x ≡ view w) w.is_program_session _ _ (λ _. refl)
          (λ _. update_username-Leaves host.act_user host.pam_user w))
        (λ x e. named x (subst (FollowsFrom from) (sym e) h))
    where
      named :
          (x : Worker)
          → FollowsFrom from (view x)
          → Takes 0 from (view (answer_pending completed x))
      named x k = answer-Takes from completed x (k.0, k.1.0, k.1.1) (inl k.1.2)

  save-Takes :
      (w : Worker)
      → Follows (view w)
      → Holds (λ x. Takes 0 (view w) (view x)) (do_save_account_details_when_ready host w)
  unfolding do_save_account_details_when_ready
  save-Takes w h =
      if-Holds (λ x. Takes 0 (view w) (view x)) (not (state_eq w.state accredited)) _ _ (λ _. tt)
        (λ q.
          if-Holds (λ x. Takes 0 (view w) (view x)) (SessionSettings.is_loaded w.user_settings) _ _
            (λ _.
              weaken-Holds (λ x. view x ≡ view w) (λ x. Takes 0 (view w) (view x))
                (save_account_details_now host.act_user w)
                (λ x e. quiet-Takes (view w) (view x) h e)
                (save-Leaves host.act_user w
                  (state_eq_sound w.state accredited (ground (arith, q)))))
            (λ _.
              bind-Holds (λ r. view r.0 ≡ view w) (λ x. Takes 0 (view w) (view x))
                (load_settings host.act_user w.username (record w { loaded_handler = true })) _
                (unfold view in
                  load_settings-Leaves host.act_user w.username
                    (record w { loaded_handler = true }))
                (λ r e. quiet-Takes (view w) (view r.0) h e)))

  -- The step of each state.
  pub step_from-Takes :
      (s : State) (w : Worker)
      → w.state ≡ s
      → Follows (view w)
      → Holds (λ x. Takes 0 (view w) (view x)) (step_from host s w)
  unfolding step_from do_setup do_authenticate do_authorize do_accredit do_open_session
      do_start_session stage_of
  step_from-Takes state_none w e h =
      replied-Takes (view w) (λ x. completed) (initialize_pam host w)
        (initialize-Follows (view w) host w (at_stage w state_none e h))
  step_from-Takes setup_complete w e h =
      bind-Holds (λ r. FollowsFrom (view w) (view r.0)) (λ x. Takes 0 (view w) (view x))
        (authenticate_user host w) _
        (authenticate-Follows (view w) host w (at_stage w setup_complete e h))
        (λ r k. after_login-Takes (view w) r.0 r.1 k)
  step_from-Takes authenticated w e h =
      replied-Takes (view w) (λ x. completed) (authorize_user host w)
        (authorize-Follows (view w) host w (at_stage w authenticated e h))
  step_from-Takes authorized w e h =
      replied-Takes (view w) (λ x. completed) (accredit_user host w)
        (accredit-Follows (view w) host w (at_stage w authorized e h))
  step_from-Takes accredited w e h = save-Takes w h
  step_from-Takes account_details_saved w e h =
      replied-Takes (view w) (λ x. session_id_is (id_or_empty x.session_id))
        (open_user_session host w)
        (open-Follows (view w) host w (at_stage w account_details_saved e h))
  step_from-Takes session_opened w e h =
      bind-Holds (λ r. FollowsBut (view w) (view r.0)) (λ x. Takes 0 (view w) (view x))
        (start_session host w) _ (start-Follows (view w) host w (at_stage w session_opened e h))
        (λ r k.
          answer-Takes (view w) (reply_of (pid_of r.0.child_pid) r.1) r.0 k
            (inr (at_stage w session_opened e h).1))
  step_from-Takes session_started w e h = tt
