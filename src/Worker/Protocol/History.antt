-- ===== src/Worker/Protocol/History.antt =====
-- The protocol over every history of a session worker (daemon/scdm-session-worker.c).
use scdm.Prelude.{
  ℕ, ◌+◌, ◌≡◌, ◌∙◌, ◌⊎◌, inl, inr, refl, ap, subst, Bool, false, Option, some, arith, if◌then◌else◌,
  length, count, Holds, bind-Holds, if-Holds, weaken-Holds,
}
use scdm.SessionSettings
use scdm.SessionSettings.{ActUser}
use scdm.Worker.Events.{
  Event, method, idle, user_loaded, child_exited, reauthentication_client_gone,
  verification_complete, user_tells, happen, new, Reachable, created, after,
}
use scdm.Worker.Open.{session_worker_child_watch}
use scdm.Worker.Pam.{uninitialize_pam}
use scdm.Worker.Protocol.Answers.{waiting, Takes, quiet-Takes, step_from-Takes}
use scdm.Worker.Protocol.Close.{uninitialize-Follows}
use scdm.Worker.Protocol.Quiet.{Leaves, notify_all-Leaves}
use scdm.Worker.Protocol.Run.{MayCall, Stays, handle-Takes, program-Stays}
use scdm.Worker.Protocol.{
  view, stage, stage_of, has_handle, is_login, is_logout, open_sessions, opened, Follows,
  FollowsFrom,
}
use scdm.Worker.Requests.{Method, start_program, handle}
use scdm.Worker.State.{emit}
use scdm.Worker.Steps.{state_change_idle}
use scdm.Worker.Types.{success, Worker, WorkerHost}

-- How many invocations an event brings.
abbrev pub asked : Event → ℕ
asked (method invocation m) = 1
asked _ = 0

abbrev pub MayHappen : Event → Worker → Type 0
MayHappen (method invocation m) w = MayCall m w
MayHappen _ w = Unit

module _ (host : WorkerHost) (w : Worker) (h : Follows (view w)) where
  Takes-Stays :
      (n : ℕ) (o : Option Worker)
      → Holds (λ x. Takes n (view w) (view x)) o
      → Holds (λ x. Stays (view w) (view x)) o
  Takes-Stays n o k =
      weaken-Holds (λ x. Takes n (view w) (view x)) (λ x. Stays (view w) (view x)) o
        (λ x t. (t.0, t.2)) k

  quiet : (o : Option Worker) → Leaves (view w) o → Holds (λ x. Takes 0 (view w) (view x)) o
  quiet o k =
      weaken-Holds (λ x. view x ≡ view w) (λ x. Takes 0 (view w) (view x)) o
        (λ x e. quiet-Takes (view w) (view x) h e) k

  idle-Takes :
      Holds
        (λ x. Takes 0 (view w) (view x))
        (if w.state_change_queued then state_change_idle host w else some w)
  unfolding state_change_idle view
  idle-Takes =
      if-Holds (λ x. Takes 0 (view w) (view x)) w.state_change_queued _ _
        (λ _. step_from-Takes host w.state (record w { state_change_queued = false }) refl h)
        (λ _. quiet (some w) refl)

  exited-Takes :
      (status : ℕ)
      → Holds
          (λ x. Takes 0 (view w) (view x))
          (if w.child_watched then session_worker_child_watch host status w else some w)
  unfolding session_worker_child_watch view emit
  exited-Takes status =
      if-Holds (λ x. Takes 0 (view w) (view x)) w.child_watched _ _
        (λ _.
          bind-Holds (λ x. FollowsFrom (view w) (view x)) (λ x. Takes 0 (view w) (view x))
            (uninitialize_pam host success w) _
            (uninitialize-Follows (view w) success host w
              (λ handle. (handle, h.2, (refl, refl, refl))) (λ _. (h, (refl, refl, refl))))
            (λ x k. (k.0, omega (arith, ap length k.1.0, ap waiting k.1.1), inl k.1.2)))
        (λ _. quiet (some w) refl)

  told-Takes : (user : ActUser) → Holds (λ x. Takes 0 (view w) (view x)) (user_tells host user w)
  unfolding user_tells view
  told-Takes user =
      let (settings, notes) = SessionSettings.on_user_is_loaded_changed user w.user_settings in
      quiet _ (
        if-Holds (λ x. view x ≡ view w) w.user_settings.loading _ _
          (λ _. notify_all-Leaves host.act_user notes (record w { user_settings = settings }))
          (λ _. refl))

  handle-Stays :
      (invocation : ℕ) (m : Method)
      → Holds (λ x. Stays (view w) (view x)) (handle host invocation m w)
  handle-Stays invocation (start_program text) =
      unfold handle in program-Stays host invocation w h text
  handle-Stays invocation m =
      Takes-Stays 1 (handle host invocation m w) (handle-Takes host invocation w h m tt)

  happen-Takes :
      (e : Event) → MayHappen e w → Holds (λ x. Takes (asked e) (view w) (view x)) (happen host e w)
  unfolding happen emit view
  happen-Takes (method invocation m) may = handle-Takes host invocation w h m may
  happen-Takes idle may = idle-Takes
  happen-Takes (user_loaded user) may = told-Takes user
  happen-Takes (child_exited status) may = exited-Takes status
  happen-Takes (reauthentication_client_gone pid) may = quiet-Takes (view w) (view w) h refl
  happen-Takes (verification_complete service) may = quiet-Takes (view w) (view w) h refl

  happen-Stays : (e : Event) → Holds (λ x. Stays (view w) (view x)) (happen host e w)
  happen-Stays (method invocation m) = unfold happen in handle-Stays invocation m
  happen-Stays e = Takes-Stays 0 (happen host e w) (happen-Takes e tt)

new-Follows : (b : Bool) → Follows (view (new b))
unfolding new view stage stage_of has_handle
new-Follows b = (refl, refl, refl)

-- Of every worker that can be reached, the log of its PAM calls has come to the stage that its state
-- stands for, PAM is in use exactly from the first successful `pam_start` on, and its audit reports
-- have one login more than logouts while a session is open and as many otherwise.
pub Reachable-Follows :
    {w : Worker}
    → Reachable w
    → (stage w.is_reauth_session w.calls ≡ stage_of w.state)
      × (w.pam_handle ≡ has_handle (stage_of w.state))
      × (count is_login w.audit ≡ count is_logout w.audit + open_sessions (stage_of w.state))
unfolding view
Reachable-Follows (created b) = new-Follows b
Reachable-Follows (after {before} {next} host e r q) =
    (subst (Holds (λ x. Stays (view before) (view x))) q
      (happen-Stays host before (Reachable-Follows r) e)).0

-- If an event of a worker that can be reached starts a program, the log of PAM calls had come to an
-- open session.
pub program_needs_session :
    {before next : Worker} (host : WorkerHost) (e : Event)
    → Reachable before
    → happen host e before ≡ some next
    → (next.spawned ≡ before.spawned) ⊎ (stage before.is_reauth_session before.calls ≡ opened)
program_needs_session {before} {next} host e r q = go (
    unfold view in
    (subst (Holds (λ x. Stays (view before) (view x))) q
      (happen-Stays host before (unfold view in Reachable-Follows r) e)).1)
  where
    go :
        (next.spawned ≡ before.spawned) ⊎ (stage_of before.state ≡ opened)
        → (next.spawned ≡ before.spawned) ⊎ (stage before.is_reauth_session before.calls ≡ opened)
    go (inl same) = inl same
    go (inr at) = inr ((Reachable-Follows r).0 ∙ at)

-- On a worker that can be reached, an event that does not end the process leaves one more invocation
-- answered or waiting if it is a method call, and as many otherwise. A call of `StartProgram` is taken
-- where a session is open and no invocation waits.
pub happen_answers :
    {before next : Worker} (host : WorkerHost) (e : Event)
    → Reachable before
    → MayHappen e before
    → happen host e before ≡ some next
    → length next.replies + waiting next.pending_invocation
      ≡ length before.replies + waiting before.pending_invocation + asked e
happen_answers {before} {next} host e r may q =
    unfold view in
    (subst (Holds (λ x. Takes (asked e) (view before) (view x))) q
      (happen-Takes host before (unfold view in Reachable-Follows r) e may)).1
