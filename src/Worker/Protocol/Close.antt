-- ===== src/Worker/Protocol/Close.antt =====
-- The end of PAM brings a worker back to its first state in order (daemon/scdm-session-worker.c).
use scdm.Prelude.{
  ◌≡◌, refl, ap, sym, subst, Bool, true, false, not, ◌&&◌, List, ◌∷◌, arith, if◌then◌else◌, count,
  Holds, bind-Holds, if-Holds, ◌==◌,
}
use scdm.Worker.Pam.{close_pam, leave_vt, jump_to_vt, uninitialize_pam, finish, Failure, on_seat0}
use scdm.Worker.Protocol.Quiet.{get_username-Leaves, set_state-view, if-view}
use scdm.Worker.Protocol.{
  View, view, stage, stage_of, open_sessions, is_login, is_logout, closed, SameLedger, FollowsFrom,
  CanClose, advance, has_handle,
}
use scdm.Worker.State.{reached, call, report, get_username, set_state}
use scdm.Worker.Types.{
  State, state_none, setup_complete, authenticated, authorized, accredited, account_details_saved,
  session_opened, session_started, PamCode, PamCall, delete_cred, setcred, success, end_pam,
  close_session, logout, login_failure, WorkerHost, Worker,
}

pub if-both :
    (P : Worker → Type 0) (b : Bool) (x y : Worker)
    → (b ≡ true → P x)
    → (b ≡ false → P y)
    → P (if b then x else y)
if-both P true x y h k = h refl
if-both P false x y h k = k refl

-- The logout is reported exactly if the session was open.
session_is_open :
    (s : State) → open_sessions (stage_of s) ≡ (if reached session_opened s then 1 else 0)
unfolding stage_of reached
session_is_open state_none = refl
session_is_open setup_complete = refl
session_is_open authenticated = refl
session_is_open authorized = refl
session_is_open accredited = refl
session_is_open account_details_saved = refl
session_is_open session_opened = refl
session_is_open session_started = refl

module _ (from : View) (status : PamCode) where
  -- The calls end with that of `pam_end`, and no session is open in the audit.
  IsShut : View → Type 0
  IsShut v =
      ((cs : List PamCall) × (v.calls ≡ end_pam status ∷ cs))
      × (v.handle ≡ false)
      × (count is_login v.audit ≡ count is_logout v.audit)
      × SameLedger from v

  abbrev IsEven : Worker → Type 0
  IsEven w =
      (count is_login w.audit ≡ count is_logout w.audit)
      × ((w.replies ≡ from.replies)
          × (w.pending_invocation ≡ from.pending)
          × (w.spawned ≡ from.spawned))

  close-IsShut : (w : Worker) → CanClose from (view w) → IsShut (view (close_pam status w))
  unfolding close_pam IsShut view call report
  close-IsShut w (handle, balanced, same) = (((deleted.calls, refl)), refl, even.0, even.1)
    where
      closing : Worker
      closing =
          if reached session_opened w.state
          then report logout (call close_session w)
          else report (login_failure status) w

      deleted : Worker
      deleted =
          if reached accredited w.state then call (setcred delete_cred success) closing else closing

      closing-IsEven : IsEven closing
      closing-IsEven =
          if-both IsEven (reached session_opened w.state) _ _
            (λ e. (ground (arith, balanced, session_is_open w.state, e), same))
            (λ e. (ground (arith, balanced, session_is_open w.state, e), same))

      even : IsEven deleted
      even =
          if-both IsEven (reached accredited w.state) _ _ (λ _. closing-IsEven)
            (λ _. closing-IsEven)

  shut-Follows : (v : View) → IsShut v → FollowsFrom from (record v { at = closed })
  unfolding IsShut stage advance has_handle
  shut-Follows v ((cs, e), handle, even, same) =
      ((ap (stage v.excused) e, handle, omega (arith, even)), same)

  leave-view : (host : WorkerHost) (w : Worker) → view (leave_vt host w) ≡ view w
  unfolding leave_vt view jump_to_vt
  leave-view host w =
      if-view
        (host.user_display_server
          && (on_seat0 w.display_seat_id && not (w.session_vt == host.initial_vt)))
        _ _ (view w) refl refl

  -- From a worker that PAM can be ended for, or that PAM is not in use for.
  pub uninitialize-Follows :
      (host : WorkerHost) (w : Worker)
      → (w.pam_handle ≡ true → CanClose from (view w))
      → (w.pam_handle ≡ false → FollowsFrom from (view w))
      → Holds (λ x. FollowsFrom from (view x)) (uninitialize_pam host status w)
  unfolding uninitialize_pam
  uninitialize-Follows host w open_pam no_pam =
      if-Holds (λ x. FollowsFrom from (view x)) (not w.pam_handle) _ _
        (λ e. no_pam (ground (arith, e)))
        (λ e.
          bind-Holds (λ r. view r.0 ≡ view w) (λ x. FollowsFrom from (view x))
            (get_username host.pam_user w) _ (get_username-Leaves host.pam_user w)
            (λ r h. ended r.0 (subst (CanClose from) (sym h) (open_pam (ground (arith, e))))))
    where
      ended :
          (x : Worker)
          → CanClose from (view x)
          → FollowsFrom from (
              view (
                set_state state_none
                  (record (leave_vt host (close_pam status x)) { session_vt = 0 })))
      ended x h =
          subst (FollowsFrom from)
            (sym (
              set_state-view state_none
                (record (leave_vt host (close_pam status x)) { session_vt = 0 })))
            (unfold view stage_of in
              subst (λ v. FollowsFrom from (record v { at = closed }))
                (sym (leave-view host (close_pam status x)))
                (shut-Follows (view (close_pam status x)) (close-IsShut x h)))

  -- The end of a step that failed.
  pub failed-Follows :
      (host : WorkerHost) (w : Worker) (failure : Failure)
      → (w.pam_handle ≡ true → CanClose from (view w))
      → (w.pam_handle ≡ false → FollowsFrom from (view w))
      → Holds (λ r. FollowsFrom from (view r.0)) (finish host status w failure)
  unfolding finish
  failed-Follows host w failure open_pam no_pam =
      bind-Holds (λ x. FollowsFrom from (view x)) (λ r. FollowsFrom from (view r.0))
        (uninitialize_pam host status w) _ (uninitialize-Follows host w open_pam no_pam) (λ x k. k)

  pub finish-Follows :
      (host : WorkerHost) (w : Worker) (failure : Failure)
      → CanClose from (view w)
      → Holds (λ r. FollowsFrom from (view r.0)) (finish host status w failure)
  finish-Follows host w failure h =
      failed-Follows host w failure (λ _. h)
        (λ e.
          let in_use : w.pam_handle ≡ true = unfold view in h.0 in
          absurd (ground (arith, e, in_use)))
