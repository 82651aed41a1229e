-- ===== src/Worker/Protocol/Login.antt =====
-- The steps of a login follow the protocol, whatever they come to (daemon/scdm-session-worker.c).
use scdm.Prelude.{◌≡◌, refl, sym, subst, Bool, true, ◌∷◌, Holds, bind-Holds}
use scdm.Worker.Login.{after_authenticate, authenticate_user, hide_unknown}
use scdm.Worker.Pam.{is_success}
use scdm.Worker.Conversation.{run_pam}
use scdm.Worker.Protocol.Close.{finish-Follows}
use scdm.Worker.Protocol.Quiet.{set_state-view}
use scdm.Worker.Protocol.Talk.{run_pam-Leaves}
use scdm.Worker.Protocol.{
  View, view, stage_of, begun, advance, Stage, FollowsFrom, CanClose, has_handle, open_sessions,
  advance-Follows, follows-CanClose,
}
use scdm.Worker.State.{call, set_state}
use scdm.Worker.Types.{
  State, authenticated, PamCode, success, authinfo_unavail, PamCall, authenticate, Worker,
  WorkerHost,
}

pub is_success_sound : (code : PamCode) → is_success code ≡ true → code ≡ success
unfolding is_success
is_success_sound success e = refl
is_success_sound _ e = cc

-- A worker that a call is logged for, and whose state is the next.
pub moved-Follows :
    (from : View) (s : Stage) (t : State) (c : PamCall) (w : Worker)
    → FollowsFrom from (view w)
    → (view w).at ≡ s
    → advance w.is_reauth_session c s ≡ stage_of t
    → has_handle s ≡ has_handle (stage_of t)
    → open_sessions s ≡ open_sessions (stage_of t)
    → FollowsFrom from (view (set_state t (call c w)))
unfolding view call
moved-Follows from s t c w h e next handles opens =
    subst (FollowsFrom from) (sym (set_state-view t (call c w)))
      (advance-Follows from (view w) c s (stage_of t) h e next handles opens)

-- A worker that a call is logged for can be brought to an end.
pub called-CanClose :
    (from : View) (s : Stage) (c : PamCall) (w : Worker)
    → FollowsFrom from (view w)
    → (view w).at ≡ s
    → has_handle s ≡ true
    → CanClose from (view (call c w))
unfolding view call
called-CanClose from s c w h e in_use = follows-CanClose from (view w) s (c ∷ w.calls) h e in_use

-- What holds of a worker and its stage holds of one with the same view.
abbrev pub AtStage : View → Stage → View → Type 0
AtStage from s v = FollowsFrom from v × (v.at ≡ s)

module _ (from : View) (host : WorkerHost) where
  after_authenticate-Follows :
      (flag : Bool) (code : PamCode) (w : Worker)
      → AtStage from begun (view w)
      → Holds
          (λ r. FollowsFrom from (view r.0))
          (after_authenticate host code (call (authenticate flag code) w))
  unfolding after_authenticate advance has_handle stage_of
  after_authenticate-Follows flag success w (h, e) =
      moved-Follows from begun authenticated (authenticate flag success) w h e refl refl refl
  after_authenticate-Follows flag authinfo_unavail w (h, e) =
      finish-Follows from authinfo_unavail host _ _
        (called-CanClose from begun (authenticate flag authinfo_unavail) w h e refl)
  after_authenticate-Follows flag code w (h, e) =
      finish-Follows from (hide_unknown code) host _ _
        (called-CanClose from begun (authenticate flag code) w h e refl)

  pub authenticate-Follows :
      (w : Worker)
      → AtStage from begun (view w)
      → Holds (λ r. FollowsFrom from (view r.0)) (authenticate_user host w)
  unfolding authenticate_user
  authenticate-Follows w h =
      bind-Holds (λ r. view r.0 ≡ view w) (λ r. FollowsFrom from (view r.0))
        (run_pam host (host.pam_authenticate w.password_is_required) w) _
        (run_pam-Leaves host (host.pam_authenticate w.password_is_required) w)
        (λ r e.
          after_authenticate-Follows w.password_is_required r.1 r.0
            (subst (AtStage from begun) (sym e) h))
