-- ===== src/Worker/Protocol/Authorize.antt =====
-- Whether the user may log in, and the user's credentials, follow the protocol whatever they come to
-- (daemon/scdm-session-worker.c).
use scdm.Prelude.{
  ◌+◌, ◌≡◌, ◌∙◌, refl, ap, sym, subst, Bool, true, false, not, ◌&&◌, List, ◌∷◌, arith,
  if◌then◌else◌, count, Holds, bind-Holds, if-Holds,
}
use scdm.Worker.Login.{
  change_password, needs_new_password, after_acct_mgmt, excuse, after_authorize, authorize_user,
}
use scdm.Worker.Pam.{is_success}
use scdm.Worker.Conversation.{run_pam}
use scdm.Worker.Protocol.Close.{finish-Follows}
use scdm.Worker.Protocol.Login.{AtStage, called-CanClose, is_success_sound}
use scdm.Worker.Protocol.Quiet.{get_username-Leaves, set_state-view}
use scdm.Worker.Protocol.Talk.{run_pam-Leaves}
use scdm.Worker.Protocol.{
  View, view, stage, stage_of, identified, allowed, advance, after_acct, on_chauthtok, on_acct,
  FollowsFrom, CanClose, has_handle, open_sessions, is_login, is_logout,
}
use scdm.Worker.State.{call, get_username}
use scdm.Worker.Types.{
  authorized, PamCode, success, new_authtok_reqd, PamCall, acct_mgmt, chauthtok, Audit,
  password_changed, password_change_failure, Worker, WorkerHost,
}

-- The account's state, or an excuse, lets the user in exactly if the calls say so.
allowed_by_account :
    (b : Bool) (code : PamCode)
    → (if b then success else code) ≡ success
    → after_acct b code ≡ allowed
unfolding after_acct
allowed_by_account true code e = refl
allowed_by_account false success e = refl
allowed_by_account false _ e = cc

allowed_by_password :
    (b : Bool) (code : PamCode)
    → (if b then success else code) ≡ success
    → on_chauthtok code (after_acct b new_authtok_reqd) ≡ allowed
unfolding after_acct on_chauthtok
allowed_by_password true success e = refl
allowed_by_password true _ e = refl
allowed_by_password false success e = refl
allowed_by_password false _ e = cc

needs_sound : (code : PamCode) → needs_new_password code ≡ true → code ≡ new_authtok_reqd
unfolding needs_new_password
needs_sound new_authtok_reqd e = refl
needs_sound _ e = cc

-- After the account was looked at: the step can fail in order, and a result that lets the user in is
-- one of the calls.
abbrev Decided : View → View → PamCode → Type 0
Decided from v code =
    CanClose from v
    × ((if v.excused then success else code) ≡ success → stage v.excused v.calls ≡ allowed)
    × (v.at ≡ identified)

-- Calls of PAM and reports other than logins leave what a step needs to fail in order.
recorded-CanClose :
    (from v : View) (e : Audit) (cs : List PamCall)
    → is_login e ≡ false
    → is_logout e ≡ false
    → CanClose from v
    → CanClose from (record v { calls = cs; audit = e ∷ v.audit })
recorded-CanClose from v e cs in_ out (handle, even, same) =
    (handle, ground (arith, in_, out, even), same)

password_event : Bool → Audit
password_event b = if b then password_changed else password_change_failure

event_is_quiet :
    (b : Bool) → (is_login (password_event b) ≡ false) × (is_logout (password_event b) ≡ false)
unfolding password_event
event_is_quiet true = (refl, refl)
event_is_quiet false = (refl, refl)

module _ (from : View) (host : WorkerHost) where
  change_password-Decided :
      (w : Worker)
      → CanClose from (view w)
      → (view w).at ≡ identified
      → stage w.is_reauth_session w.calls ≡ after_acct w.is_reauth_session new_authtok_reqd
      → Holds (λ r. Decided from (view r.0) r.1) (change_password host w)
  unfolding change_password view call
  change_password-Decided w closes at_ known =
      bind-Holds (λ r. view r.0 ≡ view w) (λ r. Decided from (view r.0) r.1)
        (run_pam host host.pam_chauthtok w) _ (run_pam-Leaves host host.pam_chauthtok w)
        (λ r e.
          bind-Holds (λ s. view s.0 ≡ view (call (chauthtok r.1) r.0))
            (λ s. Decided from (view s.0) s.1)
            (get_username host.pam_user (call (chauthtok r.1) r.0)) _
            (get_username-Leaves host.pam_user (call (chauthtok r.1) r.0))
            (λ s k. told r.1 r.0 s.0 e k))
    where
      event : PamCode → Audit
      event code = if is_success code then password_changed else password_change_failure

      told :
          (code : PamCode) (x y : Worker)
          → view x ≡ view w
          → view y ≡ view (call (chauthtok code) x)
          → Decided from (record (view y) { audit = event code ∷ y.audit }) code
      told code x y e k =
          subst (λ v. Decided from (record v { audit = event code ∷ v.audit }) code)
            (sym (k ∙ ap {A = View} (λ v. record v { calls = chauthtok code ∷ v.calls }) e))
            (
              recorded-CanClose from (view w) (event code) (chauthtok code ∷ w.calls)
                  (unfold password_event in (event_is_quiet (is_success code)).0)
                  (unfold password_event in (event_is_quiet (is_success code)).1) closes,
              (λ q.
                  unfold stage advance in
                  ap (on_chauthtok code) known ∙ allowed_by_password w.is_reauth_session code q),
              at_,
            )

  after_acct_mgmt-Decided :
      (flag : Bool) (code : PamCode) (w : Worker)
      → AtStage from identified (view w)
      → Holds
          (λ r. Decided from (view r.0) r.1)
          (after_acct_mgmt host code (call (acct_mgmt flag code) w))
  unfolding after_acct_mgmt view call
  after_acct_mgmt-Decided flag code w (h, e) =
      if-Holds (λ r. Decided from (view r.0) r.1)
        (needs_new_password code && not w.is_program_session) _ _
        (λ q. change_password-Decided asked closes e (
          reached_acct
          ∙ ap (after_acct w.is_reauth_session) (needs_sound code (ground (arith, q)))))
        (λ _. (closes, (λ q. reached_acct ∙ allowed_by_account w.is_reauth_session code q), e))
    where
      asked : Worker
      asked = call (acct_mgmt flag code) w

      closes : CanClose from (view asked)
      closes =
          called-CanClose from identified (acct_mgmt flag code) w h e (unfold has_handle in refl)

      reached_acct :
          stage w.is_reauth_session (acct_mgmt flag code ∷ w.calls)
          ≡ after_acct w.is_reauth_session code
      reached_acct =
          unfold stage advance on_acct in ap (on_acct w.is_reauth_session code) (h.0.0 ∙ e)

  after_authorize-Follows :
      (code : PamCode) (w : Worker)
      → Decided from (view w) code
      → Holds (λ r. FollowsFrom from (view r.0)) (after_authorize host (excuse w code) w)
  unfolding after_authorize excuse view
  after_authorize-Follows code w (closes, lets_in, at_) =
      if-Holds (λ r. FollowsFrom from (view r.0)) (is_success result) _ _
        (λ q. subst (FollowsFrom from) (sym (set_state-view authorized w)) (
          unfold stage_of has_handle in
          (
            (
              lets_in (is_success_sound result q),
              closes.0,
              closes.1 ∙ ap (λ t. count is_logout w.audit + open_sessions t) at_,
            ),
            closes.2,
          )))
        (λ _. finish-Follows from result host w _ closes)
    where
      result : PamCode
      result = if w.is_reauth_session then success else code

  pub authorize-Follows :
      (w : Worker)
      → AtStage from identified (view w)
      → Holds (λ r. FollowsFrom from (view r.0)) (authorize_user host w)
  unfolding authorize_user
  authorize-Follows w h =
      bind-Holds (λ r. view r.0 ≡ view w) (λ r. FollowsFrom from (view r.0))
        (run_pam host (host.pam_acct_mgmt flag) w) _
        (run_pam-Leaves host (host.pam_acct_mgmt flag) w)
        (λ r e.
          bind-Holds (λ s. Decided from (view s.0) s.1) (λ s. FollowsFrom from (view s.0))
            (after_acct_mgmt host r.1 (call (acct_mgmt flag r.1) r.0)) _
            (after_acct_mgmt-Decided flag r.1 r.0 (subst (AtStage from identified) (sym e) h))
            (λ s k. after_authorize-Follows s.1 s.0 k))
    where
      flag : Bool
      flag = w.password_is_required
