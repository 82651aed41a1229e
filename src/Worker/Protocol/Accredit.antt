-- ===== src/Worker/Protocol/Accredit.antt =====
-- The user's credentials follow the protocol, whatever they come to
-- (daemon/scdm-session-worker.c).
use scdm.Prelude.{
  ◌+◌, ◌≡◌, ◌∙◌, refl, ap, sym, subst, Bool, true, false, not, Option, none, some, ◌∷◌, arith,
  if◌then◌else◌, count, Holds, bind-Holds, if-Holds, Bytes, is_some, codes,
}
use scdm.Worker.Login.{
  excuse, after_setcred, set_user_environment, change_user, set_credentials, accredit_entry,
  accredit_name, accredit_user,
}
use scdm.Worker.Pam.{is_success}
use scdm.Worker.Conversation.{run_pam}
use scdm.Worker.Protocol.Close.{finish-Follows, if-both}
use scdm.Worker.Protocol.Login.{AtStage, called-CanClose, is_success_sound}
use scdm.Worker.Protocol.Quiet.{get_username-Leaves, set_state-view}
use scdm.Worker.Protocol.Talk.{run_pam-Leaves}
use scdm.Worker.Protocol.{
  View, view, stage, stage_of, allowed, credited, advance, on_setcred, FollowsFrom, has_handle,
  open_sessions, follows-CanClose, is_logout,
}
use scdm.Worker.State.{call, report, get_username, set_state, set_environment_variable}
use scdm.Worker.Types.{
  accredited, PamCode, success, authinfo_unavail, system_err, user_unknown, setcred, CredFlags,
  user_accredited, Passwd, Worker, WorkerHost,
}

-- The user's environment is set by calls of PAM only.
environment-AtStage :
    (from : View) (host : WorkerHost) (name : Bytes) (entry : Passwd) (w : Worker)
    → AtStage from allowed (view w)
    → AtStage from allowed (view (set_user_environment host name entry w))
unfolding set_user_environment set_environment_variable view call stage advance
environment-AtStage from host name entry w h =
    if-both (λ x. AtStage from allowed (view x)) (is_some (host.pam_getenv (codes "PATH"))) _ _
      (λ _. h) (λ _. h)

credited_by_pam :
    (b : Bool) (code : PamCode)
    → (if b then success else code) ≡ success
    → on_setcred b code allowed ≡ credited
unfolding on_setcred
credited_by_pam true code e = refl
credited_by_pam false success e = refl
credited_by_pam false _ e = cc

module _ (from : View) (host : WorkerHost) where
  -- The report and the new state, if the call or the excuse gave the credentials.
  after_setcred-Follows :
      (flags : CredFlags) (code : PamCode) (w : Worker)
      → AtStage from allowed (view w)
      → Holds
          (λ r. FollowsFrom from (view r.0))
          (after_setcred host (excuse w code) (call (setcred flags code) w))
  unfolding after_setcred excuse
  after_setcred-Follows flags code w (h, e) =
      if-Holds (λ r. FollowsFrom from (view r.0)) (not (is_success result)) _ _
        (λ _.
          finish-Follows from result host _ _
            (called-CanClose from allowed (setcred flags code) w h e (unfold has_handle in refl)))
        (λ q.
          bind-Holds (λ r. view r.0 ≡ view (call (setcred flags code) w))
            (λ r. FollowsFrom from (view r.0))
            (get_username host.pam_user (call (setcred flags code) w)) _
            (get_username-Leaves host.pam_user (call (setcred flags code) w))
            (λ r k. reported r.0 k (is_success_sound result (ground (arith, q)))))
    where
      result : PamCode
      result = if w.is_reauth_session then success else code

      reported :
          (y : Worker)
          → view y ≡ view (call (setcred flags code) w)
          → result ≡ success
          → FollowsFrom from (view (set_state accredited (report user_accredited y)))
      reported y k q =
          subst (FollowsFrom from) (sym (set_state-view accredited (report user_accredited y))) (
            unfold view report stage_of in
            subst
              (λ v.
                FollowsFrom from (record v { at = credited; audit = user_accredited ∷ v.audit }))
              (sym k)
              (unfold call stage advance has_handle in
                (
                  (
                    ap (on_setcred w.is_reauth_session code) (h.0.0 ∙ e)
                        ∙ credited_by_pam w.is_reauth_session code q,
                    h.0.1 ∙ ap has_handle e,
                    h.0.2 ∙ ap (λ t. count is_logout w.audit + open_sessions t) e,
                  ),
                  h.1,
                )))

  set_credentials-Follows :
      (w : Worker) (changed : Bool)
      → AtStage from allowed (view w)
      → Holds (λ r. FollowsFrom from (view r.0)) (set_credentials host (w, changed))
  unfolding set_credentials
  set_credentials-Follows w false (h, e) =
      finish-Follows from system_err host w _
        (follows-CanClose from (view w) allowed (view w).calls h e (unfold has_handle in refl))
  set_credentials-Follows w true h =
      bind-Holds (λ r. view r.0 ≡ view w) (λ r. FollowsFrom from (view r.0))
        (run_pam host host.pam_setcred w) _ (run_pam-Leaves host host.pam_setcred w)
        (λ r e.
          after_setcred-Follows r.0.cred_flags r.1 r.0 (subst (AtStage from allowed) (sym e) h))

  accredit_entry-Follows :
      (name : Bytes) (found : Option Passwd) (w : Worker)
      → AtStage from allowed (view w)
      → Holds (λ r. FollowsFrom from (view r.0)) (accredit_entry host name found w)
  unfolding accredit_entry change_user view
  accredit_entry-Follows name none w (h, e) =
      finish-Follows from authinfo_unavail host w _
        (follows-CanClose from (view w) allowed (view w).calls h e (unfold has_handle in refl))
  accredit_entry-Follows name (some entry) w h =
      set_credentials-Follows
        (change_user host name entry (set_user_environment host name entry w)).0
        (change_user host name entry (set_user_environment host name entry w)).1
        (environment-AtStage from host name entry w h)

  accredit_name-Follows :
      (name : Option Bytes) (w : Worker)
      → AtStage from allowed (view w)
      → Holds (λ r. FollowsFrom from (view r.0)) (accredit_name host name w)
  unfolding accredit_name
  accredit_name-Follows none w (h, e) =
      finish-Follows from user_unknown host w _
        (follows-CanClose from (view w) allowed (view w).calls h e (unfold has_handle in refl))
  accredit_name-Follows (some name) w h = accredit_entry-Follows name (host.getpwnam name) w h

  pub accredit-Follows :
      (w : Worker)
      → AtStage from allowed (view w)
      → Holds (λ r. FollowsFrom from (view r.0)) (accredit_user host w)
  unfolding accredit_user
  accredit-Follows w h = accredit_name-Follows w.username w h
