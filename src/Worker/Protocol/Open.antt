-- ===== src/Worker/Protocol/Open.antt =====
-- The session with PAM and its program follow the protocol, whatever they come to
-- (daemon/scdm-session-worker.c).
use scdm.Prelude.{
  ℕ, ◌+◌, ◌≡◌, ◌∙◌, refl, ap, sym, subst, Bool, true, false, not, ◌&&◌, Option, none, some, List,
  ◌∷◌, arith, if◌then◌else◌, count, codes, Holds, bind-Holds, if-Holds, weaken-Holds, Bytes,
}
use scdm.Worker.Conversation.{run_pam}
use scdm.Worker.Open.{
  set_up_vt, keep_session_id, opened, open_with_vt, open_user_session, close_tty, is_new_vt,
  script_runs, forked, start_session,
}
use scdm.Worker.Pam.{Failure, is_success, finish, jump_to_vt, on_seat0}
use scdm.Worker.Protocol.Close.{finish-Follows, if-both}
use scdm.Worker.Protocol.Login.{AtStage, called-CanClose, is_success_sound}
use scdm.Worker.Protocol.Quiet.{get_username-Leaves, set_state-view}
use scdm.Worker.Protocol.Terminal.{Ready, set_up_vt-Ready}
use scdm.Worker.Protocol.Talk.{run_pam-Leaves}
use scdm.Worker.Protocol.{
  View, view, FollowsBut, stage, stage_of, credited, advance, Stage, on_open, FollowsFrom,
  has_handle, open_sessions, follows-CanClose, is_logout,
}
use scdm.Worker.State.{call, report, get_username, set_state, state_eq}
use scdm.Worker.Types.{
  account_details_saved, session_opened, session_started, PamCode, success, open_session, login,
  abort, Spawn, opening_session, Worker, WorkerHost,
}

opened_by_pam : on_open success credited ≡ Stage.opened
unfolding on_open
opened_by_pam = refl

module _ (from : View) (host : WorkerHost) where
  keep-view : (id : Option Bytes) (w : Worker) → view (keep_session_id id w) ≡ view w
  unfolding keep_session_id view
  keep-view none w = refl
  keep-view (some id) w = refl

  -- The session is open with PAM, and its login is reported.
  opened-Follows :
      (flag : Bool) (w : Worker)
      → AtStage from credited (view w)
      → Holds (λ r. FollowsFrom from (view r.0)) (opened host (call (open_session flag success) w))
  unfolding opened
  opened-Follows flag w (h, e) =
      bind-Holds (λ r. view r.0 ≡ view kept) (λ r. FollowsFrom from (view r.0))
        (get_username host.pam_user kept) _ (get_username-Leaves host.pam_user kept)
        (λ r k. reported r.0 (
          k
          ∙ (keep-view (host.pam_getenv (codes "XDG_SESSION_ID")) moved
              ∙ set_state-view session_opened (call (open_session flag success) w))))
    where
      moved : Worker
      moved = set_state session_opened (call (open_session flag success) w)

      kept : Worker
      kept = keep_session_id (host.pam_getenv (codes "XDG_SESSION_ID")) moved

      reported :
          (y : Worker)
          → view y
            ≡ record (view (call (open_session flag success) w)) { at = stage_of session_opened }
          → FollowsFrom from (view (report login y))
      reported y k =
          unfold report view in
          subst (λ v. FollowsFrom from (record v { audit = login ∷ v.audit })) (sym k)
            (unfold call stage advance stage_of has_handle in
              (
                (
                  ap (on_open success) (h.0.0 ∙ e) ∙ opened_by_pam,
                  h.0.1 ∙ ap has_handle e,
                  omega (arith, h.0.2, ap open_sessions e),
                ),
                h.1,
              ))

  open_with_vt-Follows :
      (w : Worker) (ready : Bool)
      → AtStage from credited (view w)
      → Holds (λ r. FollowsFrom from (view r.0)) (open_with_vt host (w, ready))
  unfolding open_with_vt
  open_with_vt-Follows w false h = h.0
  open_with_vt-Follows w true h =
      bind-Holds (λ r. view r.0 ≡ view w) (λ r. FollowsFrom from (view r.0))
        (run_pam host host.pam_open_session w) _ (run_pam-Leaves host host.pam_open_session w)
        (λ r e. by_code r.1 r.0 (subst (AtStage from credited) (sym e) h))
    where
      by_code :
          (code : PamCode) (x : Worker)
          → AtStage from credited (view x)
          → Holds
              (λ r. FollowsFrom from (view r.0))
              (if is_success code
                then opened host (call (open_session x.is_program_session code) x)
                else finish host code
                    (call (open_session x.is_program_session code) x)
                    (some (opening_session, host.pam_strerror code)))
      by_code code x k =
          if-Holds (λ r. FollowsFrom from (view r.0)) (is_success code) _ _
            (λ q.
              subst
                (λ c.
                  Holds (λ r. FollowsFrom from (view r.0))
                    (opened host (call (open_session x.is_program_session c) x)))
                (sym (is_success_sound code q)) (opened-Follows x.is_program_session x k))
            (λ q. finish-Follows from code host _ _ (
              called-CanClose from credited (open_session x.is_program_session code) x k.0 k.1
                (unfold has_handle in refl)))

  pub open-Follows :
      (w : Worker)
      → AtStage from credited (view w)
      → Holds (λ r. FollowsFrom from (view r.0)) (open_user_session host w)
  unfolding open_user_session
  open-Follows w h =
      if-Holds (λ r. FollowsFrom from (view r.0))
        (state_eq w.state account_details_saved && host.is_root) _ none
        (λ _.
          bind-Holds (Ready from host) (λ r. FollowsFrom from (view r.0))
            (set_up_vt host w.display_mode w) _ (set_up_vt-Ready from host w.display_mode w h)
            (λ r k. open_with_vt-Follows r.0 r.1 k))
        (λ _. tt)

  started-FollowsBut :
      (watched : Bool) (programs : List Spawn) (w : Worker)
      → AtStage from Stage.opened (view w)
      → FollowsBut from (
          view
            (record (set_state session_started w) { child_watched = watched; spawned = programs }))
  started-FollowsBut watched programs w (h, e) =
      unfold view in
      subst (λ v. FollowsBut from (record v { spawned = programs }))
        (sym (set_state-view session_started w))
        (unfold stage_of in ((h.0.0 ∙ e, h.0.1 ∙ ap has_handle e, h.0.2 ∙ opens e), h.1.0, h.1.1))
    where
      opens :
          (view w).at ≡ Stage.opened
          → count is_logout (view w).audit + open_sessions (view w).at
            ≡ count is_logout (view w).audit + 1
      opens q = omega (arith, ap open_sessions q)

  -- The program: what it adds to is the log of started programs.
  forked-Follows :
      (pid : Option ℕ) (w : Worker)
      → AtStage from Stage.opened (view w)
      → Holds (λ r. FollowsBut from (view r.0)) (forked host pid w)
  unfolding forked
  forked-Follows none w (h, e) =
      weaken-Holds (λ r. FollowsFrom from (view r.0)) (λ r. FollowsBut from (view r.0))
        (finish host abort w (some (opening_session, host.fork_error))) (λ r k. (k.0, k.1.0, k.1.1))
        (finish-Follows from abort host w _ (
          follows-CanClose from (view w) Stage.opened (view w).calls h e
            (unfold has_handle in refl)))
  forked-Follows (some pid) w (h, e) =
      started-FollowsBut _ _
        (record w { session_tty_fd = close_tty w.session_tty_fd; child_pid = some pid })
        (unfold view in (h, e))

  pub start-Follows :
      (w : Worker)
      → AtStage from Stage.opened (view w)
      → Holds (λ r. FollowsBut from (view r.0)) (start_session host w)
  unfolding start_session
  start-Follows w h =
      if-Holds (λ r. FollowsBut from (view r.0)) (not (script_runs host (codes "/PostLogin") shown))
        _ _ (λ _. aborted _)
        (λ _.
          if-Holds (λ r. FollowsBut from (view r.0))
            (not (script_runs host (codes "/PreSession") shown)) _ _ (λ _. aborted _)
            (λ _. forked-Follows host.fork shown shown-AtStage))
    where
      shown : Worker
      shown =
          if on_seat0 w.display_seat_id && is_new_vt w.display_mode
          then jump_to_vt w.session_vt w
          else w

      shown-AtStage : AtStage from Stage.opened (view shown)
      shown-AtStage =
          if-both (λ x. AtStage from Stage.opened (view x))
            (on_seat0 w.display_seat_id && is_new_vt w.display_mode) _ _
            (λ _. unfold view jump_to_vt in h) (λ _. h)

      aborted :
          (failure : Failure)
          → Holds (λ r. FollowsBut from (view r.0)) (finish host abort shown failure)
      aborted failure =
          weaken-Holds (λ r. FollowsFrom from (view r.0)) (λ r. FollowsBut from (view r.0))
            (finish host abort shown failure) (λ r k. (k.0, k.1.0, k.1.1))
            (finish-Follows from abort host shown failure (
              follows-CanClose from (view shown) Stage.opened (view shown).calls shown-AtStage.0
                shown-AtStage.1 (unfold has_handle in refl)))
