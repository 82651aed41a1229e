-- ===== src/Worker/Protocol/Start.antt =====
-- The start of PAM follows the protocol, whatever it comes to (daemon/scdm-session-worker.c).
use scdm.Prelude.{
  ◌≡◌, ◌∙◌, refl, ap, sym, subst, true, false, not, Option, none, some, List, ◌∷◌, arith,
  if◌then◌else◌, count, codes, bytes_eq, Holds, if-Holds, Bytes,
}
use scdm.Worker.Pam.{
  is_success, begin_pam, advertise_if_some, set_up_items, set_up_service, set_class,
  require_password, tty_name, set_seat, set_class, require_password, tty_name, set_if_nonempty,
  set_pam_item, initialize_pam, nonempty, prompt_of,
}
use scdm.Worker.Protocol.Close.{finish-Follows, failed-Follows, if-both}
use scdm.Worker.Protocol.Login.{AtStage, is_success_sound}
use scdm.Worker.Protocol.Quiet.{set_state-view, if-view}
use scdm.Worker.Protocol.{
  View, view, stage, stage_of, closed, begun, advance, on_start, FollowsFrom, CanClose, has_handle,
  open_sessions, SameLedger, is_login, is_logout,
}
use scdm.Worker.State.{call, set_state, set_environment_variable}
use scdm.Worker.Types.{
  setup_complete, PamCode, success, PamItem, user_prompt, rhost, tty, set_item, Worker, WorkerHost,
}

-- PAM has started, and the worker's state does not say so.
abbrev Starting : View → View → Type 0
Starting from v =
    (v.at ≡ closed)
    × (v.handle ≡ true)
    × (stage v.excused v.calls ≡ begun)
    × (count is_login v.audit ≡ count is_logout v.audit)
    × SameLedger from v

on_start_failed : (code : PamCode) → is_success code ≡ false → on_start code closed ≡ closed
unfolding on_start is_success
on_start_failed success e = cc
on_start_failed _ e = refl

module _ (from : View) (host : WorkerHost) where
  Starting-CanClose : (v : View) → Starting from v → CanClose from v
  Starting-CanClose v (at_, handle, known, even, same) =
      (handle, omega (arith, even, ap open_sessions at_), same)

  -- An item is set by a call that the stage does not depend on.
  item-Starting :
      (item : PamItem) (value : Option Bytes) (w : Worker)
      → Starting from (view w)
      → Starting from (view (set_if_nonempty host item value w).0)
  unfolding set_if_nonempty set_pam_item call view stage advance
  item-Starting item none w h = h
  item-Starting item (some value) w h = h

  seat-Starting :
      (seat : Option Bytes) (w : Worker)
      → Starting from (view w)
      → Starting from (view (set_seat seat w))
  unfolding set_seat set_environment_variable call view stage advance
  seat-Starting none w h = h
  seat-Starting (some seat) w h = h

  class-Starting :
      (service : Bytes) (w : Worker)
      → Starting from (view w)
      → Starting from (view (set_class service w))
  unfolding set_class set_environment_variable call view stage advance
  class-Starting service w h =
      if-both (λ x. Starting from (view x)) (bytes_eq service (codes "scdm-launch-environment")) _ _
        (λ _. h) (λ _. h)

  password-Follows :
      (w : Worker) → FollowsFrom from (view w) → FollowsFrom from (view (require_password w))
  unfolding require_password view
  password-Follows w h =
      if-both (λ x. FollowsFrom from (view x)) w.display_is_local _ _ (λ _. h) (λ _. h)

  -- The terminal is set as the state says that PAM is set up.
  tty-Follows :
      (name : Bytes) (w : Worker)
      → Starting from (view w)
      → FollowsFrom from (view (set_pam_item host tty name (set_state setup_complete w)))
  unfolding set_pam_item call view stage advance
  tty-Follows name w h =
      subst
        (λ v.
          FollowsFrom from
            (record v { calls = set_item tty name (host.pam_set_item tty) ∷ v.calls }))
        (sym (set_state-view setup_complete w))
        (unfold stage_of has_handle in ((h.2, h.1, omega (arith, h.3)), h.4))

  -- From the seat on nothing fails.
  service-Follows :
      (service : Option Bytes) (w : Worker)
      → Starting from (view w)
      → Holds (λ r. FollowsFrom from (view r.0)) (set_up_service host service w)
  unfolding set_up_service
  service-Follows none w h = tt
  service-Follows (some service) w h = password-Follows _ (
      tty-Follows (tty_name host.initial_vt) _
        (class-Starting service _ (seat-Starting (nonempty w.display_seat_id) w h)))

  items-Follows :
      (w : Worker)
      → Starting from (view w)
      → Holds (λ r. FollowsFrom from (view r.0)) (set_up_items host w)
  unfolding set_up_items
  items-Follows w h =
      if-Holds (λ r. FollowsFrom from (view r.0)) (not (is_success first.1)) _ _
        (λ _.
          finish-Follows from first.1 host first.0 _ (Starting-CanClose (view first.0) prompted))
        (λ _.
          if-Holds (λ r. FollowsFrom from (view r.0)) (not (is_success second.1)) _ _
            (λ _.
              finish-Follows from second.1 host second.0 _
                (Starting-CanClose (view second.0) named))
            (λ _. service-Follows second.0.service second.0 named))
    where
      first : Worker × PamCode
      first = set_if_nonempty host user_prompt (prompt_of w.username) w

      second : Worker × PamCode
      second = set_if_nonempty host rhost (nonempty first.0.hostname) first.0

      prompted : Starting from (view first.0)
      prompted = item-Starting user_prompt (prompt_of w.username) w h

      named : Starting from (view second.0)
      named = item-Starting rhost (nonempty first.0.hostname) first.0 prompted

  -- The environment variable of the extensions is none of PAM's.
  advertise-view :
      (extensions : Option (List Bytes)) (w : Worker)
      → view (advertise_if_some host extensions w) ≡ view w
  unfolding advertise_if_some view
  advertise-view none w = refl
  advertise-view (some names) w = if-view host.supports_pam_extensions _ _ (view w) refl refl

  begun-Starting :
      (w : Worker)
      → AtStage from closed (view w)
      → is_success host.pam_start ≡ true
      → Starting from (view (begin_pam host w))
  unfolding begin_pam call view stage advance
  begun-Starting w (h, e) q =
      let code = is_success_sound host.pam_start q in
      (
        e,
        ap (λ b. if b then true else host.failed_start_leaves_handle) q,
        ap (λ c. on_start c (stage w.is_reauth_session w.calls)) code
            ∙ (ap (on_start success) (h.0.0 ∙ e) ∙ started),
        omega (arith, h.0.2, ap open_sessions e),
        h.1,
      )
    where
      started : on_start success closed ≡ begun
      started = unfold on_start in refl

  -- A start that failed: PAM is ended if there is a handle.
  failed-CanClose :
      (w : Worker)
      → AtStage from closed (view w)
      → is_success host.pam_start ≡ false
      → (begin_pam host w).pam_handle ≡ true
      → CanClose from (view (begin_pam host w))
  unfolding begin_pam call view
  failed-CanClose w (h, e) q handle = (handle, h.0.2, h.1)

  failed_none :
      (w : Worker)
      → AtStage from closed (view w)
      → is_success host.pam_start ≡ false
      → (begin_pam host w).pam_handle ≡ false
      → FollowsFrom from (view (begin_pam host w))
  unfolding begin_pam call view stage advance
  failed_none w (h, e) q handle = (
    (
      ap (on_start host.pam_start) (h.0.0 ∙ e) ∙ (on_start_failed host.pam_start q ∙ sym e),
      handle ∙ (sym in_use ∙ ap has_handle (sym e)),
      h.0.2,
    ),
    h.1,
  )
    where
      in_use : has_handle closed ≡ false
      in_use = unfold has_handle in refl

  pub initialize-Follows :
      (w : Worker)
      → AtStage from closed (view w)
      → Holds (λ r. FollowsFrom from (view r.0)) (initialize_pam host w)
  unfolding initialize_pam
  initialize-Follows w h =
      if-Holds (λ r. FollowsFrom from (view r.0)) w.pam_handle _ _ (λ _. tt)
        (λ _.
          if-Holds (λ r. FollowsFrom from (view r.0)) (is_success host.pam_start) _ _
            (λ q. items-Follows _ (begun-Starting ready ready-AtStage q))
            (λ q.
              failed-Follows from host.pam_start host (begin_pam host ready) _
                (failed-CanClose ready ready-AtStage q) (failed_none ready ready-AtStage q)))
    where
      ready : Worker
      ready = advertise_if_some host w.extensions w

      ready-AtStage : AtStage from closed (view ready)
      ready-AtStage = subst (AtStage from closed) (sym (advertise-view w.extensions w)) h
