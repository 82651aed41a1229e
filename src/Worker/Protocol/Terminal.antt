-- ===== src/Worker/Protocol/Terminal.antt =====
-- The terminal of a session is set up in the same stage (daemon/scdm-session-worker.c).
use scdm.Prelude.{
  ℕ, zero, suc, Bool, true, false, not, Option, none, some, if◌then◌else◌, Holds, if-Holds, Bytes,
}
use scdm.Worker.Open.{
  set_vtnr, set_up_for_current_vt, take_vt, query_vt, with_initial_vt, set_up_for_new_vt, set_up_vt,
}
use scdm.Worker.Pam.{is_success, set_if_nonempty, set_pam_item, on_seat0, nonempty}
use scdm.Worker.Protocol.Close.{if-both}
use scdm.Worker.Protocol.Login.{AtStage}
use scdm.Worker.Protocol.{View, view, stage, credited, advance}
use scdm.Worker.State.{call, set_environment_variable}
use scdm.Worker.Types.{
  PamCode, PamItem, tty, xdisplay, xauthdata, DisplayMode, reuse_vt, new_vt, logind_managed, Worker,
  WorkerHost,
}

module _ (from : View) (host : WorkerHost) where
  item-AtStage :
      (item : PamItem) (value : Option Bytes) (w : Worker)
      → AtStage from credited (view w)
      → AtStage from credited (view (set_if_nonempty host item value w).0)
  unfolding set_if_nonempty set_pam_item call view stage advance
  item-AtStage item none w h = h
  item-AtStage item (some value) w h = h

  vtnr-AtStage :
      (vt : Option ℕ) (w : Worker)
      → AtStage from credited (view w)
      → AtStage from credited (view (set_vtnr vt w))
  unfolding set_vtnr set_environment_variable call view stage advance
  vtnr-AtStage none w h = h
  vtnr-AtStage (some vt) w h = h

  -- A worker beside a result.
  abbrev pub Ready : Worker × Bool → Type 0
  Ready r = AtStage from credited (view r.0)

  either-Ready : (b : Bool) (x y : Worker × Bool) → Ready x → Ready y → Ready (if b then x else y)
  either-Ready true x y h k = h
  either-Ready false x y h k = k

  current_vt-Ready :
      (w : Worker) → AtStage from credited (view w) → Ready (set_up_for_current_vt host w)
  unfolding set_up_for_current_vt
  current_vt-Ready w h = either-Ready (not (is_success first.1)) _ _ on_tty (
      either-Ready (not (is_success second.1)) _ _ shown (
        either-Ready (not (is_success third.1)) _ _ known (
          if-both (λ x. AtStage from credited (view x)) (on_seat0 third.0.display_seat_id) _ _
            (λ _. vtnr-AtStage host.active_vt third.0 known) (λ _. known))))
    where
      first : Worker × PamCode
      first = set_if_nonempty host tty (nonempty w.x11_display_name) w

      second : Worker × PamCode
      second = set_if_nonempty host xdisplay (nonempty first.0.x11_display_name) first.0

      third : Worker × PamCode
      third = set_if_nonempty host xauthdata (host.read_xauth second.0.x11_authority_file) second.0

      on_tty : AtStage from credited (view first.0)
      on_tty = item-AtStage tty (nonempty w.x11_display_name) w h

      shown : AtStage from credited (view second.0)
      shown = item-AtStage xdisplay (nonempty first.0.x11_display_name) first.0 on_tty

      known : AtStage from credited (view third.0)
      known = item-AtStage xauthdata (host.read_xauth second.0.x11_authority_file) second.0 shown

  take_vt-Ready :
      (fd : Option ℕ) (vt : ℕ) (w : Worker)
      → AtStage from credited (view w)
      → Holds Ready (take_vt host fd vt w)
  unfolding take_vt set_pam_item call view stage advance set_vtnr set_environment_variable
  take_vt-Ready fd zero w h = tt
  take_vt-Ready fd (suc vt) w h = h

  query_vt-Ready :
      (vt : Option ℕ) (w : Worker)
      → AtStage from credited (view w)
      → Holds Ready (query_vt host vt w)
  unfolding query_vt
  query_vt-Ready none w h = h
  query_vt-Ready (some vt) w h = take_vt-Ready (host.open_tty vt) vt w h

  initial_vt-Ready :
      (fd : Option ℕ) (w : Worker)
      → AtStage from credited (view w)
      → Holds Ready (with_initial_vt host fd w)
  unfolding with_initial_vt
  initial_vt-Ready none w h = h
  initial_vt-Ready (some fd) w h =
      if-Holds Ready w.display_is_initial _ _ (λ _. take_vt-Ready (some fd) host.initial_vt w h)
        (λ _. query_vt-Ready host.open_query w h)

  pub set_up_vt-Ready :
      (mode : DisplayMode) (w : Worker)
      → AtStage from credited (view w)
      → Holds Ready (set_up_vt host mode w)
  unfolding set_up_vt set_up_for_new_vt
  set_up_vt-Ready reuse_vt w h = current_vt-Ready w h
  set_up_vt-Ready new_vt w h = initial_vt-Ready (host.open_tty host.initial_vt) w h
  set_up_vt-Ready logind_managed w h = initial_vt-Ready (host.open_tty host.initial_vt) w h
