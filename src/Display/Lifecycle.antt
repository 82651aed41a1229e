-- ===== src/Display/Lifecycle.antt =====
-- Laws of the life cycle of a display, daemon/scdm-display.c.
use mathlib.Core.Option.{get_or}
use scdm.AccessFile.{XauthHost}
use scdm.Display.Setup.{SetupHost, is_forced, wants_initial_setup}
use scdm.Display.{
  Display, Status, unmanaged, managed, finished, failed, set_status, set_status_property, status_eq,
  queue_finish, finish, finish_idle, unmanage, self_destruct, real_prepare, add_user_authorization,
  remove_user_authorization,
}
use scdm.Prelude.{
  ◌≡◌, ◌≢◌, refl, ◌⊎◌, Bool, true, false, not, none, some, List, [], ◌∷◌, arith, if◌then◌else◌,
  Bytes, is_some, ◌&&◌, ◌||◌,
}

-- The newest entry of the log is the current status; a display starts unmanaged, with no entry.
LogMatches : Status → List Status → Type 0
LogMatches s [] = s ≡ unmanaged
LogMatches s (t ∷ ts) = s ≡ t

unfoldable pub IsLogged : Display → Type 0
unfolding LogMatches
IsLogged d = LogMatches d.status d.notified

-- The operations that change a status, and `g_object_set` of it, as other components do.
pub data Operation : Type 0 where
  prepares finishes queues_finish runs_idle unmanages self_destructs : Operation
  sets : Status → Operation

unfoldable pub run : Operation → Display → Display
run prepares d = real_prepare d
run finishes d = finish d
run queues_finish d = queue_finish d
run runs_idle d = finish_idle d
run unmanages d = unmanage d
run self_destructs d = self_destruct d
run (sets s) d = set_status_property d s

-- Whether the signal is emitted for an unchanged status too.
is_property_set : Operation → Bool
is_property_set (sets s) = true
is_property_set _ = false

-- What the log is after an operation that has led to a status.
unfoldable pub log_after : Operation → (before after : Status) → List Status → List Status
unfolding is_property_set status_eq
log_after o before after log =
    if is_property_set o || not (status_eq after before) then after ∷ log else log

run_lem :
    (o : Operation) (d : Display)
    → (run o d).notified ≡ log_after o d.status (run o d).status d.notified
unfolding run log_after set_status_property
run_lem prepares d = unfold real_prepare set_status in (ground arith)
run_lem finishes d = unfold finish set_status in (ground arith)
run_lem queues_finish d = unfold queue_finish in (ground arith)
run_lem runs_idle d = unfold finish_idle finish set_status in (ground arith)
run_lem unmanages d = unfold unmanage set_status in (ground arith)
run_lem self_destructs d = unfold self_destruct unmanage set_status queue_finish in (ground arith)
run_lem (sets s) d = refl

same_status : (s t : Status) → status_eq s t ≡ true → s ≡ t
unfolding status_eq
same_status s t e = ground (arith, e)

log_after-LogMatches :
    (o : Operation) (before after : Status) (log : List Status)
    → LogMatches before log
    → LogMatches after (log_after o before after log)
unfolding log_after
log_after-LogMatches o before after log h = go (is_property_set o) (status_eq after before) refl
  where
    go :
        (always same : Bool)
        → status_eq after before ≡ same
        → LogMatches after (if always || not same then after ∷ log else log)
    go true same e = unfold LogMatches in refl
    go false false e = unfold LogMatches in refl
    go false true e = rw (same_status after before e) h

-- Observers of `notify::status` see every change of the status: if the newest entry of the log is
-- the current status before an operation, it is so after it. An operation of the display adds one
-- entry if it changes the status, and none if it does not; setting the property from outside adds
-- one in both cases.
pub run-IsLogged :
    (o : Operation) (d : Display)
    → IsLogged d
    → IsLogged (run o d) × ((run o d).notified ≡ log_after o d.status (run o d).status d.notified)
unfolding IsLogged
run-IsLogged o d h =
    (rw (run_lem o d) (log_after-LogMatches o d.status (run o d).status d.notified h), run_lem o d)

-- Unmanaging closes the connection and drops both authority files, and the display has failed
-- exactly when its session never registered.
pub unmanage_lem :
    (d : Display)
    → ((unmanage d).status ≡ (if d.session_registered then unmanaged else failed))
      × ((unmanage d).xcb_connection ≡ false)
      × ((unmanage d).access_file ≡ none)
      × ((unmanage d).user_access_file ≡ none)
      × ((unmanage d).finish_idle ≡ d.finish_idle)
unfolding unmanage set_status
unmanage_lem d = ground arith

-- When a greeter ends, its display is no longer managed, and it is finished or will be: a display
-- that is not finished has an idle source queued, and that source finishes it.
pub self_destruct-finish_idle :
    (d : Display)
    → ((self_destruct d).status ≢ managed)
      × (((self_destruct d).status ≡ finished) ⊎ ((self_destruct d).finish_idle ≡ true))
      × ((finish_idle (self_destruct d)).status ≡ finished)
      × ((finish_idle (self_destruct d)).finish_idle ≡ false)
unfolding self_destruct finish_idle
self_destruct-finish_idle d = ground arith

-- Once the access of a user was removed the display refuses any user, until it is unmanaged: the
-- closed file stays in its place.
pub add-remove_user_authorization :
    (host : XauthHost) (d : Display) (username : Bytes)
    → is_some d.user_access_file ≡ true
    → let removed = remove_user_authorization d in
      (add_user_authorization host username removed ≡ some (removed, none))
      × ((unmanage removed).user_access_file ≡ none)
unfolding add_user_authorization remove_user_authorization unmanage set_status
add-remove_user_authorization host d username h = ground (arith, h)

pub forced : SetupHost → Bool
unfolding is_forced
forced host = elim host.setup_argument [ none ↦ false | some argument ↦ is_forced argument ]

-- Initial setup runs exactly when it has not run since boot and either the kernel command line
-- asks for it, or it has no such argument, the display is local, no user exists, the session file
-- is there and the setting is on.
pub wants_initial_setup_exactly :
    (host : SetupHost) (d : Display)
    → wants_initial_setup host d ≡ (
        not host.already_done
        && (forced host
            || (not (is_some host.setup_argument)
                && (d.is_local
                    && (not d.have_existing_user_accounts
                        && (host.can_create_environment && get_or host.setting false))))))
unfolding wants_initial_setup forced
wants_initial_setup_exactly host d = ground arith
