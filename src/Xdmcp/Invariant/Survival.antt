-- ===== src/Xdmcp/Invariant/Survival.antt =====
-- What happens to the displays never ends the process: daemon/scdm-xdmcp-display-factory.c.
use scdm.Address.{Address}
use scdm.Display.{
  Display, Status, unmanaged, prepared, managed, waiting_to_finish, finished, failed, status_eq,
  unmanage, finish, self_destruct, stop_greeter_session,
}
use scdm.DisplayStore
use scdm.Prelude.{
  ℕ, ◌≡◌, refl, Bool, true, false, Option, none, some, if◌then◌else◌, ◌>>=◌, is_some, Bool-cases,
  inl, inr,
}
use scdm.Xdmcp.Displays.Settled.{
  is_settled, is_settled_lem, unmanage-is_settled, finish-is_settled, self_destruct-is_settled,
  stop_greeter_session-is_settled,
}
use scdm.Xdmcp.Events.{
  Event, packet, forward_timeout, hostname_selected, idle_purge, left_display,
  left_hostname_selected, on_client_disconnected, connect_timed, finish_idled, register_session,
  Reachable, happen, greeter_gone, idle_finish, client_disconnected, session_registered,
  connect_timeout, status_changed, change_found, on_found, change_display, queue_purge_displays,
}
use scdm.Xdmcp.Invariant.Run.{
  Reachable-IsSound, change_display-StaysSound, connect_timed-is_settled, finish_idled-is_settled,
  register_session-is_settled,
}
use scdm.Xdmcp.Invariant.{IsSound, StaysSound, StaysSound-some}
use scdm.Xdmcp.Invariant.Steps.{found-is_settled}
use scdm.Xdmcp.Manage.{send_alive}
use scdm.Xdmcp.Types.{Factory, Host}

status_changed_survives :
    (host : Host) (d : Display) (status : Status) (factory : Factory)
    → status_eq status waiting_to_finish ≡ false
    → is_some d.remote_address ≡ true
    → is_some (status_changed host d status factory) ≡ true
unfolding status_changed status_eq
status_changed_survives host d unmanaged factory w a = refl
status_changed_survives host d prepared factory w a = refl
status_changed_survives host d managed factory w a = refl
status_changed_survives host d waiting_to_finish factory w a = cc
status_changed_survives host d failed factory w a = refl
status_changed_survives host d finished factory w a = go d.remote_address a
  where
    go :
        (remote : Option Address)
        → is_some remote ≡ true
        → is_some (do
          address ← remote
          some (
              queue_purge_displays
                (send_alive host address d.x11_display_number d.session_number factory)))
          ≡ true
    go none e = e
    go (some address) e = refl

pub change_display_survives :
    (host : Host) (change : Display → Display) (id : ℕ) (factory : Factory)
    → ((d : Display) → is_settled d ≡ true → is_settled (change d) ≡ true)
    → IsSound factory
    → is_some (change_display host change id factory) ≡ true
unfolding change_display
change_display_survives host change id factory keeps h =
    go (DisplayStore.lookup id factory.store) (λ d e. found-is_settled id d factory h e)
  where
    go :
        (found : Option Display)
        → ((d : Display) → found ≡ some d → is_settled d ≡ true)
        → is_some (on_found (λ d. change_found host d (change d) factory) found factory) ≡ true
    go none s = refl
    go (some d) s = elim (Bool-cases (status_eq (change d).status d.status)) [
      | inl e ↦ rw e refl
      | inr e ↦ rw e (
          let (w, a) = is_settled_lem (change d) (keeps d (s d refl)) in
          status_changed_survives host (change d) (change d).status _ w a)
    ]

disconnected_survives :
    (host : Host) (id : ℕ) (factory : Factory)
    → IsSound factory
    → is_some (on_client_disconnected host id factory) ≡ true
unfolding on_client_disconnected
disconnected_survives host id factory h = go (DisplayStore.lookup id factory.store)
  where
    leave : Display → Display
    leave d = unmanage (stop_greeter_session d)

    leave-is_settled : (d : Display) → is_settled d ≡ true → is_settled (leave d) ≡ true
    leave-is_settled d s = unmanage-is_settled _ (stop_greeter_session-is_settled d s)

    then_finish :
        (left : Option Factory)
        → is_some left ≡ true
        → StaysSound left
        → is_some (left >>= λ f. change_display host finish id f) ≡ true
    then_finish none e k = cc
    then_finish (some f) e k =
        change_display_survives host finish id f finish-is_settled
          (StaysSound-some f (some f) k refl)

    twice :
        is_some (change_display host leave id factory >>= λ f. change_display host finish id f)
        ≡ true
    twice =
        then_finish (change_display host leave id factory)
          (change_display_survives host leave id factory leave-is_settled h)
          (change_display-StaysSound host leave id factory leave-is_settled h)

    go :
        (found : Option Display)
        → is_some (
            on_found
              (λ display.
                if status_eq display.status managed
                then (do
                  left ← change_display host leave id factory
                  change_display host finish id left)
                else some factory)
              found
              factory)
          ≡ true
    go none = unfold on_found in refl
    go (some display) = unfold on_found in branch (status_eq display.status managed)
      where
        branch :
            (b : Bool)
            → is_some (
                if b
                then (change_display host leave id factory >>= λ f. change_display host finish id f)
                else some factory)
              ≡ true
        branch true = twice
        branch false = refl

-- The events of displays and timeouts, less the choice of a host. The operations of a display keep
-- it settled; of one that has left the store this is taken as given.
unfoldable pub is_display_event : Event → Bool
is_display_event (packet d) = false
is_display_event (hostname_selected id host_bytes) = false
is_display_event (left_hostname_selected d host_bytes) = false
is_display_event (left_display d) = is_settled d
is_display_event _ = true

-- In a state that the server got into, a timeout, the end of a greeter, a disconnected client, a
-- registered session, a purge, or the status of a settled display that has left the store never ends
-- the process: no display waits to finish, and each has the address that the handler of its end
-- writes to.
pub display_events_survive :
    (host : Host) (event : Event) (factory : Factory)
    → Reachable factory
    → is_display_event event ≡ true
    → is_some (happen host event factory) ≡ true
unfolding happen is_display_event
display_events_survive host (packet d) factory r e = cc
display_events_survive host (hostname_selected id host_bytes) factory r e = cc
display_events_survive host (left_hostname_selected d host_bytes) factory r e = cc
display_events_survive host (left_display d) factory r e =
    let (w, a) = is_settled_lem d e in status_changed_survives host d d.status factory w a
display_events_survive host (forward_timeout pointer) factory r e = refl
display_events_survive host idle_purge factory r e = refl
display_events_survive host (connect_timeout id connected) factory r e =
    change_display_survives host (connect_timed connected) id factory
      (connect_timed-is_settled connected) (Reachable-IsSound factory r)
display_events_survive host (greeter_gone id) factory r e =
    change_display_survives host self_destruct id factory self_destruct-is_settled
      (Reachable-IsSound factory r)
display_events_survive host (idle_finish id) factory r e =
    change_display_survives host finish_idled id factory finish_idled-is_settled
      (Reachable-IsSound factory r)
display_events_survive host (client_disconnected id) factory r e =
    disconnected_survives host id factory (Reachable-IsSound factory r)
display_events_survive host (session_registered id) factory r e =
    change_display_survives host register_session id factory register_session-is_settled
      (Reachable-IsSound factory r)
