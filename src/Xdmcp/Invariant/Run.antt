-- ===== src/Xdmcp/Invariant/Run.antt =====
-- Every packet and every event keeps the invariant, so that it holds in every state that the server
-- gets into: daemon/scdm-xdmcp-display-factory.c.
use scdm.Address.{Address}
use scdm.Display.{
  Display, Status, unmanaged, prepared, managed, waiting_to_finish, finished, failed, status_eq,
  unmanage, self_destruct, finish, finish_idle, stop_greeter_session,
}
use scdm.DisplayStore
use scdm.DisplayStore.Counting.{Every-new}
use scdm.DisplayStore.Laws.{new-HasUniqueIds, new-IsBalanced}
use scdm.Prelude.{
  Bytes, ℕ, ◌≡◌, refl, Bool, true, false, Option, none, some, if◌then◌else◌, ◌>>=◌, arith,
}
use scdm.Xdmcp.Displays.Settled.{
  is_settled, unmanage-is_settled, finish-is_settled, self_destruct-is_settled,
  idle_connect-is_settled, stop_greeter_session-is_settled,
}
use scdm.Xdmcp.Displays.{idle_connect_to_display}
use scdm.Xdmcp.Events.{
  Event, packet, forward_timeout, connect_timeout, greeter_gone, idle_finish, client_disconnected,
  session_registered, hostname_selected, idle_purge, left_display, left_hostname_selected, happen,
  Reachable, started, after, start, is_done, purge_displays, queue_purge_displays, status_changed,
  store_display, change_found, on_found, change_display, on_client_disconnected, connect_timed,
  finish_idled, register_session,
}
use scdm.Xdmcp.Indirect.{on_hostname_selected}
use scdm.Xdmcp.Manage.{send_alive}
use scdm.Xdmcp.Invariant.Manage.{send_alive-IsSound}
use scdm.Xdmcp.Invariant.Steps.{
  managed_forward_handler-IsSound, on_hostname_selected-StaysSound, foreach_remove-IsSound,
  replace-IsSound, found-is_settled,
}
use scdm.Xdmcp.Invariant.Packets.{decode_packet-StaysSound}
use scdm.Xdmcp.Invariant.{
  IsSound, StaysSound, StaysSound-some, if-IsSound, if-StaysSound, some-StaysSound, none-StaysSound,
  bind-StaysSound,
}
use scdm.Xdmcp.Types.{Factory, Host}
use scdm.Xdmcp.Managed.Laws.{new-Limited}

queue_purge_displays-IsSound :
    (factory : Factory) → IsSound factory → IsSound (queue_purge_displays factory)
unfolding queue_purge_displays IsSound
queue_purge_displays-IsSound factory h = if-IsSound _ _ _ h h

status_changed-StaysSound :
    (host : Host) (d : Display) (status : Status) (factory : Factory)
    → IsSound factory
    → StaysSound (status_changed host d status factory)
unfolding status_changed
status_changed-StaysSound host d unmanaged factory h = some-StaysSound factory h
status_changed-StaysSound host d prepared factory h = some-StaysSound factory h
status_changed-StaysSound host d managed factory h = some-StaysSound factory h
status_changed-StaysSound host d waiting_to_finish factory h = none-StaysSound
status_changed-StaysSound host d failed factory h =
    some-StaysSound _ (queue_purge_displays-IsSound factory h)
status_changed-StaysSound host d finished factory h = go d.remote_address
  where
    go :
        (remote : Option Address)
        → StaysSound (do
          address ← remote
          some (
              queue_purge_displays
                (send_alive host address d.x11_display_number d.session_number factory)))
    go none = none-StaysSound
    go (some address) =
        some-StaysSound _
          (queue_purge_displays-IsSound _ (send_alive-IsSound host address _ _ factory h))

-- A change that keeps displays settled keeps the invariant.
pub change_display-StaysSound :
    (host : Host) (change : Display → Display) (id : ℕ) (factory : Factory)
    → ((d : Display) → is_settled d ≡ true → is_settled (change d) ≡ true)
    → IsSound factory
    → StaysSound (change_display host change id factory)
unfolding change_display
change_display-StaysSound host change id factory keeps h =
    go (DisplayStore.lookup id factory.store) (λ d e. found-is_settled id d factory h e)
  where
    go :
        (found : Option Display)
        → ((d : Display) → found ≡ some d → is_settled d ≡ true)
        → StaysSound (on_found (λ d. change_found host d (change d) factory) found factory)
    go none s = unfold on_found in some-StaysSound factory h
    go (some d) s =
        unfold on_found change_found store_display in
        let stored = replace-IsSound (change d).id (change d) factory (keeps d (s d refl)) h in
        if-StaysSound _ _ _ (some-StaysSound _ stored)
          (status_changed-StaysSound host (change d) (change d).status _ stored)

-- A second event of the same kind: two changes, one after the other.
client_disconnected-StaysSound :
    (host : Host) (id : ℕ) (factory : Factory)
    → IsSound factory
    → StaysSound (on_client_disconnected host id factory)
unfolding on_client_disconnected
client_disconnected-StaysSound host id factory h = go (DisplayStore.lookup id factory.store)
  where
    leave : Display → Display
    leave d = unmanage (stop_greeter_session d)

    twice :
        StaysSound
          (do left ← change_display host leave id factory; change_display host finish id left)
    twice =
        bind-StaysSound (change_display host leave id factory) _
          (change_display-StaysSound host leave id factory
            (λ d s. unmanage-is_settled _ (stop_greeter_session-is_settled d s)) h)
          (λ left k. change_display-StaysSound host finish id left finish-is_settled k)

    go :
        (found : Option Display)
        → StaysSound (
            on_found
              (λ display.
                if status_eq display.status managed
                then (do
                  left ← change_display host leave id factory
                  change_display host finish id left)
                else some factory)
              found
              factory)
    go none = unfold on_found in some-StaysSound factory h
    go (some display) =
        unfold on_found in
        if-StaysSound _ _ (status_eq display.status managed) twice (some-StaysSound factory h)

pub connect_timed-is_settled :
    (connected : Bool) (d : Display)
    → is_settled d ≡ true
    → is_settled (connect_timed connected d) ≡ true
unfolding connect_timed
connect_timed-is_settled connected d h = go d.connect_timer
  where
    go : (b : Bool) → is_settled (if b then (idle_connect_to_display connected d).0 else d) ≡ true
    go true = idle_connect-is_settled connected d h
    go false = h

pub finish_idled-is_settled :
    (d : Display) → is_settled d ≡ true → is_settled (finish_idled d) ≡ true
unfolding finish_idled
finish_idled-is_settled d h = go d.finish_idle
  where
    go : (b : Bool) → is_settled (if b then finish_idle d else d) ≡ true
    go true =
        unfold finish_idle in
        finish-is_settled (record d { finish_idle = false }) (unfold is_settled in h)
    go false = h

pub register_session-is_settled :
    (d : Display) → is_settled d ≡ true → is_settled (register_session d) ≡ true
unfolding is_settled register_session
register_session-is_settled d h = ground (arith, h)

purge_displays-IsSound : (factory : Factory) → IsSound factory → IsSound (purge_displays factory)
unfolding purge_displays IsSound
purge_displays-IsSound factory h = foreach_remove-IsSound is_done factory h

hostname_selected-StaysSound :
    (host : Host) (remote : Option Address) (host_bytes : Bytes) (factory : Factory)
    → IsSound factory
    → StaysSound (remote >>= λ address. on_hostname_selected host address host_bytes factory)
hostname_selected-StaysSound host none host_bytes factory h = none-StaysSound
hostname_selected-StaysSound host (some address) host_bytes factory h =
    on_hostname_selected-StaysSound host address host_bytes factory h

pub happen-StaysSound :
    (host : Host) (event : Event) (factory : Factory)
    → IsSound factory
    → StaysSound (happen host event factory)
unfolding happen
happen-StaysSound host (packet d) factory h = decode_packet-StaysSound host d factory h
happen-StaysSound host (forward_timeout pointer) factory h =
    some-StaysSound _ (managed_forward_handler-IsSound pointer factory h)
happen-StaysSound host (connect_timeout id connected) factory h =
    change_display-StaysSound host (connect_timed connected) id factory
      (connect_timed-is_settled connected) h
happen-StaysSound host (greeter_gone id) factory h =
    change_display-StaysSound host self_destruct id factory self_destruct-is_settled h
happen-StaysSound host (idle_finish id) factory h =
    change_display-StaysSound host finish_idled id factory finish_idled-is_settled h
happen-StaysSound host (client_disconnected id) factory h =
    client_disconnected-StaysSound host id factory h
happen-StaysSound host (session_registered id) factory h =
    change_display-StaysSound host register_session id factory register_session-is_settled h
happen-StaysSound host (hostname_selected id host_bytes) factory h =
    go (DisplayStore.lookup id factory.store)
  where
    go :
        (found : Option Display)
        → StaysSound (
            on_found
              (λ display. display.remote_address >>= λ address.
                on_hostname_selected host address host_bytes factory)
              found
              factory)
    go none = unfold on_found in some-StaysSound factory h
    go (some display) =
        unfold on_found in
        hostname_selected-StaysSound host display.remote_address host_bytes factory h
happen-StaysSound host (left_display d) factory h =
    status_changed-StaysSound host d d.status factory h
happen-StaysSound host (left_hostname_selected d host_bytes) factory h =
    hostname_selected-StaysSound host d.remote_address host_bytes factory h
happen-StaysSound host idle_purge factory h =
    some-StaysSound _ (if-IsSound _ _ factory.purge_queued (purge_displays-IsSound factory h) h)

-- In every state that the server gets into, whatever packets come and whatever happens to its
-- displays, at most 11 queries are in the table of forwarded ones, no query and no indirect client
-- has a time, no MANAGED_FORWARD packet that is still queued was sent again more than once, the ids
-- of the store are unique, it holds as many displays as were announced to enter less those announced
-- to leave, and every display that it holds is of one of the server's two classes, has a session id
-- other than 0, an address and a cookie, does not wait to finish, and is unmanaged only after its
-- session was registered.
pub Reachable-IsSound : (factory : Factory) → Reachable factory → IsSound factory
Reachable-IsSound factory (started config serial sysid servhost) =
    unfold IsSound start in
    (
      (tt, omega arith),
      tt,
      new-Limited,
      (Every-new is_settled, new-HasUniqueIds Display, new-IsBalanced Display),
    )
Reachable-IsSound factory (after host event r e) =
    StaysSound-some factory (happen host event _)
      (happen-StaysSound host event _ (Reachable-IsSound _ r)) e
