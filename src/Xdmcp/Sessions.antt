-- ===== src/Xdmcp/Sessions.antt =====
-- daemon/scdm-xdmcp-display-factory.c: the displays of the store as the factory counts, finds and
-- purges them.
pub mod Counts
use scdm.Address.{Address}
use scdm.Display.{
  Display, DisplayKind, legacy_display, local_display, xdmcp_display, xdmcp_chooser_display, Status,
  managed, unmanaged, status_eq,
}
use scdm.DisplayStore
use scdm.DisplayStore.{Store}
use scdm.Prelude.{
  ℕ, ◌+◌, Bool, true, false, not, ◌&&◌, Option, none, some, List, [], ◌∷◌, ltb, ◌==◌, if◌then◌else◌,
  Bytes, bytes_eq,
}
use scdm.Xdmcp.Types.{Factory, Host, same_address?, u32}

-- `GDM_IS_XDMCP_DISPLAY`: the chooser's class derives from the XDMCP display's.
unfoldable pub is_xdmcp_display : DisplayKind → Bool
is_xdmcp_display xdmcp_display = true
is_xdmcp_display xdmcp_chooser_display = true
is_xdmcp_display legacy_display = false
is_xdmcp_display local_display = false

unfoldable pub is_from_host : Host → Address → Display → Bool
unfolding is_xdmcp_display same_address?
is_from_host host address display =
    is_xdmcp_display display.kind && same_address? host display.remote_address address

unfoldable pub num_displays_from_host : Host → Address → Factory → ℕ
unfolding is_from_host
num_displays_from_host host address factory =
    DisplayStore.foreach (λ id display n. if is_from_host host address display then n + 1 else n)
      factory.store 0

unfoldable pub display_lookup_by_host :
    Host → Address → (display_num : ℕ) → Factory → Option Display
unfolding is_from_host
display_lookup_by_host host address display_num factory =
    DisplayStore.find
      (λ id display.
        is_from_host host address display && (display.x11_display_number == display_num))
      factory.store

-- A session id of 0 is nobody's.
unfoldable pub display_lookup : (sessid : ℕ) → Factory → Option Display
unfolding is_xdmcp_display
display_lookup sessid factory =
    if sessid == 0
    then none
    else DisplayStore.find
        (λ id display. is_xdmcp_display display.kind && (display.session_number == sessid))
        factory.store

-- `count_sessions` on one display, over the two counters.
count_session : ℕ → Display → ℕ × ℕ → ℕ × ℕ
unfolding is_xdmcp_display status_eq
count_session id display (sessions, pending) =
    if is_xdmcp_display display.kind
    then (if status_eq display.status managed
        then (u32 (sessions + 1), pending)
        else if status_eq display.status unmanaged
        then (sessions, u32 (pending + 1))
        else (sessions, pending))
    else (sessions, pending)

unfoldable pub recount_sessions : Factory → Factory
unfolding count_session
recount_sessions factory =
    let (sessions, pending) = DisplayStore.foreach count_session factory.store (0, 0) in
    record factory { num_sessions = sessions; num_pending_sessions = pending }

-- `purge_displays`: an unmanaged display that has waited for too long.
unfoldable pub is_overdue : Host → Factory → Display → Bool
unfolding is_xdmcp_display status_eq
is_overdue host factory display =
    is_xdmcp_display display.kind
    && (status_eq display.status unmanaged
        && ltb (display.creation_time + factory.max_wait) host.now)

unfoldable pub displays_purge : Host → Factory → Factory
unfolding recount_sessions is_overdue
displays_purge host factory = recount_sessions (record factory {
  store =
      (DisplayStore.foreach_remove (λ id display. is_overdue host factory display) factory.store).0;
})

same_hostname : Bytes → Option Bytes → Bool
same_hostname hostname none = false
same_hostname hostname (some name) = bytes_eq name hostname

-- `remove_host`: the display with that number from the host of that name.
unfoldable pub is_display_of : (hostname : Bytes) → (display_num : ℕ) → Display → Bool
unfolding is_xdmcp_display same_hostname
is_display_of hostname display_num display =
    is_xdmcp_display display.kind
    && ((display.x11_display_number == display_num)
        && same_hostname hostname display.remote_hostname)

unfoldable pub display_dispose_check : (hostname : Bytes) → (display_num : ℕ) → Factory → Factory
unfolding recount_sessions is_display_of
display_dispose_check hostname display_num factory = recount_sessions (record factory {
  store =
      (DisplayStore.foreach_remove (λ id display. is_display_of hostname display_num display)
        factory.store).0;
})
