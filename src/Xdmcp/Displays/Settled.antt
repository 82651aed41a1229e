-- ===== src/Xdmcp/Displays/Settled.antt =====
-- A display that was created is settled, and its own operations keep that:
-- daemon/scdm-xdmcp-display-factory.c, scdm-xdmcp-display.c and scdm-display.c.
use scdm.AccessFile.{XauthHost, AccessFile}
use scdm.Display.Setup.{prepare, prepare_looked, look_for_existing_users}
use scdm.Display.{
  Display, DisplayKind, unmanaged, waiting_to_finish, status_eq, set_status, set_status_property,
  unmanage, self_destruct, queue_finish, finish, stop_greeter_session, create_authority,
  create_file, authority_created, authority_added,
}
use scdm.Prelude.{
  ℕ, ◌≡◌, refl, Bool, true, false, not, ◌&&◌, ◌||◌, Option, none, some, arith, ◌==◌, if◌then◌else◌,
  is_some, Bytes, codes,
}
use scdm.Address.{Address}
use scdm.Xdmcp.Displays.{
  idle_connect_to_display, xdmcp_display_prepare, xdmcp_display_class, display_new,
  prepare_authorized,
}
use scdm.Xdmcp.Sessions.{is_xdmcp_display}
use scdm.Xdmcp.Types.{Host}

-- A display of the server: of one of its two classes, with a session id, an address and a cookie. It
-- is not waiting to finish, and it is unmanaged only after its session was registered.
unfoldable pub is_settled : Display → Bool
unfolding is_xdmcp_display status_eq
is_settled d =
    is_xdmcp_display d.kind
    && (not (d.session_number == 0)
        && (is_some d.remote_address
            && (is_some d.x11_cookie
                && (not (status_eq d.status waiting_to_finish)
                    && (not (status_eq d.status unmanaged) || d.session_registered)))))

pub unmanage-is_settled : (d : Display) → is_settled d ≡ true → is_settled (unmanage d) ≡ true
unfolding is_settled unmanage set_status
unmanage-is_settled d h = ground (arith, h)

pub finish-is_settled : (d : Display) → is_settled d ≡ true → is_settled (finish d) ≡ true
unfolding is_settled finish set_status
finish-is_settled d h = ground (arith, h)

pub self_destruct-is_settled :
    (d : Display) → is_settled d ≡ true → is_settled (self_destruct d) ≡ true
unfolding is_settled self_destruct unmanage set_status queue_finish
self_destruct-is_settled d h = ground (arith, h)

pub idle_connect-is_settled :
    (connected : Bool) (d : Display)
    → is_settled d ≡ true
    → is_settled (idle_connect_to_display connected d).0 ≡ true
unfolding is_settled idle_connect_to_display unmanage set_status set_status_property
idle_connect-is_settled connected d h = ground (arith, h)

-- A prepared display is settled.
unfoldable pub PreparedOk : Display × Bool → Type 0
PreparedOk (d, false) = Unit
PreparedOk (d, true) = is_settled d ≡ true

-- What a new display has before it is prepared.
IsNew : Display → Type 0
IsNew d =
    (is_xdmcp_display d.kind ≡ true)
    × ((d.session_number == 0) ≡ false)
    × (is_some d.remote_address ≡ true)

authority_added-PreparedOk :
    (d : Display) (added : AccessFile × Option Bytes)
    → IsNew d
    → PreparedOk (prepare_authorized (authority_added d added))
unfolding prepare_authorized authority_added PreparedOk IsNew
authority_added-PreparedOk d (file, none) h = tt
authority_added-PreparedOk d (file, some cookie) h =
    unfold is_settled set_status in (ground (arith, h))

xdmcp_display_prepare-PreparedOk :
    (xauth : XauthHost) (d : Display) → IsNew d → PreparedOk (xdmcp_display_prepare xauth d)
unfolding xdmcp_display_prepare create_authority
xdmcp_display_prepare-PreparedOk xauth d h =
    go (is_some d.access_file) (create_file xauth (codes "scdm"))
  where
    launched : Display
    launched = record d { launch_environment = true }

    go :
        (refused : Bool) (file : AccessFile × Bool)
        → PreparedOk (
            prepare_authorized
              (if refused then (launched, false) else authority_created xauth launched file))
    go true file = unfold PreparedOk prepare_authorized in tt
    go false (file, false) = unfold PreparedOk prepare_authorized authority_created in tt
    go false (file, true) =
        unfold authority_created in authority_added-PreparedOk launched _ (unfold IsNew in h)

-- The same of a result, if there is one.
unfoldable pub AllPreparedOk : Option (Display × Bool) → Type 0
unfolding PreparedOk
AllPreparedOk none = Unit
AllPreparedOk (some result) = PreparedOk result

-- The class of a new display and a session id other than 0 make the display that is prepared
-- settled.
pub prepare-AllPreparedOk :
    (host : Host) (kind : DisplayKind) (pointer : ℕ) (hostname : Bytes) (number : ℕ)
    → (address : Address) (session_number : ℕ) → is_xdmcp_display kind ≡ true
    → (session_number == 0) ≡ false
    → AllPreparedOk (
        prepare host.setup
          (xdmcp_display_class host.xauth)
          (display_new host kind pointer hostname number address session_number))
unfolding prepare
prepare-AllPreparedOk host kind pointer hostname number address session_number k n =
    go host.setup.cached_users
  where
    new_display : Display
    new_display = display_new host kind pointer hostname number address session_number

    go :
        (users : Option ℕ)
        → AllPreparedOk (
            prepare_looked host.setup
              (xdmcp_display_class host.xauth)
              (look_for_existing_users users new_display))
    go none = unfold AllPreparedOk in tt
    go (some n_users) =
        unfold AllPreparedOk in
        xdmcp_display_prepare-PreparedOk host.xauth _ (unfold IsNew display_new in (k, n, refl))

pub stop_greeter_session-is_settled :
    (d : Display) → is_settled d ≡ true → is_settled (stop_greeter_session d) ≡ true
unfolding is_settled stop_greeter_session
stop_greeter_session-is_settled d h = ground (arith, h)

-- The status of a settled display is one that its handler knows, and the address that the handler
-- writes to is there.
pub is_settled_lem :
    (d : Display)
    → is_settled d ≡ true
    → (status_eq d.status waiting_to_finish ≡ false) × (is_some d.remote_address ≡ true)
unfolding is_settled
is_settled_lem d h = ground (arith, h)
