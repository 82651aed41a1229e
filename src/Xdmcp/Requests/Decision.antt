-- ===== src/Xdmcp/Requests/Decision.antt =====
-- A REQUEST always gets an answer: daemon/scdm-xdmcp-display-factory.c.
use scdm.Address.{Address}
use scdm.Display.Setup.{prepare}
use scdm.Display.{Display, DisplayKind, xdmcp_display, xdmcp_chooser_display}
use scdm.Prelude.{
  ℕ, suc, ◌≡◌, refl, Bool, true, false, Option, none, some, List, if◌then◌else◌, Bytes, ◌>>=◌,
  is_some, arith, leb,
}
use scdm.Xdmcp.Displays.Serials.{AllSerialOk, get_next_session_serial-AllSerialOk}
use scdm.Xdmcp.Displays.Settled.{is_settled, PreparedOk, AllPreparedOk, prepare-AllPreparedOk}
use scdm.Xdmcp.Displays.{
  display_create, choose_kind, store_prepared, get_next_session_serial, first_nonzero, display_new,
  xdmcp_display_class,
}
use scdm.Xdmcp.Requests.{
  Request, answer_request, request_entered, accept_created, accept_cookie, may_enter, has_mitauth,
}
use scdm.Xdmcp.Sessions.{display_dispose_check, is_xdmcp_display}
use scdm.Xdmcp.Types.{Factory, Host}

either_some :
    (b : Bool) (x y : Option Factory)
    → is_some x ≡ true
    → is_some y ≡ true
    → is_some (if b then x else y) ≡ true
either_some true x y h k = h
either_some false x y h k = k

serial_survives :
    (random : List ℕ) (s : ℕ) (factory : Factory)
    → first_nonzero random ≡ some s
    → is_some (get_next_session_serial random factory) ≡ true
unfolding get_next_session_serial
serial_survives random s factory e = ground (arith, e)

settled_cookie : (d : Display) → is_settled d ≡ true → is_some d.x11_cookie ≡ true
unfolding is_settled
settled_cookie d h = ground (arith, h)

accept_survives :
    (address : Address) (result : Display × Bool) (factory : Factory)
    → PreparedOk result
    → is_some (accept_created address (store_prepared result factory)) ≡ true
unfolding accept_created store_prepared PreparedOk
accept_survives address (d, false) factory p = refl
accept_survives address (d, true) factory p = go d.x11_cookie (settled_cookie d p) _
  where
    go :
        (cookie : Option Bytes)
        → is_some cookie ≡ true
        → (f : Factory) → is_some (accept_cookie address d.session_number cookie f) ≡ true
    go none e f = cc
    go (some cookie) e f = refl

-- A display is created, or cannot be prepared; the process goes on.
create_survives :
    (host : Host) (address : Address) (hostname : Bytes) (dspnum users s : ℕ) (factory : Factory)
    → host.setup.cached_users ≡ some users
    → first_nonzero host.random ≡ some s
    → is_some (do
      created ← display_create host hostname address dspnum factory
      accept_created address created)
      ≡ true
unfolding display_create AllSerialOk
create_survives host address hostname dspnum users s factory u r =
    numbered (get_next_session_serial host.random chosen.1)
      (serial_survives host.random s chosen.1 r)
      (get_next_session_serial-AllSerialOk host.random chosen.1)
  where
    chosen : Bool × Factory
    chosen = choose_kind host address factory

    kind : DisplayKind
    kind = if chosen.0 then xdmcp_chooser_display else xdmcp_display

    kind_is_xdmcp : is_xdmcp_display kind ≡ true
    kind_is_xdmcp = go chosen.0
      where
        go :
            (b : Bool)
            → is_xdmcp_display (if b then xdmcp_chooser_display else xdmcp_display) ≡ true
        go true = unfold is_xdmcp_display in refl
        go false = unfold is_xdmcp_display in refl

    stored :
        (f : Factory) (result : Option (Display × Bool))
        → is_some result ≡ true
        → AllPreparedOk result
        → is_some (do
          created ← (do r ← result; some (store_prepared r f))
          accept_created address created)
          ≡ true
    stored f none e p = cc
    stored f (some result) e p = accept_survives address result f (unfold AllPreparedOk in p)

    prepare_survives :
        (d : Display) → is_some (prepare host.setup (xdmcp_display_class host.xauth) d) ≡ true
    prepare_survives d = unfold prepare in rw u refl

    numbered :
        (taken : Option (ℕ × Factory))
        → is_some taken ≡ true
        → AllSerialOk chosen.1 taken
        → is_some (do
          created ← (do
            (session_number, serial_taken) ← taken
            let allocated = record serial_taken { next_pointer = suc serial_taken.next_pointer }
            let display =
                display_new host kind serial_taken.next_pointer hostname dspnum address
                  session_number
            result ← prepare host.setup (xdmcp_display_class host.xauth) display
            some (store_prepared result allocated))
          accept_created address created)
          ≡ true
    numbered none e k = cc
    numbered (some (serial, after)) e k =
        stored (record after { next_pointer = suc after.next_pointer }) _
          (prepare_survives
            (display_new host kind after.next_pointer hostname dspnum address serial))
          (prepare-AllPreparedOk host kind after.next_pointer hostname dspnum address serial
            kind_is_xdmcp k.0)

-- As long as accountsservice answers and the random numbers are not all 0, a request never ends the
-- process: a display that is put into the store has the cookie that ACCEPT carries.
pub answer_request_survives :
    (host : Host) (address : Address) (r : Request) (users s : ℕ) (factory : Factory)
    → host.setup.cached_users ≡ some users
    → first_nonzero host.random ≡ some s
    → is_some (answer_request host address r factory) ≡ true
unfolding answer_request request_entered
answer_request_survives host address r users s factory u n =
    let checked = display_dispose_check (host.numeric_host address) r.dspnum factory in
    either_some (may_enter host address (has_mitauth r.authorization_names) factory) _ _
      (either_some (leb checked.max_pending_displays checked.num_pending_sessions) _ _ refl
        (create_survives host address (host.numeric_host address) r.dspnum users s checked u n))
      refl
