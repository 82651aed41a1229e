-- ===== src/Xdmcp/Invariant/Displays.antt =====
-- REQUEST, MANAGE, KEEPALIVE and the acknowledgements keep the invariant:
-- daemon/scdm-xdmcp-display-factory.c.
use scdm.Address.{Address}
use scdm.Display.Setup.{prepare}
use scdm.Display.{Display, DisplayKind, xdmcp_display, xdmcp_chooser_display}
use scdm.Prelude.{
  ℕ, suc, ◌≡◌, refl, Bool, true, false, Option, none, some, if◌then◌else◌, Bytes, ◌>>=◌,
}
use scdm.Xdmcp.Displays.Settled.{PreparedOk, AllPreparedOk, prepare-AllPreparedOk}
use scdm.Xdmcp.Displays.{
  display_create, choose_kind, wants_chooser, store_prepared, get_next_session_serial, display_new,
  xdmcp_display_class,
}
use scdm.Xdmcp.Displays.Serials.{AllSerialOk, get_next_session_serial-AllSerialOk}
use scdm.Xdmcp.Indirect.{indirect_client_lookup}
use scdm.Xdmcp.Invariant.Handlers.{flush-IsSound}
use scdm.Xdmcp.Invariant.Steps.{
  forward_query_lookup-IsSound, forward_query_destroy-IsSound, indirect_client_lookup-IsSound,
  send_managed_forward-IsSound, add-IsSound, foreach_remove-IsSound,
}
use scdm.Xdmcp.Invariant.{IsSound, StaysSound, if-StaysSound, some-StaysSound, none-StaysSound}
use scdm.Xdmcp.Requests.{
  RequestRead, Request, handle_request, request_read, read_request, answer_request, request_entered,
  accept_created, accept_cookie, send_decline, resolve_forward,
}
use scdm.Xdmcp.Send.{send_accept}
use scdm.Xdmcp.Sessions.{
  displays_purge, display_dispose_check, recount_sessions, is_overdue, is_display_of,
  is_xdmcp_display,
}
use scdm.Xdmcp.Types.{Factory, ForwardQuery, Host}

pub resolve_forward-IsSound :
    (address : Address) (found : Option ForwardQuery) (factory : Factory)
    → IsSound factory
    → IsSound (resolve_forward address (found, factory))
unfolding resolve_forward
resolve_forward-IsSound address none factory h = h
resolve_forward-IsSound address (some fq) factory h =
    forward_query_destroy-IsSound fq _
      (send_managed_forward-IsSound fq.from_address address factory h)

send_decline-IsSound :
    (host : Host) (address : Address) (reason : Bytes) (factory : Factory)
    → IsSound factory
    → IsSound (send_decline host address reason factory)
unfolding send_decline
send_decline-IsSound host address reason factory h =
    resolve_forward-IsSound address _ _
      (forward_query_lookup-IsSound host address _ (flush-IsSound _ _ factory h))

recount_sessions-IsSound :
    (factory : Factory) → IsSound factory → IsSound (recount_sessions factory)
unfolding recount_sessions IsSound
recount_sessions-IsSound factory h = h

displays_purge-IsSound :
    (host : Host) (factory : Factory) → IsSound factory → IsSound (displays_purge host factory)
unfolding displays_purge
displays_purge-IsSound host factory h =
    recount_sessions-IsSound _ (foreach_remove-IsSound (λ d. is_overdue host factory d) factory h)

display_dispose_check-IsSound :
    (hostname : Bytes) (dspnum : ℕ) (factory : Factory)
    → IsSound factory
    → IsSound (display_dispose_check hostname dspnum factory)
unfolding display_dispose_check
display_dispose_check-IsSound hostname dspnum factory h =
    recount_sessions-IsSound _
      (foreach_remove-IsSound (λ d. is_display_of hostname dspnum d) factory h)

choose_kind-IsSound :
    (host : Host) (address : Address) (factory : Factory)
    → IsSound factory
    → IsSound (choose_kind host address factory).1
unfolding choose_kind
choose_kind-IsSound host address factory h = go factory.honor_indirect
  where
    go :
        (b : Bool)
        → let (ic, looked) = indirect_client_lookup host address factory in
          let chosen : Bool × Factory =
            if b then (wants_chooser ic, looked) else (false, factory) in
          IsSound chosen.1
    go true = indirect_client_lookup-IsSound host address factory h
    go false = h

store_prepared-IsSound :
    (result : Display × Bool) (factory : Factory)
    → PreparedOk result
    → IsSound factory
    → IsSound (store_prepared result factory).1
unfolding store_prepared PreparedOk
store_prepared-IsSound (d, false) factory p h = h
store_prepared-IsSound (d, true) factory p h =
    let added = add-IsSound d.id d factory p h in unfold IsSound in added

CreatedOk : Option (Option Display × Factory) → Type 0
CreatedOk none = Unit
CreatedOk (some (created, factory)) = IsSound factory

display_create-CreatedOk :
    (host : Host) (hostname : Bytes) (address : Address) (displaynum : ℕ) (factory : Factory)
    → IsSound factory
    → CreatedOk (display_create host hostname address displaynum factory)
unfolding display_create AllSerialOk
display_create-CreatedOk host hostname address displaynum factory h =
    numbered (get_next_session_serial host.random chosen.1)
      (get_next_session_serial-AllSerialOk host.random chosen.1)
  where
    chosen : Bool × Factory
    chosen = choose_kind host address factory

    kind : DisplayKind
    kind = if chosen.0 then xdmcp_chooser_display else xdmcp_display

    kind_is_xdmcp : is_xdmcp_display kind ≡ true
    kind_is_xdmcp = go chosen.0
      where
        go :
            (b : Bool)
            → is_xdmcp_display (if b then xdmcp_chooser_display else xdmcp_display) ≡ true
        go true = unfold is_xdmcp_display in refl
        go false = unfold is_xdmcp_display in refl

    serial_taken :
        (after : Factory) (n : ℕ)
        → after ≡ record chosen.1 { session_serial = n }
        → IsSound (record after { next_pointer = suc after.next_pointer })
    serial_taken after n same =
        rw same (unfold IsSound in choose_kind-IsSound host address factory h)

    prepared_ :
        (serial : ℕ) (f : Factory) (result : Option (Display × Bool))
        → AllPreparedOk result
        → IsSound f
        → CreatedOk (do r ← result; some (store_prepared r f))
    prepared_ serial f none p k = unfold CreatedOk in tt
    prepared_ serial f (some r) p k =
        unfold CreatedOk in store_prepared-IsSound r f (unfold AllPreparedOk in p) k

    numbered :
        (taken : Option (ℕ × Factory))
        → AllSerialOk chosen.1 taken
        → CreatedOk (do
          (session_number, serial_taken) ← taken
          let allocated = record serial_taken { next_pointer = suc serial_taken.next_pointer }
          let display =
              display_new host kind serial_taken.next_pointer hostname displaynum address
                session_number
          result ← prepare host.setup (xdmcp_display_class host.xauth) display
          some (store_prepared result allocated))
    numbered none k = unfold CreatedOk in tt
    numbered (some (serial, after)) k =
        let (nonzero, same) = k in
        prepared_ serial (record after { next_pointer = suc after.next_pointer }) _
          (prepare-AllPreparedOk host kind after.next_pointer hostname displaynum address serial
            kind_is_xdmcp nonzero)
          (serial_taken after same.0 same.1)

accept_created-StaysSound :
    (address : Address) (created : Option Display) (factory : Factory)
    → IsSound factory
    → StaysSound (accept_created address (created, factory))
unfolding accept_created
accept_created-StaysSound address none factory h = some-StaysSound _ h
accept_created-StaysSound address (some display) factory h = go display.x11_cookie
  where
    go :
        (cookie : Option Bytes)
        → StaysSound (accept_cookie address display.session_number cookie factory)
    go none = none-StaysSound
    go (some cookie) = unfold send_accept in some-StaysSound _ (flush-IsSound _ _ _ h)

request_entered-StaysSound :
    (host : Host) (address : Address) (hostname : Bytes) (dspnum : ℕ) (factory : Factory)
    → IsSound factory
    → StaysSound (request_entered host address hostname dspnum factory)
unfolding request_entered
request_entered-StaysSound host address hostname dspnum factory h =
    if-StaysSound _ _ _
      (some-StaysSound _ (send_decline-IsSound host address _ checked checked_sound))
      (created (display_create host hostname address dspnum checked)
        (display_create-CreatedOk host hostname address dspnum checked checked_sound))
  where
    checked : Factory
    checked = display_dispose_check hostname dspnum factory

    checked_sound : IsSound checked
    checked_sound = display_dispose_check-IsSound hostname dspnum factory h

    created :
        (result : Option (Option Display × Factory))
        → CreatedOk result
        → StaysSound (do created ← result; accept_created address created)
    created none k = none-StaysSound
    created (some (display, f)) k =
        accept_created-StaysSound address display f (unfold CreatedOk in k)

answer_request-StaysSound :
    (host : Host) (address : Address) (r : Request) (factory : Factory)
    → IsSound factory
    → StaysSound (answer_request host address r factory)
unfolding answer_request
answer_request-StaysSound host address r factory h =
    if-StaysSound _ _ _
      (request_entered-StaysSound host address (host.numeric_host address) r.dspnum factory h)
      (some-StaysSound _ (send_decline-IsSound host address _ factory h))

pub handle_request-StaysSound :
    (host : Host) (address : Address) (len : ℕ) (r : RequestRead) (factory : Factory)
    → IsSound factory
    → StaysSound (handle_request host address len r factory)
unfolding handle_request
handle_request-StaysSound host address len r factory h =
    if-StaysSound _ _ _ (go (read_request r)) (some-StaysSound _ h)
  where
    purged : Factory
    purged = displays_purge host factory

    purged_sound : IsSound purged
    purged_sound = displays_purge-IsSound host factory h

    go : (read : Option Request) → StaysSound (request_read host address len read purged)
    go none = some-StaysSound _ purged_sound
    go (some request) =
        if-StaysSound _ _ _ (answer_request-StaysSound host address request purged purged_sound)
          (some-StaysSound _ purged_sound)
