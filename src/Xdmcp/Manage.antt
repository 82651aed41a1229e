-- ===== src/Xdmcp/Manage.antt =====
-- daemon/scdm-xdmcp-display-factory.c: MANAGE, the acknowledgements between managers, KEEPALIVE, and
-- the dispatch of a packet.
use scdm.Address.{Address, get_family_type}
use scdm.Display.Setup.{manage}
use scdm.Display.{Display, prepared, managed, status_eq}
use scdm.DisplayStore
use scdm.Prelude.{ℕ, ◌+◌, Bool, Option, none, some, if◌then◌else◌, Bytes, ◌>>=◌, is_some}
use scdm.Xdmcp.Displays.{xdmcp_display_class}
use scdm.Xdmcp.Forward.{forward_query_lookup}
use scdm.Xdmcp.ForwardQueries.{create_address_from_request}
use scdm.Xdmcp.Indirect.{
  indirect_client_lookup, indirect_client_destroy, indirect_client_lookup_by_chosen,
}
use scdm.Xdmcp.Managed.{whack_queued_managed_forwards}
use scdm.Xdmcp.Requests.{resolve_forward}
use scdm.Xdmcp.Send.{refuse_packet, send_failed, send_got_managed_forward, alive_packet}
use scdm.Xdmcp.Sessions.{display_lookup, display_lookup_by_host}
use scdm.Xdmcp.Types.{Factory, Host, IndirectClient, flush, u16, u32}

unfoldable pub send_refuse : Host → Address → (sessid : ℕ) → Factory → Factory
unfolding flush
send_refuse host address sessid factory =
    resolve_forward address
      (forward_query_lookup host address (flush address (refuse_packet sessid) factory))

-- A client that has chosen is done with; one that has not will see a chooser.
unfoldable pub drop_chosen : Option IndirectClient × Factory → Factory
drop_chosen (none, factory) = factory
drop_chosen (some ic, factory) =
    if is_some ic.chosen_address then indirect_client_destroy ic factory else factory

unfoldable pub settle_indirect : Host → Address → Factory → Factory
unfolding drop_chosen
settle_indirect host address factory =
    if factory.honor_indirect
    then drop_chosen (indirect_client_lookup host address factory)
    else factory

-- The two unsigned counters; the second wraps below 0.
unfoldable pub move_session : Factory → Factory
move_session factory = record factory {
  num_sessions = u32 (factory.num_sessions + 1);
  num_pending_sessions = u32 (factory.num_pending_sessions + 4294967295);
}

unfoldable pub store_managed : Address → (sessid : ℕ) → Display × Bool → Factory → Factory
store_managed address sessid (display, ok) factory =
    let kept = record factory { store = DisplayStore.replace display.id display factory.store } in
    if ok then kept else send_failed address sessid kept

unfoldable pub manage_prepared : Host → Address → (sessid : ℕ) → Display → Factory → Option Factory
unfolding settle_indirect store_managed move_session
manage_prepared host address sessid display factory =
    let settled = settle_indirect host address factory in
    let resolved = resolve_forward address (forward_query_lookup host address settled) in
    (do
      result ← manage host.setup (xdmcp_display_class host.xauth) display
      some (store_managed address sessid result (move_session resolved)))

unfoldable pub manage_found :
    Host → Address → (sessid : ℕ) → Option Display → Factory → Option Factory
unfolding manage_prepared status_eq
manage_found host address sessid none factory = some (send_refuse host address sessid factory)
manage_found host address sessid (some display) factory =
    if status_eq display.status prepared
    then manage_prepared host address sessid display factory
    else if status_eq display.status managed
    then some factory
    else some (send_refuse host address sessid factory)

-- The session id, the display number and the class of a MANAGE.
pub record ManageRead : Type 0 where
  pub clnt_sessid : Option ℕ
  pub clnt_dspnum : Option ℕ
  pub clnt_dspclass : Option Bytes

unfoldable pub read_sessid : ManageRead → Option ℕ
read_sessid r = do
  sessid ← r.clnt_sessid
  dspnum ← r.clnt_dspnum
  dspclass ← r.clnt_dspclass
  some sessid

unfoldable pub manage_read : Host → Address → Option ℕ → Factory → Option Factory
unfolding manage_found
manage_read host address none factory = some factory
manage_read host address (some sessid) factory =
    manage_found host address sessid (display_lookup sessid factory) factory

-- On a packet that cannot be read the source also disposes the display class, which is uninitialised
-- there if an earlier field was the one; that is left out, as all disposal of buffers.
unfoldable pub handle_manage : Host → Address → ManageRead → Factory → Option Factory
unfolding read_sessid manage_read
handle_manage host address r factory =
    if host.host_allow address
    then manage_read host address (read_sessid r) factory
    else some factory

unfoldable pub read_address : Host → Address → Option Bytes → Option Address
unfolding create_address_from_request
read_address host address clnt_address = do
  addr ← clnt_address
  create_address_from_request host addr none (get_family_type address)

unfoldable pub destroy_client : Option IndirectClient → Factory → Factory
destroy_client none factory = factory
destroy_client (some ic) factory = indirect_client_destroy ic factory

unfoldable pub managed_forward_read : Host → Address → Option Address → Factory → Factory
unfolding destroy_client
managed_forward_read host address none factory = factory
managed_forward_read host address (some disp_address) factory =
    send_got_managed_forward address disp_address
      (destroy_client (indirect_client_lookup_by_chosen host address disp_address factory) factory)

-- The client that was forwarded is done with; the answer is sent also where there is none.
unfoldable pub handle_managed_forward : Host → Address → Option Bytes → Factory → Factory
unfolding read_address managed_forward_read
handle_managed_forward host address clnt_address factory =
    if host.host_allow address
    then managed_forward_read host address (read_address host address clnt_address) factory
    else factory

unfoldable pub got_managed_forward_read : Host → Address → Option Address → Factory → Factory
got_managed_forward_read host address none factory = factory
got_managed_forward_read host address (some disp_address) factory =
    whack_queued_managed_forwards host address disp_address factory

unfoldable pub handle_got_managed_forward : Host → Address → Option Bytes → Factory → Factory
unfolding read_address got_managed_forward_read
handle_got_managed_forward host address clnt_address factory =
    if host.host_allow address
    then got_managed_forward_read host address (read_address host address clnt_address) factory
    else factory

or_by_host : Host → Address → (dspnum : ℕ) → Factory → Option Display → Option Display
or_by_host host address dspnum factory none =
    display_lookup_by_host host address (u16 dspnum) factory
or_by_host host address dspnum factory (some display) = some display

alive_of : Option Display → ℕ × ℕ
unfolding status_eq
alive_of none = (0, 0)
alive_of (some display) =
    ((if status_eq display.status managed then 1 else 0), display.session_number)

-- ALIVE says whether the session runs, and its id; a session that is unknown by its id is looked for
-- by its host and display.
unfoldable pub send_alive : Host → Address → (dspnum sessid : ℕ) → Factory → Factory
unfolding or_by_host alive_of flush
send_alive host address dspnum sessid factory =
    let (running, id) =
      alive_of (or_by_host host address dspnum factory (display_lookup (u32 sessid) factory)) in
    flush address (alive_packet running id) factory

unfoldable pub keepalive_read : Host → Address → Option (ℕ × ℕ) → Factory → Factory
keepalive_read host address none factory = factory
keepalive_read host address (some (dspnum, sessid)) factory =
    send_alive host address dspnum sessid factory

unfoldable pub handle_keepalive : Host → Address → Option (ℕ × ℕ) → Factory → Factory
unfolding keepalive_read
handle_keepalive host address read factory =
    if host.host_allow address then keepalive_read host address read factory else factory
