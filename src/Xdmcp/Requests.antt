-- ===== src/Xdmcp/Requests.antt =====
-- daemon/scdm-xdmcp-display-factory.c: REQUEST, with the limits on displays, and the answers to it.
pub mod Decision
pub mod Room
pub mod Limits
use scdm.Address.{Address}
use scdm.Display.{Display}
use scdm.Prelude.{
  ℕ, ◌+◌, ◌*◌, Bool, true, false, not, ◌&&◌, ◌||◌, Option, none, some, List, [], ◌∷◌, ltb, leb,
  ◌==◌, if◌then◌else◌, Bytes, codes, bytes_eq, length, ◌>>=◌,
}
use scdm.Xdmcp.Displays.{display_create}
use scdm.Xdmcp.Forward.{forward_query_lookup, forward_query_destroy}
use scdm.Xdmcp.Managed.{send_managed_forward}
use scdm.Xdmcp.Queries.{add_names}
use scdm.Xdmcp.Send.{decline_packet, send_accept}
use scdm.Xdmcp.Sessions.{num_displays_from_host, displays_purge, display_dispose_check}
use scdm.Xdmcp.Types.{Factory, ForwardQuery, Host, is_local_address, flush}

-- The end of DECLINE and of REFUSE, and a step of MANAGE: the manager that forwarded the query is
-- told that the display reached some resolution.
unfoldable pub resolve_forward : Address → Option ForwardQuery × Factory → Factory
resolve_forward address (none, factory) = factory
resolve_forward address (some fq, factory) =
    forward_query_destroy fq (send_managed_forward fq.from_address address factory)

unfoldable pub send_decline : Host → Address → (reason : Bytes) → Factory → Factory
unfolding resolve_forward flush
send_decline host address reason factory =
    resolve_forward address
      (forward_query_lookup host address (flush address (decline_packet reason) factory))

-- What is read from a REQUEST after the display number, in order; `none` for what cannot be read.
pub record RequestRead : Type 0 where
  pub clnt_dspnum : Option ℕ
  pub clnt_conntyp : Option (List ℕ)
  pub clnt_addr : Option (List Bytes)
  pub clnt_authname : Option Bytes
  pub clnt_authdata : Option Bytes
  pub clnt_authorization_names : Option (List Bytes)
  pub clnt_manufacturer : Option Bytes

pub record Request : Type 0 where
  pub dspnum : ℕ
  pub conntyp : List ℕ
  pub addr : List Bytes
  pub authname : Bytes
  pub authdata : Bytes
  pub authorization_names : List Bytes
  pub manufacturer : Bytes

unfoldable pub read_request : RequestRead → Option Request
read_request r = do
  dspnum ← r.clnt_dspnum
  conntyp ← r.clnt_conntyp
  addr ← r.clnt_addr
  authname ← r.clnt_authname
  authdata ← r.clnt_authdata
  authorization_names ← r.clnt_authorization_names
  manufacturer ← r.clnt_manufacturer
  some (record {
    dspnum = dspnum;
    conntyp = conntyp;
    addr = addr;
    authname = authname;
    authdata = authdata;
    authorization_names = authorization_names;
    manufacturer = manufacturer;
  })

-- One of the names is the 18 bytes of MIT-MAGIC-COOKIE-1.
unfoldable pub has_mitauth : List Bytes → Bool
has_mitauth [] = false
has_mitauth (name ∷ rest) = bytes_eq name (codes "MIT-MAGIC-COOKIE-1") || has_mitauth rest

unfoldable pub request_expected_length : Request → ℕ
unfolding add_names
request_expected_length r =
    let named = add_names (2 + (1 + 2 * length r.conntyp) + 1) r.addr in
    add_names (named + (2 + length r.authname) + (2 + length r.authdata) + 1) r.authorization_names
    + (2 + length r.manufacturer)

-- The check of the limits: `entered`.
unfoldable pub may_enter : Host → Address → (mitauth : Bool) → Factory → Bool
may_enter host address mitauth factory =
    mitauth
    && (ltb factory.num_sessions factory.max_displays
        && (is_local_address host address
            || ltb (num_displays_from_host host address factory) factory.max_displays_per_host))

unfoldable pub accept_cookie : Address → ℕ → Option Bytes → Factory → Option Factory
accept_cookie address session_number none factory = none
accept_cookie address session_number (some cookie) factory =
    some (send_accept address session_number cookie factory)

-- The cookie must be there; no display sends no answer.
unfoldable pub accept_created : Address → Option Display × Factory → Option Factory
unfolding accept_cookie
accept_created address (none, factory) = some factory
accept_created address (some display, factory) =
    accept_cookie address display.session_number display.x11_cookie factory

unfoldable pub request_entered :
    Host → Address → (hostname : Bytes) → (dspnum : ℕ) → Factory → Option Factory
unfolding accept_created
request_entered host address hostname dspnum factory =
    let checked = display_dispose_check hostname dspnum factory in
    if leb checked.max_pending_displays checked.num_pending_sessions
    then some (send_decline host address (codes "Maximum pending servers") checked)
    else (do
      created ← display_create host hostname address dspnum checked
      accept_created address created)

unfoldable pub refusal : (mitauth : Bool) → Factory → Bytes
refusal mitauth factory =
    if not mitauth
    then codes "Only MIT-MAGIC-COOKIE-1 supported"
    else if leb factory.max_displays factory.num_sessions
    then codes "Maximum number of open sessions reached"
    else codes "Maximum number of open sessions from your host reached"

-- A REQUEST whose values were read and whose length is right.
unfoldable pub answer_request : Host → Address → Request → Factory → Option Factory
unfolding request_entered
answer_request host address r factory =
    let mitauth = has_mitauth r.authorization_names in
    if may_enter host address mitauth factory
    then request_entered host address (host.numeric_host address) r.dspnum factory
    else some (send_decline host address (refusal mitauth factory) factory)

unfoldable pub request_read : Host → Address → (len : ℕ) → Option Request → Factory → Option Factory
unfolding request_expected_length
request_read host address len none factory = some factory
request_read host address len (some r) factory =
    if request_expected_length r == len then answer_request host address r factory else some factory

-- Overdue displays are purged before anything is read.
unfoldable pub handle_request : Host → Address → (len : ℕ) → RequestRead → Factory → Option Factory
unfolding request_read read_request
handle_request host address len r factory =
    if host.host_allow address
    then request_read host address len (read_request r) (displays_purge host factory)
    else some factory
