-- ===== src/Xdmcp/Invariant.antt =====
-- An invariant of the XDMCP server's state, daemon/scdm-xdmcp-display-factory.c, and the steps that
-- the handlers are made of. Handlers has the packets, Run the events.
pub mod Steps
pub mod Handlers
pub mod Displays
pub mod Manage
pub mod Packets
pub mod Run
pub mod Survival
use scdm.Address.{Address}
use scdm.Display.{Display, Status, unmanaged, waiting_to_finish, status_eq}
use scdm.DisplayStore
use scdm.DisplayStore.Counting.{
  Every, Every-add, Every-foreach_remove, Every-replace, Every-lookup, Every-find,
}
use scdm.DisplayStore.Laws.{
  HasUniqueIds, IsBalanced, add-HasUniqueIds, add-IsBalanced, foreach_remove-HasUniqueIds,
  foreach_remove-IsBalanced, replace-HasUniqueIds, replace-IsBalanced,
}
use scdm.DisplayStore.{Store}
use scdm.Prelude.{
  ℕ, zero, suc, ◌+◌, ◌-◌, ◌≤◌, ◌≡◌, refl, Bool, true, false, not, ◌&&◌, ◌||◌, Option, none, some,
  List, [], ◌∷◌, arith, leb, ◌==◌, if◌then◌else◌, length, All, Bool-cases, is_some, ◌>>=◌, find,
  Bytes, ◌⊎◌, inl, inr,
}
use scdm.Xdmcp.Displays.Settled.{is_settled}
use scdm.Xdmcp.Forward.Bounds.{forward_query_create-length, forward_query_destroy-length_le}
use scdm.Xdmcp.Forward.Order.{
  forward_query_create-Untimed, forward_query_destroy-Untimed, forward_query_lookup_never_expires,
  forward_query_create_drops_newest,
}
use scdm.Xdmcp.Forward.{forward_query_create, forward_query_destroy, forward_query_lookup}
use scdm.Xdmcp.Indirect.{
  indirect_client_create, indirect_client_destroy, indirect_client_lookup, on_hostname_selected,
}
use scdm.Xdmcp.Forward
use scdm.Xdmcp.Indirect
use scdm.Xdmcp.Indirect.Laws.{
  indirect_client_lookup_never_expires, indirect_client_destroy-Untimed,
  on_hostname_selected-Untimed,
}
use scdm.Xdmcp.Managed.{
  send_managed_forward, whack_queued_managed_forwards, managed_forward_handler,
}
use scdm.Xdmcp.Managed.Laws.{
  Limited, send_managed_forward-Limited, whack-Limited, managed_forward_handler-Limited,
}
use scdm.Xdmcp.Sessions.{is_xdmcp_display}
use scdm.Xdmcp.Types.{Factory, ForwardQuery, Host, IndirectClient, ManagedForward, same_address}

QueriesOk : List ForwardQuery → Type 0
QueriesOk qs = Forward.Order.Untimed qs × (length qs ≤ 11)

StoreOk : Store Display → Type 0
StoreOk store = Every is_settled store × HasUniqueIds store × IsBalanced store

-- The tables have no times and at most 11 queries, and no packet that is still queued was sent again
-- more than once; the store holds settled displays under unique ids, as many as its signals say.
unfoldable pub IsSound : Factory → Type 0
unfolding QueriesOk StoreOk
IsSound factory =
    QueriesOk factory.forward_queries
    × Indirect.Laws.Untimed factory.indirect_clients
    × Limited factory.managed_forwards
    × StoreOk factory.store

-- The same of a result, if there is one.
pub StaysSound : Option Factory → Type 0
StaysSound none = Unit
StaysSound (some factory) = IsSound factory

pub some-StaysSound : (factory : Factory) → IsSound factory → StaysSound (some factory)
unfolding StaysSound
some-StaysSound factory h = h

pub none-StaysSound : StaysSound none
unfolding StaysSound
none-StaysSound = tt

pub StaysSound-some :
    (factory : Factory) (result : Option Factory)
    → StaysSound result
    → result ≡ some factory
    → IsSound factory
unfolding StaysSound
StaysSound-some factory result h e = rw e at h

pub if-IsSound : (f g : Factory) (b : Bool) → IsSound f → IsSound g → IsSound (if b then f else g)
if-IsSound f g true h k = h
if-IsSound f g false h k = k

pub if-StaysSound :
    (f g : Option Factory) (b : Bool)
    → StaysSound f
    → StaysSound g
    → StaysSound (if b then f else g)
if-StaysSound f g true h k = h
if-StaysSound f g false h k = k

pub bind-StaysSound :
    (result : Option Factory) (next : Factory → Option Factory)
    → StaysSound result
    → ((f : Factory) → IsSound f → StaysSound (next f))
    → StaysSound (result >>= next)
unfolding StaysSound
bind-StaysSound none next h k = tt
bind-StaysSound (some f) next h k = k f h
