-- ===== src/Xdmcp/Invariant/Handlers.antt =====
-- The queries, KEEPALIVE and the acknowledgements keep the invariant:
-- daemon/scdm-xdmcp-display-factory.c.
use scdm.Address.{Address, get_family_type}
use scdm.Prelude.{ℕ, not, Option, none, some, List, [], ◌∷◌, Bytes, ◌>>=◌}
use scdm.Xdmcp.Forward.{forward_query_lookup}
use scdm.Xdmcp.ForwardQueries.{
  ForwardRead, handle_forward_query, forward_read, forward_addressed, drop_query,
  create_address_from_request,
}
use scdm.Xdmcp.Indirect.{indirect_client_lookup}
use scdm.Xdmcp.Invariant.{
  IsSound, StaysSound, if-IsSound, if-StaysSound, some-StaysSound, none-StaysSound, bind-StaysSound,
}
use scdm.Xdmcp.Invariant.Steps.{
  forward_query_lookup-IsSound, forward_query_create-IsSound, forward_query_destroy-IsSound,
  indirect_client_lookup-IsSound, indirect_client_create-IsSound, indirect_client_destroy-IsSound,
  whack-IsSound,
}
use scdm.Xdmcp.Managed.{whack_queued_managed_forwards}
use scdm.Xdmcp.Queries.{
  refresh_status, send_willing, send_unwilling, handle_direct_query, handle_broadcast_query,
  handle_query, send_forward_query, forward_each, indirect_client_found, indirect_looked_up,
  indirect_read, is_full, handle_indirect_query,
}
use scdm.Xdmcp.Send.{port_for_request, address_for_request, forward_query_packet}
use scdm.Xdmcp.Types.{Factory, ForwardQuery, Host, IndirectClient, Packet, flush}

pub flush-IsSound :
    (address : Address) (packet : Packet) (factory : Factory)
    → IsSound factory
    → IsSound (flush address packet factory)
unfolding IsSound flush
flush-IsSound address packet factory h = h

refresh_status-IsSound :
    (host : Host) (factory : Factory) → IsSound factory → IsSound (refresh_status host factory)
unfolding refresh_status IsSound
refresh_status-IsSound host factory h = if-IsSound _ _ _ h h

pub send_willing-IsSound :
    (host : Host) (address : Address) (factory : Factory)
    → IsSound factory
    → IsSound (send_willing host address factory)
unfolding send_willing
send_willing-IsSound host address factory h =
    flush-IsSound _ _ _ (refresh_status-IsSound host factory h)

send_unwilling-IsSound :
    (host : Host) (address : Address) (factory : Factory)
    → IsSound factory
    → IsSound (send_unwilling host address factory)
unfolding send_unwilling IsSound
send_unwilling-IsSound host address factory h = if-IsSound _ _ _ h h

-- The direct queries.
handle_direct_query-IsSound :
    (host : Host) (address : Address) (len : ℕ) (authlist : Option (List Bytes)) (factory : Factory)
    → IsSound factory
    → IsSound (handle_direct_query host address len authlist factory)
unfolding handle_direct_query
handle_direct_query-IsSound host address len none factory h = h
handle_direct_query-IsSound host address len (some authlist) factory h =
    if-IsSound _ _ _ (send_willing-IsSound host address factory h) h

pub handle_broadcast_query-IsSound :
    (host : Host) (address : Address) (len : ℕ) (authlist : Option (List Bytes)) (factory : Factory)
    → IsSound factory
    → IsSound (handle_broadcast_query host address len authlist factory)
unfolding handle_broadcast_query
handle_broadcast_query-IsSound host address len authlist factory h =
    if-IsSound _ _ _ (handle_direct_query-IsSound host address len authlist factory h) h

pub handle_query-IsSound :
    (host : Host) (address : Address) (len : ℕ) (authlist : Option (List Bytes)) (factory : Factory)
    → IsSound factory
    → IsSound (handle_query host address len authlist factory)
unfolding handle_query
handle_query-IsSound host address len authlist factory h =
    if-IsSound _ _ _ (handle_direct_query-IsSound host address len authlist factory h)
      (send_unwilling-IsSound host address factory h)

-- The indirect query.
send_forward_query-StaysSound :
    (chosen address display : Address) (authlist : List Bytes) (factory : Factory)
    → IsSound factory
    → StaysSound (send_forward_query chosen address display authlist factory)
unfolding send_forward_query
send_forward_query-StaysSound chosen address display authlist factory h =
    go (port_for_request address)
  where
    go :
        (port : Option Bytes)
        → StaysSound (do
          n ← port
          some (
              flush chosen (forward_query_packet (address_for_request display) n authlist) factory))
    go none = none-StaysSound
    go (some n) = some-StaysSound _ (flush-IsSound _ _ _ h)

forward_each-StaysSound :
    (chosen address : Address) (locals : List Address) (authlist : List Bytes) (factory : Factory)
    → IsSound factory
    → StaysSound (forward_each chosen address locals authlist factory)
unfolding forward_each
forward_each-StaysSound chosen address [] authlist factory h = some-StaysSound _ h
forward_each-StaysSound chosen address (saddr ∷ rest) authlist factory h =
    bind-StaysSound _ _
      (if-StaysSound _ _ _ (send_forward_query-StaysSound chosen address saddr authlist factory h)
        (some-StaysSound _ h))
      (λ sent k. forward_each-StaysSound chosen address rest authlist sent k)

indirect_looked_up-StaysSound :
    (host : Host) (address : Address) (authlist : List Bytes)
    → (found : Option IndirectClient) (factory : Factory) → IsSound factory
    → StaysSound (indirect_looked_up host address authlist (found, factory))
unfolding indirect_looked_up
indirect_looked_up-StaysSound host address authlist none factory h =
    some-StaysSound _
      (send_willing-IsSound host address _ (indirect_client_create-IsSound address factory h))
indirect_looked_up-StaysSound host address authlist (some ic) factory h = go ic.chosen_address
  where
    go :
        (chosen : Option Address)
        → StaysSound (indirect_client_found host address authlist ic chosen factory)
    go none = some-StaysSound _ (send_willing-IsSound host address factory h)
    go (some chosen) =
        if-StaysSound _ _ _
          (some-StaysSound _
            (send_willing-IsSound host address _ (indirect_client_destroy-IsSound ic factory h)))
          (if-StaysSound _ _ _
            (forward_each-StaysSound chosen address host.local_list authlist factory h)
            (send_forward_query-StaysSound chosen address address authlist factory h))

indirect_read-StaysSound :
    (host : Host) (address : Address) (len : ℕ) (authlist : Option (List Bytes)) (factory : Factory)
    → IsSound factory
    → StaysSound (indirect_read host address len authlist factory)
unfolding indirect_read
indirect_read-StaysSound host address len none factory h = some-StaysSound _ h
indirect_read-StaysSound host address len (some authlist) factory h =
    let (found, kept) = indirect_client_lookup host address factory in
    if-StaysSound _ _ _
      (indirect_looked_up-StaysSound host address authlist found kept
        (indirect_client_lookup-IsSound host address factory h))
      (some-StaysSound _ h)

pub handle_indirect_query-StaysSound :
    (host : Host) (address : Address) (len : ℕ) (authlist : Option (List Bytes)) (factory : Factory)
    → IsSound factory
    → StaysSound (handle_indirect_query host address len authlist factory)
unfolding handle_indirect_query
handle_indirect_query-StaysSound host address len authlist factory h =
    let same = some-StaysSound factory h in
    if-StaysSound _ _ (not (host.host_allow address)) same (
      if-StaysSound _ _ (not factory.honor_indirect) same (
        if-StaysSound _ _ (is_full host address factory) same
          (indirect_read-StaysSound host address len authlist factory h)))

-- The forwarded query.
drop_query-IsSound :
    (found : Option ForwardQuery) (factory : Factory)
    → IsSound factory
    → IsSound (drop_query (found, factory))
unfolding drop_query
drop_query-IsSound none factory h = h
drop_query-IsSound (some q) factory h = forward_query_destroy-IsSound q factory h

forward_addressed-IsSound :
    (host : Host) (address : Address) (disp_address : Option Address) (factory : Factory)
    → IsSound factory
    → IsSound (forward_addressed host address disp_address factory)
unfolding forward_addressed
forward_addressed-IsSound host address none factory h = h
forward_addressed-IsSound host address (some disp) factory h =
    let whacked = whack-IsSound host address disp factory h in
    let (found, kept) =
      forward_query_lookup host disp (whack_queued_managed_forwards host address disp factory) in
    let dropped =
      drop_query-IsSound found kept (forward_query_lookup-IsSound host disp _ whacked) in
    if-IsSound _ _ _
      (send_willing-IsSound host disp _ (forward_query_create-IsSound address disp _ dropped))
      whacked

forward_read-IsSound :
    (host : Host) (address : Address) (len : ℕ) (read : Option ForwardRead) (factory : Factory)
    → IsSound factory
    → IsSound (forward_read host address len read factory)
unfolding forward_read
forward_read-IsSound host address len none factory h = h
forward_read-IsSound host address len (some r) factory h =
    if-IsSound _ _ _
      (forward_addressed-IsSound host address
        (create_address_from_request host r.clnt_addr (some r.clnt_port) (get_family_type address))
        factory h)
      h

pub handle_forward_query-IsSound :
    (host : Host) (address : Address) (len : ℕ) (read : Option ForwardRead) (factory : Factory)
    → IsSound factory
    → IsSound (handle_forward_query host address len read factory)
unfolding handle_forward_query
handle_forward_query-IsSound host address len read factory h =
    if-IsSound _ _ _ (forward_read-IsSound host address len read factory h) h
