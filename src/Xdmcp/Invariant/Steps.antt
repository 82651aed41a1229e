-- ===== src/Xdmcp/Invariant/Steps.antt =====
-- The steps that the handlers are made of keep the invariant:
-- daemon/scdm-xdmcp-display-factory.c.
use scdm.Xdmcp.Invariant.{IsSound, StaysSound}
use scdm.Xdmcp.Displays.Settled.{is_settled}
use scdm.Address.{Address}
use scdm.Display.{Display}
use scdm.DisplayStore
use scdm.DisplayStore.Counting.{
  Every-add, Every-foreach_remove, Every-replace, Every-lookup, Every-find,
}
use scdm.DisplayStore.Laws.{
  add-HasUniqueIds, add-IsBalanced, foreach_remove-HasUniqueIds, foreach_remove-IsBalanced,
  replace-HasUniqueIds, replace-IsBalanced,
}
use scdm.DisplayStore.{Store}
use scdm.Prelude.{ℕ, ◌≡◌, refl, Bool, true, some, arith, Bytes, inl, inr}
use scdm.Xdmcp.Forward.Bounds.{forward_query_create-length, forward_query_destroy-length_le}
use scdm.Xdmcp.Forward.Order.{
  forward_query_create-Untimed, forward_query_destroy-Untimed, forward_query_lookup_never_expires,
  forward_query_create_drops_newest,
}
use scdm.Xdmcp.Forward.{forward_query_create, forward_query_destroy, forward_query_lookup}
use scdm.Xdmcp.Indirect.{
  indirect_client_create, indirect_client_destroy, indirect_client_lookup, on_hostname_selected,
}
use scdm.Xdmcp.Indirect.Laws.{
  indirect_client_lookup_never_expires, indirect_client_destroy-Untimed,
  on_hostname_selected-Untimed,
}
use scdm.Xdmcp.Managed.{
  send_managed_forward, whack_queued_managed_forwards, managed_forward_handler,
}
use scdm.Xdmcp.Managed.Laws.{
  send_managed_forward-Limited, whack-Limited, managed_forward_handler-Limited,
}
use scdm.Xdmcp.Types.{Factory, ForwardQuery, Host, IndirectClient}

-- The table of forwarded queries.
pub forward_query_lookup-IsSound :
    (host : Host) (address : Address) (factory : Factory)
    → IsSound factory
    → IsSound (forward_query_lookup host address factory).1
unfolding IsSound
forward_query_lookup-IsSound host address factory h =
    rw (forward_query_lookup_never_expires host address factory h.0.0) h

pub forward_query_create-IsSound :
    (mgr_address dsp_address : Address) (factory : Factory)
    → IsSound factory
    → IsSound (forward_query_create mgr_address dsp_address factory)
unfolding IsSound
forward_query_create-IsSound mgr_address dsp_address factory h =
    let untimed = forward_query_create-Untimed mgr_address dsp_address factory h.0.0 in
    let bounded = forward_query_create-length mgr_address dsp_address factory in
    let same = forward_query_create_drops_newest mgr_address dsp_address factory h.0.0 in
    ((untimed, omega (arith, bounded)), rw same (h.1), rw same (h.2), rw same (h.3))

pub forward_query_destroy-IsSound :
    (q : ForwardQuery) (factory : Factory)
    → IsSound factory
    → IsSound (forward_query_destroy q factory)
unfolding IsSound forward_query_destroy
forward_query_destroy-IsSound q factory h =
    let untimed = forward_query_destroy-Untimed q factory h.0.0 in
    let shorter = forward_query_destroy-length_le q factory in
    ((untimed, omega (arith, h.0.1, shorter)), h.1, h.2, h.3)

-- The table of indirect clients.
pub indirect_client_lookup-IsSound :
    (host : Host) (address : Address) (factory : Factory)
    → IsSound factory
    → IsSound (indirect_client_lookup host address factory).1
unfolding IsSound
indirect_client_lookup-IsSound host address factory h =
    rw (indirect_client_lookup_never_expires host address factory h.1) h

pub indirect_client_create-IsSound :
    (address : Address) (factory : Factory)
    → IsSound factory
    → IsSound (indirect_client_create address factory)
unfolding IsSound indirect_client_create
indirect_client_create-IsSound address factory h = (h.0, (refl, h.1), h.2, h.3)

pub indirect_client_destroy-IsSound :
    (ic : IndirectClient) (factory : Factory)
    → IsSound factory
    → IsSound (indirect_client_destroy ic factory)
unfolding IsSound indirect_client_destroy
indirect_client_destroy-IsSound ic factory h =
    (h.0, indirect_client_destroy-Untimed ic factory h.1, h.2, h.3)

pub on_hostname_selected-StaysSound :
    (host : Host) (address : Address) (host_bytes : Bytes) (factory : Factory)
    → IsSound factory
    → StaysSound (on_hostname_selected host address host_bytes factory)
unfolding IsSound StaysSound
on_hostname_selected-StaysSound host address host_bytes factory h =
    elim (on_hostname_selected-Untimed host address host_bytes factory h.1) [
      | inl crashed ↦ rw crashed tt
      | inr (ics, chosen, untimed) ↦ rw chosen (h.0, untimed, h.2, h.3)
    ]

-- The table of MANAGED_FORWARD packets.
pub send_managed_forward-IsSound :
    (address origin : Address) (factory : Factory)
    → IsSound factory
    → IsSound (send_managed_forward address origin factory)
unfolding IsSound send_managed_forward
send_managed_forward-IsSound address origin factory h =
    (h.0, h.1, send_managed_forward-Limited address origin factory h.2, h.3)

pub whack-IsSound :
    (host : Host) (address origin : Address) (factory : Factory)
    → IsSound factory
    → IsSound (whack_queued_managed_forwards host address origin factory)
unfolding IsSound whack_queued_managed_forwards
whack-IsSound host address origin factory h =
    (h.0, h.1, whack-Limited host address origin factory.managed_forwards h.2, h.3)

pub managed_forward_handler-IsSound :
    (pointer : ℕ) (factory : Factory)
    → IsSound factory
    → IsSound (managed_forward_handler pointer factory).0
unfolding IsSound
managed_forward_handler-IsSound pointer factory h =
    let (mfs, log, same, limited) = managed_forward_handler-Limited pointer factory h.2 in
    rw same (h.0, h.1, limited, h.3)

-- The displays.
pub add-IsSound :
    (id : ℕ) (d : Display) (factory : Factory)
    → is_settled d ≡ true
    → IsSound factory
    → IsSound (record factory { store = DisplayStore.add id d factory.store })
unfolding IsSound
add-IsSound id d factory settled h =
    let (settled_all, unique, balanced) = h.3 in
    (
      h.0,
      h.1,
      h.2,
      (
        Every-add is_settled id d factory.store settled settled_all,
        add-HasUniqueIds id d factory.store unique,
        add-IsBalanced id d factory.store balanced,
      ),
    )

pub foreach_remove-IsSound :
    (gone : Display → Bool) (factory : Factory)
    → IsSound factory
    → let left = (DisplayStore.foreach_remove (λ id d. gone d) factory.store).0 in
      IsSound (record factory { store = left })
unfolding IsSound
foreach_remove-IsSound gone factory h =
    let (settled_all, unique, balanced) = h.3 in
    (
      h.0,
      h.1,
      h.2,
      (
        Every-foreach_remove is_settled (λ id d. gone d) factory.store settled_all,
        foreach_remove-HasUniqueIds (λ id d. gone d) factory.store unique,
        foreach_remove-IsBalanced (λ id d. gone d) factory.store balanced,
      ),
    )

pub replace-IsSound :
    (id : ℕ) (d : Display) (factory : Factory)
    → is_settled d ≡ true
    → IsSound factory
    → IsSound (record factory { store = DisplayStore.replace id d factory.store })
unfolding IsSound
replace-IsSound id d factory settled h =
    let (settled_all, unique, balanced) = h.3 in
    (
      h.0,
      h.1,
      h.2,
      (
        Every-replace is_settled id d factory.store settled settled_all,
        replace-HasUniqueIds id d factory.store unique,
        replace-IsBalanced id d factory.store balanced,
      ),
    )

pub found-is_settled :
    (id : ℕ) (d : Display) (factory : Factory)
    → IsSound factory
    → DisplayStore.lookup id factory.store ≡ some d
    → is_settled d ≡ true
unfolding IsSound
found-is_settled id d factory h found = Every-lookup is_settled id factory.store d h.3.0 found

pub searched-is_settled :
    (test : ℕ → Display → Bool) (d : Display) (factory : Factory)
    → IsSound factory
    → DisplayStore.find test factory.store ≡ some d
    → is_settled d ≡ true
unfolding IsSound
searched-is_settled test d factory h found = Every-find is_settled test factory.store d h.3.0 found
