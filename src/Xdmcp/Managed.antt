-- ===== src/Xdmcp/Managed.antt =====
-- daemon/scdm-xdmcp-display-factory.c: the MANAGED_FORWARD packets that are sent again until they
-- are acknowledged.
pub mod Laws
use scdm.Address.{Address}
use scdm.Prelude.{
  ℕ, zero, suc, ◌+◌, Bool, true, false, not, ◌&&◌, ◌||◌, Option, none, some, List, [], ◌∷◌, leb,
  ◌==◌, if◌then◌else◌,
}
use scdm.Xdmcp.Send.{really_send_managed_forward}
use scdm.Xdmcp.Types.{Factory, ManagedForward, Host, same_address}

unfoldable pub whack : Host → (address origin : Address) → List ManagedForward → List ManagedForward
whack host address origin [] = []
whack host address origin (mf ∷ rest) =
    if same_address host mf.manager address && same_address host mf.origin origin
    then rest
    else mf ∷ whack host address origin rest

-- The first entry for a manager and an origin is dropped, and its source removed.
unfoldable pub whack_queued_managed_forwards : Host → (address origin : Address) → Factory → Factory
unfolding whack
whack_queued_managed_forwards host address origin factory = record factory {
  managed_forwards = whack host address origin factory.managed_forwards;
}

-- The packet goes out at once, and an entry with its timeout source is queued.
unfoldable pub send_managed_forward : (address origin : Address) → Factory → Factory
unfolding really_send_managed_forward
send_managed_forward address origin factory =
    let sent = really_send_managed_forward address origin factory in
    record sent {
      managed_forwards =
          record { pointer = sent.next_pointer; times = 0; manager = address; origin = origin }
          ∷ sent.managed_forwards;
      next_pointer = suc sent.next_pointer;
    }

find_forward : ℕ → List ManagedForward → Option ManagedForward
find_forward pointer [] = none
find_forward pointer (mf ∷ rest) =
    if mf.pointer == pointer then some mf else find_forward pointer rest

remove_forward : ℕ → List ManagedForward → List ManagedForward
remove_forward pointer [] = []
remove_forward pointer (mf ∷ rest) =
    if mf.pointer == pointer then rest else mf ∷ remove_forward pointer rest

count_forward : ℕ → List ManagedForward → List ManagedForward
count_forward pointer [] = []
count_forward pointer (mf ∷ rest) =
    if mf.pointer == pointer
    then record mf { times = mf.times + 1 } ∷ rest
    else mf ∷ count_forward pointer rest

-- `managed_forward_handler` on an entry; its result says whether the source goes on.
handle_forward : ManagedForward → Factory → Factory × Bool
unfolding remove_forward count_forward really_send_managed_forward
handle_forward mf factory =
    let sent =
      if factory.socket_open
      then really_send_managed_forward mf.manager mf.origin factory
      else factory in
    if not factory.socket_open || leb 2 (mf.times + 1)
    then (record sent { managed_forwards = remove_forward mf.pointer sent.managed_forwards }, false)
    else (record sent { managed_forwards = count_forward mf.pointer sent.managed_forwards }, true)

handle_found : Option ManagedForward → Factory → Factory × Bool
unfolding handle_forward
handle_found none factory = (factory, false)
handle_found (some mf) factory = handle_forward mf factory

-- The timeout of the entry at a pointer; an entry that is gone has no source.
unfoldable pub managed_forward_handler : (pointer : ℕ) → Factory → Factory × Bool
unfolding find_forward handle_found
managed_forward_handler pointer factory =
    handle_found (find_forward pointer factory.managed_forwards) factory
