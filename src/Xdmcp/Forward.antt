-- ===== src/Xdmcp/Forward.antt =====
-- daemon/scdm-xdmcp-display-factory.c: the table of forwarded queries.
pub mod Bounds
pub mod Order
use scdm.Address.{Address}
use scdm.Prelude.{
  ℕ, zero, suc, ◌+◌, Bool, true, false, ◌&&◌, Option, none, some, List, [], ◌∷◌, ltb, ◌==◌,
  if◌then◌else◌, length,
}
use scdm.Xdmcp.Types.{
  Factory, ForwardQuery, Host, same_address, max_forward_queries, forward_query_timeout,
}

-- `g_slist_remove`: the first element that is the pointer.
remove_query : ℕ → List ForwardQuery → List ForwardQuery
remove_query pointer [] = []
remove_query pointer (q ∷ rest) =
    if q.pointer == pointer then rest else q ∷ remove_query pointer rest

unfoldable pub forward_query_destroy : ForwardQuery → Factory → Factory
unfolding remove_query
forward_query_destroy q factory = record factory {
  forward_queries = remove_query q.pointer factory.forward_queries;
}

older : ForwardQuery → Option ForwardQuery → Option ForwardQuery
older query none = some query
older query (some oldest) = if ltb query.acctime oldest.acctime then some query else some oldest

-- The loop of `remove_oldest_forward`.
oldest_of : List ForwardQuery → Option ForwardQuery → Option ForwardQuery
unfolding older
oldest_of [] oldest = oldest
oldest_of (query ∷ rest) oldest = oldest_of rest (older query oldest)

destroy_found : Option ForwardQuery → Factory → Factory × Bool
unfolding forward_query_destroy
destroy_found none factory = (factory, false)
destroy_found (some oldest) factory = (forward_query_destroy oldest factory, true)

unfoldable pub remove_oldest_forward : Factory → Factory × Bool
unfolding oldest_of destroy_found
remove_oldest_forward factory = destroy_found (oldest_of factory.forward_queries none) factory

-- `while (count > SCDM_MAX_FORWARD_QUERIES && remove_oldest_forward (factory)) count--;`
unfoldable pub make_room : (count : ℕ) → Factory → Factory
unfolding remove_oldest_forward
make_room zero factory = factory
make_room (suc count) factory =
    let (smaller, removed) = remove_oldest_forward factory in
    let rest = make_room count smaller in
    if ltb max_forward_queries (suc count) then (if removed then rest else factory) else factory

-- The new query goes to the head; `acctime` stays 0, as `g_new0` leaves it.
unfoldable pub forward_query_create : (mgr_address dsp_address : Address) → Factory → Factory
unfolding make_room
forward_query_create mgr_address dsp_address factory =
    let roomy = make_room (length factory.forward_queries) factory in
    record roomy {
      forward_queries =
          record {
            pointer = roomy.next_pointer;
            acctime = 0;
            dsp_address = dsp_address;
            from_address = mgr_address;
          }
          ∷ roomy.forward_queries;
      next_pointer = suc roomy.next_pointer;
    }

-- The loop of `forward_query_lookup` over a copy of the list: a query for the display is returned,
-- and one before it that is out of date is destroyed.
unfoldable pub lookup_queries :
    Host → Address → List ForwardQuery → Factory → Option ForwardQuery × Factory
unfolding forward_query_destroy
lookup_queries host address [] factory = (none, factory)
lookup_queries host address (q ∷ rest) factory =
    let stale = ltb 0 q.acctime && ltb (q.acctime + forward_query_timeout) host.now in
    let later =
      lookup_queries host address rest
        (if stale then forward_query_destroy q factory else factory) in
    if same_address host q.dsp_address address then (some q, factory) else later

unfoldable pub forward_query_lookup : Host → Address → Factory → Option ForwardQuery × Factory
unfolding lookup_queries
forward_query_lookup host address factory =
    lookup_queries host address factory.forward_queries factory
