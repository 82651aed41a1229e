-- ===== src/Xdmcp/Forward/Order.antt =====
-- Which forwarded query gives way, and when one expires: daemon/scdm-xdmcp-display-factory.c. No
-- statement of the file but the two that clear it assigns `acctime`.
use scdm.Address.{Address}
use scdm.Prelude.{
  ℕ, zero, suc, ◌-◌, inl, inr, drop, ◌≡◌, refl, true, some, List, [], ◌∷◌, arith, ltb, length, find,
  All, Bool-cases, ==_refl,
}
use scdm.Xdmcp.Forward.{
  remove_query, oldest_of, remove_oldest_forward, make_room, forward_query_create,
  forward_query_destroy, forward_query_lookup, lookup_queries,
}
use scdm.Xdmcp.Types.{Factory, ForwardQuery, Host, same_address, max_forward_queries}

-- No query has a time.
abbrev pub Untimed : List ForwardQuery → Type 0
Untimed = All (λ q. q.acctime ≡ 0)

remove_query-Untimed :
    (pointer : ℕ) (qs : List ForwardQuery) → Untimed qs → Untimed (remove_query pointer qs)
unfolding remove_query
remove_query-Untimed pointer [] h = tt
remove_query-Untimed pointer (q ∷ rest) h = ground (arith, h, remove_query-Untimed pointer rest h.1)

oldest_of-Untimed :
    (qs : List ForwardQuery) (o : ForwardQuery) → o.acctime ≡ 0 → oldest_of qs (some o) ≡ some o
unfolding oldest_of
oldest_of-Untimed [] o z = refl
oldest_of-Untimed (q ∷ rest) o z = ground (arith, z, oldest_of-Untimed rest o z)

remove_oldest-Untimed :
    (factory : Factory) (q : ForwardQuery) (rest : List ForwardQuery)
    → factory.forward_queries ≡ q ∷ rest
    → q.acctime ≡ 0
    → remove_oldest_forward factory ≡ (record factory { forward_queries = rest }, true)
unfolding remove_oldest_forward remove_query
remove_oldest-Untimed factory q rest e z =
    ground (arith, e, oldest_of-Untimed rest q z, ==_refl q.pointer)

make_room_drops :
    (count : ℕ) (factory : Factory) (qs : List ForwardQuery)
    → factory.forward_queries ≡ qs
    → length qs ≡ count
    → Untimed qs
    → make_room count factory
      ≡ record factory { forward_queries = drop (count - max_forward_queries) qs }
unfolding make_room
make_room_drops zero factory [] e c h = ground (arith, e)
make_room_drops zero factory (q ∷ rest) e c h = absurd (omega arith)
make_room_drops (suc count) factory [] e c h = absurd (omega arith)
make_room_drops (suc count) factory (q ∷ rest) e c h =
    elim (Bool-cases (ltb max_forward_queries (suc count))) [
      | inl more ↦
          (let longer : suc count - max_forward_queries ≡ suc (count - max_forward_queries) =
              ground arith in
            rw (more, remove_oldest-Untimed factory q rest e h.0, longer)
              (make_room_drops count (record factory { forward_queries = rest }) rest refl
                (omega arith) h.1))
      | inr less ↦
          (let none_over : suc count - max_forward_queries ≡ 0 = ground arith in
            rw (less, none_over) (λ i. record factory { forward_queries = e i }))
    ]

-- With no times in the table the search for the oldest query finds the head, which is the newest:
-- a new query takes the place of those that were added last, and the oldest ones stay. Nothing else
-- changes but the next pointer.
pub forward_query_create_drops_newest :
    (mgr_address dsp_address : Address) (factory : Factory)
    → Untimed factory.forward_queries
    → let qs = factory.forward_queries in
      forward_query_create mgr_address dsp_address factory ≡ record factory {
        forward_queries =
            record {
              pointer = factory.next_pointer;
              acctime = 0;
              dsp_address = dsp_address;
              from_address = mgr_address;
            }
            ∷ drop (length qs - max_forward_queries) qs;
        next_pointer = suc factory.next_pointer;
      }
unfolding forward_query_create
forward_query_create_drops_newest mgr_address dsp_address factory h =
    rw
      (make_room_drops (length factory.forward_queries) factory factory.forward_queries refl refl h)

drop-Untimed : (n : ℕ) (qs : List ForwardQuery) → Untimed qs → Untimed (drop n qs)
drop-Untimed zero qs h = h
drop-Untimed (suc n) [] h = tt
drop-Untimed (suc n) (q ∷ rest) h = drop-Untimed n rest h.1

pub forward_query_create-Untimed :
    (mgr_address dsp_address : Address) (factory : Factory)
    → Untimed factory.forward_queries
    → Untimed (forward_query_create mgr_address dsp_address factory).forward_queries
forward_query_create-Untimed mgr_address dsp_address factory h =
    rw (forward_query_create_drops_newest mgr_address dsp_address factory h)
      (refl, drop-Untimed (length factory.forward_queries - max_forward_queries) _ h)

lookup_queries-Untimed :
    (host : Host) (address : Address) (qs : List ForwardQuery) (factory : Factory)
    → Untimed qs
    → lookup_queries host address qs factory
      ≡ (find (λ q. same_address host q.dsp_address address) qs, factory)
unfolding lookup_queries
lookup_queries-Untimed host address [] factory h = refl
lookup_queries-Untimed host address (q ∷ rest) factory h =
    ground (arith, h, lookup_queries-Untimed host address rest factory h.1)

-- With no times in the table a lookup, however late, drops no query: it finds the first query for
-- the display and leaves the factory as it was.
pub forward_query_lookup_never_expires :
    (host : Host) (address : Address) (factory : Factory)
    → Untimed factory.forward_queries
    → forward_query_lookup host address factory
      ≡ (find (λ q. same_address host q.dsp_address address) factory.forward_queries, factory)
unfolding forward_query_lookup
forward_query_lookup_never_expires host address factory h =
    lookup_queries-Untimed host address factory.forward_queries factory h

pub forward_query_destroy-Untimed :
    (q : ForwardQuery) (factory : Factory)
    → Untimed factory.forward_queries
    → Untimed (forward_query_destroy q factory).forward_queries
unfolding forward_query_destroy
forward_query_destroy-Untimed q factory h = remove_query-Untimed q.pointer _ h
