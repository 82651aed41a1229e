-- ===== src/Xdmcp/Forward/Bounds.antt =====
-- How long the table of forwarded queries gets: daemon/scdm-xdmcp-display-factory.c.
use Prim.Native.Nat.{min}
use scdm.Address.{Address}
use scdm.Prelude.{
  ℕ, zero, suc, ◌≤◌, ◌≡◌, refl, ap, ◌⊎◌, inl, inr, true, some, List, [], ◌∷◌, arith, ltb, length,
  Bool-cases,
}
use scdm.Xdmcp.Forward.{
  remove_query, oldest_of, remove_oldest_forward, make_room, forward_query_create,
  forward_query_destroy,
}
use scdm.Xdmcp.Types.{Factory, ForwardQuery, max_forward_queries}

-- A pointer of the table.
abbrev Holds : ℕ → List ForwardQuery → Type 0
Holds pointer [] = ⊥
Holds pointer (q ∷ rest) = (q.pointer ≡ pointer) ⊎ Holds pointer rest

length-remove_query :
    (pointer : ℕ) (qs : List ForwardQuery)
    → Holds pointer qs
    → suc (length (remove_query pointer qs)) ≡ length qs
unfolding remove_query
length-remove_query pointer [] h = absurd h
length-remove_query pointer (q ∷ rest) (inl e) = ground (arith, e)
length-remove_query pointer (q ∷ rest) (inr h) = ground (arith, length-remove_query pointer rest h)

-- What the search returns is its start or one of the table.
oldest_of-Holds :
    (qs : List ForwardQuery) (o q : ForwardQuery)
    → oldest_of qs (some o) ≡ some q
    → (o.pointer ≡ q.pointer) ⊎ Holds q.pointer qs
unfolding oldest_of
oldest_of-Holds [] o q e = inl (ground (arith, e))
oldest_of-Holds (x ∷ rest) o q e = elim (Bool-cases (ltb x.acctime o.acctime)) [
  | inl t ↦ inr (oldest_of-Holds rest x q (rw t at e))
  | inr f ↦ elim (oldest_of-Holds rest o q (rw f at e)) [ inl h ↦ inl h | inr h ↦ inr (inr h) ]
]

oldest_of-some :
    (qs : List ForwardQuery) (o : ForwardQuery)
    → (q : ForwardQuery) × (oldest_of qs (some o) ≡ some q)
unfolding oldest_of
oldest_of-some [] o = (o, refl)
oldest_of-some (x ∷ rest) o = elim (Bool-cases (ltb x.acctime o.acctime)) [
  | inl t ↦ rw t (oldest_of-some rest x)
  | inr f ↦ rw f (oldest_of-some rest o)
]

-- A table that is not empty loses one query.
remove_oldest-length :
    (factory : Factory) (q : ForwardQuery) (rest : List ForwardQuery)
    → factory.forward_queries ≡ q ∷ rest
    → ((remove_oldest_forward factory).1 ≡ true)
      × (length (remove_oldest_forward factory).0.forward_queries ≡ length rest)
unfolding remove_oldest_forward
remove_oldest-length factory q rest e =
    let (o, found) = oldest_of-some rest q in
    let gone = length-remove_query o.pointer (q ∷ rest) (oldest_of-Holds rest q o found) in
    ground (arith, e, found, gone)

make_room-length :
    (count : ℕ) (factory : Factory)
    → length factory.forward_queries ≡ count
    → length (make_room count factory).forward_queries ≡ min count max_forward_queries
unfolding make_room
make_room-length zero factory e = omega arith
make_room-length (suc count) factory e =
    go factory.forward_queries refl (make_room-length count (remove_oldest_forward factory).0)
  where
    smaller : Factory
    smaller = (remove_oldest_forward factory).0

    go :
        (qs : List ForwardQuery)
        → factory.forward_queries ≡ qs
        → (length smaller.forward_queries ≡ count
            → length (make_room count smaller).forward_queries ≡ min count max_forward_queries)
        → length (make_room (suc count) factory).forward_queries
          ≡ min (suc count) max_forward_queries
    go [] empty rest_of = absurd (omega (arith, ap length empty))
    go (q ∷ rest) full rest_of =
        let (removed, shorter) = remove_oldest-length factory q rest full in
        let counted = ap length full in
        let later = rest_of (omega arith) in ground (arith, removed, shorter, counted, later)

-- The loop that makes room ends with the table at its limit or below it, so that a new query never
-- makes it longer than one more than the limit.
pub forward_query_create-length :
    (mgr_address dsp_address : Address) (factory : Factory)
    → length (forward_query_create mgr_address dsp_address factory).forward_queries
      ≡ suc (min (length factory.forward_queries) max_forward_queries)
unfolding forward_query_create
forward_query_create-length mgr_address dsp_address factory =
    omega (arith, make_room-length (length factory.forward_queries) factory refl)

length-remove_query_le :
    (pointer : ℕ) (qs : List ForwardQuery) → length (remove_query pointer qs) ≤ length qs
unfolding remove_query
length-remove_query_le pointer [] = omega arith
length-remove_query_le pointer (q ∷ rest) = ground (arith, length-remove_query_le pointer rest)

pub forward_query_destroy-length_le :
    (q : ForwardQuery) (factory : Factory)
    → length (forward_query_destroy q factory).forward_queries ≤ length factory.forward_queries
unfolding forward_query_destroy
forward_query_destroy-length_le q factory = length-remove_query_le q.pointer factory.forward_queries
