-- ===== src/Xdmcp/Send/Lengths.antt =====
-- What the headers of the packets of daemon/scdm-xdmcp-display-factory.c declare.
use scdm.Prelude.{ℕ, ◌+◌, ◌<◌, ◌≡◌, List, [], ◌∷◌, arith, Bytes, length}
use scdm.Xdmcp.Send.{
  willing_packet, unwilling_packet, forward_query_packet, add_authlist, managed_forward_packet,
  got_managed_forward_packet, decline_packet, accept_packet, failed_packet, refuse_packet,
  alive_packet,
}
use scdm.Xdmcp.Types.{u16, Packet, array8_size, wire_size, DeclaresItsSize}

add_authlist_lem :
    (n : ℕ) (authlist : List Bytes) → u16 (add_authlist n authlist) ≡ u16 (n + array8_size authlist)
unfolding add_authlist array8_size
add_authlist_lem n [] = omega arith
add_authlist_lem n (a ∷ rest) =
    omega (arith, add_authlist_lem (u16 (n + (2 + u16 (length a)))) rest)

add_authlist-lt : (n : ℕ) (authlist : List Bytes) → n < 65536 → add_authlist n authlist < 65536
unfolding add_authlist
add_authlist-lt n [] h = h
add_authlist-lt n (a ∷ rest) h = add_authlist-lt (u16 (n + (2 + u16 (length a)))) rest (omega arith)

forward_query-DeclaresItsSize :
    (addr port : Bytes) (authlist : List Bytes)
    → DeclaresItsSize (forward_query_packet addr port authlist)
unfolding DeclaresItsSize forward_query_packet wire_size
forward_query-DeclaresItsSize addr port authlist =
    let n = u16 (u16 (u16 (2 + u16 (length addr)) + (2 + u16 (length port))) + 1) in
    omega (arith, add_authlist_lem n authlist, add_authlist-lt n authlist (omega arith))

-- The packets of XDMCP that this program sends.
pub data Standard : Packet → Type 0 where
  willing : (servhost status : Bytes) → Standard (willing_packet servhost status)
  unwilling : (servhost : Bytes) → Standard (unwilling_packet servhost)
  forward_query :
      (addr port : Bytes) (authlist : List Bytes)
      → Standard (forward_query_packet addr port authlist)
  decline : (reason : Bytes) → Standard (decline_packet reason)
  accept : (id : ℕ) (n d z e : Bytes) → Standard (accept_packet id n d z e)
  failed : (id : ℕ) → Standard (failed_packet id)
  refuse : (id : ℕ) → Standard (refuse_packet id)
  alive : (running id : ℕ) → Standard (alive_packet running id)

-- Each of them declares the number of bytes that its values take, in the 16 bits of the header.
pub Standard-DeclaresItsSize : {packet : Packet} → Standard packet → DeclaresItsSize packet
unfolding DeclaresItsSize willing_packet unwilling_packet decline_packet accept_packet failed_packet
    refuse_packet alive_packet wire_size
Standard-DeclaresItsSize (willing servhost status) = omega arith
Standard-DeclaresItsSize (unwilling servhost) = omega arith
Standard-DeclaresItsSize (forward_query addr port authlist) =
    forward_query-DeclaresItsSize addr port authlist
Standard-DeclaresItsSize (decline reason) = omega arith
Standard-DeclaresItsSize (accept id n d z e) = omega arith
Standard-DeclaresItsSize (failed id) = omega arith
Standard-DeclaresItsSize (refuse id) = omega arith
Standard-DeclaresItsSize (alive running id) = omega arith

-- MANAGED_FORWARD and GOT_MANAGED_FORWARD declare two bytes more than they carry, for every
-- address, so none of them declares its size.
pub managed_forward_overstated :
    (addr : Bytes)
    → ((managed_forward_packet addr).length
        ≡ u16 (wire_size (managed_forward_packet addr).fields + 2))
      × (¬ DeclaresItsSize (managed_forward_packet addr))
      × ((got_managed_forward_packet addr).length
          ≡ u16 (wire_size (got_managed_forward_packet addr).fields + 2))
      × (¬ DeclaresItsSize (got_managed_forward_packet addr))
unfolding managed_forward_packet got_managed_forward_packet DeclaresItsSize wire_size
managed_forward_overstated addr = (omega arith, omega arith, omega arith, omega arith)
