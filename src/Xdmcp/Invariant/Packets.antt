-- ===== src/Xdmcp/Invariant/Packets.antt =====
-- Every packet keeps the invariant: daemon/scdm-xdmcp-display-factory.c.
use scdm.Address.{Address, new_from_sockaddr}
use scdm.Prelude.{ℕ, not, Option, none, some}
use scdm.Xdmcp.Decode.{
  Datagram, Reads, decode_packet, decode_header, dispatch, dispatch_from, opcode_of,
}
use scdm.Xdmcp.Invariant.Displays.{handle_request-StaysSound}
use scdm.Xdmcp.Invariant.Handlers.{
  handle_broadcast_query-IsSound, handle_query-IsSound, handle_indirect_query-StaysSound,
  handle_forward_query-IsSound,
}
use scdm.Xdmcp.Invariant.Manage.{
  handle_manage-StaysSound, handle_managed_forward-IsSound, handle_got_managed_forward-IsSound,
  handle_keepalive-IsSound,
}
use scdm.Xdmcp.Invariant.{IsSound, StaysSound, if-StaysSound, some-StaysSound}
use scdm.Xdmcp.Types.{
  Factory, Host, Config, Opcode, broadcast_query, query, indirect_query, forward_query, willing,
  unwilling, request, accept, decline, manage, refuse, keepalive, alive, managed_forward,
  got_managed_forward,
}
use scdm.Xdmcp.Types

dispatch-StaysSound :
    (host : Host) (address : Address) (opcode : Option Opcode) (len : ℕ) (r : Reads)
    (factory : Factory)
    → IsSound factory
    → StaysSound (dispatch host address opcode len r factory)
unfolding dispatch
dispatch-StaysSound host address none len r factory h = some-StaysSound factory h
dispatch-StaysSound host address (some broadcast_query) len r factory h =
    some-StaysSound _ (handle_broadcast_query-IsSound host address len r.authlist factory h)
dispatch-StaysSound host address (some query) len r factory h =
    some-StaysSound _ (handle_query-IsSound host address len r.authlist factory h)
dispatch-StaysSound host address (some indirect_query) len r factory h =
    handle_indirect_query-StaysSound host address len r.authlist factory h
dispatch-StaysSound host address (some forward_query) len r factory h =
    some-StaysSound _ (handle_forward_query-IsSound host address len r.forward factory h)
dispatch-StaysSound host address (some willing) len r factory h = some-StaysSound factory h
dispatch-StaysSound host address (some unwilling) len r factory h = some-StaysSound factory h
dispatch-StaysSound host address (some request) len r factory h =
    handle_request-StaysSound host address len r.request factory h
dispatch-StaysSound host address (some accept) len r factory h = some-StaysSound factory h
dispatch-StaysSound host address (some decline) len r factory h = some-StaysSound factory h
dispatch-StaysSound host address (some manage) len r factory h =
    handle_manage-StaysSound host address r.manage factory h
dispatch-StaysSound host address (some refuse) len r factory h = some-StaysSound factory h
dispatch-StaysSound host address (some Types.failed) len r factory h = some-StaysSound factory h
dispatch-StaysSound host address (some keepalive) len r factory h =
    some-StaysSound _ (handle_keepalive-IsSound host address r.session factory h)
dispatch-StaysSound host address (some alive) len r factory h = some-StaysSound factory h
dispatch-StaysSound host address (some managed_forward) len r factory h =
    some-StaysSound _ (handle_managed_forward-IsSound host address r.display_address factory h)
dispatch-StaysSound host address (some got_managed_forward) len r factory h =
    some-StaysSound _ (handle_got_managed_forward-IsSound host address r.display_address factory h)

pub decode_packet-StaysSound :
    (host : Host) (d : Datagram) (factory : Factory)
    → IsSound factory
    → StaysSound (decode_packet host d factory)
unfolding decode_packet
decode_packet-StaysSound host d factory h =
    if-StaysSound _ _ (not d.is_input) same
      (if-StaysSound _ _ (not d.is_filled) same (header d.header))
  where
    same : StaysSound (some factory)
    same = some-StaysSound factory h

    from :
        (address : Option Address) (opcode : Option Opcode) (len : ℕ)
        → StaysSound (dispatch_from host address opcode len d.reads factory)
    from none opcode len = unfold dispatch_from in same
    from (some address) opcode len =
        unfold dispatch_from in dispatch-StaysSound host address opcode len d.reads factory h

    header : (read : Option (ℕ × ℕ × ℕ)) → StaysSound (decode_header host d read factory)
    header none = unfold decode_header in same
    header (some (version, opcode, len)) =
        unfold decode_header in
        if-StaysSound _ _ _ same
          (from (new_from_sockaddr d.sender d.sender_size) (opcode_of opcode) len)
