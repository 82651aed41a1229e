-- ===== src/Xdmcp/Decode/Silence.antt =====
-- What a packet from a banned host does: daemon/scdm-xdmcp-display-factory.c.
use scdm.Address.{Address}
use scdm.Prelude.{ℕ, ◌≡◌, refl, Bool, true, false, Option, none, some, if◌then◌else◌}
use scdm.Xdmcp.Decode.{Reads, dispatch}
use scdm.Xdmcp.ForwardQueries.{handle_forward_query}
use scdm.Xdmcp.Manage.{
  handle_manage, handle_managed_forward, handle_got_managed_forward, handle_keepalive,
}
use scdm.Xdmcp.Queries.{handle_broadcast_query, handle_query, handle_indirect_query, send_unwilling}
use scdm.Xdmcp.Requests.{handle_request}
use scdm.Xdmcp.Types.{
  Factory, Host, Opcode, broadcast_query, query, indirect_query, forward_query, willing, unwilling,
  request, accept, decline, manage, refuse, failed, keepalive, alive, managed_forward,
  got_managed_forward,
}

unfoldable pub is_query : Option Opcode → Bool
is_query (some query) = true
is_query _ = false

-- Whatever a host that tcp_wrappers bans sends changes nothing, but for a QUERY, which is answered
-- with UNWILLING.
pub banned_host :
    (host : Host) (address : Address) (opcode : Option Opcode) (len : ℕ) (r : Reads)
    → (factory : Factory) → host.host_allow address ≡ false
    → dispatch host address opcode len r factory
      ≡ some (if is_query opcode then send_unwilling host address factory else factory)
unfolding dispatch is_query handle_broadcast_query handle_query handle_indirect_query
    handle_forward_query handle_request handle_manage handle_managed_forward
    handle_got_managed_forward handle_keepalive
banned_host host address none len r factory banned = refl
banned_host host address (some broadcast_query) len r factory banned = rw banned refl
banned_host host address (some query) len r factory banned = rw banned refl
banned_host host address (some indirect_query) len r factory banned = rw banned refl
banned_host host address (some forward_query) len r factory banned = rw banned refl
banned_host host address (some willing) len r factory banned = refl
banned_host host address (some unwilling) len r factory banned = refl
banned_host host address (some request) len r factory banned = rw banned refl
banned_host host address (some accept) len r factory banned = refl
banned_host host address (some decline) len r factory banned = refl
banned_host host address (some manage) len r factory banned = rw banned refl
banned_host host address (some refuse) len r factory banned = refl
banned_host host address (some failed) len r factory banned = refl
banned_host host address (some keepalive) len r factory banned = rw banned refl
banned_host host address (some alive) len r factory banned = refl
banned_host host address (some managed_forward) len r factory banned = rw banned refl
banned_host host address (some got_managed_forward) len r factory banned = rw banned refl
