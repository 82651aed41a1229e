-- ===== src/Examples/Packets.antt =====
-- Tests of the theorems on the packets of XDMCP and on the tables of the server.
use scdm.Address.{Address, equal}
use scdm.Examples.{client, manager, host, empty, reads}
use scdm.Prelude.{ℕ, ◌+◌, ◌≡◌, ◌≢◌, refl, true, false, some, [], ◌∷◌, Bytes, bytes_eq, arith}
use scdm.Xdmcp.Decode.Silence.{is_query, banned_host}
use scdm.Xdmcp.Decode.{dispatch}
use scdm.Xdmcp.Displays.Serials.{session_serial_ne_zero}
use scdm.Xdmcp.Displays.{get_next_session_serial}
use scdm.Xdmcp.Events.{start}
use scdm.Xdmcp.ForwardQueries.Checksum.{forward_query_accepted}
use scdm.Xdmcp.ForwardQueries.{forward_expected_length}
use scdm.Xdmcp.Indirect.Laws.{indirect_client_choice}
use scdm.Xdmcp.Indirect.{
  indirect_client_create, indirect_client_destroy, indirect_client_lookup_by_chosen,
  on_hostname_selected,
}
use scdm.Xdmcp.Managed.Laws.{send_managed_forward_thrice, resent}
use scdm.Xdmcp.Managed.{send_managed_forward, managed_forward_handler}
use scdm.Xdmcp.Queries.{send_unwilling}
use scdm.Xdmcp.Send.Lengths.{alive, Standard-DeclaresItsSize, managed_forward_overstated}
use scdm.Xdmcp.Send.{
  alive_packet, managed_forward_packet, got_managed_forward_packet, forward_query_packet,
  address_for_request,
}
use scdm.Xdmcp.Types.{
  Factory, Host, IndirectClient, query, Packet, DeclaresItsSize, wire_size, u16, same_address,
}

abbrev client_bytes : Bytes
client_bytes = 10 ∷ 0 ∷ 0 ∷ 7 ∷ []

abbrev xdmcp_port : Bytes
xdmcp_port = 0 ∷ 177 ∷ []

abbrev first_serial : ℕ
first_serial = 40

abbrev banned : Host
banned = record host { host_allow = λ address. false }

banned_host_example :
    dispatch banned client (some query) 1 reads empty ≡ some (send_unwilling banned client empty)
unfolding is_query
banned_host_example = banned_host banned client (some query) 1 reads empty refl

Standard-DeclaresItsSize_example : DeclaresItsSize (alive_packet 1 40)
Standard-DeclaresItsSize_example = Standard-DeclaresItsSize (alive 1 40)

managed_forward_overstated_example :
    let addr = client_bytes in
    ((managed_forward_packet addr).length
      ≡ u16 (wire_size (managed_forward_packet addr).fields + 2))
    × (¬ DeclaresItsSize (managed_forward_packet addr))
    × ((got_managed_forward_packet addr).length
        ≡ u16 (wire_size (got_managed_forward_packet addr).fields + 2))
    × (¬ DeclaresItsSize (got_managed_forward_packet addr))
managed_forward_overstated_example = managed_forward_overstated client_bytes

same_client : same_address host client client ≡ true
unfolding equal bytes_eq
same_client = refl

same_manager : same_address host manager manager ≡ true
unfolding equal bytes_eq
same_manager = refl

indirect_client_choice_example :
    let created = indirect_client_create client empty in
    (after : Factory) × (ic : IndirectClient) × (on_hostname_selected host client
        (10 ∷ 0 ∷ 0 ∷ 9 ∷ [])
        created
      ≡ some after)
    × (indirect_client_lookup_by_chosen host manager client after ≡ some ic)
    × (ic.chosen_address ≡ some manager)
    × ((indirect_client_destroy ic after).indirect_clients ≡ empty.indirect_clients)
indirect_client_choice_example =
    indirect_client_choice host client manager (10 ∷ 0 ∷ 0 ∷ 9 ∷ []) empty same_client same_manager
      refl

send_managed_forward_thrice_example :
    let packet : Address × Packet =
      (manager, managed_forward_packet (address_for_request client)) in
    let first = managed_forward_handler 0 (send_managed_forward manager client empty) in
    let second = managed_forward_handler 0 first.0 in
    (first.1 ≡ true)
    × (second.1 ≡ false)
    × (second.0.sent ≡ resent 3 packet [])
    × (second.0.managed_forwards ≡ [])
unfolding start
send_managed_forward_thrice_example = send_managed_forward_thrice manager client empty refl

forward_query_accepted_example :
    let addr = client_bytes in
    let port = xdmcp_port in
    (forward_query_packet addr port []).length
    ≡ forward_expected_length (record { clnt_addr = addr; clnt_port = port; clnt_authlist = [] })
forward_query_accepted_example =
    forward_query_accepted client_bytes xdmcp_port []
      (unfold forward_query_packet wire_size in omega arith)

session_serial_ne_zero_example : first_serial ≢ 0
session_serial_ne_zero_example =
    session_serial_ne_zero [] empty (record empty { session_serial = 41 }) 40
      (unfold get_next_session_serial start in refl)
