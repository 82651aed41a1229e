-- ===== src/Examples/Xdmcp.antt =====
-- Tests of the theorems on the tables and the displays of the XDMCP server.
use scdm.AccessFile
use scdm.Address.{is_local, is_loopback, any_equal, equal}
use scdm.Display.Setup.{prepare, look_for_existing_users}
use scdm.Display.{create_authority, real_prepare, set_status}
use scdm.DisplayStore
use scdm.DisplayStore.Counting.{count_of, Every, Every-new}
use scdm.Examples.{client, manager, own, host, config, empty, request, request_packet}
use scdm.Prelude.{bytes_eq}
use scdm.Prelude.{
  ◌-◌, ◌≤◌, ◌≡◌, refl, true, false, not, Option, none, some, [], ◌∷◌, codes, length, drop, is_some,
  arith, ◌>>=◌,
}
use scdm.Xdmcp.Decode.{decode_packet, opcode_of}
use scdm.Xdmcp.Indirect.{indirect_client_lookup}
use scdm.Xdmcp.Displays.{
  xdmcp_display_prepare, display_new, display_create, get_next_session_serial, first_nonzero,
}
use scdm.Xdmcp.Events.{packet, greeter_gone, Reachable, started, after, happen, start}
use scdm.Xdmcp.Forward.Bounds.{forward_query_create-length}
use scdm.Xdmcp.Forward.Order.{forward_query_create_drops_newest}
use scdm.Xdmcp.Forward.{forward_query_create}
use scdm.Xdmcp.Invariant.Run.{Reachable-IsSound}
use scdm.Xdmcp.Invariant.Survival.{is_display_event, display_events_survive}
use scdm.Xdmcp.Invariant.{IsSound}
use scdm.Xdmcp.Requests.Decision.{answer_request_survives}
use scdm.Xdmcp.Requests.Limits.{pending_limit_never_met, answer_request_keeps_host_limit}
use scdm.Xdmcp.Requests.{
  may_enter, has_mitauth, handle_request, answer_request, request_entered, accept_created,
}
use scdm.Xdmcp.Sessions.Counts.{displays_purge_lem, is_running, is_waiting}
use scdm.Xdmcp.Sessions.{num_displays_from_host, display_dispose_check, displays_purge, is_overdue}
use scdm.Xdmcp.Types.{Factory, max_forward_queries, u32}

or_empty : Option Factory → Factory
or_empty none = empty
or_empty (some factory) = factory

-- The server after a REQUEST.
abbrev requested : Factory
requested = or_empty (happen host (packet request_packet) empty)

some_of : (result : Option Factory) → is_some result ≡ true → result ≡ some (or_empty result)
unfolding or_empty
some_of none e = cc
some_of (some factory) e = refl

request_happens : is_some (happen host (packet request_packet) empty) ≡ true
unfolding happen decode_packet handle_request answer_request display_create start may_enter
    has_mitauth bytes_eq displays_purge DisplayStore.foreach DisplayStore.foreach_remove is_local
    is_loopback any_equal equal num_displays_from_host display_dispose_check get_next_session_serial
    indirect_client_lookup prepare xdmcp_display_prepare create_authority AccessFile.new
    AccessFile.open_file AccessFile.add_display AccessFile.add_display_with_cookie
    AccessFile.get_auth_info_for_display display_new real_prepare set_status look_for_existing_users
    DisplayStore.add opcode_of
request_happens = refl

requested-Reachable : Reachable requested
requested-Reachable =
    after host (packet request_packet) (started config 40 (codes "Linux") (codes "server"))
      (some_of _ request_happens)

Reachable-IsSound_example : IsSound requested
Reachable-IsSound_example = Reachable-IsSound requested requested-Reachable

display_events_survive_example : is_some (happen host (greeter_gone 0) requested) ≡ true
unfolding is_display_event
display_events_survive_example =
    display_events_survive host (greeter_gone 0) requested requested-Reachable refl

answer_request_survives_example : is_some (answer_request host client request empty) ≡ true
answer_request_survives_example =
    answer_request_survives host client request 1 5 empty refl (unfold first_nonzero in refl)

-- One display of a host that may have two.
abbrev answered : Factory
answered = or_empty (answer_request host client request empty)

empty_has_none : num_displays_from_host host client empty ≤ 2
empty_has_none = unfold num_displays_from_host start DisplayStore.foreach in omega arith

answer_request_keeps_host_limit_example : num_displays_from_host host client answered ≤ 2
unfolding start
answer_request_keeps_host_limit_example =
    answer_request_keeps_host_limit host client request empty answered remote empty_has_none
      (some_of _ answer_request_survives_example)
  where
    remote : is_local false (own ∷ []) client ≡ false
    remote = unfold is_local is_loopback any_equal equal bytes_eq in refl

pending_limit_never_met_example : request_entered host client (codes "10.0.0.7") 0 empty ≡ (do
  created ←
      display_create host
        (codes "10.0.0.7")
        client
        0
        (display_dispose_check (codes "10.0.0.7") 0 empty)
  accept_created client created)
pending_limit_never_met_example =
    pending_limit_never_met host client (codes "10.0.0.7") 0 empty
      (unfold start in Every-new (λ d. not (is_waiting d))) (unfold start in omega arith)

displays_purge_lem_example :
    let purged = displays_purge host requested in
    Every (λ d. not (is_overdue host requested d)) purged.store
    × (purged.num_sessions ≡ u32 (count_of is_running purged.store))
    × (purged.num_pending_sessions ≡ u32 (count_of is_waiting purged.store))
displays_purge_lem_example = displays_purge_lem host requested

abbrev forwarded : Factory
forwarded = forward_query_create manager client empty

forward_query_create-length_example : length forwarded.forward_queries ≡ 1
unfolding start
forward_query_create-length_example = forward_query_create-length manager client empty

forward_query_create_drops_newest_example :
    forward_query_create manager client empty ≡ record empty {
      forward_queries =
          record { pointer = 0; acctime = 0; dsp_address = client; from_address = manager }
          ∷ drop (0 - max_forward_queries) [];
      next_pointer = 1;
    }
unfolding start
forward_query_create_drops_newest_example =
    forward_query_create_drops_newest manager client empty tt
