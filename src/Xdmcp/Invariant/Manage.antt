-- ===== src/Xdmcp/Invariant/Manage.antt =====
-- MANAGE, KEEPALIVE and the acknowledgements keep the invariant:
-- daemon/scdm-xdmcp-display-factory.c.
use scdm.Address.{Address}
use scdm.Display.Setup.{manage, is_greeter}
use scdm.Display.{
  Display, Status, prepared, managed, unmanaged, waiting_to_finish, finished, failed, status_eq,
}
use scdm.Prelude.{
  ℕ, ◌≡◌, refl, Bool, true, false, Option, none, some, if◌then◌else◌, Bytes, ◌==◌, Bool-cases, inl,
  inr,
}
use scdm.Xdmcp.Displays.Settled.{is_settled}
use scdm.Xdmcp.Displays.{xdmcp_display_class, xdmcp_display_manage}
use scdm.Xdmcp.Indirect.{indirect_client_lookup_by_chosen}
use scdm.Xdmcp.Invariant.Displays.{resolve_forward-IsSound}
use scdm.Xdmcp.Invariant.Handlers.{flush-IsSound}
use scdm.Xdmcp.Invariant.Steps.{
  forward_query_lookup-IsSound, indirect_client_lookup-IsSound, indirect_client_destroy-IsSound,
  whack-IsSound, replace-IsSound, searched-is_settled,
}
use scdm.Xdmcp.Invariant.{IsSound, StaysSound, if-IsSound, if-StaysSound, some-StaysSound}
use scdm.Xdmcp.Manage.{
  ManageRead, send_refuse, drop_chosen, settle_indirect, move_session, store_managed,
  manage_prepared, manage_found, manage_read, read_sessid, handle_manage, handle_managed_forward,
  managed_forward_read, destroy_client, handle_got_managed_forward, got_managed_forward_read,
  handle_keepalive, send_alive, read_address,
}
use scdm.Xdmcp.Send.{send_failed, send_got_managed_forward}
use scdm.Xdmcp.Sessions.{display_lookup}
use scdm.Xdmcp.Types.{Factory, Host, IndirectClient}

send_refuse-IsSound :
    (host : Host) (address : Address) (sessid : ℕ) (factory : Factory)
    → IsSound factory
    → IsSound (send_refuse host address sessid factory)
unfolding send_refuse
send_refuse-IsSound host address sessid factory h =
    resolve_forward-IsSound address _ _
      (forward_query_lookup-IsSound host address _ (flush-IsSound _ _ factory h))

drop_chosen-IsSound :
    (found : Option IndirectClient) (factory : Factory)
    → IsSound factory
    → IsSound (drop_chosen (found, factory))
unfolding drop_chosen
drop_chosen-IsSound none factory h = h
drop_chosen-IsSound (some ic) factory h =
    if-IsSound _ _ _ (indirect_client_destroy-IsSound ic factory h) h

settle_indirect-IsSound :
    (host : Host) (address : Address) (factory : Factory)
    → IsSound factory
    → IsSound (settle_indirect host address factory)
unfolding settle_indirect
settle_indirect-IsSound host address factory h =
    if-IsSound _ _ factory.honor_indirect
      (drop_chosen-IsSound _ _ (indirect_client_lookup-IsSound host address factory h)) h

store_managed-IsSound :
    (address : Address) (sessid : ℕ) (display : Display) (ok : Bool) (factory : Factory)
    → is_settled display ≡ true
    → IsSound factory
    → IsSound (store_managed address sessid (display, ok) factory)
unfolding store_managed
store_managed-IsSound address sessid display ok factory s h =
    let kept = replace-IsSound display.id display factory s h in
    if-IsSound _ _ ok kept (unfold send_failed in flush-IsSound _ _ _ kept)

move_session-IsSound : (factory : Factory) → IsSound factory → IsSound (move_session factory)
unfolding IsSound move_session
move_session-IsSound factory h = h

not_unmanaged : (s : Status) → status_eq s prepared ≡ true → status_eq s unmanaged ≡ false
unfolding status_eq
not_unmanaged unmanaged e = cc
not_unmanaged prepared e = refl
not_unmanaged managed e = refl
not_unmanaged waiting_to_finish e = refl
not_unmanaged finished e = refl
not_unmanaged failed e = refl

-- A prepared display gets its timeout, if it is a greeter's.
manage_lem :
    (host : Host) (display : Display)
    → status_eq display.status prepared ≡ true
    → is_settled display ≡ true
    → (d : Display) × (manage host.setup (xdmcp_display_class host.xauth) display ≡ some (d, true))
      × (is_settled d ≡ true)
unfolding manage is_settled
manage_lem host display p s = (
  started (is_greeter display.session_class),
  rw (not_unmanaged display.status p) refl,
  settled (is_greeter display.session_class),
)
  where
    started : Bool → Display
    started b = if b then xdmcp_display_manage display else display

    settled : (b : Bool) → is_settled (started b) ≡ true
    settled true = unfold xdmcp_display_manage in s
    settled false = s

manage_prepared-StaysSound :
    (host : Host) (address : Address) (sessid : ℕ) (display : Display) (factory : Factory)
    → status_eq display.status prepared ≡ true
    → is_settled display ≡ true
    → IsSound factory
    → StaysSound (manage_prepared host address sessid display factory)
unfolding manage_prepared
manage_prepared-StaysSound host address sessid display factory p s h =
    let (d, managed_, settled) = manage_lem host display p s in
    let resolved = resolve_forward-IsSound address _ _ (
      forward_query_lookup-IsSound host address _
        (settle_indirect-IsSound host address factory h)) in
    rw managed_ (
      some-StaysSound _
        (store_managed-IsSound address sessid d true _ settled (move_session-IsSound _ resolved)))

manage_found-StaysSound :
    (host : Host) (address : Address) (sessid : ℕ) (found : Option Display) (factory : Factory)
    → ((d : Display) → found ≡ some d → is_settled d ≡ true)
    → IsSound factory
    → StaysSound (manage_found host address sessid found factory)
unfolding manage_found
manage_found-StaysSound host address sessid none factory s h =
    some-StaysSound _ (send_refuse-IsSound host address sessid factory h)
manage_found-StaysSound host address sessid (some display) factory s h =
    elim (Bool-cases (status_eq display.status prepared)) [
      | inl e ↦
          rw e (manage_prepared-StaysSound host address sessid display factory e (s display refl) h)
      | inr e ↦ rw e (
          if-StaysSound _ _ (status_eq display.status managed) (some-StaysSound factory h)
            (some-StaysSound _ (send_refuse-IsSound host address sessid factory h)))
    ]

nothing : (d : Display) → ¬ (Path (Option Display) none (some d))
nothing d e = cc

display_lookup-is_settled :
    (sessid : ℕ) (factory : Factory)
    → IsSound factory
    → (d : Display) → display_lookup sessid factory ≡ some d
    → is_settled d ≡ true
unfolding display_lookup
display_lookup-is_settled sessid factory h d found = elim (Bool-cases (sessid == 0)) [
  | inl e ↦ absurd (nothing d (rw e at found))
  | inr e ↦ searched-is_settled _ d factory h (rw e at found)
]

manage_read-StaysSound :
    (host : Host) (address : Address) (read : Option ℕ) (factory : Factory)
    → IsSound factory
    → StaysSound (manage_read host address read factory)
unfolding manage_read
manage_read-StaysSound host address none factory h = some-StaysSound _ h
manage_read-StaysSound host address (some sessid) factory h =
    manage_found-StaysSound host address sessid (display_lookup sessid factory) factory
      (display_lookup-is_settled sessid factory h) h

pub handle_manage-StaysSound :
    (host : Host) (address : Address) (r : ManageRead) (factory : Factory)
    → IsSound factory
    → StaysSound (handle_manage host address r factory)
unfolding handle_manage
handle_manage-StaysSound host address r factory h =
    if-StaysSound _ _ (host.host_allow address)
      (manage_read-StaysSound host address (read_sessid r) factory h) (some-StaysSound factory h)

-- The acknowledgements and KEEPALIVE.
managed_forward_read-IsSound :
    (host : Host) (address : Address) (read : Option Address) (factory : Factory)
    → IsSound factory
    → IsSound (managed_forward_read host address read factory)
unfolding managed_forward_read
managed_forward_read-IsSound host address none factory h = h
managed_forward_read-IsSound host address (some disp) factory h =
    unfold send_got_managed_forward in
    flush-IsSound _ _ _ (go (indirect_client_lookup_by_chosen host address disp factory))
  where
    go : (found : Option IndirectClient) → IsSound (destroy_client found factory)
    go none = unfold destroy_client in h
    go (some ic) = unfold destroy_client in indirect_client_destroy-IsSound ic factory h

pub handle_managed_forward-IsSound :
    (host : Host) (address : Address) (clnt_address : Option Bytes) (factory : Factory)
    → IsSound factory
    → IsSound (handle_managed_forward host address clnt_address factory)
unfolding handle_managed_forward
handle_managed_forward-IsSound host address clnt_address factory h =
    if-IsSound _ _ _
      (managed_forward_read-IsSound host address (read_address host address clnt_address) factory h)
      h

got_managed_forward_read-IsSound :
    (host : Host) (address : Address) (read : Option Address) (factory : Factory)
    → IsSound factory
    → IsSound (got_managed_forward_read host address read factory)
unfolding got_managed_forward_read
got_managed_forward_read-IsSound host address none factory h = h
got_managed_forward_read-IsSound host address (some disp) factory h =
    whack-IsSound host address disp factory h

pub handle_got_managed_forward-IsSound :
    (host : Host) (address : Address) (clnt_address : Option Bytes) (factory : Factory)
    → IsSound factory
    → IsSound (handle_got_managed_forward host address clnt_address factory)
unfolding handle_got_managed_forward
handle_got_managed_forward-IsSound host address clnt_address factory h =
    if-IsSound _ _ _
      (got_managed_forward_read-IsSound host address (read_address host address clnt_address)
        factory h)
      h

pub send_alive-IsSound :
    (host : Host) (address : Address) (dspnum sessid : ℕ) (factory : Factory)
    → IsSound factory
    → IsSound (send_alive host address dspnum sessid factory)
unfolding send_alive
send_alive-IsSound host address dspnum sessid factory h = flush-IsSound _ _ factory h

pub handle_keepalive-IsSound :
    (host : Host) (address : Address) (read : Option (ℕ × ℕ)) (factory : Factory)
    → IsSound factory
    → IsSound (handle_keepalive host address read factory)
unfolding handle_keepalive
handle_keepalive-IsSound host address none factory h = if-IsSound _ _ _ h h
handle_keepalive-IsSound host address (some (dspnum, sessid)) factory h =
    if-IsSound _ _ _ (send_alive-IsSound host address dspnum sessid factory h) h
