-- ===== src/Xdmcp/Requests/Limits.antt =====
-- The limits on displays that a REQUEST meets: daemon/scdm-xdmcp-display-factory.c.
use scdm.Address.{Address}
use scdm.Display.{Display}
use scdm.DisplayStore
use scdm.DisplayStore.Counting.{count_of, count_of_none, Every, Every-foreach_remove}
use scdm.Prelude.{
  ℕ, ◌<◌, ◌≤◌, ◌≡◌, ◌∙◌, refl, Bool, true, false, not, ◌&&◌, ◌||◌, Option, none, some, ap, ◌%◌,
  arith, ltb, leb, if◌then◌else◌, Bytes, codes, ◌>>=◌,
}
use scdm.Xdmcp.Displays.{display_create}
use scdm.Xdmcp.Requests.{
  Request, answer_request, request_entered, accept_created, send_decline, may_enter, has_mitauth,
  refusal,
}
use scdm.Xdmcp.Requests.Room.{
  AtMost, CreatedAtMost, if-AtMost, AtMost-some, some-AtMost, display_create-AtMost,
  accept_created-AtMost, send_decline_store,
}
use scdm.Xdmcp.Sessions.Counts.{
  is_waiting, recount_sessions_lem, num_displays_from_host-count_of,
  num_displays_from_host-display_dispose_check_le,
}
use scdm.Xdmcp.Sessions.{display_dispose_check, is_display_of, num_displays_from_host, is_from_host}
use scdm.Xdmcp.Types.{Factory, Host, is_local_address}

-- With no unmanaged display in the store, a limit of one or more pending displays never declines a
-- request, however many displays wait for their MANAGE: a display that was created is prepared already, and
-- the count of pending displays looks for unmanaged ones.
pub pending_limit_never_met :
    (host : Host) (address : Address) (hostname : Bytes) (dspnum : ℕ) (factory : Factory)
    → Every (λ d. not (is_waiting d)) factory.store
    → 0 < factory.max_pending_displays
    → request_entered host address hostname dspnum factory ≡ (do
      created ←
          display_create host hostname address dspnum
            (display_dispose_check hostname dspnum factory)
      accept_created address created)
unfolding request_entered
pending_limit_never_met host address hostname dspnum factory none_waits limit =
    first_fails (leb checked.max_pending_displays checked.num_pending_sessions) _ _
      (ground (arith, zero_pending, limit, same_limit))
  where
    checked : Factory
    checked = display_dispose_check hostname dspnum factory

    first_fails : (b : Bool) (x y : Option Factory) → b ≡ false → (if b then x else y) ≡ y
    first_fails true x y e = cc
    first_fails false x y e = refl

    same_limit : checked.max_pending_displays ≡ factory.max_pending_displays
    same_limit = unfold display_dispose_check in refl

    zero_pending : checked.num_pending_sessions ≡ 0
    zero_pending =
        unfold display_dispose_check in
        let gone : ℕ → Display → Bool = λ id d. is_display_of hostname dspnum d in
        let left = (DisplayStore.foreach_remove gone factory.store).0 in
        let counted = recount_sessions_lem (record factory { store = left }) in
        let waits : count_of is_waiting left ≡ 0 =
          count_of_none is_waiting left
            (Every-foreach_remove (λ d. not (is_waiting d)) gone factory.store none_waits) in
        ap (λ f. f.num_pending_sessions) counted ∙ ap (λ n. n % 4294967296) waits

request_entered-AtMost :
    (host : Host) (address : Address) (hostname : Bytes) (dspnum : ℕ) (factory : Factory) (n : ℕ)
    → num_displays_from_host host address factory < n
    → AtMost (is_from_host host address) n (request_entered host address hostname dspnum factory)
unfolding request_entered
request_entered-AtMost host address hostname dspnum factory n room =
    if-AtMost p n (leb checked.max_pending_displays checked.num_pending_sessions) (some refused) _
      (λ full. some-AtMost p n refused declined)
      (λ free.
        created (display_create host hostname address dspnum checked)
          (display_create-AtMost p n host hostname address dspnum checked (omega (arith, fits))))
  where
    p : Display → Bool
    p = is_from_host host address

    checked : Factory
    checked = display_dispose_check hostname dspnum factory

    fits : count_of p checked.store < n
    fits = omega (
      arith,
      room,
      num_displays_from_host-count_of host address checked,
      num_displays_from_host-display_dispose_check_le host address hostname dspnum factory,
    )

    refused : Factory
    refused = send_decline host address (codes "Maximum pending servers") checked

    declined : count_of p refused.store ≤ n
    declined =
        rw (send_decline_store host address (codes "Maximum pending servers") checked)
          (omega (arith, fits))

    created :
        (result : Option (Option Display × Factory))
        → CreatedAtMost p n result
        → AtMost p n (do created ← result; accept_created address created)
    created none k = unfold AtMost in tt
    created (some (display, f)) k =
        accept_created-AtMost p n address display f (unfold CreatedAtMost in k)

enters_below :
    (mitauth local : Bool) (sessions displays n limit : ℕ)
    → (mitauth && (ltb sessions displays && (local || ltb n limit))) ≡ true
    → local ≡ false
    → n < limit
enters_below mitauth local sessions displays n limit h l = ground (arith, h, l)

-- The limit on the displays of one remote host is kept by a request: whatever displays the host
-- has, with its limit not passed before, it is not passed after.
pub answer_request_keeps_host_limit :
    (host : Host) (address : Address) (r : Request) (factory after : Factory)
    → is_local_address host address ≡ false
    → num_displays_from_host host address factory ≤ factory.max_displays_per_host
    → answer_request host address r factory ≡ some after
    → num_displays_from_host host address after ≤ factory.max_displays_per_host
unfolding answer_request
answer_request_keeps_host_limit host address r factory after remote below e =
    rw (num_displays_from_host-count_of host address after) (
      AtMost-some p n (answer_request host address r factory) after
        (if-AtMost p n (may_enter host address mitauth factory) _ (some refused)
          (λ enters.
            request_entered-AtMost host address (host.numeric_host address) r.dspnum factory n
              (entered enters))
          (λ stays. some-AtMost p n refused declined))
        e)
  where
    p : Display → Bool
    p = is_from_host host address

    n : ℕ
    n = factory.max_displays_per_host

    mitauth : Bool
    mitauth = has_mitauth r.authorization_names

    refused : Factory
    refused = send_decline host address (refusal mitauth factory) factory

    declined : count_of p refused.store ≤ n
    declined =
        rw (send_decline_store host address (refusal mitauth factory) factory)
          (omega (arith, below, num_displays_from_host-count_of host address factory))

    entered :
        may_enter host address mitauth factory ≡ true
        → num_displays_from_host host address factory < n
    entered h =
        enters_below mitauth (is_local_address host address) factory.num_sessions
          factory.max_displays (num_displays_from_host host address factory) n
          (unfold may_enter in h) remote
