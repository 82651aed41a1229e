-- ===== src/Xdmcp/Sessions/Counts.antt =====
-- What the two session counters mean, and what a purge removes: daemon/scdm-xdmcp-display-factory.c.
use scdm.Address.{Address}
use scdm.Display.{
  Display, Status, managed, unmanaged, prepared, waiting_to_finish, finished, failed, status_eq,
}
use scdm.DisplayStore
use scdm.DisplayStore.Counting.{
  count_of, foreach_count, foreach_two_counters, count_of-foreach_remove_le, Every,
  foreach_remove-Every,
}
use scdm.Prelude.{ℕ, ◌+◌, ◌≤◌, ◌≡◌, ◌∙◌, refl, Bool, false, not, ◌&&◌, arith, if◌then◌else◌, Bytes}
use scdm.Xdmcp.Sessions.{
  is_xdmcp_display, is_from_host, num_displays_from_host, count_session, recount_sessions,
  is_overdue, displays_purge, display_dispose_check, is_display_of,
}
use scdm.Xdmcp.Types.{Factory, Host, u32}

-- A remote display that is in use.
unfoldable pub is_running : Display → Bool
unfolding is_xdmcp_display
is_running display = is_xdmcp_display display.kind && status_eq display.status managed

-- A remote display that is unmanaged, which is what the code counts as pending.
unfoldable pub is_waiting : Display → Bool
unfolding is_xdmcp_display
is_waiting display = is_xdmcp_display display.kind && status_eq display.status unmanaged

not_both : (s : Status) → (status_eq s managed && status_eq s unmanaged) ≡ false
unfolding status_eq
not_both unmanaged = refl
not_both prepared = refl
not_both managed = refl
not_both waiting_to_finish = refl
not_both finished = refl
not_both failed = refl

-- A recount sets the two counters to the numbers of managed and of unmanaged remote displays,
-- modulo 2^32, and changes nothing else.
pub recount_sessions_lem :
    (factory : Factory)
    → recount_sessions factory ≡ record factory {
      num_sessions = u32 (count_of is_running factory.store);
      num_pending_sessions = u32 (count_of is_waiting factory.store);
    }
unfolding recount_sessions is_running is_waiting
recount_sessions_lem factory =
    rw (foreach_two_counters is_running is_waiting count_session factory.store steps) refl
  where
    steps :
        (id : ℕ) (d : Display) (m n : ℕ)
        → count_session id d (m, n)
          ≡ ((if is_running d then u32 (m + 1) else m), (if is_waiting d then u32 (n + 1) else n))
    steps id d m n = ground (arith, not_both d.status)

-- After a purge no display is overdue, and the counters are those of the displays that are left.
pub displays_purge_lem :
    (host : Host) (factory : Factory)
    → let purged = displays_purge host factory in
      Every (λ d. not (is_overdue host factory d)) purged.store
      × (purged.num_sessions ≡ u32 (count_of is_running purged.store))
      × (purged.num_pending_sessions ≡ u32 (count_of is_waiting purged.store))
unfolding displays_purge
displays_purge_lem host factory =
    let left = (DisplayStore.foreach_remove (λ id d. is_overdue host factory d) factory.store).0 in
    let recounted = recount_sessions_lem (record factory { store = left }) in
    (
      foreach_remove-Every (is_overdue host factory) factory.store,
      λ i. (recounted i).num_sessions,
      λ i. (recounted i).num_pending_sessions,
    )

-- The displays of a host, as the walk counts them, are those of the store from that address.
pub num_displays_from_host-count_of :
    (host : Host) (address : Address) (factory : Factory)
    → num_displays_from_host host address factory
      ≡ count_of (is_from_host host address) factory.store
unfolding num_displays_from_host
num_displays_from_host-count_of host address factory =
    foreach_count (is_from_host host address) factory.store 0 ∙ omega arith

-- The check for a display that comes back removes displays, and adds none to any host.
pub num_displays_from_host-display_dispose_check_le :
    (host : Host) (address : Address) (hostname : Bytes) (dspnum : ℕ) (factory : Factory)
    → num_displays_from_host host address (display_dispose_check hostname dspnum factory)
      ≤ num_displays_from_host host address factory
unfolding display_dispose_check
num_displays_from_host-display_dispose_check_le host address hostname dspnum factory =
    rw
      (
        num_displays_from_host-count_of host address
            (display_dispose_check hostname dspnum factory),
        num_displays_from_host-count_of host address factory,
      )
      (count_of-foreach_remove_le (is_from_host host address)
        (λ id d. is_display_of hostname dspnum d) factory.store)
