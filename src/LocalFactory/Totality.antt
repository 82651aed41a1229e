-- ===== src/LocalFactory/Totality.antt =====
-- The callbacks of the local factory come to an end, whatever the displays do that they make:
-- daemon/scdm-local-display-factory.c.
use scdm.Display.{
  Display, Status, unmanaged, prepared, managed, waiting_to_finish, finished, failed,
}
use scdm.LocalFactory.Retries.{
  EndsWithin, EndsWithin-le, after_failure-EndsWithin, create_display-EndsWithin,
}
use scdm.LocalFactory.{
  LocalHost, LocalFactory, Outcome, done, exited, out_of_fuel, create_on_seats, sync_listed,
  sync_seats, then_on, seat_type, status_changed, release, number_of, same_string, seat_of,
}
use scdm.Prelude.{
  ℕ, ◌+◌, ◌*◌, ◌≤◌, ◌≡◌, ap, refl, Bool, true, false, not, ◌&&◌, Option, none, some, List, [], ◌∷◌,
  arith, if◌then◌else◌, Bytes, codes, bytes_eq, length,
}

-- What follows a run that ends ends too, if it does from every factory that the run may end with.
then_on-EndsWithin :
    (m j n k : ℕ) (next : LocalFactory → Outcome) (o : Outcome)
    → EndsWithin m j o
    → ((g : LocalFactory)
        → length g.store.displays ≤ m
        → g.num_failures ≤ j
        → EndsWithin n k (next g))
    → EndsWithin n k (then_on next o)
unfolding then_on EndsWithin
then_on-EndsWithin m j n k next (done g) h ends = ends g h.0 h.1
then_on-EndsWithin m j n k next exited h ends = tt
then_on-EndsWithin m j n k next out_of_fuel h ends = h

create_on_seats-EndsWithin :
    (host : LocalHost) (seats : List Bytes) (factory : LocalFactory)
    → factory.num_failures + 6 * length seats ≤ 4294967295
    → EndsWithin
        (length factory.store.displays + 6 * length seats)
        (factory.num_failures + 6 * length seats)
        (create_on_seats 6 host seats factory)
unfolding create_on_seats
create_on_seats-EndsWithin host [] factory few = unfold EndsWithin in (omega arith, omega arith)
create_on_seats-EndsWithin host (seat ∷ rest) factory few =
    then_on-EndsWithin (length factory.store.displays + 6) (factory.num_failures + 6) _ _
      (λ created. create_on_seats 6 host rest created) _
      (create_display-EndsWithin 6 host seat (seat_type host seat) (bytes_eq seat (codes "seat0"))
        factory (omega arith) (omega arith) (omega (arith, few)))
      (λ g size failures.
        EndsWithin-le (length g.store.displays + 6 * length rest) _
          (g.num_failures + 6 * length rest) _ (create_on_seats 6 host rest g) (omega (arith, size))
          (omega (arith, failures))
          (create_on_seats-EndsWithin host rest g (omega (arith, few, failures))))

-- How many seats logind lists.
unfoldable pub num_seats : Option (List Bytes) → ℕ
num_seats none = 0
num_seats (some seats) = length seats

sync_seats-EndsWithin :
    (host : LocalHost) (factory : LocalFactory)
    → factory.num_failures + 6 * num_seats host.seats ≤ 4294967295
    → EndsWithin
        (length factory.store.displays + 6 * num_seats host.seats)
        (factory.num_failures + 6 * num_seats host.seats)
        (sync_seats 6 host factory)
unfolding sync_seats sync_listed num_seats
sync_seats-EndsWithin host factory few = go host.seats few
  where
    go :
        (seats : Option (List Bytes))
        → factory.num_failures + 6 * num_seats seats ≤ 4294967295
        → EndsWithin
            (length factory.store.displays + 6 * num_seats seats)
            (factory.num_failures + 6 * num_seats seats)
            (sync_listed 6 host seats factory)
    go none l = unfold EndsWithin in (omega arith, omega arith)
    go (some seats) l = create_on_seats-EndsWithin host seats factory l

-- A display that finishes: its number is given back, and the seats are gone through if it was the
-- display of a user's session.
finished-EndsWithin :
    (host : LocalHost) (d : Display) (factory : LocalFactory)
    → 6 * num_seats host.seats ≤ 4294967295
    → EndsWithin
        (length factory.store.displays + 6 * num_seats host.seats)
        (factory.num_failures + 6 * num_seats host.seats)
        (status_changed 6 host d finished factory)
unfolding status_changed release
finished-EndsWithin host d factory few = go (number_of d.kind d)
  where
    seats : ℕ
    seats = num_seats host.seats

    next : (b : Bool) → LocalFactory → Outcome
    next b freed = if b then sync_seats 6 host (record freed { num_failures = 0 }) else done freed

    ends :
        (b : Bool) (freed : LocalFactory)
        → length freed.store.displays ≡ length factory.store.displays
        → freed.num_failures ≡ factory.num_failures
        → EndsWithin
            (length factory.store.displays + 6 * seats)
            (factory.num_failures + 6 * seats)
            (next b freed)
    ends true freed size same =
        EndsWithin-le (length freed.store.displays + 6 * seats) _ (0 + 6 * seats) _ _
          (omega (arith, size)) (omega arith)
          (sync_seats-EndsWithin host (record freed { num_failures = 0 }) (omega (arith, few)))
    ends false freed size same = unfold EndsWithin in (omega (arith, size), omega (arith, same))

    again : Bool
    again = d.is_local && not (same_string d.session_class (codes "greeter"))

    go :
        (number : Option ℕ)
        → EndsWithin
            (length factory.store.displays + 6 * seats)
            (factory.num_failures + 6 * seats)
            (next again (record (release number factory) { purge_queued = true }))
    go none = ends again (record factory { purge_queued = true }) refl refl
    go (some num) =
        ends again (record (release (some num) factory) { purge_queued = true }) refl refl

-- How many displays are added at most, by the status that the handler is told.
unfoldable pub displays_added : Status → (seats : ℕ) → ℕ
displays_added finished seats = 6 * seats
displays_added failed seats = 6
displays_added status seats = 0

-- How many more failures are counted at most: the failed display is one itself.
unfoldable pub failures_added : Status → (seats : ℕ) → ℕ
failures_added finished seats = 6 * seats
failures_added failed seats = 7
failures_added status seats = 0

-- If the count of failures is seven or more below the end of a guint, and six times the seats fit in
-- one, the handler of a display's status comes to an end for every display and every status,
-- whatever logind answers and the displays do that it makes: six rounds for each seat are enough. A
-- display that finishes leads to at most six new displays and six failures for each seat; one that
-- failed to at most six new displays and seven failures, whatever the number of seats; any other
-- status to none.
pub status_changed-EndsWithin :
    (host : LocalHost) (d : Display) (status : Status) (factory : LocalFactory)
    → factory.num_failures + 7 ≤ 4294967295
    → 6 * num_seats host.seats ≤ 4294967295
    → EndsWithin
        (length factory.store.displays + displays_added status (num_seats host.seats))
        (factory.num_failures + failures_added status (num_seats host.seats))
        (status_changed 6 host d status factory)
unfolding status_changed displays_added failures_added
status_changed-EndsWithin host d finished factory few seats =
    finished-EndsWithin host d factory seats
status_changed-EndsWithin host d failed factory few seats =
    after_failure-EndsWithin host (length factory.store.displays + 6) (factory.num_failures + 7) few
      _ d factory (omega arith) (omega arith)
      (λ less t g counted same.
        EndsWithin-le (length g.store.displays + 6) _ (g.num_failures + 6) _ _
          (omega (arith, ap (λ s. length s.displays) same)) (omega (arith, counted))
          (create_display-EndsWithin 6 host (seat_of d.seat_id) t d.is_initial g (omega arith)
            (omega arith) (omega (arith, counted, few))))
status_changed-EndsWithin host d unmanaged factory few seats =
    unfold EndsWithin in (omega arith, omega arith)
status_changed-EndsWithin host d prepared factory few seats =
    unfold EndsWithin in (omega arith, omega arith)
status_changed-EndsWithin host d managed factory few seats =
    unfold EndsWithin in (omega arith, omega arith)
status_changed-EndsWithin host d waiting_to_finish factory few seats =
    unfold EndsWithin in (omega arith, omega arith)
