-- ===== src/LocalFactory/Ends.antt =====
-- What the end of a display does to the local factory: daemon/scdm-local-display-factory.c.
use scdm.Display.{Display, DisplayKind, local_display, finished, failed}
use scdm.DisplayStore
use scdm.DisplayStore.Counting.{find-lookup}
use scdm.LocalFactory.{
  LocalHost, LocalFactory, Outcome, done, status_changed, find_on_seat, create_display,
  after_failure, retry_type, max_display_failures, create_unless, number_of, release, same_string,
  seat_of, sync_seats,
}
use scdm.LocalFactory.Numbers.Free.{AllDiffer}
use scdm.LocalFactory.Numbers.Freed.{take_next-freed}
use scdm.LocalFactory.Numbers.{take_next_display_number}
use scdm.Prelude.{
  ℕ, suc, ◌+◌, ◌%◌, ◌<◌, ◌≡◌, ◌∙◌, ap, refl, Bool, true, false, not, Option, some, List, arith, ltb,
  ◌==◌, if◌then◌else◌, Bytes, filter, All, In, ◌&&◌, codes, ◌≢◌, bytes_eq_refl,
}

-- After the end of a display that is not local, of a class that has a number, this number is the next
-- that `take_next_display_number` gives, if every smaller one is in use, the numbers in use are less
-- than the greatest guint32, and none is there twice. The store stays the same. That a local display
-- in the store has this number makes no difference: the number of a remote display, which was never
-- put there for it, is taken out of the numbers of local ones.
pub remote_end_frees_number :
    (fuel : ℕ) (host : LocalHost) (d : Display) (factory : LocalFactory)
    → d.kind ≢ local_display
    → d.is_local ≡ false
    → AllDiffer factory.used_display_numbers
    → All (λ m. m < 4294967295) factory.used_display_numbers
    → ((m : ℕ) → m < d.x11_display_number → In m factory.used_display_numbers)
    → (after : LocalFactory) × (status_changed fuel host d finished factory ≡ done after)
      × (after.store ≡ factory.store)
      × ((take_next_display_number after.used_display_numbers).0 ≡ d.x11_display_number)
unfolding status_changed release number_of
remote_end_frees_number fuel host d factory k remote differ small below = (
  record factory { used_display_numbers = freed; purge_queued = true },
  not_local d.is_local remote ∙ ap (λ n. done (freed_of n)) (numbered d.kind k),
  refl,
  take_next-freed d.x11_display_number factory.used_display_numbers differ small below,
)
  where
    freed : List ℕ
    freed = filter (λ n. not (n == d.x11_display_number)) factory.used_display_numbers

    freed_of : Option ℕ → LocalFactory
    freed_of number = record (release number factory) { purge_queued = true }

    not_local :
        (local : Bool)
        → local ≡ false
        → (if local && not (same_string d.session_class (codes "greeter"))
            then sync_seats fuel host (record (freed_of (number_of d.kind d)) { num_failures = 0 })
            else done (freed_of (number_of d.kind d)))
          ≡ done (freed_of (number_of d.kind d))
    not_local local e = rw e refl

    numbered :
        (kind : DisplayKind) → kind ≢ local_display → number_of kind d ≡ some d.x11_display_number
    numbered kind n = ground (arith, n)

-- Nothing is made for a seat that has its display.
occupied :
    (fuel : ℕ) (host : LocalHost) (seat : Bytes) (t : Option Bytes) (initial : Bool)
    → (factory : LocalFactory) (e : Display) → find_on_seat host seat factory ≡ some e
    → create_display (suc fuel) host seat t initial factory ≡ done factory
unfolding create_display create_unless
occupied fuel host seat t initial factory e there = rw there refl

module _ (host : LocalHost) (again : Option Bytes → LocalFactory → Outcome) where
  -- A failed local display is counted, if its replacement changes nothing.
  after_failure-counts :
      (d : Display) (factory : LocalFactory)
      → d.is_local ≡ true
      → factory.num_failures < 4294967295
      → ((t : Option Bytes) (n : ℕ)
          → again t (record factory { num_failures = n; purge_queued = true })
            ≡ done (record factory { num_failures = n; purge_queued = true }))
      → after_failure host again d factory
        ≡ done (record factory { num_failures = factory.num_failures + 1; purge_queued = true })
  unfolding after_failure
  after_failure-counts d factory local small same = rw local (
      either (ltb max_display_failures ((factory.num_failures + 1) % 4294967296))
      ∙ ap counted no_wrap)
    where
      counted : ℕ → Outcome
      counted n = done (record factory { num_failures = n; purge_queued = true })

      no_wrap : (factory.num_failures + 1) % 4294967296 ≡ factory.num_failures + 1
      no_wrap = omega (arith, small)

      n : ℕ
      n = (factory.num_failures + 1) % 4294967296

      t : Option Bytes
      t = retry_type host d.session_type

      either :
          (b : Bool)
          → (if b
              then counted n
              else again t (record factory { num_failures = n; purge_queued = true }))
            ≡ counted n
      either true = refl
      either false = same t n

-- A local display that fails on a seat with one session only is not replaced: the failed display is
-- in the store until the purge, so that the seat has one already. The failure is counted.
pub failed_not_replaced :
    (fuel : ℕ) (host : LocalHost) (d : Display) (seat : Bytes) (factory : LocalFactory)
    → d.is_local ≡ true
    → d.seat_id ≡ some seat
    → host.can_multi_session seat ≡ false
    → DisplayStore.lookup d.id factory.store ≡ some d
    → factory.num_failures < 4294967295
    → status_changed (suc fuel) host d failed factory
      ≡ done (record factory { num_failures = factory.num_failures + 1; purge_queued = true })
unfolding status_changed find_on_seat seat_of
failed_not_replaced fuel host d seat factory local s single stored small =
    let (e, found) =
      find-lookup (λ x. same_string x.seat_id seat) d.id d factory.store stored
        (rw s (unfold same_string in bytes_eq_refl seat)) in
    let there : find_on_seat host seat factory ≡ some e = unfold find_on_seat in rw single found in
    after_failure-counts host
      (λ t f. create_display (suc fuel) host (seat_of d.seat_id) t d.is_initial f) d factory local
      small
      (λ t n. rw s (
        occupied fuel host seat t d.is_initial
          (record factory { num_failures = n; purge_queued = true }) e there))
