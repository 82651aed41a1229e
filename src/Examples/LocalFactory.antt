-- ===== src/Examples/LocalFactory.antt =====
-- Tests of the theorems on the factory of local displays.
use scdm.Display.{Display, legacy_display, local_display, finished, failed, xdmcp_display}
use scdm.DisplayStore
use scdm.DisplayStore.{Store}
use scdm.Examples.{setup, display}
use scdm.LocalFactory.Ends.{remote_end_frees_number, failed_not_replaced}
use scdm.LocalFactory.Numbers.Free.{AllDiffer, take_next_display_number_least}
use scdm.LocalFactory.Numbers.{take_next_display_number}
use scdm.LocalFactory.Retries.{EndsWithin}
use scdm.LocalFactory.Totality.{
  num_seats, displays_added, failures_added, status_changed-EndsWithin,
}
use scdm.LocalFactory.{LocalHost, LocalFactory, done, status_changed, new_display}
use scdm.Prelude.{
  ℕ, ◌≤◌, ◌≡◌, ◌≢◌, ◌⊎◌, refl, true, false, none, some, List, [], ◌∷◌, arith, codes, In,
}

-- A machine with one seat, on which every display fails when it is prepared.
abbrev host : LocalHost
host = record {
  can_multi_session = λ seat. false;
  login_window = λ seat. none;
  seats = some (codes "seat0" ∷ []);
  user_display_server = false;
  wayland_support = true;
  use_wayland = true;
  now = 1000;
  setup = setup;
  class = λ kind. record { prepare = λ d. (d, false); manage = none };
}

abbrev used : List ℕ
used = 2 ∷ 0 ∷ 1 ∷ []

abbrev factory : LocalFactory
factory = record {
  used_display_numbers = used;
  num_failures = 0;
  store = DisplayStore.new;
  next_pointer = 50;
  purge_queued = false;
  activated = [];
}

used-AllDiffer : AllDiffer used
unfolding AllDiffer
used-AllDiffer = (
  ((λ e. omega (arith, e)), ((λ e. omega (arith, e)), tt)),
  (((λ e. omega (arith, e)), tt), (tt, tt)),
)

-- The number 3 is free.
take_next_display_number_least_example :
    AllDiffer (take_next_display_number used).1
    × (In 3 used ⊎ ((take_next_display_number used).0 ≤ 3))
take_next_display_number_least_example =
    take_next_display_number_least used 3 used-AllDiffer
      (omega arith, (omega arith, (omega arith, tt)))

abbrev remote : Display
remote = record display { kind = xdmcp_display; is_local = false; x11_display_number = 0 }

remote-kind : remote.kind ≢ local_display
remote-kind e = ground (arith, e)

-- The number 0 is in use, and is given away.
remote_end_frees_number_example :
    (after : LocalFactory) × (status_changed 6 host remote finished factory ≡ done after)
    × (after.store ≡ factory.store)
    × ((take_next_display_number after.used_display_numbers).0 ≡ 0)
remote_end_frees_number_example =
    remote_end_frees_number 6 host remote factory remote-kind refl used-AllDiffer
      (omega arith, (omega arith, (omega arith, tt))) (λ m less. absurd (omega (arith, less)))

abbrev seated : Display
seated = new_display host legacy_display 50 3 (codes "seat0") none true

abbrev with_display : LocalFactory
with_display = record factory { store = DisplayStore.add 50 seated DisplayStore.new }

with_display-lookup : DisplayStore.lookup 50 with_display.store ≡ some seated
unfolding DisplayStore.lookup DisplayStore.add
with_display-lookup = refl

failed_not_replaced_example :
    status_changed 6 host seated failed with_display
    ≡ done (record with_display { num_failures = 1; purge_queued = true })
unfolding new_display
failed_not_replaced_example =
    failed_not_replaced 5 host seated (codes "seat0") with_display refl refl refl
      with_display-lookup (omega arith)

-- The failed display is taken for that of another seat, so that displays are made, and fail.
status_changed-EndsWithin_example :
    EndsWithin 7 7
      (status_changed 6 host (record seated { seat_id = some (codes "seat1") }) failed with_display)
unfolding num_seats displays_added failures_added DisplayStore.add new_display
status_changed-EndsWithin_example =
    status_changed-EndsWithin host (record seated { seat_id = some (codes "seat1") }) failed
      with_display (omega arith) (omega arith)
