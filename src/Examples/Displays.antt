-- ===== src/Examples/Displays.antt =====
-- Tests of the theorems on addresses, authority files, displays and their store.
use scdm.AccessFile.Laws.{IsPaired, open_file-close}
use scdm.AccessFile.{AccessFile, new, open_file, close}
use scdm.Address.Laws.{SameHost, is_local_exactly}
use scdm.Address.{Address, is_local, is_loopback}
use scdm.Display.Clients.{Kills, disconnect-Kills, disconnect, client_increment}
use scdm.Display.Lifecycle.{
  IsLogged, run, sets, log_after, run-IsLogged, self_destruct-finish_idle,
  add-remove_user_authorization,
}
use scdm.Display.{
  Display, managed, finished, unmanage, self_destruct, finish_idle, add_user_authorization,
  remove_user_authorization, set_status_property,
}
use scdm.DisplayStore.Laws.{
  HasUniqueIds, kept, leaving, departures, foreach_remove_lem, add-HasUniqueIds, new-HasUniqueIds,
}
use scdm.DisplayStore
use scdm.DisplayStore.{Store}
use scdm.Examples.{client, own, xauth, display}
use scdm.Prelude.{
  ℕ, ◌+◌, ◌-◌, ◌^◌, ◌≡◌, ◌≢◌, ◌↔◌, ◌⊎◌, refl, Bool, true, false, none, some, List, [], ◌∷◌, Bytes,
  codes, length, arith, In,
}

is_local_exactly_example :
    (is_local false (own ∷ []) client ≡ true)
    ↔ ((is_loopback client ≡ true) ⊎ ((b : Address) × In b (own ∷ []) × SameHost false client b))
is_local_exactly_example = is_local_exactly false (own ∷ []) client

abbrev file : AccessFile
file = (open_file xauth (new (codes "scdm"))).0

file-IsPaired : IsPaired file
unfolding IsPaired open_file new
file-IsPaired = refl

open_file-close_example :
    ((close file).fp ≡ false)
    × ((open_file xauth (close file)).1 ≡ true)
    × ((open_file xauth (close file)).0.path ≡ some (codes "/run/scdm/auth-for-scdm"))
open_file-close_example =
    open_file-close xauth file (codes "/run/scdm/auth-for-scdm") file-IsPaired refl

abbrev cookie : Bytes
cookie = 1 ∷ 2 ∷ 3 ∷ []

disconnect-Kills_example :
    let mask = 2 ^ 21 - 1 in
    (ids : List ℕ) × (disconnect 2050 mask 4194304 ≡ some ids)
    × Kills (536870912 - client_increment mask) (client_increment mask) 4194304 0 ids
disconnect-Kills_example = disconnect-Kills 3 4194304 (omega arith)

abbrev running : Display
running = record display {
  status = managed;
  notified = managed ∷ [];
  xcb_connection = true;
  access_file = some file;
}

running-IsLogged : IsLogged running
unfolding IsLogged
running-IsLogged = refl

run-IsLogged_example :
    IsLogged (run (sets managed) running)
    × ((run (sets managed) running).notified ≡ managed ∷ running.notified)
unfolding run log_after set_status_property
run-IsLogged_example = run-IsLogged (sets managed) running running-IsLogged

self_destruct-finish_idle_example :
    ((self_destruct running).status ≢ managed)
    × (((self_destruct running).status ≡ finished) ⊎ ((self_destruct running).finish_idle ≡ true))
    × ((finish_idle (self_destruct running)).status ≡ finished)
    × ((finish_idle (self_destruct running)).finish_idle ≡ false)
self_destruct-finish_idle_example = self_destruct-finish_idle running

abbrev with_user : Display
with_user = record running { user_access_file = some file }

add-remove_user_authorization_example :
    (add_user_authorization xauth (codes "ann") (remove_user_authorization with_user)
      ≡ some (remove_user_authorization with_user, none))
    × ((unmanage (remove_user_authorization with_user)).user_access_file ≡ none)
add-remove_user_authorization_example =
    add-remove_user_authorization xauth with_user (codes "ann") refl

abbrev one : Store Display
one = DisplayStore.add 0 display DisplayStore.new

one-HasUniqueIds : HasUniqueIds one
one-HasUniqueIds = add-HasUniqueIds 0 display DisplayStore.new (new-HasUniqueIds Display)

abbrev any : ℕ → Display → Bool
any id d = true

foreach_remove_lem_example :
    let (after, n) = DisplayStore.foreach_remove any one in
    (after.signals ≡ departures (leaving any one.displays) one.signals)
    × (n ≡ length (leaving any one.displays))
    × (n + length after.displays ≡ length one.displays)
    × (DisplayStore.lookup 0 after ≡ kept any 0 (DisplayStore.lookup 0 one))
foreach_remove_lem_example = foreach_remove_lem any one 0 one-HasUniqueIds
