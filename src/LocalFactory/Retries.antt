-- ===== src/LocalFactory/Retries.antt =====
-- How often a failing display is replaced: daemon/scdm-local-display-factory.c.
use scdm.Display.Setup.{manage}
use scdm.Display.{Display, failed, managed, waiting_to_finish, status_eq, set_status_property}
use scdm.DisplayStore
use scdm.DisplayStore.Laws.{length-add_le, length-replace}
use scdm.LocalFactory.{
  LocalHost, LocalFactory, Outcome, done, exited, out_of_fuel, create_display, find_on_seat,
  create_unless, create_or_switch, switch_to, switch_to_login, find_by_session, make_and_manage,
  make_display, after_manage, after_failure, settled, store_changed, retry_type,
  max_display_failures,
}
use scdm.Prelude.{
  ℕ, zero, suc, ◌+◌, ◌%◌, ◌<◌, ◌≤◌, ◌≡◌, ◌∙◌, ap, refl, Bool, true, false, Option, none, some,
  arith, ltb, if◌then◌else◌, Bytes, length, bytes_eq, codes, ◌&&◌, ◌||◌, ◌∷◌,
}

-- A run that ends, with no more than so many displays in the store and so many failures counted if
-- the process goes on.
unfoldable pub EndsWithin : (displays failures : ℕ) → Outcome → Type 0
EndsWithin n k (done factory) = (length factory.store.displays ≤ n) × (factory.num_failures ≤ k)
EndsWithin n k exited = Unit
EndsWithin n k out_of_fuel = ⊥

-- The same of a factory that may be there.
KeepsSize : (displays failures : ℕ) → Option LocalFactory → Type 0
KeepsSize n k none = Unit
KeepsSize n k (some factory) = (length factory.store.displays ≤ n) × (factory.num_failures ≤ k)

module _ (host : LocalHost) (n k : ℕ) (limit : k ≤ 4294967295)
    (again : Option Bytes → LocalFactory → Outcome) where
  pub after_failure-EndsWithin :
      (d : Display) (factory : LocalFactory)
      → length factory.store.displays ≤ n
      → factory.num_failures < k
      → (factory.num_failures < 5
          → (t : Option Bytes) (g : LocalFactory) → g.num_failures ≡ factory.num_failures + 1
          → g.store ≡ factory.store
          → EndsWithin n k (again t g))
      → EndsWithin n k (after_failure host again d factory)
  unfolding after_failure EndsWithin
  after_failure-EndsWithin d factory h small ih = by_place d.is_local
    where
      queued : LocalFactory
      queued = record factory { purge_queued = true }

      counted : LocalFactory
      counted = record queued { num_failures = (factory.num_failures + 1) % 4294967296 }

      by_count :
          (b : Bool)
          → ltb max_display_failures counted.num_failures ≡ b
          → EndsWithin n k
              (if b then done counted else again (retry_type host d.session_type) counted)
      by_count true e = (h, omega (arith, small, limit))
      by_count false e =
          ih (ground (arith, e, small, limit)) (retry_type host d.session_type) counted
            (omega (arith, small, limit)) refl

      by_place :
          (b : Bool)
          → EndsWithin n k (
              if b
              then (if ltb max_display_failures counted.num_failures
                  then done counted
                  else again (retry_type host d.session_type) counted)
              else done queued)
      by_place true = by_count (ltb max_display_failures counted.num_failures) refl
      by_place false = (h, omega (arith, small))

  after_manage-EndsWithin :
      (result : Option (Display × Bool)) (factory : LocalFactory)
      → length factory.store.displays ≤ n
      → factory.num_failures < k
      → (factory.num_failures < 5
          → (t : Option Bytes) (g : LocalFactory) → g.num_failures ≡ factory.num_failures + 1
          → length g.store.displays ≡ length factory.store.displays
          → EndsWithin n k (again t g))
      → EndsWithin n k (after_manage host again result factory)
  unfolding after_manage store_changed
  after_manage-EndsWithin none factory h small ih = unfold EndsWithin in tt
  after_manage-EndsWithin (some result) factory h small ih = go (status_eq d.status failed)
    where
      d : Display
      d = settled result

      stored : LocalFactory
      stored = record factory { store = DisplayStore.replace d.id d factory.store }

      same_size : length stored.store.displays ≡ length factory.store.displays
      same_size = length-replace d.id d factory.store

      go :
          (b : Bool) → EndsWithin n k (if b then after_failure host again d stored else done stored)
      go true =
          after_failure-EndsWithin d stored (omega (arith, h, same_size)) small
            (λ few t g counted same.
              ih few t g counted (ap (λ s. length s.displays) same ∙ same_size))
      go false = unfold EndsWithin in (omega (arith, h, same_size), omega (arith, small))

  create_or_switch-EndsWithin :
      (switched : Option LocalFactory) (otherwise : Outcome)
      → KeepsSize n k switched
      → EndsWithin n k otherwise
      → EndsWithin n k (create_or_switch switched otherwise)
  unfolding create_or_switch KeepsSize EndsWithin
  create_or_switch-EndsWithin (some f) otherwise kept h = kept
  create_or_switch-EndsWithin none otherwise kept h = h

  create_unless-EndsWithin :
      (found : Option Display) (factory : LocalFactory) (otherwise : Outcome)
      → length factory.store.displays ≤ n
      → factory.num_failures < k
      → EndsWithin n k otherwise
      → EndsWithin n k (create_unless found factory otherwise)
  unfolding create_unless EndsWithin
  create_unless-EndsWithin (some d) factory otherwise size few h = (size, omega (arith, few))
  create_unless-EndsWithin none factory otherwise size few h = h

-- A factory with a new display still to store.
module _ (host : LocalHost) (n k : ℕ) (limit : k ≤ 4294967295) (failures : ℕ)
    (again : Option Bytes → LocalFactory → Outcome) where
  make_and_manage-EndsWithin :
      (made : Display × LocalFactory)
      → suc (length made.1.store.displays) ≤ n
      → made.1.num_failures ≡ failures
      → failures < k
      → (failures < 5
          → (t : Option Bytes) (g : LocalFactory) → g.num_failures ≡ failures + 1
          → length g.store.displays ≤ suc (length made.1.store.displays)
          → EndsWithin n k (again t g))
      → EndsWithin n k (make_and_manage host again made)
  unfolding make_and_manage
  make_and_manage-EndsWithin (d, f) h same small ih =
      let added = length-add_le d.id d f.store in
      after_manage-EndsWithin host n k limit again (manage host.setup (host.class d.kind) d)
        (record f { store = DisplayStore.add d.id d f.store }) (omega (arith, h, added))
        (omega (arith, same, small))
        (λ few t g counted size.
          ih (omega (arith, few, same)) t g (omega (arith, counted, same))
            (omega (arith, size, added)))

  either_made :
      (b : Bool) (x y : Display × LocalFactory)
      → EndsWithin n k (make_and_manage host again x)
      → EndsWithin n k (make_and_manage host again y)
      → EndsWithin n k (make_and_manage host again (if b then x else y))
  either_made true x y h l = h
  either_made false x y h l = l

switch_to-KeepsSize :
    (n k : ℕ) (seat session : Bytes) (found : Option Display) (factory : LocalFactory)
    → length factory.store.displays ≤ n
    → factory.num_failures < k
    → KeepsSize n k (switch_to seat session found factory)
unfolding switch_to store_changed
switch_to-KeepsSize n k seat session none factory h few = unfold KeepsSize in tt
switch_to-KeepsSize n k seat session (some d) factory h few =
    go (status_eq d.status managed || status_eq d.status waiting_to_finish)
  where
    stored : LocalFactory
    stored = store_changed (set_status_property d managed) factory

    switched : LocalFactory
    switched = record stored { activated = (seat, session) ∷ factory.activated }

    go : (b : Bool) → KeepsSize n k (if b then some switched else none)
    go true =
        unfold KeepsSize store_changed in
        (
          omega (
            arith,
            h,
            length-replace (set_status_property d managed).id (set_status_property d managed)
                factory.store,
          ),
          omega (arith, few),
        )
    go false = unfold KeepsSize in tt

switch_to_login-KeepsSize :
    (n k : ℕ) (seat : Bytes) (session : Option Bytes) (factory : LocalFactory)
    → length factory.store.displays ≤ n
    → factory.num_failures < k
    → KeepsSize n k (switch_to_login seat session factory)
unfolding switch_to_login
switch_to_login-KeepsSize n k seat none factory h few = unfold KeepsSize in tt
switch_to_login-KeepsSize n k seat (some session) factory h few =
    switch_to-KeepsSize n k seat session (find_by_session session factory) factory h few

pub EndsWithin-le :
    (m n j k : ℕ) (o : Outcome) → m ≤ n → j ≤ k → EndsWithin m j o → EndsWithin n k o
unfolding EndsWithin
EndsWithin-le m n j k (done f) l q h = (omega (arith, l, h.0), omega (arith, q, h.1))
EndsWithin-le m n j k exited l q h = tt
EndsWithin-le m n j k out_of_fuel l q h = h

created-EndsWithin :
    (host : LocalHost) (n k : ℕ) (again : Option Bytes → LocalFactory → Outcome) (seat : Bytes)
    → (session_type : Option Bytes) (initial : Bool) (factory : LocalFactory) → k ≤ 4294967295
    → suc (length factory.store.displays) ≤ n
    → factory.num_failures < k
    → (factory.num_failures < 5
        → (t : Option Bytes) (g : LocalFactory) → g.num_failures ≡ factory.num_failures + 1
        → length g.store.displays ≤ suc (length factory.store.displays)
        → EndsWithin n k (again t g))
    → EndsWithin n k
        (make_and_manage host again (make_display host seat session_type initial factory))
unfolding make_display
created-EndsWithin host n k again seat session_type initial factory limit h small ih =
    either_made host n k limit factory.num_failures again
      (host.user_display_server && bytes_eq seat (codes "seat0")) _ _
      (make_and_manage-EndsWithin host n k limit factory.num_failures again _ h refl small ih)
      (make_and_manage-EndsWithin host n k limit factory.num_failures again _ h refl small ih)

-- Six rounds are enough to create a display, whatever fails: each failure is counted, and after the
-- fifth a failed display is not replaced. With n failures before, 6 - n rounds are enough, or one;
-- no more displays are added, and no more failures are counted, than there are rounds. The count
-- does not reach the end of a guint.
pub create_display-EndsWithin :
    (fuel : ℕ) (host : LocalHost) (seat : Bytes) (session_type : Option Bytes) (initial : Bool)
    → (factory : LocalFactory) → 6 ≤ fuel + factory.num_failures
    → 0 < fuel
    → factory.num_failures + fuel ≤ 4294967295
    → EndsWithin
        (length factory.store.displays + fuel)
        (factory.num_failures + fuel)
        (create_display fuel host seat session_type initial factory)
unfolding create_display
create_display-EndsWithin zero host seat session_type initial factory rounds some_ small =
    absurd (omega (arith, some_))
create_display-EndsWithin (suc fuel) host seat session_type initial factory rounds some_ small =
    let bound = length factory.store.displays + suc fuel in
    let most = factory.num_failures + suc fuel in
    let again =
      λ (t : Option Bytes) (f : LocalFactory). create_display fuel host seat t initial f in
    let within : length factory.store.displays ≤ bound = omega arith in
    let below : factory.num_failures < most = omega arith in
    create_unless-EndsWithin host bound most small again (find_on_seat host seat factory) factory _
      within below
      (create_or_switch-EndsWithin host bound most small again
        (switch_to_login seat (host.login_window seat) factory) _
        (switch_to_login-KeepsSize bound most seat (host.login_window seat) factory within below)
        (created-EndsWithin host bound most again seat session_type initial factory small
          (omega arith) below
          (λ few t g counted size.
            EndsWithin-le (length g.store.displays + fuel) bound (g.num_failures + fuel) most
              (again t g) (omega (arith, size)) (omega (arith, counted))
              (create_display-EndsWithin fuel host seat t initial g (omega (arith, rounds, counted))
                (omega (arith, rounds, few)) (omega (arith, counted, small))))))
