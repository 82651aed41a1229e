-- ===== src/DisplayStore.antt =====
-- daemon/scdm-display-store.c: the displays of a factory in a hash table by their id, and the signals
-- that announce what enters and what leaves. The display's type is a parameter. The table is an
-- association list with one entry for a key, in the order in which the hash table is walked; the
-- signals are a log, newest first.
pub mod Laws
pub mod Counting
use scdm.Prelude.{ℕ, ◌+◌, Bool, true, false, Option, none, some, List, [], ◌∷◌, ◌==◌, if◌then◌else◌}

pub data Signal (D : Type 0) : Type 0 where
  display_added : ℕ → Signal D
  display_removed : D → Signal D

pub record Store (D : Type 0) : Type 0 where
  pub displays : List (ℕ × D)
  pub signals : List (Signal D)

module _ {D : Type 0} where
  -- `g_hash_table_insert`: an entry with that key gives its place, and is destroyed.
  put : ℕ → D → List (ℕ × D) → List (ℕ × D)
  put id d [] = (id, d) ∷ []
  put id d ((j, e) ∷ rest) = if j == id then (j, d) ∷ rest else (j, e) ∷ put id d rest

  lookup_in : ℕ → List (ℕ × D) → Option D
  lookup_in id [] = none
  lookup_in id ((j, e) ∷ rest) = if j == id then some e else lookup_in id rest

  -- `stored_display_free` announces the display that it drops.
  announce_removed : Option D → List (Signal D) → List (Signal D)
  announce_removed none log = log
  announce_removed (some d) log = display_removed d ∷ log

  unfoldable pub add : ℕ → D → Store D → Store D
  unfolding put lookup_in announce_removed
  add id d store = record {
    displays = put id d store.displays;
    signals = display_added id ∷ announce_removed (lookup_in id store.displays) store.signals;
  }

  unfoldable pub lookup : ℕ → Store D → Option D
  unfolding lookup_in
  lookup id store = lookup_in id store.displays

  find_in : (ℕ → D → Bool) → List (ℕ × D) → Option D
  find_in predicate [] = none
  find_in predicate ((j, e) ∷ rest) = if predicate j e then some e else find_in predicate rest

  -- The first display that the predicate accepts.
  unfoldable pub find : (ℕ → D → Bool) → Store D → Option D
  unfolding find_in
  find predicate store = find_in predicate store.displays

  foreach_in {ℓ} : {S : Type ℓ} → (ℕ → D → S → S) → List (ℕ × D) → S → S
  foreach_in func [] s = s
  foreach_in func ((j, e) ∷ rest) s = foreach_in func rest (func j e s)

  -- The function is called for its effect on the caller's data.
  unfoldable pub foreach {ℓ} : {S : Type ℓ} → (ℕ → D → S → S) → Store D → S → S
  unfolding foreach_in
  foreach func store s = foreach_in func store.displays s

  -- What stays, the log with what left, and how many left.
  remove_in : (ℕ → D → Bool) → List (ℕ × D) → List (Signal D) → List (ℕ × D) × List (Signal D) × ℕ
  remove_in predicate [] log = ([], log, 0)
  remove_in predicate ((j, e) ∷ rest) log =
      let gone = predicate j e in
      let (kept, log', n) =
        remove_in predicate rest (if gone then display_removed e ∷ log else log) in
      if gone then (kept, log', n + 1) else ((j, e) ∷ kept, log', n)

  unfoldable pub foreach_remove : (ℕ → D → Bool) → Store D → Store D × ℕ
  unfolding remove_in
  foreach_remove predicate store =
      let (kept, log, n) = remove_in predicate store.displays store.signals in
      (record { displays = kept; signals = log }, n)

  -- `scdm_display_store_remove`, for a test of identity; its result is always FALSE.
  unfoldable pub remove : (D → Bool) → Store D → Store D × Bool
  remove is_display store = ((foreach_remove (λ id d. is_display d) store).0, false)

  unfoldable pub clear : Store D → Store D
  clear store = (foreach_remove (λ id d. true) store).0

  replace_in : ℕ → D → List (ℕ × D) → List (ℕ × D)
  replace_in id d [] = []
  replace_in id d ((j, e) ∷ rest) = if j == id then (j, d) ∷ rest else (j, e) ∷ replace_in id d rest

  -- A stored object that another component has changed; the store is not told.
  unfoldable pub replace : ℕ → D → Store D → Store D
  unfolding replace_in
  replace id d store = record store { displays = replace_in id d store.displays }

abbrev pub new : {D : Type 0} → Store D
new = record { displays = []; signals = [] }
