-- ===== src/DisplayStore/Laws.antt =====
-- The store against a finite map, and its signals against what it holds: daemon/scdm-display-store.c.
use scdm.DisplayStore.{
  Store, Signal, display_added, display_removed, put, lookup_in, announce_removed, add, lookup,
  remove_in, foreach_remove, replace, replace_in, new,
}
use scdm.Prelude.{
  ℕ, suc, ◌+◌, ◌≤◌, ◌≡◌, ◌≢◌, refl, Bool, Option, none, some, List, [], ◌∷◌, arith, ◌==◌,
  if◌then◌else◌, length, Bool-cases, ==_iff, inl, inr,
}

module _ {D : Type 0} where
  Absent : ℕ → List (ℕ × D) → Type 0
  Absent id [] = Unit
  Absent id ((j, e) ∷ rest) = (j ≢ id) × Absent id rest

  Unique : List (ℕ × D) → Type 0
  unfolding Absent
  Unique [] = Unit
  Unique ((j, e) ∷ rest) = Absent j rest × Unique rest

  -- One entry for a key.
  pub HasUniqueIds : Store D → Type 0
  unfolding Unique
  HasUniqueIds store = Unique store.displays

  pub added : List (Signal D) → ℕ
  added [] = 0
  added (display_added id ∷ log) = suc (added log)
  added (display_removed d ∷ log) = added log

  pub removed : List (Signal D) → ℕ
  removed [] = 0
  removed (display_added id ∷ log) = removed log
  removed (display_removed d ∷ log) = suc (removed log)

  -- What has been announced, less what was announced to leave, is what the store holds.
  pub IsBalanced : Store D → Type 0
  IsBalanced store = added store.signals ≡ removed store.signals + length store.displays

  Absent-put :
      (k id : ℕ) (d : D) (ds : List (ℕ × D)) → id ≢ k → Absent k ds → Absent k (put id d ds)
  unfolding Absent put
  Absent-put k id d [] n h = (n, tt)
  Absent-put k id d ((j, e) ∷ rest) n h = ground (arith, n, h, Absent-put k id d rest n h.1)

  Unique-put : (id : ℕ) (d : D) (ds : List (ℕ × D)) → Unique ds → Unique (put id d ds)
  unfolding Unique put
  Unique-put id d [] h = (tt, tt)
  Unique-put id d ((j, e) ∷ rest) h = elim (Bool-cases (j == id)) [
    | inl e ↦ rw e h
    | inr e ↦
        rw e
          (Absent-put j id d rest (λ q. ground (arith, ==_iff j id)) h.0, Unique-put id d rest h.1)
  ]

  -- A lookup after an addition finds the new display under its id, and what it found before under
  -- any other.
  pub lookup-add :
      (id j : ℕ) (d : D) (store : Store D)
      → lookup j (add id d store) ≡ (if id == j then some d else lookup j store)
  unfolding lookup add put
  lookup-add id j d store = go store.displays
    where
      go :
          (ds : List (ℕ × D))
          → lookup_in j (put id d ds) ≡ (if id == j then some d else lookup_in j ds)
      go [] = refl
      go ((i, e) ∷ rest) = ground (arith, go rest)

  pub kept : (ℕ → D → Bool) → ℕ → Option D → Option D
  kept predicate id none = none
  kept predicate id (some d) = if predicate id d then none else some d

  lookup_in-Absent : (id : ℕ) (ds : List (ℕ × D)) → Absent id ds → lookup_in id ds ≡ none
  unfolding lookup_in Absent
  lookup_in-Absent id [] h = refl
  lookup_in-Absent id ((j, e) ∷ rest) h = ground (arith, h, lookup_in-Absent id rest h.1)

  Absent-remove :
      (p : ℕ → D → Bool) (id : ℕ) (ds : List (ℕ × D)) (log : List (Signal D))
      → Absent id ds
      → Absent id (remove_in p ds log).0
  unfolding Absent remove_in
  Absent-remove p id [] log h = tt
  Absent-remove p id ((j, e) ∷ rest) log h =
      let log' = if p j e then display_removed e ∷ log else log in
      ground (arith, h, Absent-remove p id rest log' h.1)

  Unique-remove :
      (p : ℕ → D → Bool) (ds : List (ℕ × D)) (log : List (Signal D))
      → Unique ds
      → Unique (remove_in p ds log).0
  unfolding Unique remove_in
  Unique-remove p [] log h = tt
  Unique-remove p ((j, e) ∷ rest) log h =
      let log' = if p j e then display_removed e ∷ log else log in
      ground (arith, h, Absent-remove p j rest log' h.0, Unique-remove p rest log' h.1)

  balance-remove :
      (p : ℕ → D → Bool) (ds : List (ℕ × D)) (log : List (Signal D)) (n : ℕ)
      → added log ≡ removed log + length ds + n
      → let r = remove_in p ds log in
        (added r.1 ≡ removed r.1 + length r.0 + n) × (r.2 + length r.0 ≡ length ds)
  unfolding added removed remove_in
  balance-remove p [] log n h = (h, omega arith)
  balance-remove p ((j, e) ∷ rest) log n h = elim (Bool-cases (p j e)) [
    | inl g ↦
        rw (g, remove_in)
          (let (b, l) = balance-remove p rest (display_removed e ∷ log) n (omega arith) in
            (b, omega arith))
    | inr g ↦
        rw (g, remove_in)
          (let (b, l) = balance-remove p rest log (suc n) (omega arith) in
            (omega arith, omega arith))
  ]

  lookup-remove :
      (p : ℕ → D → Bool) (id : ℕ) (ds : List (ℕ × D)) (log : List (Signal D))
      → Unique ds
      → lookup_in id (remove_in p ds log).0 ≡ kept p id (lookup_in id ds)
  unfolding Unique remove_in lookup_in kept
  lookup-remove p id [] log h = refl
  lookup-remove p id ((j, e) ∷ rest) log h = ground (arith, lookup-remove p id rest log' h.1, gone)
    where
      log' : List (Signal D)
      log' = if p j e then display_removed e ∷ log else log

      gone : j ≡ id → lookup_in id (remove_in p rest log').0 ≡ none
      gone q =
          lookup_in-Absent id (remove_in p rest log').0
            (Absent-remove p id rest log' (rw q at (h.0)))

  -- Keys stay unique under every operation.
  pub add-HasUniqueIds :
      (id : ℕ) (d : D) (store : Store D) → HasUniqueIds store → HasUniqueIds (add id d store)
  unfolding HasUniqueIds add
  add-HasUniqueIds id d store h = Unique-put id d store.displays h

  pub foreach_remove-HasUniqueIds :
      (p : ℕ → D → Bool) (store : Store D)
      → HasUniqueIds store
      → HasUniqueIds (foreach_remove p store).0
  unfolding HasUniqueIds foreach_remove
  foreach_remove-HasUniqueIds p store h = Unique-remove p store.displays store.signals h

  Absent-replace :
      (k id : ℕ) (d : D) (ds : List (ℕ × D)) → Absent k ds → Absent k (replace_in id d ds)
  unfolding Absent replace_in
  Absent-replace k id d [] h = h
  Absent-replace k id d ((j, e) ∷ rest) h = ground (arith, h, Absent-replace k id d rest h.1)

  pub replace-HasUniqueIds :
      (id : ℕ) (d : D) (store : Store D) → HasUniqueIds store → HasUniqueIds (replace id d store)
  unfolding HasUniqueIds replace
  replace-HasUniqueIds id d store h = go store.displays h
    where
      go : (ds : List (ℕ × D)) → Unique ds → Unique (replace_in id d ds)
      go [] k = k
      go ((j, e) ∷ rest) k = ground (arith, k, Absent-replace j id d rest k.0, go rest k.1)

  pub replace-IsBalanced :
      (id : ℕ) (d : D) (store : Store D) → IsBalanced store → IsBalanced (replace id d store)
  unfolding IsBalanced replace
  replace-IsBalanced id d store h = omega (arith, go store.displays)
    where
      go : (ds : List (ℕ × D)) → length (replace_in id d ds) ≡ length ds
      go [] = refl
      go ((j, e) ∷ rest) = ground (arith, go rest)

  length-put :
      (id : ℕ) (d : D) (ds : List (ℕ × D)) (log : List (Signal D)) (n : ℕ)
      → added log ≡ removed log + length ds + n
      → let log' = announce_removed (lookup_in id ds) log in
        suc (added log') ≡ removed log' + length (put id d ds) + n
  unfolding put lookup_in announce_removed added removed
  length-put id d [] log n h = omega arith
  length-put id d ((j, e) ∷ rest) log n h = ground (arith, length-put id d rest log (suc n))

  -- An addition keeps that.
  pub add-IsBalanced :
      (id : ℕ) (d : D) (store : Store D) → IsBalanced store → IsBalanced (add id d store)
  unfolding IsBalanced add added removed
  add-IsBalanced id d store h =
      omega (arith, length-put id d store.displays store.signals 0 (omega arith))

  -- The displays that a predicate holds for, in their order.
  pub leaving : (ℕ → D → Bool) → List (ℕ × D) → List D
  leaving p [] = []
  leaving p ((j, e) ∷ rest) = if p j e then e ∷ leaving p rest else leaving p rest

  -- A log to which the departure of displays was added, one after the other.
  pub departures : List D → List (Signal D) → List (Signal D)
  departures [] log = log
  departures (e ∷ rest) log = departures rest (display_removed e ∷ log)

  signals-remove :
      (p : ℕ → D → Bool) (ds : List (ℕ × D)) (log : List (Signal D))
      → ((remove_in p ds log).1 ≡ departures (leaving p ds) log)
        × ((remove_in p ds log).2 ≡ length (leaving p ds))
        × ((remove_in p ds log).2 + length (remove_in p ds log).0 ≡ length ds)
  unfolding remove_in leaving departures
  signals-remove p [] log = (refl, refl, refl)
  signals-remove p ((j, e) ∷ rest) log = elim (Bool-cases (p j e)) [
    | inl g ↦ rw g (
        let (s, n, l) = signals-remove p rest (display_removed e ∷ log) in
        (s, omega (arith, n), omega (arith, l)))
    | inr g ↦ rw g (let (s, n, l) = signals-remove p rest log in (s, n, omega (arith, l)))
  ]

  -- In a store with unique ids, a removal by a predicate announces the displays that it holds for,
  -- these and no others, once each and in their order; it returns how many they are, keeps as many
  -- as were there besides, and a lookup finds what it found before, unless the predicate holds for
  -- that.
  pub foreach_remove_lem :
      (p : ℕ → D → Bool) (store : Store D) (id : ℕ)
      → HasUniqueIds store
      → let (after, n) = foreach_remove p store in
        (after.signals ≡ departures (leaving p store.displays) store.signals)
        × (n ≡ length (leaving p store.displays))
        × (n + length after.displays ≡ length store.displays)
        × (lookup id after ≡ kept p id (lookup id store))
  unfolding HasUniqueIds foreach_remove lookup
  foreach_remove_lem p store id u =
      let (announced, counted, left) = signals-remove p store.displays store.signals in
      (announced, counted, left, lookup-remove p id store.displays store.signals u)

  pub foreach_remove-IsBalanced :
      (p : ℕ → D → Bool) (store : Store D)
      → IsBalanced store
      → IsBalanced (foreach_remove p store).0
  unfolding IsBalanced foreach_remove
  foreach_remove-IsBalanced p store b =
      omega (arith, (balance-remove p store.displays store.signals 0 (omega arith)).0)

-- How many displays there are.
module _ {D : Type 0} where
  pub length-add_le :
      (id : ℕ) (d : D) (store : Store D)
      → length (add id d store).displays ≤ suc (length store.displays)
  unfolding add
  length-add_le id d store = go store.displays
    where
      go : (ds : List (ℕ × D)) → length (put id d ds) ≤ suc (length ds)
      go [] = omega arith
      go ((j, e) ∷ rest) = ground (arith, go rest)

  pub length-replace :
      (id : ℕ) (d : D) (store : Store D)
      → length (replace id d store).displays ≡ length store.displays
  unfolding replace
  length-replace id d store = go store.displays
    where
      go : (ds : List (ℕ × D)) → length (replace_in id d ds) ≡ length ds
      go [] = refl
      go ((j, e) ∷ rest) = ground (arith, go rest)

-- A new store.
pub new-HasUniqueIds : (D : Type 0) → HasUniqueIds (new {D = D})
unfolding HasUniqueIds
new-HasUniqueIds D = tt

pub new-IsBalanced : (D : Type 0) → IsBalanced (new {D = D})
unfolding IsBalanced added removed
new-IsBalanced D = refl
