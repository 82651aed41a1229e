-- ===== src/DisplayStore/Counting.antt =====
-- How many displays of a store pass a test, under its operations: daemon/scdm-display-store.c.
use scdm.DisplayStore.{
  Store, Signal, display_removed, put, lookup_in, add, lookup, find_in, find, foreach_in, foreach,
  remove_in, foreach_remove, replace, replace_in, new,
}
use scdm.Prelude.{
  ℕ, suc, ◌+◌, ◌%◌, ◌≤◌, ◌≡◌, refl, Bool, true, false, not, some, ◌==◌, List, [], ◌∷◌, arith,
  if◌then◌else◌,
}

module _ {D : Type 0} where
  tally : (D → Bool) → List (ℕ × D) → ℕ
  tally p [] = 0
  tally p ((j, e) ∷ rest) = if p e then suc (tally p rest) else tally p rest

  -- How many displays pass the test.
  pub count_of : (D → Bool) → Store D → ℕ
  unfolding tally
  count_of p store = tally p store.displays

  EveryIn : (D → Bool) → List (ℕ × D) → Type 0
  EveryIn p [] = Unit
  EveryIn p ((j, e) ∷ rest) = (p e ≡ true) × EveryIn p rest

  -- All displays pass the test.
  pub Every : (D → Bool) → Store D → Type 0
  unfolding EveryIn
  Every p store = EveryIn p store.displays

  -- Walking the store with a counter counts.
  pub foreach_count :
      (p : D → Bool) (store : Store D) (n : ℕ)
      → foreach (λ id d (k : ℕ). if p d then k + 1 else k) store n ≡ n + count_of p store
  unfolding foreach count_of
  foreach_count p store n = go store.displays n
    where
      go :
          (ds : List (ℕ × D)) (n : ℕ)
          → foreach_in (λ id d (k : ℕ). if p d then k + 1 else k) ds n ≡ n + tally p ds
      go [] n = omega arith
      go ((j, e) ∷ rest) n = ground (arith, go rest n, go rest (n + 1))

  pub count_of-add_le :
      (p : D → Bool) (id : ℕ) (d : D) (store : Store D)
      → count_of p (add id d store) ≤ count_of p store + (if p d then 1 else 0)
  unfolding count_of add
  count_of-add_le p id d store = go store.displays
    where
      go : (ds : List (ℕ × D)) → tally p (put id d ds) ≤ tally p ds + (if p d then 1 else 0)
      go [] = ground arith
      go ((j, e) ∷ rest) = ground (arith, go rest)

  pub count_of-foreach_remove_le :
      (p : D → Bool) (q : ℕ → D → Bool) (store : Store D)
      → count_of p (foreach_remove q store).0 ≤ count_of p store
  unfolding count_of foreach_remove
  count_of-foreach_remove_le p q store = go store.displays store.signals
    where
      go : (ds : List (ℕ × D)) (log : List (Signal D)) → tally p (remove_in q ds log).0 ≤ tally p ds
      go [] log = omega arith
      go ((j, e) ∷ rest) log =
          ground (arith, go rest (if q j e then display_removed e ∷ log else log))

  pub Every-add :
      (p : D → Bool) (id : ℕ) (d : D) (store : Store D)
      → p d ≡ true
      → Every p store
      → Every p (add id d store)
  unfolding Every add
  Every-add p id d store new h = go store.displays h
    where
      go : (ds : List (ℕ × D)) → EveryIn p ds → EveryIn p (put id d ds)
      go [] k = (new, tt)
      go ((j, e) ∷ rest) k = ground (arith, new, k, go rest k.1)

  pub Every-replace :
      (p : D → Bool) (id : ℕ) (d : D) (store : Store D)
      → p d ≡ true
      → Every p store
      → Every p (replace id d store)
  unfolding Every replace
  Every-replace p id d store new h = go store.displays h
    where
      go : (ds : List (ℕ × D)) → EveryIn p ds → EveryIn p (replace_in id d ds)
      go [] k = tt
      go ((j, e) ∷ rest) k = ground (arith, new, k, go rest k.1)

  pub Every-foreach_remove :
      (p : D → Bool) (q : ℕ → D → Bool) (store : Store D)
      → Every p store
      → Every p (foreach_remove q store).0
  unfolding Every foreach_remove
  Every-foreach_remove p q store h = go store.displays store.signals h
    where
      go :
          (ds : List (ℕ × D)) (log : List (Signal D))
          → EveryIn p ds
          → EveryIn p (remove_in q ds log).0
      go [] log k = tt
      go ((j, e) ∷ rest) log k =
          ground (arith, k, go rest (if q j e then display_removed e ∷ log else log) k.1)

  -- A test that all displays fail counts none.
  pub count_of_none :
      (p : D → Bool) (store : Store D) → Every (λ d. not (p d)) store → count_of p store ≡ 0
  unfolding Every count_of
  count_of_none p store h = go store.displays h
    where
      go : (ds : List (ℕ × D)) → EveryIn (λ d. not (p d)) ds → tally p ds ≡ 0
      go [] k = refl
      go ((j, e) ∷ rest) k = ground (arith, k, go rest k.1)

  pub Every-lookup :
      (p : D → Bool) (id : ℕ) (store : Store D) (d : D)
      → Every p store
      → lookup id store ≡ some d
      → p d ≡ true
  unfolding Every lookup
  Every-lookup p id store d h found = go store.displays h found
    where
      go : (ds : List (ℕ × D)) → EveryIn p ds → lookup_in id ds ≡ some d → p d ≡ true
      go [] k e = cc
      go ((j, x) ∷ rest) k e = ground (arith, k, e, go rest k.1)

  pub Every-find :
      (p : D → Bool) (q : ℕ → D → Bool) (store : Store D) (d : D)
      → Every p store
      → find q store ≡ some d
      → p d ≡ true
  unfolding Every find
  Every-find p q store d h found = go store.displays h found
    where
      go : (ds : List (ℕ × D)) → EveryIn p ds → find_in q ds ≡ some d → p d ≡ true
      go [] k e = cc
      go ((j, x) ∷ rest) k e = ground (arith, k, e, go rest k.1)

  -- A walk that steps two 32-bit counters by two tests.
  pub foreach_two_counters :
      (p q : D → Bool) (step : ℕ → D → ℕ × ℕ → ℕ × ℕ) (store : Store D)
      → ((id : ℕ) (d : D) (m n : ℕ)
          → step id d (m, n) ≡ (
            (if p d then (m + 1) % 4294967296 else m),
            (if q d then (n + 1) % 4294967296 else n),
          ))
      → foreach step store (0, 0) ≡ (count_of p store % 4294967296, count_of q store % 4294967296)
  unfolding foreach count_of
  foreach_two_counters p q step store steps =
      rw (plus_zero (tally p store.displays), plus_zero (tally q store.displays)) at
        (go store.displays 0 0)
    where
      plus_zero : (n : ℕ) → 0 + n ≡ n
      plus_zero n = omega arith

      stepped :
          (t : Bool) (a : ℕ)
          → (if t then (a % 4294967296 + 1) % 4294967296 else a % 4294967296)
            ≡ (if t then a + 1 else a) % 4294967296
      stepped true a = omega arith
      stepped false a = refl

      counts : (t : Bool) (a n : ℕ) → a + (if t then suc n else n) ≡ (if t then a + 1 else a) + n
      counts true a n = omega arith
      counts false a n = refl

      go :
          (ds : List (ℕ × D)) (a b : ℕ)
          → foreach_in step ds (a % 4294967296, b % 4294967296)
            ≡ ((a + tally p ds) % 4294967296, (b + tally q ds) % 4294967296)
      go [] a b = ground arith
      go ((j, e) ∷ rest) a b =
          rw
            (
              steps j e (a % 4294967296) (b % 4294967296),
              counts (p e) a (tally p rest),
              counts (q e) b (tally q rest),
              stepped (p e) a,
              stepped (q e) b,
            )
            (go rest (if p e then a + 1 else a) (if q e then b + 1 else b))

  -- What a removal by a test leaves fails the test.
  pub foreach_remove-Every :
      (p : D → Bool) (store : Store D)
      → Every (λ d. not (p d)) (foreach_remove (λ id d. p d) store).0
  unfolding Every foreach_remove
  foreach_remove-Every p store = go store.displays store.signals
    where
      go :
          (ds : List (ℕ × D)) (log : List (Signal D))
          → EveryIn (λ d. not (p d)) (remove_in (λ id d. p d) ds log).0
      go [] log = tt
      go ((j, e) ∷ rest) log =
          ground (arith, go rest (if p e then display_removed e ∷ log else log))

  pub Every-new : (p : D → Bool) → Every p new
  unfolding Every
  Every-new p = tt

  -- A display of the store that passes a test is found by it, or another one before it.
  pub find-lookup :
      (p : D → Bool) (id : ℕ) (d : D) (store : Store D)
      → lookup id store ≡ some d
      → p d ≡ true
      → (e : D) × (find (λ j x. p x) store ≡ some e)
  unfolding find lookup
  find-lookup p id d store found passes = go store.displays found
    where
      First : List (ℕ × D) → Type 0
      First ds = (e : D) × (find_in (λ j x. p x) ds ≡ some e)

      step :
          (b c : Bool) (j : ℕ) (x : D) (rest : List (ℕ × D))
          → p x ≡ c
          → (if b then some x else lookup_in id rest) ≡ some d
          → (lookup_in id rest ≡ some d → First rest)
          → (e : D) × ((if c then some x else find_in (λ j x. p x) rest) ≡ some e)
      step b true j x rest q e ih = (x, refl)
      step true false j x rest q e ih = absurd (ground (arith, e, q, passes))
      step false false j x rest q e ih = ih e

      go : (ds : List (ℕ × D)) → lookup_in id ds ≡ some d → First ds
      go [] e = absurd (ground (arith, e))
      go ((j, x) ∷ rest) e = step (j == id) (p x) j x rest refl e (go rest)
