-- ===== src/LocalFactory/Numbers/Freed.antt =====
-- A number that is taken out of those in use is free again, and is the next one where all smaller ones
-- are in use: daemon/scdm-local-display-factory.c.
use scdm.LocalFactory.Numbers.Free.{AllDiffer, take_next_display_number_least}
use scdm.LocalFactory.Numbers.{take_next_display_number}
use scdm.Prelude.{
  ℕ, ◌<◌, ◌≤◌, ◌≡◌, ◌≢◌, refl, ◌⊎◌, inl, inr, Bool, true, false, not, List, [], ◌∷◌, arith, ◌==◌,
  if◌then◌else◌, All, In, filter,
}

unfoldable without : ℕ → List ℕ → List ℕ
without n ns = filter (λ m. not (m == n)) ns

not_filtered : (n : ℕ) (ns : List ℕ) → ¬ (In n (filter (λ m. not (m == n)) ns))
not_filtered n [] i = i
not_filtered n (m ∷ rest) i = go (m == n) refl (not_filtered n rest) i
  where
    go :
        (b : Bool)
        → (m == n) ≡ b
        → ¬ (In n (filter (λ k. not (k == n)) rest))
        → ¬ (
            In n (
              if not b
              then m ∷ filter (λ k. not (k == n)) rest
              else filter (λ k. not (k == n)) rest))
    go true e ih j = ih j
    go false e ih (inl q) = ground (arith, e, q)
    go false e ih (inr j) = ih j

All-filter : (P : ℕ → Type 0) (n : ℕ) (ns : List ℕ) → All P ns → All P (without n ns)
unfolding without
All-filter P n [] h = tt
All-filter P n (m ∷ rest) h = go (m == n) (All-filter P n rest h.1)
  where
    go :
        (b : Bool)
        → All P (without n rest)
        → All P (if not b then m ∷ without n rest else without n rest)
    go true k = k
    go false k = (h.0, k)

AllDiffer-filter : (n : ℕ) (ns : List ℕ) → AllDiffer ns → AllDiffer (without n ns)
unfolding without AllDiffer
AllDiffer-filter n [] h = tt
AllDiffer-filter n (m ∷ rest) h = go (m == n) (AllDiffer-filter n rest h.1)
  where
    go :
        (b : Bool)
        → AllDiffer (without n rest)
        → AllDiffer (if not b then m ∷ without n rest else without n rest)
    go true k = k
    go false k = (All-filter (λ i. i ≢ m) n rest h.0, k)

In-filter : (k n : ℕ) (ns : List ℕ) → k ≢ n → In k ns → In k (without n ns)
unfolding without
In-filter k n (m ∷ rest) differ i = go (m == n) refl (In-filter k n rest differ) i
  where
    go :
        (b : Bool)
        → (m == n) ≡ b
        → (In k rest → In k (without n rest))
        → In k (m ∷ rest)
        → In k (if not b then m ∷ without n rest else without n rest)
    go true e ih (inl q) = absurd (ground (arith, e, q, differ))
    go true e ih (inr j) = ih j
    go false e ih (inl q) = inl q
    go false e ih (inr j) = inr (ih j)
In-filter k n [] differ i = i

All-In : (P : ℕ → Type 0) (k : ℕ) (ns : List ℕ) → All P ns → In k ns → P k
All-In P k [] h i = absurd i
All-In P k (m ∷ rest) h (inl q) = rw q (h.0)
All-In P k (m ∷ rest) h (inr j) = All-In P k rest h.1 j

pub take_next-freed :
    (n : ℕ) (used : List ℕ)
    → AllDiffer used
    → All (λ m. m < 4294967295) used
    → ((m : ℕ) → m < n → In m used)
    → (take_next_display_number (filter (λ m. not (m == n)) used)).0 ≡ n
unfolding take_next_display_number AllDiffer without
take_next-freed n used differ small below =
    let freed = without n used in
    let next = (take_next_display_number freed).0 in
    let (fresh, least) =
      take_next_display_number_least freed n (AllDiffer-filter n used differ)
        (All-filter (λ m. m < 4294967295) n used small) in
    go next (fresh.0) least
  where
    go :
        (next : ℕ)
        → All (λ m. m ≢ next) (without n used)
        → In n (without n used) ⊎ (next ≤ n)
        → next ≡ n
    go next fresh (inl i) = absurd (not_filtered n used i)
    go next fresh (inr le) = decide (next == n) refl
      where
        decide : (b : Bool) → (next == n) ≡ b → next ≡ n
        decide true e = ground (arith, e)
        decide false e =
            let less : next < n = ground (arith, e, le) in
            let there = In-filter next n used (λ q. omega (arith, less, q)) (below next less) in
            absurd (All-In (λ m. m ≢ next) next (without n used) fresh there refl)
