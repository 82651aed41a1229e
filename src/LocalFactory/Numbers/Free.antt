-- ===== src/LocalFactory/Numbers/Free.antt =====
-- The number that a new X display gets is the least that is free:
-- daemon/scdm-local-display-factory.c.
use scdm.LocalFactory.Numbers.{
  insert_number, sort_numbers, first_hole, free_number, take_next_display_number,
}
use scdm.Prelude.{
  ℕ, ◌+◌, ◌%◌, ◌<◌, ◌≤◌, ◌≡◌, ◌≢◌, refl, ◌⊎◌, inl, inr, Bool, true, false, List, [], ◌∷◌, arith,
  ltb, ◌==◌, if◌then◌else◌, All, In, Bool-cases,
}

-- No number twice.
unfoldable pub AllDiffer : List ℕ → Type 0
AllDiffer [] = Unit
AllDiffer (n ∷ rest) = All (λ m. m ≢ n) rest × AllDiffer rest

-- Each number is smaller than those after it.
Increasing : List ℕ → Type 0
Increasing [] = Unit
Increasing (n ∷ rest) = All (λ m. n < m) rest × Increasing rest

module _ (P : ℕ → Type 0) where
  All-insert : (n : ℕ) (ns : List ℕ) → P n → All P ns → All P (insert_number n ns)
  unfolding insert_number
  All-insert n [] p h = (p, tt)
  All-insert n (m ∷ rest) p h = elim (Bool-cases (ltb m n)) [
    | inl e ↦ rw e (h.0, All-insert n rest p h.1)
    | inr e ↦ rw e (p, h)
  ]

  All-sort : (ns : List ℕ) → All P ns → All P (sort_numbers ns)
  unfolding sort_numbers
  All-sort [] h = tt
  All-sort (n ∷ rest) h = All-insert n (sort_numbers rest) h.0 (All-sort rest h.1)

All-above : (n m : ℕ) (ns : List ℕ) → n < m → All (λ k. m < k) ns → All (λ k. n < k) ns
All-above n m [] l h = tt
All-above n m (k ∷ rest) l h = (omega (arith, h.0), All-above n m rest l h.1)

insert-Increasing :
    (n : ℕ) (ns : List ℕ) → All (λ m. m ≢ n) ns → Increasing ns → Increasing (insert_number n ns)
unfolding insert_number Increasing
insert-Increasing n [] d h = (tt, tt)
insert-Increasing n (m ∷ rest) d h = elim (Bool-cases (ltb m n)) [
  | inl e ↦
      rw e
        (All-insert (λ k. m < k) n rest (ground (arith, e)) h.0, insert-Increasing n rest d.1 h.1)
  | inr e ↦
      let below : n < m = ground (arith, e, d.0) in rw e ((below, All-above n m rest below h.0), h)
]

sort-Increasing : (ns : List ℕ) → AllDiffer ns → Increasing (sort_numbers ns)
unfolding sort_numbers Increasing AllDiffer
sort-Increasing [] d = tt
sort-Increasing (n ∷ rest) d =
    insert-Increasing n (sort_numbers rest) (All-sort (λ m. m ≢ n) rest d.0)
      (sort-Increasing rest d.1)

In-insert : (k n : ℕ) (ns : List ℕ) → In k (insert_number n ns) → (k ≡ n) ⊎ In k ns
unfolding insert_number
In-insert k n [] (inl e) = inl e
In-insert k n [] (inr i) = inr i
In-insert k n (m ∷ rest) i = go (ltb m n) (In-insert k n rest) i
  where
    deeper : (k ≡ n) ⊎ In k rest → (k ≡ n) ⊎ ((k ≡ m) ⊎ In k rest)
    deeper (inl e) = inl e
    deeper (inr j) = inr (inr j)

    go :
        (b : Bool)
        → (In k (insert_number n rest) → (k ≡ n) ⊎ In k rest)
        → In k (if b then m ∷ insert_number n rest else n ∷ m ∷ rest)
        → (k ≡ n) ⊎ ((k ≡ m) ⊎ In k rest)
    go true ih (inl e) = inr (inl e)
    go true ih (inr j) = deeper (ih j)
    go false ih (inl e) = inl e
    go false ih (inr j) = inr j

In-sort : (k : ℕ) (ns : List ℕ) → In k (sort_numbers ns) → In k ns
unfolding sort_numbers
In-sort k [] i = i
In-sort k (n ∷ rest) i = elim (In-insert k n (sort_numbers rest) i) [
  | inl e ↦ inl e
  | inr j ↦ inr (In-sort k rest j)
]

module _ (P : ℕ → Type 0) where
  All-uninsert : (n : ℕ) (ns : List ℕ) → All P (insert_number n ns) → P n × All P ns
  unfolding insert_number
  All-uninsert n [] h = h
  All-uninsert n (m ∷ rest) h = go (ltb m n) (All-uninsert n rest) h
    where
      go :
          (b : Bool)
          → (All P (insert_number n rest) → P n × All P rest)
          → All P (if b then m ∷ insert_number n rest else n ∷ m ∷ rest)
          → P n × (P m × All P rest)
      go true ih k = let (p, q) = ih k.1 in (p, (k.0, q))
      go false ih k = k

  All-unsort : (ns : List ℕ) → All P (sort_numbers ns) → All P ns
  unfolding sort_numbers
  All-unsort [] h = tt
  All-unsort (n ∷ rest) h =
      let (p, q) = All-uninsert n (sort_numbers rest) h in (p, All-unsort rest q)

beyond : (n m : ℕ) (ns : List ℕ) → n < m → All (λ k. m < k) ns → All (λ k. k ≢ n) ns
beyond n m [] l h = tt
beyond n m (k ∷ rest) l h = ((λ e. omega (arith, h.0, e)), beyond n m rest l h.1)

-- The first number after `num` that is not in the list, as far as `k` tells.
abbrev IsHole : (num k : ℕ) → List ℕ → ℕ → Type 0
IsHole num k ns hole =
    (num < hole) × All (λ m. m ≢ hole) (num ∷ ns) × (In k (num ∷ ns) ⊎ ((k < num) ⊎ (hole ≤ k)))

next-IsHole :
    (num k : ℕ) (ns : List ℕ)
    → num < 4294967295
    → All (λ m. m ≢ (num + 1) % 4294967296) ns
    → IsHole num k ns ((num + 1) % 4294967296)
next-IsHole num k ns small differ =
    (omega (arith, small), ((λ e. omega (arith, small, e)), differ), cases)
  where
    cases : In k (num ∷ ns) ⊎ ((k < num) ⊎ ((num + 1) % 4294967296 ≤ k))
    cases = ground (arith, small)

-- From a number on, the loop finds the first one that is not in the list.
first_hole-IsHole :
    (num k : ℕ) (ns : List ℕ)
    → Increasing (num ∷ ns)
    → All (λ m. m < 4294967295) (num ∷ ns)
    → IsHole num k ns (first_hole num ns)
unfolding first_hole Increasing
first_hole-IsHole num k [] up small = next-IsHole num k [] small.0 tt
first_hole-IsHole num k (next ∷ rest) up small =
    go (next == (num + 1) % 4294967296) refl (first_hole-IsHole next k rest up.1 small.1)
  where
    later :
        (hole : ℕ)
        → (next == (num + 1) % 4294967296) ≡ true
        → IsHole next k rest hole
        → IsHole num k (next ∷ rest) hole
    later hole e (above, differ, found) = (
      omega (arith, above, up.0.0),
      ((λ q. omega (arith, above, up.0.0, q)), differ),
      ground (arith, e, found, up.0.0, small.0),
    )

    go :
        (b : Bool)
        → (next == (num + 1) % 4294967296) ≡ b
        → IsHole next k rest (first_hole next rest)
        → IsHole num k (next ∷ rest) (if b then first_hole next rest else (num + 1) % 4294967296)
    go true e ih = later (first_hole next rest) e ih
    go false e ih =
        let gap : (num + 1) % 4294967296 < next = ground (arith, e, up.0.0, small.0) in
        next-IsHole num k (next ∷ rest) small.0
          ((λ q. omega (arith, gap, q)), beyond _ next rest gap up.1.0)

-- The number that is taken is not in use, so that the table has no number twice again, and it is the
-- least: every smaller one is in use. The numbers in use are less than the greatest guint32, and none
-- is there twice.
pub take_next_display_number_least :
    (used : List ℕ) (k : ℕ)
    → AllDiffer used
    → All (λ m. m < 4294967295) used
    → let (ret, after) = take_next_display_number used in AllDiffer after × (In k used ⊎ (ret ≤ k))
unfolding take_next_display_number
take_next_display_number_least used k differ small =
    go (sort_numbers used) (sort-Increasing used differ) (All-sort (λ m. m < 4294967295) used small)
      (λ P. All-unsort P used) (In-sort k used)
  where
    go :
        (sorted : List ℕ)
        → Increasing sorted
        → All (λ m. m < 4294967295) sorted
        → ((P : ℕ → Type 0) → All P sorted → All P used)
        → (In k sorted → In k used)
        → AllDiffer (free_number sorted ∷ used) × (In k used ⊎ (free_number sorted ≤ k))
    go [] up low all found =
        unfold AllDiffer free_number in ((all (λ m. m ≢ 0) tt, differ), inr (omega arith))
    go (num ∷ rest) up low all found =
        unfold free_number in zero_or (num == 0) refl (first_hole-IsHole num k rest up low)
      where
        hole : ℕ
        hole = first_hole num rest

        zero_or :
            (b : Bool)
            → (num == 0) ≡ b
            → IsHole num k rest hole
            → AllDiffer ((if b then hole else 0) ∷ used)
              × (In k used ⊎ ((if b then hole else 0) ≤ k))
        zero_or true e (above, differs, cases) =
            (unfold AllDiffer in (all (λ m. m ≢ hole) differs, differ), choose cases)
          where
            choose : In k (num ∷ rest) ⊎ ((k < num) ⊎ (hole ≤ k)) → In k used ⊎ (hole ≤ k)
            choose (inl i) = inl (found i)
            choose (inr (inl less)) = absurd (ground (arith, e, less))
            choose (inr (inr more)) = inr more
        zero_or false e least = (
          unfold AllDiffer in
              (
                all (λ m. m ≢ 0) (positive, beyond 0 num rest (ground (arith, e)) above_num),
                differ,
              ),
          inr (omega arith),
        )
          where
            above_num : All (λ m. num < m) rest
            above_num =
                let split : All (λ m. num < m) rest × Increasing rest = unfold Increasing in up in
                split.0

            positive : num ≢ 0
            positive q = ground (arith, e, q)
