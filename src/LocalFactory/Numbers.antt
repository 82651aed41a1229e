-- ===== src/LocalFactory/Numbers.antt =====
-- daemon/scdm-local-display-factory.c: the numbers of X displays. The keys of
-- `used_display_numbers` are a list without duplicates, in the order in which the hash table is
-- walked.
pub mod Free
pub mod Freed
use scdm.Prelude.{ℕ, ◌+◌, ◌%◌, Bool, List, [], ◌∷◌, ltb, ◌==◌, if◌then◌else◌}

-- `g_list_sort` with `sort_nums`: an element goes in front of the first one that is not smaller.
insert_number : ℕ → List ℕ → List ℕ
insert_number n [] = n ∷ []
insert_number n (m ∷ rest) = if ltb m n then m ∷ insert_number n rest else n ∷ m ∷ rest

sort_numbers : List ℕ → List ℕ
unfolding insert_number
sort_numbers [] = []
sort_numbers (n ∷ rest) = insert_number n (sort_numbers rest)

-- The loop, from a number whose predecessors are all taken; a guint32 wraps.
first_hole : ℕ → List ℕ → ℕ
first_hole num [] = (num + 1) % 4294967296
first_hole num (next ∷ rest) =
    if next == (num + 1) % 4294967296 then first_hole next rest else (num + 1) % 4294967296

-- Zero is always filled first.
free_number : List ℕ → ℕ
unfolding first_hole
free_number [] = 0
free_number (num ∷ rest) = if num == 0 then first_hole num rest else 0

-- The number that is taken, and the table with it.
unfoldable pub take_next_display_number : List ℕ → ℕ × List ℕ
unfolding sort_numbers free_number
take_next_display_number used = let ret = free_number (sort_numbers used) in (ret, ret ∷ used)
