-- ===== src/Worker/Extensions/Block.antt =====
-- When the variable of the extensions' names needs more than its block:
-- pam-extensions/scdm-pam-extensions.h.
use scdm.Prelude.{
  ℕ, zero, suc, ◌+◌, ◌*◌, ◌≤◌, ◌<◌, ◌≡◌, ◌∙◌, refl, ap, Bool, true, false, List, [], ◌∷◌, arith,
  if◌then◌else◌, ltb, leb, Bytes, length, length-append, codes,
}
use scdm.Worker.Extensions.Names.{copies, copies-length, filter_extensions-copies}
use scdm.Worker.Extensions.{
  posix_arg_max, uchar_max, choice_list, filter_extensions, fitting, join, block_text, block_size,
}

-- A copy of the name takes 62 bytes with its space.
fitting-more :
    (size left n : ℕ)
    → size + 62 < 4096
    → fitting size (suc left) (copies (suc n)) ≡ choice_list ∷ fitting (size + 62) left (copies n)
unfolding fitting
fitting-more size left n h = go (leb posix_arg_max (size + 62)) refl
  where
    go :
        (b : Bool)
        → leb posix_arg_max (size + 62) ≡ b
        → (if b then [] else choice_list ∷ fitting (size + 62) left (copies n))
          ≡ choice_list ∷ fitting (size + 62) left (copies n)
    go true e = absurd (ground (arith, e, h))
    go false e = refl

-- After 66 copies there is room for none.
fitting-full : (size left n : ℕ) → size ≡ 4092 → fitting size left (copies n) ≡ []
unfolding fitting
fitting-full size zero n e = refl
fitting-full size (suc left) zero e = refl
fitting-full size (suc left) (suc n) e = rw e refl

-- As many of n copies as there is room for.
most : (room n : ℕ) → ℕ
most zero n = 0
most (suc room) zero = 0
most (suc room) (suc n) = suc (most room n)

most_lem : (room n : ℕ) → most room n ≡ (if leb room n then room else n)
unfolding most
most_lem zero n = ground arith
most_lem (suc room) zero = ground arith
most_lem (suc room) (suc n) = ground (arith, most_lem room n)

fitting-most :
    (room size left n : ℕ)
    → size + 62 * room ≡ 4092
    → room ≤ left
    → fitting size left (copies n) ≡ copies (most room n)
unfolding most
fitting-most zero size left n e l = fitting-full size left n (omega (arith, e))
fitting-most (suc room) size zero n e l = absurd (omega (arith, l))
fitting-most (suc room) size (suc left) zero e l = unfold fitting in refl
fitting-most (suc room) size (suc left) (suc n) e l =
    fitting-more size left n (omega (arith, e))
    ∙ ap (λ ns. choice_list ∷ ns)
        (fitting-most room (size + 62) left n (omega (arith, e)) (omega (arith, l)))

join-copies : (n : ℕ) → length (join (copies (suc n))) ≡ 61 + 62 * n
unfolding join
join-copies zero = refl
join-copies (suc n) =
    omega (arith, length-append choice_list (b' ' ∷ join (copies (suc n))), join-copies n)

-- How many of the names are written.
unfoldable pub written : ℕ → ℕ
written n = if leb 66 n then 66 else n

fitting-written : (n : ℕ) → fitting 0 uchar_max (copies n) ≡ copies (written n)
unfolding written
fitting-written n = fitting-most 66 0 255 n (omega arith) (omega arith) ∙ ap copies (most_lem 66 n)

text-copies : (n : ℕ) → length (block_text (copies n)) + 1 ≡ 30 + 62 * n
unfolding block_text
text-copies zero = refl
text-copies (suc n) = omega (
  arith,
  length-append (codes "SCDM_SUPPORTED_PAM_EXTENSIONS") (b'=' ∷ join (copies (suc n))),
  join-copies n,
)

written_lem : (n : ℕ) → ltb posix_arg_max (30 + 62 * written n) ≡ leb 66 n
unfolding written
written_lem n = ground arith

-- Where n of the names that are given are supported, the text in the block takes 30 bytes for the
-- variable's name and the null byte at the end, and 62 for each of the first 66 supported names. So
-- it takes more than the `_POSIX_ARG_MAX` bytes of the block exactly if n is 66 or more.
pub block_overflows_exactly :
    (given : List Bytes)
    → let supported = filter_extensions given in
      (block_size supported ≡ 30 + 62 * written (length supported))
      × (ltb posix_arg_max (block_size supported) ≡ leb 66 (length supported))
unfolding block_size
block_overflows_exactly given =
    let (n, e) = filter_extensions-copies given in
    rw (e, copies-length n, fitting-written n, text-copies (written n)) (refl, written_lem n)
