-- ===== src/Xdmcp/Displays/Serials.antt =====
-- Session serials, daemon/scdm-xdmcp-display-factory.c.
use scdm.Prelude.{
  ℕ, ◌+◌, ◌≡◌, ◌≢◌, refl, ◌⊎◌, inl, inr, false, Option, none, some, List, [], ◌∷◌, arith, ◌==◌,
  Bool-cases,
}
use scdm.Xdmcp.Displays.{get_next_session_serial, first_nonzero, max_int32}
use scdm.Xdmcp.Types.{Factory, u32}

first_nonzero_ne : (random : List ℕ) (s : ℕ) → first_nonzero random ≡ some s → s ≢ 0
unfolding first_nonzero
first_nonzero_ne [] s e = λ z. cc
first_nonzero_ne (r ∷ rest) s e = λ z. ground (arith, e, z, first_nonzero_ne rest s)

-- A serial is never 0, the id that no session has.
pub session_serial_ne_zero :
    (random : List ℕ) (factory after : Factory) (serial : ℕ)
    → get_next_session_serial random factory ≡ some (serial, after)
    → serial ≢ 0
unfolding get_next_session_serial
session_serial_ne_zero random factory after serial e z =
    ground (arith, e, z, first_nonzero_ne random serial)

-- A serial that was taken is not 0, and nothing but the counter changed.
unfoldable pub SerialOk : Factory → ℕ × Factory → Type 0
SerialOk before (serial, after) =
    ((serial == 0) ≡ false) × ((n : ℕ) × (after ≡ record before { session_serial = n }))

unfoldable pub AllSerialOk : Factory → Option (ℕ × Factory) → Type 0
unfolding SerialOk
AllSerialOk before none = Unit
AllSerialOk before (some taken) = SerialOk before taken

first_nonzero_cases :
    (random : List ℕ)
    → (first_nonzero random ≡ none)
      ⊎ ((s : ℕ) × (first_nonzero random ≡ some s) × ((s == 0) ≡ false))
unfolding first_nonzero
first_nonzero_cases [] = inl refl
first_nonzero_cases (r ∷ rest) = elim (Bool-cases (r == 0)) [
  | inl e ↦ rw e (first_nonzero_cases rest)
  | inr e ↦ inr (r, rw e refl, e)
]

pub get_next_session_serial-AllSerialOk :
    (random : List ℕ) (factory : Factory)
    → AllSerialOk factory (get_next_session_serial random factory)
unfolding get_next_session_serial AllSerialOk
get_next_session_serial-AllSerialOk random factory =
    elim (Bool-cases (factory.session_serial == max_int32)) [
      | inl greatest ↦ rw greatest (elim (first_nonzero_cases random) [
        | inl e ↦ rw e tt
        | inr (s, e, n) ↦ rw e (n, (factory.session_serial, refl))
      ])
      | inr below ↦ rw below (elim (Bool-cases (factory.session_serial == 0)) [
        | inl e ↦ rw e (refl, (2, refl))
        | inr e ↦ rw e (e, (u32 (factory.session_serial + 1), refl))
      ])
    ]
