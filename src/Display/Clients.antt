-- ===== src/Display/Clients.antt =====
-- daemon/scdm-display.c, `scdm_display_disconnect`: the loop over the resource ids of the clients of
-- an X server. An `XID` is a 32-bit number, and its sum wraps.
use Prim.Native.Nat.{bit_and}
use mathlib.Core.Option
use scdm.Prelude.{
  ◌&&◌, ◌↔◌, ℕ, zero, suc, ◌+◌, ◌-◌, ◌*◌, ◌%◌, ◌^◌, ◌<◌, ◌≤◌, ◌≡◌, ◌≢◌, refl, sym, ◌∙◌, ◌⊎◌, inl,
  inr, Bool, true, false, not, Option, none, some, List, [], ◌∷◌, arith, leb, ◌==◌, if◌then◌else◌,
  In, Bool-cases, ==_refl,
}

abbrev u32 : ℕ → ℕ
u32 n = n % 4294967296

-- The upper bound and the step of the loop, from the mask of the bits that each client has.
unfoldable pub highest_client : ℕ → ℕ
highest_client resource_id_mask =
    bit_and (4294967295 - 0b11100000000000000000000000000000) (4294967295 - resource_id_mask)

unfoldable pub client_increment : ℕ → ℕ
client_increment resource_id_mask = u32 (resource_id_mask + 1)

-- The clients that are killed, in order; `none` if the fuel runs out.
unfoldable pub kill_clients : (fuel highest increment base client : ℕ) → Option (List ℕ)
kill_clients zero highest increment base client = none
kill_clients (suc fuel) highest increment base client =
    let rest = kill_clients fuel highest increment base (u32 (client + increment)) in
    if leb client highest
    then Option.map (λ (ids : List ℕ). if not (client == base) then client ∷ ids else ids) rest
    else some []

-- A client id of the loop that starts at `client`: the first, or one of the rest.
pub Target : (highest increment base client x : ℕ) → Type 0
Target highest increment base client x =
    (k : ℕ) × (x ≡ client + k * increment) × (x ≤ highest) × (x ≢ base)

Target-rest :
    (highest increment base client x : ℕ)
    → Target highest increment base client x
    → (x ≡ client) ⊎ Target highest increment base (client + increment) x
unfolding Target
Target-rest highest increment base client x (zero, e, b, n) = inl (omega arith)
Target-rest highest increment base client x (suc k, e, b, n) = inr (k, grind arith, b, n)

Target-later :
    (highest increment base client x : ℕ)
    → Target highest increment base (client + increment) x
    → Target highest increment base client x
unfolding Target
Target-later highest increment base client x (k, e, b, n) = (suc k, grind arith, b, n)

-- Exactly the targets are killed.
pub Kills : (highest increment base client : ℕ) → List ℕ → Type 0
Kills highest increment base client ids =
    (x : ℕ) → In x ids ↔ Target highest increment base client x

Kills-stop :
    (highest increment base client : ℕ) → highest < client → Kills highest increment base client []
unfolding Kills Target
Kills-stop highest increment base client h x = (λ m. absurd m, λ t. absurd (stop t.0 t.1 t.2))
  where
    stop : (k : ℕ) → x ≡ client + k * increment → x ≤ highest → ⊥
    stop k e b = omega arith

Kills-step :
    (highest increment base client : ℕ) (ids : List ℕ)
    → client ≤ highest
    → Kills highest increment base (client + increment) ids
    → Kills highest increment base client (if not (client == base) then client ∷ ids else ids)
unfolding Kills Target
Kills-step highest increment base client ids b rest x = elim (Bool-cases (client == base)) [
  | inl e ↦ rw e (
    λ m. Target-later highest increment base client x ((rest x).0 m),
    λ t. skip (ground arith) t (Target-rest highest increment base client x t),
  )
  | inr e ↦ rw e (
    λ m. killed (λ q. ground (arith, ==_refl client)) m,
    λ t. kept (Target-rest highest increment base client x t),
  )
]
  where
    skip :
        client ≡ base
        → Target highest increment base client x
        → (x ≡ client) ⊎ Target highest increment base (client + increment) x
        → In x ids
    skip same t (inl e) = absurd (t.3 (e ∙ same))
    skip same t (inr later) = (rest x).1 later

    killed : client ≢ base → In x (client ∷ ids) → Target highest increment base client x
    killed n (inl e) = (0, omega arith, omega arith, λ q. n (sym e ∙ q))
    killed n (inr m) = Target-later highest increment base client x ((rest x).0 m)

    kept : (x ≡ client) ⊎ Target highest increment base (client + increment) x → In x (client ∷ ids)
    kept (inl e) = inl e
    kept (inr later) = inr ((rest x).1 later)

-- The loop ends, and kills every client of the server once its id is within the bound, and never
-- the program's own: `fuel` rounds are enough when they carry the loop past the bound.
pub kill_clients-Kills :
    (fuel highest increment base client : ℕ)
    → highest + increment < 4294967296
    → highest < client + fuel * increment
    → (ids : List ℕ) × (kill_clients (suc fuel) highest increment base client ≡ some ids)
      × Kills highest increment base client ids
unfolding kill_clients
kill_clients-Kills zero highest increment base client w h =
    ([], ground arith, Kills-stop highest increment base client (omega arith))
kill_clients-Kills (suc fuel) highest increment base client w h =
    elim (Bool-cases (leb client highest)) [
      | inl le ↦
          let b : client ≤ highest = ground arith in
          let same : u32 (client + increment) ≡ client + increment = omega arith in
          let (ids, e, kills) =
            kill_clients-Kills fuel highest increment base (client + increment) w (grind arith) in
          (
            (if not (client == base) then client ∷ ids else ids),
            rw (le, same) (rw e refl),
            Kills-step highest increment base client ids b kills,
          )
      | inr gt ↦ ([], rw gt refl, Kills-stop highest increment base client (ground arith))
    ]

-- `scdm_display_disconnect` with a connection: the ids that are killed.
unfoldable pub disconnect : (fuel resource_id_mask resource_id_base : ℕ) → Option (List ℕ)
disconnect fuel resource_id_mask resource_id_base =
    kill_clients fuel (highest_client resource_id_mask) (client_increment resource_id_mask)
      resource_id_base 0

-- The masks from `first` on, so many of them, are tried one after the other.
try_masks : (count first : ℕ) → (ℕ → Bool) → Bool
try_masks zero first test = true
try_masks (suc count) first test = if test first then try_masks count (first + 1) test else false

try_masks_lem :
    (count first : ℕ) (test : ℕ → Bool) (mask : ℕ)
    → first ≤ mask
    → mask < first + count
    → try_masks count first test ≡ true
    → test mask ≡ true
unfolding try_masks
try_masks_lem zero first test mask from to tried = absurd (omega arith)
try_masks_lem (suc count) first test mask from to tried = elim (Bool-cases (first == mask)) [
  | inl e ↦ ground (arith, e, tried)
  | inr later ↦ ground (arith, later, tried, from, to, try_masks_lem count (first + 1) test mask)
]

abbrev fills : ℕ → Bool
fills j =
    (highest_client (2 ^ (j + 18) - 1) + client_increment (2 ^ (j + 18) - 1) == 536870912)
    && leb 262144 (client_increment (2 ^ (j + 18) - 1))

fills_table : try_masks 12 0 fills ≡ true
unfolding try_masks highest_client client_increment
fills_table = refl

fills_bounds :
    (j : ℕ)
    → j < 12
    → (highest_client (2 ^ (j + 18) - 1) + client_increment (2 ^ (j + 18) - 1) ≡ 536870912)
      × (262144 ≤ client_increment (2 ^ (j + 18) - 1))
fills_bounds j h =
    ground (arith, try_masks_lem 12 0 fills j (omega arith) (omega arith) fills_table)

-- For every mask that the X protocol allows, of 18 to 29 low bits, 2050 rounds are enough: each id
-- that is a multiple of the step and fits the 29 bits is killed, once the program's own is left out.
pub disconnect-Kills :
    (j resource_id_base : ℕ)
    → j < 12
    → let mask = 2 ^ (j + 18) - 1 in
      (ids : List ℕ) × (disconnect 2050 mask resource_id_base ≡ some ids)
      × Kills (536870912 - client_increment mask) (client_increment mask) resource_id_base 0 ids
unfolding disconnect
disconnect-Kills j resource_id_base h =
    let mask = 2 ^ (j + 18) - 1 in
    let (sum, least) = fills_bounds j h in
    let top : highest_client mask ≡ 536870912 - client_increment mask = omega arith in
    rw top (
      kill_clients-Kills 2049 (536870912 - client_increment mask) (client_increment mask)
        resource_id_base 0 (omega arith) (omega arith))
