-- ===== src/Xdmcp/Managed/Laws.antt =====
-- How often a MANAGED_FORWARD packet is sent, and what stops it:
-- daemon/scdm-xdmcp-display-factory.c.
use scdm.Address.{Address}
use scdm.Prelude.{
  ℕ, zero, suc, ◌+◌, ◌≡◌, refl, true, false, Option, none, some, List, [], ◌∷◌, arith, ◌==◌,
  ==_refl, All, leb, Bool-cases, inl, inr,
}
use scdm.Xdmcp.Managed.{
  whack, whack_queued_managed_forwards, send_managed_forward, managed_forward_handler, find_forward,
  remove_forward, count_forward, handle_found,
}
use scdm.Xdmcp.Send.{managed_forward_packet, address_for_request, really_send_managed_forward}
use scdm.Xdmcp.Types.{Factory, ManagedForward, Host, Packet, same_address, flush}

-- What is in the log after the packet was sent so many more times.
abbrev pub resent : ℕ → Address × Packet → List (Address × Packet) → List (Address × Packet)
resent zero p log = log
resent (suc n) p log = p ∷ resent n p log

-- Without an acknowledgement the packet is sent three times in all, at once and from the first two
-- timeouts; the second of them ends the source and leaves the table as it was before.
pub send_managed_forward_thrice :
    (address origin : Address) (factory : Factory)
    → factory.socket_open ≡ true
    → let pointer = factory.next_pointer in
      let packet : Address × Packet =
        (address, managed_forward_packet (address_for_request origin)) in
      let first = managed_forward_handler pointer (send_managed_forward address origin factory) in
      let second = managed_forward_handler pointer first.0 in
      (first.1 ≡ true)
      × (second.1 ≡ false)
      × (second.0.sent ≡ resent 3 packet factory.sent)
      × (second.0.managed_forwards ≡ factory.managed_forwards)
unfolding send_managed_forward managed_forward_handler flush
send_managed_forward_thrice address origin factory open_socket =
    ground (arith, open_socket, ==_refl factory.next_pointer)

-- An acknowledgement before the first timeout takes the entry out again, and its timeout then
-- sends nothing.
pub whack-send_managed_forward :
    (host : Host) (address origin : Address) (factory : Factory)
    → same_address host address address ≡ true
    → same_address host origin origin ≡ true
    → let sent = send_managed_forward address origin factory in
      let acknowledged = whack_queued_managed_forwards host address origin sent in
      (acknowledged.managed_forwards ≡ factory.managed_forwards) × (acknowledged.sent ≡ sent.sent)
unfolding send_managed_forward whack_queued_managed_forwards flush
whack-send_managed_forward host address origin factory a o = ground (arith, a, o)

-- No packet of the table has been sent again more than once.
pub Limited : List ManagedForward → Type 0
Limited = All (λ mf. leb mf.times 1 ≡ true)

pub send_managed_forward-Limited :
    (address origin : Address) (factory : Factory)
    → Limited factory.managed_forwards
    → Limited (send_managed_forward address origin factory).managed_forwards
unfolding send_managed_forward Limited flush
send_managed_forward-Limited address origin factory h = (refl, h)

pub whack-Limited :
    (host : Host) (address origin : Address) (mfs : List ManagedForward)
    → Limited mfs
    → Limited (whack host address origin mfs)
unfolding whack Limited
whack-Limited host address origin [] h = tt
whack-Limited host address origin (mf ∷ rest) h =
    ground (arith, h, whack-Limited host address origin rest h.1)

remove_forward-Limited :
    (pointer : ℕ) (mfs : List ManagedForward) → Limited mfs → Limited (remove_forward pointer mfs)
unfolding remove_forward Limited
remove_forward-Limited pointer [] h = tt
remove_forward-Limited pointer (mf ∷ rest) h =
    ground (arith, h, remove_forward-Limited pointer rest h.1)

find_forward_pointer :
    (pointer : ℕ) (mf : ManagedForward) (mfs : List ManagedForward)
    → find_forward pointer mfs ≡ some mf
    → mf.pointer ≡ pointer
unfolding find_forward
find_forward_pointer pointer mf [] found = ground (arith, found)
find_forward_pointer pointer mf (x ∷ rest) found =
    ground (arith, found, find_forward_pointer pointer mf rest)

-- Only an entry that is found with no resending yet is counted up.
count_forward-Limited :
    (pointer : ℕ) (mf : ManagedForward) (mfs : List ManagedForward)
    → find_forward pointer mfs ≡ some mf
    → leb 2 (mf.times + 1) ≡ false
    → Limited mfs
    → Limited (count_forward pointer mfs)
unfolding find_forward count_forward Limited
count_forward-Limited pointer mf [] found few h = tt
count_forward-Limited pointer mf (x ∷ rest) found few h = elim (Bool-cases (x.pointer == pointer)) [
  | inl e ↦ rw e (first (rw e at found), h.1)
  | inr e ↦ rw e (h.0, count_forward-Limited pointer mf rest (rw e at found) few h.1)
]
  where
    first : some x ≡ some mf → leb (x.times + 1) 1 ≡ true
    first e = ground (arith, e, few)

-- A timeout changes only the log and the table, in which again no packet was sent more than once
-- again.
pub managed_forward_handler-Limited :
    (pointer : ℕ) (factory : Factory)
    → Limited factory.managed_forwards
    → (mfs : List ManagedForward) × (log : List (Address × Packet)) × ((managed_forward_handler
          pointer factory).0
        ≡ record factory { managed_forwards = mfs; sent = log })
      × Limited mfs
unfolding managed_forward_handler really_send_managed_forward flush
managed_forward_handler-Limited pointer factory h =
    go (find_forward pointer factory.managed_forwards) refl
  where
    go :
        (found : Option ManagedForward)
        → find_forward pointer factory.managed_forwards ≡ found
        → (mfs : List ManagedForward) × (log : List (Address × Packet)) × ((handle_found found
              factory).0
            ≡ record factory { managed_forwards = mfs; sent = log })
          × Limited mfs
    go none e = (factory.managed_forwards, factory.sent, refl, h)
    go (some mf) e =
        let same : mf.pointer ≡ pointer =
          find_forward_pointer pointer mf factory.managed_forwards e in
        let removed = remove_forward-Limited mf.pointer factory.managed_forwards h in
        elim (Bool-cases factory.socket_open) [
          | inr closed ↦ (
            remove_forward mf.pointer factory.managed_forwards,
            factory.sent,
            ground (arith, closed),
            removed,
          )
          | inl open_ ↦ elim (Bool-cases (leb 2 (mf.times + 1))) [
            | inl last ↦ (
              remove_forward mf.pointer factory.managed_forwards,
              (really_send_managed_forward mf.manager mf.origin factory).sent,
              ground (arith, open_, last),
              removed,
            )
            | inr few ↦ (
              count_forward mf.pointer factory.managed_forwards,
              (really_send_managed_forward mf.manager mf.origin factory).sent,
              ground (arith, open_, few),
              rw same (count_forward-Limited pointer mf factory.managed_forwards e few h),
            )
          ]
        ]

pub new-Limited : Limited []
unfolding Limited
new-Limited = tt
