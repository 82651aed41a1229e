-- ===== src/Address/Laws.antt =====
-- Laws of common/scdm-address.c: when two addresses are equal, which addresses are local, and how
-- long the list of local addresses is kept.
use scdm.Prelude.{
  ℕ, ◌+◌, ◌≤◌, ◌≡◌, refl, ◌⊎◌, inl, inr, Bool, true, Option, List, [], ◌∷◌, arith, Bytes,
  bytes_eq_refl, bytes_eq_sym, bytes_eq_sound, In, Bool-cases, ◌↔◌, ltb, if◌then◌else◌,
}
use scdm.Address.{
  Address, inet, inet6, other, equal, is_loopback, any_equal, is_local, Interface, LocalList,
  peek_local_list, add_local_siocgifconf, add_local_addrinfo,
}

-- Same family and same address bytes; the port does not matter.
pub data SameHost (ipv6 : Bool) : Address → Address → Type 0 where
  same_inet : {a b p q : Bytes} → a ≡ b → SameHost ipv6 (inet a p) (inet b q)
  same_inet6 : {a b p q : Bytes} → ipv6 ≡ true → a ≡ b → SameHost ipv6 (inet6 a p) (inet6 b q)

pub equal-SameHost : (ipv6 : Bool) (a b : Address) → equal ipv6 a b ≡ true → SameHost ipv6 a b
unfolding equal
equal-SameHost ipv6 (inet a p) (inet b q) h = same_inet (bytes_eq_sound a b h)
equal-SameHost ipv6 (inet a p) (inet6 b q) h = cc
equal-SameHost ipv6 (inet a p) (other g) h = cc
equal-SameHost ipv6 (inet6 a p) (inet b q) h = cc
equal-SameHost ipv6 (inet6 a p) (inet6 b q) h =
    same_inet6 (ground arith) (bytes_eq_sound a b (ground arith))
equal-SameHost ipv6 (inet6 a p) (other g) h = cc
equal-SameHost ipv6 (other f) (inet b q) h = cc
equal-SameHost ipv6 (other f) (inet6 b q) h = cc
equal-SameHost ipv6 (other f) (other g) h = cc

pub equal_of_SameHost : (ipv6 : Bool) {a b : Address} → SameHost ipv6 a b → equal ipv6 a b ≡ true
unfolding equal
equal_of_SameHost ipv6 (same_inet {a} {b} e) = rw e (bytes_eq_refl b)
equal_of_SameHost ipv6 (same_inet6 {a} {b} on e) = rw (on, e) (bytes_eq_refl b)

pub equal_sym : (ipv6 : Bool) (a b : Address) → equal ipv6 a b ≡ equal ipv6 b a
unfolding equal
equal_sym ipv6 (inet a p) (inet b q) = bytes_eq_sym a b
equal_sym ipv6 (inet a p) (inet6 b q) = refl
equal_sym ipv6 (inet a p) (other g) = refl
equal_sym ipv6 (inet6 a p) (inet b q) = refl
equal_sym ipv6 (inet6 a p) (inet6 b q) = rw (bytes_eq_sym a b)
equal_sym ipv6 (inet6 a p) (other g) = refl
equal_sym ipv6 (other f) (inet b q) = refl
equal_sym ipv6 (other f) (inet6 b q) = refl
equal_sym ipv6 (other f) (other g) = refl

any_equal_sound :
    (ipv6 : Bool) (a : Address) (locals : List Address)
    → any_equal ipv6 a locals ≡ true
    → (b : Address) × In b locals × SameHost ipv6 a b
unfolding any_equal
any_equal_sound ipv6 a [] h = cc
any_equal_sound ipv6 a (b ∷ bs) h = elim (Bool-cases (equal ipv6 a b)) [
  | inl e ↦ (b, inl refl, equal-SameHost ipv6 a b e)
  | inr e ↦ let (c, m, s) = any_equal_sound ipv6 a bs (rw e at h) in (c, inr m, s)
]

any_equal_complete :
    (ipv6 : Bool) (a b : Address) (locals : List Address)
    → In b locals
    → SameHost ipv6 a b
    → any_equal ipv6 a locals ≡ true
unfolding any_equal
any_equal_complete ipv6 a b [] m s = absurd m
any_equal_complete ipv6 a b (c ∷ cs) (inl e) s = rw (← e, equal_of_SameHost ipv6 s)
any_equal_complete ipv6 a b (c ∷ cs) (inr m) s = ground (arith, any_equal_complete ipv6 a b cs m s)

-- An address is local exactly when it is a loopback address or one of the machine's own addresses
-- has the same family and the same address bytes, whatever the ports are.
pub is_local_exactly :
    (ipv6 : Bool) (locals : List Address) (a : Address)
    → (is_local ipv6 locals a ≡ true)
      ↔ ((is_loopback a ≡ true) ⊎ ((b : Address) × In b locals × SameHost ipv6 a b))
unfolding is_local
is_local_exactly ipv6 locals a = (to, from)
  where
    to :
        is_local ipv6 locals a ≡ true
        → (is_loopback a ≡ true) ⊎ ((b : Address) × In b locals × SameHost ipv6 a b)
    to h = elim (Bool-cases (is_loopback a)) [
      | inl l ↦ inl l
      | inr l ↦ inr (any_equal_sound ipv6 a locals (rw l at h))
    ]

    from :
        (is_loopback a ≡ true) ⊎ ((b : Address) × In b locals × SameHost ipv6 a b)
        → is_local ipv6 locals a ≡ true
    from (inl l) = rw l
    from (inr (b, m, s)) = ground (arith, any_equal_complete ipv6 a b locals m s)

-- Whatever the interfaces are by then, a second call less than 5 seconds after a refresh returns
-- the list of that refresh; from 5 seconds on it returns the addresses found now.
pub peek_local_list_twice :
    (cache : LocalList) (now later : ℕ) (i j : Option (List Interface))
    (r s : Option (List Address))
    → cache.last_time + 5 ≤ now
    → let first = peek_local_list now i r cache in
      (peek_local_list later j s first).list ≡ (
        if ltb later (now + 5)
        then add_local_addrinfo r (add_local_siocgifconf i [])
        else add_local_addrinfo s (add_local_siocgifconf j []))
unfolding peek_local_list
peek_local_list_twice cache now later i j r s h = ground arith
