-- ===== src/Address.antt =====
-- common/scdm-address.c: socket addresses, their comparison, and the cached list of this machine's
-- own addresses. `sockaddr_storage` is read by its family: the bytes of the address and of the port
-- stand in network order, as the structure holds them. `ipv6` is the build option `ENABLE_IPV6`.
-- The two ioctl loops and `getaddrinfo` give what they found as an argument.
pub mod Laws
use scdm.Prelude.{
  ℕ, ◌+◌, Bool, true, false, ◌&&◌, ◌||◌, Option, none, some, List, [], ◌∷◌, ◌++◌, leb, ltb,
  if◌then◌else◌, Bytes, codes, bytes_eq, ◌==◌,
}

pub data Address : Type 0 where
  inet : (addr port : Bytes) → Address
  inet6 : (addr port : Bytes) → Address
  other : (family : ℕ) → Address

abbrev pub af_inet : ℕ
af_inet = 2

abbrev pub af_inet6 : ℕ
af_inet6 = 10

unfoldable pub get_family_type : Address → ℕ
get_family_type (inet addr port) = af_inet
get_family_type (inet6 addr port) = af_inet6
get_family_type (other family) = family

-- `sizeof (struct sockaddr)` and `sizeof (struct sockaddr_storage)`.
abbrev sockaddr_size : ℕ
sockaddr_size = 16

abbrev sockaddr_storage_size : ℕ
sockaddr_storage_size = 128

unfoldable pub new_from_sockaddr : Address → ℕ → Option Address
new_from_sockaddr sa size =
    if leb sockaddr_size size
    then (if leb size sockaddr_storage_size then some sa else none)
    else none

unfoldable pub equal : Bool → Address → Address → Bool
equal ipv6 (inet a p) (inet b q) = bytes_eq a b
equal ipv6 (inet6 a p) (inet6 b q) = ipv6 && bytes_eq a b
equal ipv6 _ _ = false

abbrev pub loopback : Bytes
loopback = 127 ∷ 0 ∷ 0 ∷ 1 ∷ []

abbrev pub loopback6 : Bytes
loopback6 = 0 ∷ 0 ∷ 0 ∷ 0 ∷ 0 ∷ 0 ∷ 0 ∷ 0 ∷ 0 ∷ 0 ∷ 0 ∷ 0 ∷ 0 ∷ 0 ∷ 0 ∷ 1 ∷ []

unfoldable pub is_loopback : Address → Bool
is_loopback (inet6 addr port) = bytes_eq addr loopback6
is_loopback (inet addr port) = bytes_eq loopback addr
is_loopback (other family) = false

-- The loop of `scdm_address_is_local` over the list of local addresses.
unfoldable pub any_equal : Bool → Address → List Address → Bool
any_equal ipv6 address [] = false
any_equal ipv6 address (addr ∷ rest) =
    if equal ipv6 address addr then true else any_equal ipv6 address rest

unfoldable pub is_local : Bool → List Address → Address → Bool
is_local ipv6 locals address = if is_loopback address then true else any_equal ipv6 address locals

-- One entry of SIOCGIFCONF: whether its family is AF_INET, what SIOCGIFFLAGS says (`none` for an
-- error, else IFF_UP) and what SIOCGIFADDR gives.
pub record Interface : Type 0 where
  pub is_inet : Bool
  pub up : Option Bool
  pub address : Option Address

active : Option Bool → Option Address → List Address
active (some true) (some a) = a ∷ []
active _ _ = []

interface_address : Interface → List Address
unfolding active
interface_address i = if i.is_inet then active i.up i.address else []

-- `none` for a socket or an ioctl that fails.
unfoldable pub add_local_siocgifconf : Option (List Interface) → List Address → List Address
unfolding interface_address
add_local_siocgifconf none list = list
add_local_siocgifconf (some []) list = list
add_local_siocgifconf (some (i ∷ rest)) list =
    add_local_siocgifconf (some rest) (list ++ interface_address i)

-- `none` for a `getaddrinfo` that fails.
unfoldable pub add_local_addrinfo : Option (List Address) → List Address → List Address
add_local_addrinfo none list = list
add_local_addrinfo (some results) list = list ++ results

-- The two static variables of `scdm_address_peek_local_list`.
pub record LocalList : Type 0 where
  pub list : List Address
  pub last_time : ℕ

-- Don't check more than every 5 seconds.
unfoldable pub peek_local_list :
    ℕ → Option (List Interface) → Option (List Address) → LocalList → LocalList
peek_local_list now interfaces results cache =
    if ltb now (cache.last_time + 5) then cache else record {
      list = add_local_addrinfo results (add_local_siocgifconf interfaces []);
      last_time = now;
    }

-- An IPv4 address that is mapped into IPv6 is printed without its prefix.
unfoldable pub strip_prefix : Bytes → Bytes → Option Bytes
strip_prefix [] text = some text
strip_prefix (p ∷ ps) [] = none
strip_prefix (p ∷ ps) (c ∷ text) = if p == c then strip_prefix ps text else none

unfoldable pub strip_mapped : Bytes → Bytes
strip_mapped text = elim (strip_prefix (codes "::ffff:") text) [ none ↦ text | some rest ↦ rest ]

-- `getnameinfo` gives the numeric host and service, or fails and leaves both buffers empty.
unfoldable pub get_numeric_info : Option (Bytes × Bytes) → Bool × Bytes × Bytes
unfolding strip_mapped
get_numeric_info none = (false, strip_mapped [], strip_mapped [])
get_numeric_info (some (host, serv)) = (true, strip_mapped host, strip_mapped serv)
