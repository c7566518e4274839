-- ===== src/Web/Addresses.antt =====
-- server/web-api.go: the addresses of an instance, with getInterfacePriority and isIPv6. sort.Slice is
-- an insertion sort here; addresses that its comparison does not tell apart may come in another order.
pub mod Sorting
pub mod Listed
use ssh2incus.Base.{
  ℕ, Bool, true, false, not, ◌&&◌, ◌||◌, List, [], ◌∷◌, ◌++◌, ltb, ◌==◌, if◌then◌else◌,
}
use ssh2incus.Base.Text.{Text, codes, text_eq, has_prefix, contains_byte}
use ssh2incus.Base.Dict.{Dict}
use ssh2incus.Base.Text.Order.{text_ltb}

-- api.InstanceStateNetworkAddress
pub record NetworkAddress : Type 0 where
  pub family : Text
  pub address : Text

pub record AddressInfo : Type 0 where
  pub address : Text
  pub interface : Text

unfoldable pub get_interface_priority : Text → ℕ
unfolding text_eq has_prefix
get_interface_priority iface =
    if text_eq iface (codes "lo") || text_eq iface (codes "lo0")
    then 2
    else if has_prefix (codes "et") iface || has_prefix (codes "en") iface
    then 0
    else 1

unfoldable pub is_ipv6 : Text → Bool
unfolding contains_byte
is_ipv6 ip = contains_byte b':' ip

abbrev pub is_inet : Text → Bool
is_inet family = text_eq family (codes "inet") || text_eq family (codes "inet6")

unfoldable pub inet_of : Text → List NetworkAddress → List AddressInfo
unfolding text_eq
inet_of name [] = []
inet_of name (a ∷ xs) =
    let rest = inet_of name xs in
    if is_inet a.family then record { address = a.address; interface = name } ∷ rest else rest

-- state.Network, in the order in which the map is visited.
unfoldable pub collect : Dict (List NetworkAddress) → List AddressInfo
unfolding inet_of
collect [] = []
collect ((name, xs) ∷ network) = inet_of name xs ++ collect network

unfoldable pub less : AddressInfo → AddressInfo → Bool
unfolding get_interface_priority is_ipv6 text_ltb
less a b =
    let p = get_interface_priority a.interface in
    let q = get_interface_priority b.interface in
    if not (p == q)
    then ltb p q
    else if is_ipv6 a.address && not (is_ipv6 b.address)
    then false
    else if not (is_ipv6 a.address) && is_ipv6 b.address
    then true
    else text_ltb a.address b.address

unfoldable pub insert_sorted : AddressInfo → List AddressInfo → List AddressInfo
unfolding less
insert_sorted a [] = a ∷ []
insert_sorted a (b ∷ bs) =
    let rest = insert_sorted a bs in if less a b then a ∷ (b ∷ bs) else b ∷ rest

unfoldable pub sort : List AddressInfo → List AddressInfo
unfolding insert_sorted
sort [] = []
sort (a ∷ xs) = insert_sorted a (sort xs)

unfoldable pub addresses : Dict (List NetworkAddress) → List AddressInfo
unfolding collect sort
addresses network = sort (collect network)
