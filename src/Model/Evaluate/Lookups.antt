-- ===== src/Model/Evaluate/Lookups.antt =====
-- internal/model/evaluate.go: what the evaluation looks up on the host.
use whyopen.Prelude.{
  ℕ, suc, ◌%◌, String, Bool, true, false, ◌&&◌, ◌||◌, not, Option, none, some, List, [], ◌∷◌, ◌++◌,
  if◌then◌else◌, str_eq, ℤ, pos, negsuc, compare_ℤ, is_eq, is_gt,
}
use whyopen.Facts.Host.{Route, HostAddr, Interface, Host}
use whyopen.Netip.{Addr, is6, addr_eq, unmap, prefix_is_valid, prefix_contains}
use whyopen.Netip.Parse.{parse_addr}

-- A destination that the internet can send a packet to.
pub record PubAddr : Type 0 where
  pub ip : Addr
  pub iface : String

pub record BestRoute : Type 0 where
  pub len : ℤ
  pub dev : String

-- Whether a route covers the address.
unfoldable pub route_covers : Route → String → Addr → Option Addr → Bool
route_covers r family addr none = false
route_covers r family addr (some dest) =
    str_eq r.family family
    && prefix_is_valid dest r.prefix_len
    && prefix_contains dest r.prefix_len addr

-- The longest prefix stands; an equally long one by another device leaves no answer.
prefer : Route → BestRoute → BestRoute
prefer r best =
    if is_gt (compare_ℤ r.prefix_len best.len)
    then record { len = r.prefix_len; dev = r.device }
    else (if is_eq (compare_ℤ r.prefix_len best.len) && not (str_eq r.device best.dev)
        then record best { dev = "" }
        else best)

unfoldable pub best_route : String → Addr → List Route → BestRoute → BestRoute
unfolding route_covers prefer
best_route family addr [] best = best
best_route family addr (r ∷ rs) best =
    best_route family addr rs
      (if route_covers r family addr (parse_addr r.dest) then prefer r best else best)

unfoldable pub route_dev_for : List Route → Addr → String
unfolding best_route
route_dev_for routes addr =
    (best_route (if is6 addr then "ip6" else "ip") addr routes
      (record { len = negsuc 0; dev = "" })).dev

-- `forwarding`: the packet is routed on, or one or both of the settings that could say so are off.
pub data Routing : Type 0 where
  routed : Routing
  stopped : Bool → Routing

iface_forwards : String → String → List Interface → Bool
iface_forwards iface family [] = false
iface_forwards iface family (i ∷ is) =
    str_eq i.name iface && (if str_eq family "ip6" then i.ipv6_forwarding else i.ipv4_forwarding)
    || iface_forwards iface family is

unfoldable pub forwarding : Host → String → String → Routing
unfolding iface_forwards
forwarding h iface family =
    if (if str_eq family "ip6" then h.sysctls.ipv6_forward else h.sysctls.ipv4_forward)
    then routed
    else (if str_eq iface ""
        then stopped false
        else (if iface_forwards iface family h.interfaces then routed else stopped true))

covers_parsed : Option Addr → Addr → Bool
covers_parsed none dst = false
covers_parsed (some ip) dst = addr_eq ip dst || addr_eq (unmap ip) (unmap dst)

unfoldable pub bind_covers : String → Addr → Bool
unfolding covers_parsed
bind_covers bind_ip dst =
    str_eq bind_ip "0.0.0.0"
    || str_eq bind_ip "::"
    || str_eq bind_ip "[::]"
    || str_eq bind_ip ""
    || covers_parsed (parse_addr bind_ip) dst

add_parsed : String → Option Addr → List PubAddr → List PubAddr
add_parsed iface none out = out
add_parsed iface (some ip) out = record { ip = ip; iface = iface } ∷ out

unfoldable pub iface_addrs : String → String → List HostAddr → List PubAddr
unfolding add_parsed
iface_addrs family iface [] = []
iface_addrs family iface (a ∷ as') =
    let rest = iface_addrs family iface as' in
    if not (str_eq a.family family) || not (str_eq a.scope "global")
    then rest
    else add_parsed iface (parse_addr a.ip) rest

unfoldable pub public_addrs : String → List Interface → List PubAddr
unfolding iface_addrs
public_addrs family [] = []
public_addrs family (i ∷ is) =
    let rest = public_addrs family is in
    if not i.up then rest else iface_addrs family i.name i.addresses ++ rest

addr_is : Addr → Option Addr → Bool
addr_is ip none = false
addr_is ip (some got) = addr_eq got ip

has_addr : Addr → List HostAddr → Bool
unfolding addr_is
has_addr ip [] = false
has_addr ip (a ∷ as') = addr_is ip (parse_addr a.ip) || has_addr ip as'

unfoldable pub is_local : List Interface → Addr → Bool
unfolding has_addr
is_local [] ip = false
is_local (i ∷ is) ip = i.up && has_addr ip i.addresses || is_local is ip

index_of : ℤ → ℕ → ℕ
index_of (pos (suc n)) later = suc n % 4294967296
index_of _ later = later

-- Zero is "whyopen does not know".
unfoldable pub iface_index : List Interface → String → ℕ
unfolding index_of
iface_index [] name = 0
iface_index (i ∷ is) name =
    let rest = iface_index is name in
    if str_eq name "" then 0 else (if str_eq i.name name then index_of i.index rest else rest)

subnet_holds : ℤ → Addr → Option Addr → Bool
subnet_holds prefix ip none = false
subnet_holds prefix ip (some base) = prefix_contains base prefix ip

on_subnet : Addr → List HostAddr → Bool
unfolding subnet_holds
on_subnet ip [] = false
on_subnet ip (a ∷ as') = subnet_holds a.prefix ip (parse_addr a.ip) || on_subnet ip as'

-- The first interface that is up and on whose subnets the address lies.
unfoldable pub iface_for : List Interface → Addr → Option String
unfolding on_subnet
iface_for [] ip = none
iface_for (i ∷ is) ip = if i.up && on_subnet ip i.addresses then some i.name else iface_for is ip
