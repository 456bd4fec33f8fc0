-- ===== src/Protocol/BgpParser/Multiprotocol.antt =====
-- bgp_parser.py: the attributes MP_REACH_NLRI and MP_UNREACH_NLRI.
use pybmpmon.Base.{
  ℕ, ◌+◌, ◌&&◌, List, [], map, length, take, ltb, leb, ◌==◌, if◌then◌else◌, Option, none, some,
  bgp_parse_error, Result, ok, err, ◌>>=◌,
}
use pybmpmon.Utils.Binary.{IpAddress, ipv4, ipv6, read_uint8, read_uint16, read_bytes}
use pybmpmon.Protocol.Bgp.{
  Prefix, cidr, route_info, afi_ipv4, afi_ipv6, afi_l2vpn, safi_unicast, safi_evpn,
}
use pybmpmon.Protocol.BgpParser.Prefixes.{parse_ipv4_prefix, parse_ipv6_prefix, parse_prefixes}
use pybmpmon.Protocol.BgpParser.Evpn.{parse_evpn_routes}

-- The next hop by the address family.
unfoldable pub next_hop_of : ℕ → ℕ → List ℕ → Option IpAddress
next_hop_of afi next_hop_len next_hop_data =
    if afi == afi_ipv4
    then (if leb 4 next_hop_len then some (ipv4 (take 4 next_hop_data)) else none)
    else if afi == afi_ipv6
    then (if leb 16 next_hop_len then some (ipv6 (take 16 next_hop_data)) else none)
    else if afi == afi_l2vpn
    then (if next_hop_len == 4
        then some (ipv4 (take 4 next_hop_data))
        else if next_hop_len == 16
        then some (ipv6 (take 16 next_hop_data))
        else none)
    else none

-- The prefixes from an offset on, by AFI and SAFI. Other families have none.
unfoldable pub parse_family_prefixes : ℕ → ℕ → List ℕ → ℕ → Result (List Prefix)
parse_family_prefixes afi safi value offset =
    if (afi == afi_ipv4) && (safi == safi_unicast)
    then (do prefixes ← parse_prefixes parse_ipv4_prefix value offset; ok (map cidr prefixes))
    else if (afi == afi_ipv6) && (safi == safi_unicast)
    then (do prefixes ← parse_prefixes parse_ipv6_prefix value offset; ok (map cidr prefixes))
    else if (afi == afi_l2vpn) && (safi == safi_evpn)
    then (do routes ← parse_evpn_routes value offset; ok (map route_info routes))
    else ok []

unfoldable pub parse_mp_reach_nlri : List ℕ → Result (ℕ × ℕ × Option IpAddress × List Prefix)
parse_mp_reach_nlri value = if ltb (length value) 5 then err bgp_parse_error else do
  afi ← read_uint16 value 0
  safi ← read_uint8 value 2
  next_hop_len ← read_uint8 value 3
  if ltb (length value) (4 + next_hop_len + 1) then err bgp_parse_error else do
    next_hop_data ← read_bytes value 4 next_hop_len
    prefixes ← parse_family_prefixes afi safi value (4 + next_hop_len + 1)
    ok (afi, safi, next_hop_of afi next_hop_len next_hop_data, prefixes)

unfoldable pub parse_mp_unreach_nlri : List ℕ → Result (ℕ × ℕ × List Prefix)
parse_mp_unreach_nlri value = if ltb (length value) 3 then err bgp_parse_error else do
  afi ← read_uint16 value 0
  safi ← read_uint8 value 2
  prefixes ← parse_family_prefixes afi safi value 3
  ok (afi, safi, prefixes)
