-- ===== src/Listener/Routes.antt =====
-- listener.py: the route that `_handle_route_monitoring` makes of each prefix of a parsed UPDATE, and
-- the helpers that it calls for this.
use pybmpmon.Base.{ℕ, List, Option, none, some, true, false, ◌==◌, if◌then◌else◌}
use pybmpmon.Utils.Binary.{IpAddress, ipv4, ipv6}
use pybmpmon.Protocol.Bmp.{BmpPerPeerHeader}
use pybmpmon.Protocol.Bgp.{
  ParsedBgpUpdate, Prefix, cidr, route_info, RouteInfo, mac_ip_route, other_route, Cidr,
  RouteDistinguisher, afi_ipv4, afi_ipv6, afi_l2vpn,
}
use pybmpmon.Protocol.BgpParser.Update.{get_route_type, get_rd, get_esi, get_mac_address}
use pybmpmon.Models.Route.{RouteUpdate}
use pybmpmon.Monitoring.PeerStats.{Family, ipv4_unicast, ipv6_unicast, evpn, other_family}

-- The text "unknown" is `other_family`.
unfoldable pub determine_family : Option ℕ → Option ℕ → Family
determine_family none safi = other_family
determine_family (some afi) safi =
    if afi == afi_ipv4
    then ipv4_unicast
    else if afi == afi_ipv6
    then ipv6_unicast
    else if afi == afi_l2vpn
    then evpn
    else other_family

-- The text of an IPv6 address has a colon, that of an IPv4 address has none.
unfoldable pub host_prefix : Option IpAddress → Option Cidr
host_prefix none = none
host_prefix (some (ipv6 bs)) = some (record { address = ipv6 bs; prefix_len = 128 })
host_prefix (some (ipv4 bs)) = some (record { address = ipv4 bs; prefix_len = 32 })

-- `prefix.get("ip_address")`
abbrev pub get_ip_address : RouteInfo → Option IpAddress
get_ip_address (mac_ip_route t rd esi mac ip) = ip
get_ip_address (other_route t) = none

unfoldable pub extract_prefix_string : Prefix → Option Cidr
unfolding host_prefix
extract_prefix_string (cidr c) = some c
extract_prefix_string (route_info info) = host_prefix (get_ip_address info)

-- `prefix.get(key, default)`: the default stands in for a key that is not there, not for None.
abbrev pub get_rd_or : RouteInfo → Option RouteDistinguisher → Option RouteDistinguisher
get_rd_or (mac_ip_route t rd esi mac ip) default = some rd
get_rd_or (other_route t) default = default

abbrev pub get_esi_or : RouteInfo → Option (List ℕ) → Option (List ℕ)
get_esi_or (mac_ip_route t rd esi mac ip) default = some esi
get_esi_or (other_route t) default = default

abbrev pub get_mac_address_or : RouteInfo → Option (List ℕ) → Option (List ℕ)
get_mac_address_or (mac_ip_route t rd esi mac ip) default = mac
get_mac_address_or (other_route t) default = default

-- The body of the loop over the announced prefixes, up to the call of `add_route`.
module _ (now : ℕ) (bmp_peer_ip : IpAddress) (peer : BmpPerPeerHeader) (u : ParsedBgpUpdate) where
  abbrev pub family_of : Family
  family_of = determine_family u.afi u.safi

  abbrev with_update_fields : Prefix → RouteUpdate
  with_update_fields prefix = record {
    time = now;
    bmp_peer_ip = bmp_peer_ip;
    bmp_peer_asn = none;
    bgp_peer_ip = peer.peer_address;
    bgp_peer_asn = some peer.peer_asn;
    family = family_of;
    prefix = extract_prefix_string prefix;
    next_hop = u.next_hop;
    as_path = u.as_path;
    communities = u.communities;
    extended_communities = u.extended_communities;
    med = u.med;
    local_pref = u.local_pref;
    is_withdrawn = false;
    evpn_route_type = u.evpn_route_type;
    evpn_rd = u.evpn_rd;
    evpn_esi = u.evpn_esi;
    mac_address = u.mac_address;
  }

  unfoldable pub announced_route : Prefix → RouteUpdate
  announced_route (cidr c) = with_update_fields (cidr c)
  announced_route (route_info info) = record (with_update_fields (route_info info)) {
    evpn_route_type = get_route_type info;
    evpn_rd = get_rd_or info u.evpn_rd;
    evpn_esi = get_esi_or info u.evpn_esi;
    mac_address = get_mac_address_or info u.mac_address;
  }

  abbrev without_fields : Prefix → RouteUpdate
  without_fields prefix = record {
    time = now;
    bmp_peer_ip = bmp_peer_ip;
    bmp_peer_asn = none;
    bgp_peer_ip = peer.peer_address;
    bgp_peer_asn = some peer.peer_asn;
    family = family_of;
    prefix = extract_prefix_string prefix;
    next_hop = none;
    as_path = none;
    communities = none;
    extended_communities = none;
    med = none;
    local_pref = none;
    is_withdrawn = true;
    evpn_route_type = none;
    evpn_rd = none;
    evpn_esi = none;
    mac_address = none;
  }

  -- The body of the loop over the withdrawn prefixes.
  unfoldable pub withdrawn_route : Prefix → RouteUpdate
  withdrawn_route (cidr c) = without_fields (cidr c)
  withdrawn_route (route_info info) = record (without_fields (route_info info)) {
    evpn_route_type = get_route_type info;
    evpn_rd = get_rd info;
    evpn_esi = get_esi info;
    mac_address = get_mac_address info;
  }
