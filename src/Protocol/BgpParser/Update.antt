-- ===== src/Protocol/BgpParser/Update.antt =====
-- bgp_parser.py: `parse_bgp_update`, which collects the routes and the attributes of an UPDATE.
use pybmpmon.Base.{
  ℕ, Bool, true, false, ◌&&◌, ◌||◌, List, [], ◌∷◌, ◌++◌, map, length, take, ltb, leb, ◌==◌,
  if◌then◌else◌, Option, none, some, Result, ok, err, ◌>>=◌, value_error, bmp_parse_error,
  bgp_parse_error, out_of_fuel,
}
use pybmpmon.Utils.Binary.{IpAddress, ipv4, read_uint8, read_uint32}
use pybmpmon.Protocol.Bgp.{
  BgpPathAttribute, ParsedBgpUpdate, Prefix, cidr, route_info, RouteInfo, mac_ip_route, other_route,
  RouteDistinguisher, Community, ExtendedCommunity, afi_ipv4, afi_l2vpn, safi_unicast, safi_evpn,
  attr_origin, attr_as_path, attr_next_hop, attr_multi_exit_disc, attr_local_pref, attr_communities,
  attr_mp_reach_nlri, attr_mp_unreach_nlri, attr_extended_communities,
}
use pybmpmon.Protocol.BgpParser.Structure.{parse_bgp_update_structure}
use pybmpmon.Protocol.BgpParser.Prefixes.{parse_ipv4_prefix, parse_prefixes}
use pybmpmon.Protocol.BgpParser.AsPath.{parse_as_path}
use pybmpmon.Protocol.BgpParser.Communities.{parse_communities, parse_extended_communities}
use pybmpmon.Protocol.BgpParser.Multiprotocol.{parse_mp_reach_nlri, parse_mp_unreach_nlri}

-- The local variables of `parse_bgp_update`.
pub record Fields : Type 0 where
  pub afi : Option ℕ
  pub safi : Option ℕ
  pub prefixes : List Prefix
  pub withdrawn_prefixes : List Prefix
  pub origin : Option ℕ
  pub as_path : Option (List ℕ)
  pub next_hop : Option IpAddress
  pub med : Option ℕ
  pub local_pref : Option ℕ
  pub communities : Option (List Community)
  pub extended_communities : Option (List ExtendedCommunity)
  pub evpn_route_type : Option ℕ
  pub evpn_rd : Option RouteDistinguisher
  pub evpn_esi : Option (List ℕ)
  pub mac_address : Option (List ℕ)
  pub has_mp_unreach : Bool

abbrev pub initial_fields : Fields
initial_fields = record {
  afi = none;
  safi = none;
  prefixes = [];
  withdrawn_prefixes = [];
  origin = none;
  as_path = none;
  next_hop = none;
  med = none;
  local_pref = none;
  communities = none;
  extended_communities = none;
  evpn_route_type = none;
  evpn_rd = none;
  evpn_esi = none;
  mac_address = none;
  has_mp_unreach = false;
}

-- `dict.get` of a route dict, at each key that the update takes over.
abbrev pub get_route_type : RouteInfo → Option ℕ
get_route_type (mac_ip_route t rd esi mac ip) = some t
get_route_type (other_route t) = some t

abbrev pub get_rd : RouteInfo → Option RouteDistinguisher
get_rd (mac_ip_route t rd esi mac ip) = some rd
get_rd (other_route t) = none

abbrev pub get_esi : RouteInfo → Option (List ℕ)
get_esi (mac_ip_route t rd esi mac ip) = some esi
get_esi (other_route t) = none

abbrev pub get_mac_address : RouteInfo → Option (List ℕ)
get_mac_address (mac_ip_route t rd esi mac ip) = mac
get_mac_address (other_route t) = none

-- The EVPN fields come from the first route, if that is a dict.
unfoldable pub take_first_route : List Prefix → Fields → Fields
take_first_route [] s = s
take_first_route (cidr c ∷ rest) s = s
take_first_route (route_info info ∷ rest) s = record s {
  evpn_route_type = get_route_type info;
  evpn_rd = get_rd info;
  evpn_esi = get_esi info;
  mac_address = get_mac_address info;
}

unfoldable pub take_evpn_fields : ℕ → ℕ → List Prefix → Fields → Fields
unfolding take_first_route
take_evpn_fields afi safi found s =
    if (afi == afi_l2vpn) && (safi == safi_evpn) then take_first_route found s else s

-- `if mp_next_hop: next_hop = mp_next_hop`
abbrev pub or_else : Option IpAddress → Option IpAddress → Option IpAddress
or_else (some a) old = some a
or_else none old = old

unfoldable pub take_mp_reach : (ℕ × ℕ × Option IpAddress × List Prefix) → Fields → Fields
unfolding take_evpn_fields
take_mp_reach (afi, safi, mp_next_hop, mp_prefixes) s =
    let s' = take_evpn_fields afi safi mp_prefixes s in
    record s' {
      afi = some afi;
      safi = some safi;
      next_hop = or_else mp_next_hop s.next_hop;
      prefixes = s.prefixes ++ mp_prefixes;
    }

unfoldable pub take_mp_unreach : (ℕ × ℕ × List Prefix) → Fields → Fields
unfolding take_evpn_fields
take_mp_unreach (afi, safi, mp_withdrawn) s =
    let s' = take_evpn_fields afi safi mp_withdrawn s in
    record s' {
      afi = some afi;
      safi = some safi;
      has_mp_unreach = true;
      withdrawn_prefixes = s.withdrawn_prefixes ++ mp_withdrawn;
    }

-- The `elif` chain over the attribute's type, the body of the `try`.
unfoldable pub take_attribute : BgpPathAttribute → Fields → Result Fields
take_attribute attr s =
    if attr.type_code == attr_origin
    then (do origin ← read_uint8 attr.value 0; ok (record s { origin = some origin }))
    else if attr.type_code == attr_as_path
    then (do as_path ← parse_as_path attr.value; ok (record s { as_path = some as_path }))
    else if attr.type_code == attr_next_hop
    then ok (
        if leb 4 (length attr.value)
        then record s { next_hop = some (ipv4 (take 4 attr.value)) }
        else s)
    else if attr.type_code == attr_multi_exit_disc
    then (do med ← read_uint32 attr.value 0; ok (record s { med = some med }))
    else if attr.type_code == attr_local_pref
    then (do local_pref ← read_uint32 attr.value 0; ok (record s { local_pref = some local_pref }))
    else if attr.type_code == attr_communities
    then (do
      communities ← parse_communities attr.value
      ok (record s { communities = some communities }))
    else if attr.type_code == attr_extended_communities
    then (do
      extended_communities ← parse_extended_communities attr.value
      ok (record s { extended_communities = some extended_communities }))
    else if attr.type_code == attr_mp_reach_nlri
    then (do reach ← parse_mp_reach_nlri attr.value; ok (take_mp_reach reach s))
    else if attr.type_code == attr_mp_unreach_nlri
    then (do unreach ← parse_mp_unreach_nlri attr.value; ok (take_mp_unreach unreach s))
    else ok s

-- `except Exception: continue`. Every branch raises before it assigns. A loop that does not end is no
-- exception.
abbrev pub or_skip : Result Fields → Fields → Result Fields
or_skip (ok s') s = ok s'
or_skip (err out_of_fuel) s = err out_of_fuel
or_skip (err value_error) s = ok s
or_skip (err bmp_parse_error) s = ok s
or_skip (err bgp_parse_error) s = ok s

unfoldable pub take_attributes : List BgpPathAttribute → Fields → Result Fields
take_attributes [] s = ok s
take_attributes (attr ∷ attrs) s = do
  s' ← or_skip (take_attribute attr s) s
  take_attributes attrs s'

-- The NLRI field, if it is not empty, makes the update one of IPv4 unicast.
unfoldable pub take_nlri : List ℕ → Fields → Result Fields
take_nlri nlri s =
    if ltb 0 (length nlri)
    then (do
      found ← parse_prefixes parse_ipv4_prefix nlri 0
      ok (record s {
        afi = some afi_ipv4;
        safi = some safi_unicast;
        prefixes = s.prefixes ++ map cidr found;
      }))
    else ok s

unfoldable pub is_withdrawal_of : Fields → Bool
is_withdrawal_of s =
    ltb 0 (length s.withdrawn_prefixes) || (s.has_mp_unreach && (length s.prefixes == 0))

unfoldable pub to_update : Fields → ParsedBgpUpdate
unfolding is_withdrawal_of
to_update s = record {
  afi = s.afi;
  safi = s.safi;
  prefixes = s.prefixes;
  withdrawn_prefixes = s.withdrawn_prefixes;
  is_withdrawal = is_withdrawal_of s;
  origin = s.origin;
  as_path = s.as_path;
  next_hop = s.next_hop;
  med = s.med;
  local_pref = s.local_pref;
  communities = s.communities;
  extended_communities = s.extended_communities;
  evpn_route_type = s.evpn_route_type;
  evpn_rd = s.evpn_rd;
  evpn_esi = s.evpn_esi;
  mac_address = s.mac_address;
}

unfoldable pub parse_bgp_update : List ℕ → Result ParsedBgpUpdate
unfolding to_update
parse_bgp_update data_bytes = do
  update ← parse_bgp_update_structure data_bytes
  withdrawn ← parse_prefixes parse_ipv4_prefix update.withdrawn_routes 0
  let started : Fields = record initial_fields { withdrawn_prefixes = map cidr withdrawn }
  of_attributes ← take_attributes update.path_attributes started
  collected ← take_nlri update.nlri of_attributes
  ok (to_update collected)
