-- ===== src/Protocol/Bgp.antt =====
-- src/pybmpmon/protocol/bgp.py: the message structures and the constants of BGP, and the texts that
-- bgp_parser.py makes, each kept as the values that its format string is filled with.
use pybmpmon.Base.{ℕ, List, Option, none, some, Bool, not, replicate, ◌==◌, if◌then◌else◌, bit_and}
use pybmpmon.Utils.Binary.{IpAddress}

pub data BgpMessageType : Type 0 where
  open_message update notification keepalive : BgpMessageType

unfoldable pub message_type_code : BgpMessageType → ℕ
message_type_code open_message = 1
message_type_code update = 2
message_type_code notification = 3
message_type_code keepalive = 4

unfoldable pub message_type_of : ℕ → Option BgpMessageType
message_type_of n =
    if n == 1
    then some open_message
    else if n == 2
    then some update
    else if n == 3
    then some notification
    else if n == 4
    then some keepalive
    else none

-- Members of the `IntEnum`s that the parser compares numbers with.
abbrev pub attr_origin : ℕ
attr_origin = 1

abbrev pub attr_as_path : ℕ
attr_as_path = 2

abbrev pub attr_next_hop : ℕ
attr_next_hop = 3

abbrev pub attr_multi_exit_disc : ℕ
attr_multi_exit_disc = 4

abbrev pub attr_local_pref : ℕ
attr_local_pref = 5

abbrev pub attr_communities : ℕ
attr_communities = 8

abbrev pub attr_mp_reach_nlri : ℕ
attr_mp_reach_nlri = 14

abbrev pub attr_mp_unreach_nlri : ℕ
attr_mp_unreach_nlri = 15

abbrev pub attr_extended_communities : ℕ
attr_extended_communities = 16

abbrev pub segment_as_set : ℕ
segment_as_set = 1

abbrev pub segment_as_sequence : ℕ
segment_as_sequence = 2

abbrev pub afi_ipv4 : ℕ
afi_ipv4 = 1

abbrev pub afi_ipv6 : ℕ
afi_ipv6 = 2

abbrev pub afi_l2vpn : ℕ
afi_l2vpn = 25

abbrev pub safi_unicast : ℕ
safi_unicast = 1

abbrev pub safi_evpn : ℕ
safi_evpn = 70

pub record BgpHeader : Type 0 where
  pub marker : List ℕ
  pub length : ℕ
  pub msg_type : BgpMessageType

-- An `IntEnum` member equals its number, and an unknown type is kept as its number: `type_code` is
-- the number.
pub record BgpPathAttribute : Type 0 where
  pub flags : ℕ
  pub type_code : ℕ
  pub length : ℕ
  pub value : List ℕ

pub record BgpUpdateMessage : Type 0 where
  pub withdrawn_routes_length : ℕ
  pub withdrawn_routes : List ℕ
  pub total_path_attr_length : ℕ
  pub path_attributes : List BgpPathAttribute
  pub nlri : List ℕ

-- `f"{prefix_ip}/{prefix_len}"`
pub record Cidr : Type 0 where
  pub address : IpAddress
  pub prefix_len : ℕ

-- `f"{as_num}:{comm_value}"`
pub record Community : Type 0 where
  pub as_num : ℕ
  pub comm_value : ℕ

-- One constructor for each format string of `parse_extended_communities`.
pub data ExtendedCommunity : Type 0 where
  ospf_domain : IpAddress → ExtendedCommunity
  route_target_as route_origin_as redirect : ℕ → ℕ → ExtendedCommunity
  route_target_ip route_origin_ip : IpAddress → ℕ → ExtendedCommunity
  opaque evpn_es_import : List ℕ → ExtendedCommunity
  evpn_mac_mobility evpn_esi_label : ℕ → ExtendedCommunity
  evpn_other unknown : ℕ → List ℕ → ExtendedCommunity

-- One constructor for each format string of `parse_route_distinguisher`.
pub data RouteDistinguisher : Type 0 where
  number_value : ℕ → ℕ → RouteDistinguisher
  ip_value : IpAddress → ℕ → RouteDistinguisher
  hex : List ℕ → RouteDistinguisher

-- The dict of a MAC/IP route has five keys, that of another route type only `route_type`. An ESI and
-- a MAC address are texts of hex pairs, kept as their bytes.
pub data RouteInfo : Type 0 where
  mac_ip_route : ℕ → RouteDistinguisher → List ℕ → Option (List ℕ) → Option IpAddress → RouteInfo
  other_route : ℕ → RouteInfo

-- `str | dict[str, Any]`
pub data Prefix : Type 0 where
  cidr : Cidr → Prefix
  route_info : RouteInfo → Prefix

pub record ParsedBgpUpdate : Type 0 where
  pub afi : Option ℕ
  pub safi : Option ℕ
  pub prefixes : List Prefix
  pub withdrawn_prefixes : List Prefix
  pub is_withdrawal : Bool
  pub origin : Option ℕ
  pub as_path : Option (List ℕ)
  pub next_hop : Option IpAddress
  pub med : Option ℕ
  pub local_pref : Option ℕ
  pub communities : Option (List Community)
  pub extended_communities : Option (List ExtendedCommunity)
  pub evpn_route_type : Option ℕ
  pub evpn_rd : Option RouteDistinguisher
  pub evpn_esi : Option (List ℕ)
  pub mac_address : Option (List ℕ)

abbrev pub bgp_header_size : ℕ
bgp_header_size = 19

abbrev pub bgp_marker : List ℕ
bgp_marker = replicate 16 0xff

-- `flags & ATTR_FLAG_EXTENDED_LENGTH`, as a truth value.
unfoldable pub has_extended_length : ℕ → Bool
has_extended_length flags = not (bit_and flags 0x10 == 0)
