-- ===== src/Protocol/BgpParser/Examples.antt =====
-- Tests of bgp_parser.py on concrete bytes, and its theorems applied to them.
use pybmpmon.Base.{
  ℕ, ◌+◌, ◌%◌, ◌≤◌, ◌≡◌, ◌≢◌, refl, ◌⊎◌, ◌↔◌, List, [], ◌∷◌, ◌++◌, map, length, replicate, All,
  some, ok, err, value_error, bgp_parse_error, out_of_fuel, ReturnsOr, Returns, arith,
}
use pybmpmon.Base.Slices.{slice, At}
use pybmpmon.Utils.Binary.{
  ipv4, ipv6, from_bytes, read_uint8, read_uint16, read_uint32, read_bytes, read_bytes_until,
}
use pybmpmon.Utils.Binary.Wire.{u16, u32}
use pybmpmon.Protocol.Bgp.{
  BgpPathAttribute, BgpUpdateMessage, Cidr, cidr, Community, ExtendedCommunity, has_extended_length,
  message_type_of, message_type_code, bgp_marker, mac_ip_route, number_value,
}
use pybmpmon.Protocol.BgpParser.Structure.{
  bytes_eq, parse_bgp_header, attribute_extent, parse_path_attribute, path_attributes_loop,
  parse_path_attributes, is_update, parse_bgp_update_structure,
}
use pybmpmon.Protocol.BgpParser.Prefixes.{
  parse_prefix, parse_ipv4_prefix, parse_ipv6_prefix, prefixes_loop, parse_prefixes,
}
use pybmpmon.Protocol.BgpParser.AsPath.{
  parse_as_path, parse_segment, as_path_loop, as_size_of, read_as_number, read_segment,
}
use pybmpmon.Protocol.BgpParser.Communities.{parse_communities, parse_extended_communities}
use pybmpmon.Protocol.BgpParser.Evpn.{
  parse_route_distinguisher, parse_ethernet_segment_id, parse_mac, parse_evpn_ip,
  parse_mac_ip_route, parse_evpn_nlri,
}
use pybmpmon.Protocol.BgpParser.Update.{
  initial_fields, take_attribute, take_attributes, parse_bgp_update,
}
use pybmpmon.Protocol.BgpParser.Wire.{
  encode_update, IsUpdate, encode_attributes, IsAttribute, encode_communities, Segment,
  encode_segment, encode_segments, encode_prefixes, prefix_bytes, to_cidr,
}
use pybmpmon.Protocol.BgpParser.AttributesRoundTrip.{parse_path_attributes_iff}
use pybmpmon.Protocol.BgpParser.AsPathRoundTrip.{parse_as_path-encode, parse_as_path-encode_legacy}
use pybmpmon.Protocol.BgpParser.AsPathGuess.{parse_segment_misreads}
use pybmpmon.Protocol.BgpParser.PrefixesRoundTrip.{
  parse_ipv4_prefixes-encode, parse_ipv6_prefixes-encode, address_bytes, parse_ipv4_prefix_shape,
  parse_ipv6_prefix_shape,
}
use pybmpmon.Protocol.BgpParser.CommunitiesRoundTrip.{parse_communities-encode}
use pybmpmon.Protocol.BgpParser.AttributeExceptions.{
  parse_communities_returns, parse_extended_communities_returns,
}
use pybmpmon.Protocol.BgpParser.UpdateLaws.{RoutesOf, parse_bgp_update_routes, take_attributes_skip}
use pybmpmon.Protocol.BgpParser.UpdateTotal.{parse_bgp_update_total}
use pybmpmon.Protocol.BgpParser.AttributesEnd.{take_attribute_ends}
use pybmpmon.Protocol.BgpParser.StructureRoundTrip.{parse_bgp_update_structure-encode}
use pybmpmon.Protocol.BgpParser.UpdateRoundTrip.{parse_bgp_update-encode}

abbrev origin_attribute : BgpPathAttribute
origin_attribute = record { flags = 0x40; type_code = 1; length = 1; value = 0 ∷ [] }

-- A MULTI_EXIT_DISC of two bytes, which does not parse.
abbrev short_med : BgpPathAttribute
short_med = record { flags = 0x80; type_code = 4; length = 2; value = 1 ∷ 2 ∷ [] }

abbrev attributes : List BgpPathAttribute
attributes = origin_attribute ∷ short_med ∷ []

abbrev update_bytes : List ℕ
update_bytes =
    bgp_marker
    ++ (u16 39
        ++ (2
            ∷ (u16 4
                ++ (24
                    ∷ 10
                    ∷ 0
                    ∷ 1
                    ∷ (u16 9 ++ (encode_attributes attributes ++ (16 ∷ 10 ∷ 1 ∷ [])))))))

abbrev update_parts : BgpUpdateMessage
update_parts = record {
  withdrawn_routes_length = 4;
  withdrawn_routes = 24 ∷ 10 ∷ 0 ∷ 1 ∷ [];
  total_path_attr_length = 9;
  path_attributes = attributes;
  nlri = 16 ∷ 10 ∷ 1 ∷ [];
}

abbrev withdrawn_cidr : Cidr
withdrawn_cidr = record { address = ipv4 (10 ∷ 0 ∷ 1 ∷ 0 ∷ []); prefix_len = 24 }

abbrev announced_cidr : Cidr
announced_cidr = record { address = ipv4 (10 ∷ 1 ∷ 0 ∷ 0 ∷ []); prefix_len = 16 }

parse_bgp_update_total_example : ReturnsOr bgp_parse_error (parse_bgp_update update_bytes)
parse_bgp_update_total_example = parse_bgp_update_total update_bytes

parse_bgp_update_routes_example :
    Returns
      (RoutesOf update_parts (cidr withdrawn_cidr ∷ []) (cidr announced_cidr ∷ []))
      (parse_bgp_update update_bytes)
unfolding bytes_eq parse_bgp_header attribute_extent parse_path_attribute path_attributes_loop
    parse_path_attributes is_update parse_bgp_update_structure parse_prefix parse_ipv4_prefix
    prefixes_loop parse_prefixes slice from_bytes read_uint8 read_uint16 read_bytes read_bytes_until
    message_type_of message_type_code has_extended_length
parse_bgp_update_routes_example =
    parse_bgp_update_routes update_bytes update_parts (withdrawn_cidr ∷ []) (announced_cidr ∷ [])
      refl refl refl

take_attributes_skip_example :
    take_attributes (origin_attribute ∷ short_med ∷ origin_attribute ∷ []) initial_fields
    ≡ take_attributes (origin_attribute ∷ origin_attribute ∷ []) initial_fields
unfolding take_attribute read_uint32 slice from_bytes
take_attributes_skip_example =
    take_attributes_skip (origin_attribute ∷ []) (origin_attribute ∷ []) short_med initial_fields
      (λ t. (value_error, refl))

parse_path_attributes_iff_example :
    (parse_path_attributes (encode_attributes attributes) 0 9 ≡ ok attributes) ↔ (
      All IsAttribute attributes
      × At (encode_attributes attributes) 0 (encode_attributes attributes)
      × (0 + length (encode_attributes attributes) ≡ 9))
unfolding has_extended_length
parse_path_attributes_iff_example =
    parse_path_attributes_iff (encode_attributes attributes) 0 9 attributes (ground arith)
      (omega arith) (omega arith)

abbrev sequence : Segment
sequence = record { kind = 2; numbers = 65001 ∷ 65002 ∷ [] }

abbrev one_set : Segment
one_set = record { kind = 1; numbers = 65003 ∷ [] }

parse_as_path-encode_example :
    parse_as_path (encode_segments u32 (sequence ∷ one_set ∷ [])) ≡ ok (65001 ∷ 65002 ∷ 65003 ∷ [])
parse_as_path-encode_example = parse_as_path-encode (sequence ∷ one_set ∷ [])

parse_as_path-encode_legacy_example :
    parse_as_path (encode_segment u16 sequence) ≡ ok (65001 ∷ 65002 ∷ [])
parse_as_path-encode_legacy_example = parse_as_path-encode_legacy sequence (omega arith)

parse_segment_misreads_example :
    (numbers : List ℕ) × (parse_segment
        (encode_segment u16 one_set ++ encode_segment u16 sequence)
        0
      ≡ ok (numbers, 6))
parse_segment_misreads_example =
    parse_segment_misreads one_set (encode_segment u16 sequence) (omega arith) (omega arith)

-- What comes of it: the path 65003, 65001, 65002 in two-byte numbers is refused.
two_byte_path_refused :
    parse_as_path (encode_segments u16 (one_set ∷ sequence ∷ [])) ≡ err bgp_parse_error
unfolding parse_as_path parse_segment as_path_loop as_size_of read_as_number read_segment slice
    from_bytes read_uint8 read_uint16 read_uint32
two_byte_path_refused = refl

abbrev ipv4_prefix_list : List (ℕ × List ℕ)
ipv4_prefix_list = (24, 10 ∷ 0 ∷ 1 ∷ 0 ∷ []) ∷ (0, 0 ∷ 0 ∷ 0 ∷ 0 ∷ []) ∷ []

parse_ipv4_prefixes-encode_example :
    parse_prefixes parse_ipv4_prefix (encode_prefixes ipv4_prefix_list) 0
    ≡ ok (map (to_cidr ipv4) ipv4_prefix_list)
parse_ipv4_prefixes-encode_example =
    parse_ipv4_prefixes-encode ipv4_prefix_list
      ((omega arith, refl, refl), ((omega arith, refl, refl), tt))

abbrev ipv6_prefix_list : List (ℕ × List ℕ)
ipv6_prefix_list = (32, 0x20 ∷ 1 ∷ 0xd ∷ 0xb8 ∷ replicate 12 0) ∷ []

parse_ipv6_prefixes-encode_example :
    parse_prefixes parse_ipv6_prefix (0 ∷ 2 ∷ 1 ∷ encode_prefixes ipv6_prefix_list) 3
    ≡ ok (map (to_cidr ipv6) ipv6_prefix_list)
unfolding slice
parse_ipv6_prefixes-encode_example =
    parse_ipv6_prefixes-encode (0 ∷ 2 ∷ 1 ∷ encode_prefixes ipv6_prefix_list) 3 ipv6_prefix_list
      ((omega arith, refl, refl), tt) refl (record { fits = omega arith; holds = refl })

parse_ipv4_prefix_shape_example :
    (24 ≤ 32)
    × (length (address_bytes withdrawn_cidr.address) ≡ 4)
    × (4 ≡ 1 + prefix_bytes 24)
    × (0 + 4 ≤ length (update_parts.withdrawn_routes))
unfolding parse_ipv4_prefix parse_prefix slice from_bytes read_uint8 read_bytes
parse_ipv4_prefix_shape_example =
    parse_ipv4_prefix_shape update_parts.withdrawn_routes 0 withdrawn_cidr 4 refl

abbrev ipv6_cidr : Cidr
ipv6_cidr = record { address = ipv6 (0x20 ∷ 1 ∷ 0xd ∷ 0xb8 ∷ replicate 12 0); prefix_len = 32 }

parse_ipv6_prefix_shape_example :
    (32 ≤ 128)
    × (length (address_bytes ipv6_cidr.address) ≡ 16)
    × (5 ≡ 1 + prefix_bytes 32)
    × (0 + 5 ≤ length (encode_prefixes ipv6_prefix_list))
unfolding parse_ipv6_prefix parse_prefix slice from_bytes read_uint8 read_bytes
parse_ipv6_prefix_shape_example =
    parse_ipv6_prefix_shape (encode_prefixes ipv6_prefix_list) 0 ipv6_cidr 5 refl

abbrev two_communities : List Community
two_communities =
    record { as_num = 65001; comm_value = 100 }
    ∷ record { as_num = 65535; comm_value = 0xff01 }
    ∷ []

parse_communities-encode_example :
    parse_communities (encode_communities two_communities) ≡ ok two_communities
parse_communities-encode_example = parse_communities-encode two_communities

abbrev ragged_value : List ℕ
ragged_value = 0 ∷ 2 ∷ 0xfd ∷ 0xe9 ∷ 0 ∷ 0 ∷ []

parse_communities_returns_example :
    ((length ragged_value % 4 ≡ 0)
      × (cs : List Community) × (parse_communities ragged_value ≡ ok cs))
    ⊎ ((length ragged_value % 4 ≢ 0) × (parse_communities ragged_value ≡ err bgp_parse_error))
parse_communities_returns_example = parse_communities_returns ragged_value

parse_extended_communities_returns_example :
    ((length ragged_value % 8 ≡ 0)
      × (cs : List ExtendedCommunity) × (parse_extended_communities ragged_value ≡ ok cs))
    ⊎ ((length ragged_value % 8 ≢ 0)
        × (parse_extended_communities ragged_value ≡ err bgp_parse_error))
parse_extended_communities_returns_example = parse_extended_communities_returns ragged_value

-- A MAC/IP route of 33 bytes that says it carries an IPv4 address: its four bytes are those of the
-- route behind it, which is parsed as well.
abbrev short_route : List ℕ
short_route =
    2
    ∷ 33
    ∷ (replicate 8 0
        ++ (replicate 10 0
            ++ (replicate 4 0 ++ (48 ∷ (1 ∷ 2 ∷ 3 ∷ 4 ∷ 5 ∷ 6 ∷ (32 ∷ 0 ∷ 0 ∷ 0 ∷ []))))))

evpn_ip_from_next_route :
    parse_evpn_nlri (short_route ++ (3 ∷ 9 ∷ replicate 9 7)) 0
    ≡ ok (
      some (
          mac_ip_route 2
            (number_value 0 0)
            (replicate 10 0)
            (some (1 ∷ 2 ∷ 3 ∷ 4 ∷ 5 ∷ 6 ∷ []))
            (some (ipv4 (0 ∷ 0 ∷ 0 ∷ 3 ∷ [])))),
      35,
    )
unfolding parse_evpn_nlri parse_mac_ip_route parse_route_distinguisher parse_ethernet_segment_id
    parse_mac parse_evpn_ip slice from_bytes read_uint8 read_uint16 read_uint32 read_bytes
evpn_ip_from_next_route = refl

take_attribute_ends_example : take_attribute short_med initial_fields ≢ err out_of_fuel
take_attribute_ends_example = take_attribute_ends short_med initial_fields

update_parts-IsUpdate : IsUpdate update_parts
unfolding has_extended_length
update_parts-IsUpdate = record {
  withdrawn = refl;
  attributes = refl;
  each_attribute = ground arith;
}

parse_bgp_update_structure-encode_example :
    parse_bgp_update_structure (encode_update update_parts ++ (0xff ∷ [])) ≡ ok update_parts
parse_bgp_update_structure-encode_example =
    parse_bgp_update_structure-encode update_parts (0xff ∷ []) update_parts-IsUpdate

parse_bgp_update-encode_example :
    Returns
      (RoutesOf update_parts (cidr withdrawn_cidr ∷ []) (cidr announced_cidr ∷ []))
      (parse_bgp_update (encode_update update_parts ++ []))
parse_bgp_update-encode_example =
    parse_bgp_update-encode update_parts [] ((24, 10 ∷ 0 ∷ 1 ∷ 0 ∷ []) ∷ [])
      ((16, 10 ∷ 1 ∷ 0 ∷ 0 ∷ []) ∷ []) update_parts-IsUpdate ((omega arith, refl, refl), tt)
      ((omega arith, refl, refl), tt) refl refl
