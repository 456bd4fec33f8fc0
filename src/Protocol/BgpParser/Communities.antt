-- ===== src/Protocol/BgpParser/Communities.antt =====
-- bgp_parser.py: the COMMUNITIES and the EXTENDED_COMMUNITIES attributes.
use pybmpmon.Base.{
  ℕ, zero, suc, ◌+◌, ◌*◌, ◌/◌, ◌%◌, ◌^◌, bit_or, ◌&&◌, not, List, [], ◌∷◌, length, ltb, ◌==◌,
  if◌then◌else◌, bgp_parse_error, out_of_fuel, Result, ok, err, ◌>>=◌,
}
use pybmpmon.Base.Slices.{slice}
use pybmpmon.Utils.Binary.{ipv4, read_uint8, read_uint16, read_uint32, read_bytes}
use pybmpmon.Protocol.Bgp.{
  Community, ExtendedCommunity, ospf_domain, route_target_as, route_origin_as, redirect,
  route_target_ip, route_origin_ip, opaque, evpn_es_import, evpn_mac_mobility, evpn_esi_label,
  evpn_other, unknown,
}

-- `while offset < len(value)`; each round takes 4 bytes.
unfoldable pub communities_loop : ℕ → List ℕ → ℕ → Result (List Community)
communities_loop zero value offset = err out_of_fuel
communities_loop (suc fuel) value offset =
    let rounds : Result (List Community) = (do
      as_num ← read_uint16 value offset
      comm_value ← read_uint16 value (offset + 2)
      communities ← communities_loop fuel value (offset + 4)
      ok (record { as_num = as_num; comm_value = comm_value } ∷ communities)) in
    if ltb offset (length value) then rounds else ok []

unfoldable pub parse_communities : List ℕ → Result (List Community)
parse_communities value =
    if not (length value % 4 == 0)
    then err bgp_parse_error
    else communities_loop (suc (length value)) value 0

-- `(label_bytes[0] << 12) | (label_bytes[1] << 4) | (label_bytes[2] >> 4)`. The list is a read of
-- three bytes, so that the last clause is never used.
unfoldable pub esi_label : List ℕ → ℕ
esi_label (a ∷ b ∷ c ∷ rest) = bit_or (bit_or (a * 2 ^ 12) (b * 2 ^ 4)) (c / 2 ^ 4)
esi_label short = 0

-- The branches for the EVPN type, 0x06, by the subtype.
unfoldable pub parse_evpn_community : ℕ → List ℕ → ℕ → Result ExtendedCommunity
parse_evpn_community ext_subtype value offset =
    if ext_subtype == 0x00
    then (do
      _ ← read_uint8 value (offset + 2)
      seq ← read_uint32 value (offset + 3)
      ok (evpn_mac_mobility seq))
    else if ext_subtype == 0x01
    then (do
      label_bytes ← read_bytes value (offset + 5) 3
      ok (evpn_esi_label (esi_label label_bytes)))
    else if ext_subtype == 0x02
    then (do mac_bytes ← read_bytes value (offset + 2) 6; ok (evpn_es_import mac_bytes))
    else (do evpn_value ← read_bytes value (offset + 2) 6; ok (evpn_other ext_subtype evpn_value))

-- The body of the loop: the `elif` chain over the type and the subtype.
unfoldable pub parse_extended_community : ℕ → ℕ → List ℕ → ℕ → Result ExtendedCommunity
parse_extended_community ext_type ext_subtype value offset =
    if (ext_type == 0x03) && (ext_subtype == 0x0c)
    then (do
      domain_bytes ← read_bytes value (offset + 2) 6
      ok (ospf_domain (ipv4 (slice domain_bytes 2 4))))
    else if (ext_type == 0x00) && (ext_subtype == 0x02)
    then (do
      as_num ← read_uint16 value (offset + 2)
      assigned ← read_uint32 value (offset + 4)
      ok (route_target_as as_num assigned))
    else if (ext_type == 0x02) && (ext_subtype == 0x00)
    then (do
      as_num ← read_uint16 value (offset + 2)
      assigned ← read_uint32 value (offset + 4)
      ok (route_origin_as as_num assigned))
    else if (ext_type == 0x01) && (ext_subtype == 0x02)
    then (do
      ip_bytes ← read_bytes value (offset + 2) 4
      assigned ← read_uint16 value (offset + 6)
      ok (route_target_ip (ipv4 ip_bytes) assigned))
    else if (ext_type == 0x03) && (ext_subtype == 0x00)
    then (do
      ip_bytes ← read_bytes value (offset + 2) 4
      assigned ← read_uint16 value (offset + 6)
      ok (route_origin_ip (ipv4 ip_bytes) assigned))
    else if (ext_type == 0x02) && (ext_subtype == 0x02)
    then (do
      as_num ← read_uint32 value (offset + 2)
      assigned ← read_uint16 value (offset + 6)
      ok (route_target_as as_num assigned))
    else if (ext_type == 0x0a) && (ext_subtype == 0x02)
    then (do
      as_num ← read_uint32 value (offset + 2)
      assigned ← read_uint16 value (offset + 6)
      ok (route_origin_as as_num assigned))
    else if ext_type == 0x03
    then (do opaque_value ← read_bytes value (offset + 2) 6; ok (opaque opaque_value))
    else if ext_type == 0x06
    then parse_evpn_community ext_subtype value offset
    else if ext_type == 0x08
    then (do
      as_num ← read_uint16 value (offset + 2)
      assigned ← read_uint32 value (offset + 4)
      ok (redirect as_num assigned))
    else (do ext_value ← read_bytes value offset 8; ok (unknown ext_type ext_value))

-- `while offset < len(value)`; each round takes 8 bytes.
unfoldable pub extended_communities_loop : ℕ → List ℕ → ℕ → Result (List ExtendedCommunity)
extended_communities_loop zero value offset = err out_of_fuel
extended_communities_loop (suc fuel) value offset =
    let rounds : Result (List ExtendedCommunity) = (do
      ext_type ← read_uint8 value offset
      ext_subtype ← read_uint8 value (offset + 1)
      community ← parse_extended_community ext_type ext_subtype value offset
      communities ← extended_communities_loop fuel value (offset + 8)
      ok (community ∷ communities)) in
    if ltb offset (length value) then rounds else ok []

unfoldable pub parse_extended_communities : List ℕ → Result (List ExtendedCommunity)
parse_extended_communities value =
    if not (length value % 8 == 0)
    then err bgp_parse_error
    else extended_communities_loop (suc (length value)) value 0
