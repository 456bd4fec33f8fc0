-- ===== src/Protocol/BgpParser/Evpn.antt =====
-- bgp_parser.py: route distinguishers, Ethernet segment identifiers and EVPN routes.
use pybmpmon.Base.{
  ℕ, zero, suc, ◌+◌, ◌-◌, ◌&&◌, List, [], ◌∷◌, length, ltb, leb, ◌==◌, if◌then◌else◌, Option, none,
  some, bgp_parse_error, out_of_fuel, Result, ok, err, ◌>>=◌,
}
use pybmpmon.Utils.Binary.{IpAddress, ipv4, ipv6, read_uint8, read_uint16, read_uint32, read_bytes}
use pybmpmon.Protocol.Bgp.{
  RouteDistinguisher, number_value, ip_value, hex, RouteInfo, mac_ip_route, other_route,
}

unfoldable pub parse_route_distinguisher : List ℕ → ℕ → Result RouteDistinguisher
parse_route_distinguisher value offset =
    if ltb (length value) (offset + 8) then err bgp_parse_error else do
      rd_type ← read_uint16 value offset
      if rd_type == 0
          then (do
            admin ← read_uint16 value (offset + 2)
            assigned ← read_uint32 value (offset + 4)
            ok (number_value admin assigned))
          else if rd_type == 1
          then (do
            ip_bytes ← read_bytes value (offset + 2) 4
            assigned ← read_uint16 value (offset + 6)
            ok (ip_value (ipv4 ip_bytes) assigned))
          else if rd_type == 2
          then (do
            admin ← read_uint32 value (offset + 2)
            assigned ← read_uint16 value (offset + 6)
            ok (number_value admin assigned))
          else (do rd_bytes ← read_bytes value offset 8; ok (hex rd_bytes))

unfoldable pub parse_ethernet_segment_id : List ℕ → ℕ → Result (List ℕ)
parse_ethernet_segment_id value offset =
    if ltb (length value) (offset + 10) then err bgp_parse_error else read_bytes value offset 10

-- The MAC address of a MAC/IP route, and the offset behind it.
unfoldable pub parse_mac : ℕ → List ℕ → ℕ → Result (Option (List ℕ) × ℕ)
parse_mac mac_len value route_offset =
    if (mac_len == 48) && leb (route_offset + 6) (length value)
    then (do mac_bytes ← read_bytes value route_offset 6; ok (some mac_bytes, route_offset + 6))
    else ok (none, route_offset)

unfoldable pub parse_evpn_ip : ℕ → List ℕ → ℕ → Result (Option IpAddress)
parse_evpn_ip ip_len value route_offset =
    if (ip_len == 32) && leb (route_offset + 4) (length value)
    then (do ip_bytes ← read_bytes value route_offset 4; ok (some (ipv4 ip_bytes)))
    else if (ip_len == 128) && leb (route_offset + 16) (length value)
    then (do ip_bytes ← read_bytes value route_offset 16; ok (some (ipv6 ip_bytes)))
    else ok none

-- A MAC/IP route, type 2: RD at 0, ESI at 8, the tag at 18 is skipped, the MAC length at 22.
unfoldable pub parse_mac_ip_route : ℕ → List ℕ → ℕ → Result RouteInfo
parse_mac_ip_route route_type value route_offset = do
  rd ← parse_route_distinguisher value route_offset
  esi ← parse_ethernet_segment_id value (route_offset + 8)
  mac_len ← read_uint8 value (route_offset + 22)
  (mac_address, ip_len_offset) ← parse_mac mac_len value (route_offset + 23)
  ip_len ← read_uint8 value ip_len_offset
  ip_address ← parse_evpn_ip ip_len value (ip_len_offset + 1)
  ok (mac_ip_route route_type rd esi mac_address ip_address)

unfoldable pub parse_evpn_nlri : List ℕ → ℕ → Result (Option RouteInfo × ℕ)
parse_evpn_nlri value offset = if ltb (length value) (offset + 2) then ok (none, 0) else do
  route_type ← read_uint8 value offset
  count ← read_uint8 value (offset + 1)
  if ltb (length value) (offset + 2 + count)
      then err bgp_parse_error
      else if route_type == 2
      then (if ltb count 33 then err bgp_parse_error else do
        info ← parse_mac_ip_route route_type value (offset + 2)
        ok (some info, 2 + count))
      else ok (some (other_route route_type), 2 + count)

-- `if route_info: prefixes.append(route_info)`; a dict is never empty.
abbrev pub append_route : Option RouteInfo → List RouteInfo → List RouteInfo
append_route none infos = infos
append_route (some info) infos = info ∷ infos

-- The EVPN loop of `parse_mp_reach_nlri` and `parse_mp_unreach_nlri`, with its `break`.
unfoldable pub evpn_loop : ℕ → List ℕ → ℕ → Result (List RouteInfo)
evpn_loop zero value offset = err out_of_fuel
evpn_loop (suc fuel) value offset =
    let rounds : Result (List RouteInfo) = (do
      (info, consumed) ← parse_evpn_nlri value offset
      let more = evpn_loop fuel value (offset + consumed)
      infos ← if consumed == 0 then ok [] else more
      ok (append_route info infos)) in
    if ltb offset (length value) then rounds else ok []

-- Each round but the last consumes 2 bytes at least.
unfoldable pub parse_evpn_routes : List ℕ → ℕ → Result (List RouteInfo)
parse_evpn_routes value offset = evpn_loop (suc (length value - offset)) value offset
