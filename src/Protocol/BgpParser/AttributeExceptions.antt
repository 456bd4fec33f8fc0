-- ===== src/Protocol/BgpParser/AttributeExceptions.antt =====
-- Which exceptions the attribute parsers of bgp_parser.py raise, and that their loops end.
use pybmpmon.Base.{
  ℕ, zero, suc, ◌+◌, ◌-◌, ◌*◌, ◌%◌, ◌<◌, ◌≤◌, ◌≡◌, ◌≢◌, refl, ◌⊎◌, List, length, ok, err, arith,
  bgp_parse_error, RaisesOnly, Error, inl, inr, Result-cases,
}
use native.Mathlib.Decide.{ℕ_discrete}
use pybmpmon.Base.Slices.{slice}
use pybmpmon.Utils.Binary.{from_bytes, read_uint8, read_uint16, read_uint32, read_bytes}
use pybmpmon.Utils.Binary.Reads.{
  read_uint8-fits, read_uint16-fits, read_uint32-fits, read_bytes-fits,
}
use pybmpmon.Protocol.Bgp.{Community, ExtendedCommunity}
use pybmpmon.Protocol.BgpParser.AsPath.{
  as_size_of, read_as_number, read_segment, parse_segment, as_path_loop, parse_as_path,
}
use pybmpmon.Protocol.BgpParser.Communities.{
  communities_loop, parse_communities, parse_evpn_community, parse_extended_community,
  extended_communities_loop, parse_extended_communities,
}
use pybmpmon.Protocol.BgpParser.Evpn.{
  parse_route_distinguisher, parse_ethernet_segment_id, parse_mac, parse_evpn_ip,
  parse_mac_ip_route, parse_evpn_nlri, evpn_loop, parse_evpn_routes,
}
use pybmpmon.Protocol.BgpParser.Multiprotocol.{
  parse_family_prefixes, parse_mp_reach_nlri, parse_mp_unreach_nlri,
}
use pybmpmon.Protocol.BgpParser.Exceptions.{parse_ipv4_prefixes-raises, parse_ipv6_prefixes-raises}

module _ (xs : List ℕ) where
  pub as_size_of-cases :
      (remaining count : ℕ) → (as_size_of remaining count ≡ 4) ⊎ (as_size_of remaining count ≡ 2)
  unfolding as_size_of
  as_size_of-cases remaining count = ground arith

  pub read_segment_returns :
      (kind size rounds off : ℕ) (x : Error)
      → (size ≡ 4) ⊎ (size ≡ 2)
      → off + rounds * size ≤ length xs
      → read_segment kind size rounds xs off ≢ err x
  unfolding read_segment read_as_number
  read_segment_returns kind size zero off x two_or_four h e = cc
  read_segment_returns kind size (suc rounds) off x two_or_four h e = ground (
    arith,
    read_uint32-fits xs off,
    read_uint16-fits xs off,
    read_segment_returns kind size rounds (off + size) x two_or_four (omega arith),
  )

  parse_segment-raises : (off : ℕ) → RaisesOnly bgp_parse_error (parse_segment xs off)
  unfolding parse_segment
  parse_segment-raises off x e =
      let kind = from_bytes (slice xs off 1) in
      let count = from_bytes (slice xs (off + 1) 1) in
      let size = as_size_of (length xs - (off + 2)) count in
      ground (
        arith,
        read_uint8-fits xs off,
        read_uint8-fits xs (off + 1),
        λ (h : off + 2 + count * size ≤ length xs).
            read_segment_returns kind size count (off + 2) x (as_size_of-cases _ count) h,
      )

  parse_segment_moves :
      (off next : ℕ) (numbers : List ℕ) → parse_segment xs off ≡ ok (numbers, next) → off + 2 ≤ next
  unfolding parse_segment
  parse_segment_moves off next numbers h = ground arith

  as_path_loop-raises :
      (fuel off : ℕ) (x : Error)
      → length xs - off < fuel
      → as_path_loop fuel xs off ≡ err x
      → x ≡ bgp_parse_error
  unfolding as_path_loop
  as_path_loop-raises zero off x h e = absurd (omega arith)
  as_path_loop-raises (suc fuel) off x h e = elim (Result-cases (parse_segment xs off)) [
    | inl ((numbers, next), p) ↦
        ground (arith, p, parse_segment_moves off next numbers p, as_path_loop-raises fuel next x)
    | inr (y, p) ↦ ground (arith, p, parse_segment-raises off y p)
  ]

  pub parse_as_path-raises : RaisesOnly bgp_parse_error (parse_as_path xs)
  unfolding parse_as_path
  parse_as_path-raises x = as_path_loop-raises (suc (length xs)) 0 x (omega arith)

  communities_loop_returns :
      (fuel off : ℕ) (x : Error)
      → length xs - off < fuel
      → off % 4 ≡ 0
      → length xs % 4 ≡ 0
      → communities_loop fuel xs off ≢ err x
  unfolding communities_loop
  communities_loop_returns zero off x h aligned whole e = absurd (omega arith)
  communities_loop_returns (suc fuel) off x h aligned whole e = ground (
    arith,
    read_uint16-fits xs off,
    read_uint16-fits xs (off + 2),
    communities_loop_returns fuel (off + 4) x,
  )

  parse_extended_community_returns :
      (kind subtype off : ℕ) (x : Error)
      → off + 8 ≤ length xs
      → parse_extended_community kind subtype xs off ≢ err x
  unfolding parse_extended_community parse_evpn_community read_uint8 read_uint16 read_uint32
      read_bytes
  parse_extended_community_returns kind subtype off x h e = ground arith

  extended_communities_loop_returns :
      (fuel off : ℕ) (x : Error)
      → length xs - off < fuel
      → off % 8 ≡ 0
      → length xs % 8 ≡ 0
      → extended_communities_loop fuel xs off ≢ err x
  unfolding extended_communities_loop
  extended_communities_loop_returns zero off x h aligned whole e = absurd (omega arith)
  extended_communities_loop_returns (suc fuel) off x h aligned whole e =
      let kind = from_bytes (slice xs off 1) in
      let subtype = from_bytes (slice xs (off + 1) 1) in
      ground (
        arith,
        read_uint8-fits xs off,
        read_uint8-fits xs (off + 1),
        parse_extended_community_returns kind subtype off x,
        extended_communities_loop_returns fuel (off + 8) x,
      )

  -- A MAC/IP route of at least 33 bytes is never read past the end.
  parse_mac_ip_route_returns :
      (kind off : ℕ) (x : Error) → off + 33 ≤ length xs → parse_mac_ip_route kind xs off ≢ err x
  unfolding parse_mac_ip_route parse_route_distinguisher parse_ethernet_segment_id parse_mac
      parse_evpn_ip read_uint8 read_uint16 read_uint32 read_bytes
  parse_mac_ip_route_returns kind off x h e = ground arith

  parse_evpn_nlri-raises : (off : ℕ) → RaisesOnly bgp_parse_error (parse_evpn_nlri xs off)
  unfolding parse_evpn_nlri
  parse_evpn_nlri-raises off x e =
      let kind = from_bytes (slice xs off 1) in
      ground (
        arith,
        read_uint8-fits xs off,
        read_uint8-fits xs (off + 1),
        parse_mac_ip_route_returns kind (off + 2) x,
      )

  evpn_loop-raises :
      (fuel off : ℕ) (x : Error)
      → length xs - off < fuel
      → evpn_loop fuel xs off ≡ err x
      → x ≡ bgp_parse_error
  unfolding evpn_loop
  evpn_loop-raises zero off x h e = absurd (omega arith)
  evpn_loop-raises (suc fuel) off x h e = elim (Result-cases (parse_evpn_nlri xs off)) [
    | inl ((info, n), p) ↦ ground (arith, p, evpn_loop-raises fuel (off + n) x)
    | inr (y, p) ↦ ground (arith, p, parse_evpn_nlri-raises off y p)
  ]

  parse_evpn_routes-raises : (off : ℕ) → RaisesOnly bgp_parse_error (parse_evpn_routes xs off)
  unfolding parse_evpn_routes
  parse_evpn_routes-raises off x = evpn_loop-raises (suc (length xs - off)) off x (omega arith)

  parse_family_prefixes-raises :
      (afi safi off : ℕ) → RaisesOnly bgp_parse_error (parse_family_prefixes afi safi xs off)
  unfolding parse_family_prefixes
  parse_family_prefixes-raises afi safi off x e = ground (
    arith,
    parse_ipv4_prefixes-raises xs off x,
    parse_ipv6_prefixes-raises xs off x,
    parse_evpn_routes-raises off x,
  )

  pub parse_mp_reach_nlri-raises : RaisesOnly bgp_parse_error (parse_mp_reach_nlri xs)
  unfolding parse_mp_reach_nlri
  parse_mp_reach_nlri-raises x e =
      let afi = from_bytes (slice xs 0 2) in
      let safi = from_bytes (slice xs 2 1) in
      let count = from_bytes (slice xs 3 1) in
      ground (
        arith,
        read_uint16-fits xs 0,
        read_uint8-fits xs 2,
        read_uint8-fits xs 3,
        read_bytes-fits xs 4 count,
        parse_family_prefixes-raises afi safi (4 + count + 1) x,
      )

  pub parse_mp_unreach_nlri-raises : RaisesOnly bgp_parse_error (parse_mp_unreach_nlri xs)
  unfolding parse_mp_unreach_nlri
  parse_mp_unreach_nlri-raises x e =
      let afi = from_bytes (slice xs 0 2) in
      let safi = from_bytes (slice xs 2 1) in
      ground (
        arith,
        read_uint16-fits xs 0,
        read_uint8-fits xs 2,
        parse_family_prefixes-raises afi safi 3 x,
      )

  -- The COMMUNITIES parser returns if the value is a whole number of communities of 4 bytes, and
  -- raises BGPParseError otherwise.
  pub parse_communities_returns :
      ((length xs % 4 ≡ 0) × (cs : List Community) × (parse_communities xs ≡ ok cs))
      ⊎ ((length xs % 4 ≢ 0) × (parse_communities xs ≡ err bgp_parse_error))
  unfolding parse_communities
  parse_communities_returns = elim (ℕ_discrete (length xs % 4) 0) [
    | yes whole ↦ elim (Result-cases (communities_loop (suc (length xs)) xs 0)) [
      | inl (cs, p) ↦ inl (whole, cs, ground (arith, p))
      | inr (y, p) ↦
          absurd (communities_loop_returns (suc (length xs)) 0 y (omega arith) refl whole p)
    ]
    | no ragged ↦ inr (ragged, ground arith)
  ]

  -- The EXTENDED_COMMUNITIES parser returns if the value is a whole number of communities of 8
  -- bytes, whatever their types, and raises BGPParseError otherwise.
  pub parse_extended_communities_returns :
      ((length xs % 8 ≡ 0)
        × (cs : List ExtendedCommunity) × (parse_extended_communities xs ≡ ok cs))
      ⊎ ((length xs % 8 ≢ 0) × (parse_extended_communities xs ≡ err bgp_parse_error))
  unfolding parse_extended_communities
  parse_extended_communities_returns = elim (ℕ_discrete (length xs % 8) 0) [
    | yes whole ↦ elim (Result-cases (extended_communities_loop (suc (length xs)) xs 0)) [
      | inl (cs, p) ↦ inl (whole, cs, ground (arith, p))
      | inr (y, p) ↦
          absurd
            (extended_communities_loop_returns (suc (length xs)) 0 y (omega arith) refl whole p)
    ]
    | no ragged ↦ inr (ragged, ground arith)
  ]
