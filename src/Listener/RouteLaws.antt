-- ===== src/Listener/RouteLaws.antt =====
-- The family that the routes of an UPDATE are given, by the parts of the UPDATE.
use pybmpmon.Base.{ℕ, ◌<◌, ◌≡◌, ◌∙◌, refl, List, [], length, map, ok, arith, Result-cases, inl, inr}
use pybmpmon.Utils.Binary.{IpAddress}
use pybmpmon.Protocol.Bmp.{BmpPerPeerHeader}
use pybmpmon.Protocol.Bgp.{BgpUpdateMessage, ParsedBgpUpdate, Prefix, cidr, route_info}
use pybmpmon.Protocol.BgpParser.Structure.{parse_bgp_update_structure}
use pybmpmon.Protocol.BgpParser.Prefixes.{parse_ipv4_prefix, parse_prefixes}
use pybmpmon.Protocol.BgpParser.AttributesEnd.{take_attributes_end}
use pybmpmon.Protocol.BgpParser.Update.{
  Fields, initial_fields, take_attributes, take_nlri, to_update, parse_bgp_update,
}
use pybmpmon.Monitoring.PeerStats.{ipv4_unicast, other_family}
use pybmpmon.Listener.Routes.{determine_family, announced_route, withdrawn_route}

module _ (xs : List ℕ) (m : BgpUpdateMessage) (u : ParsedBgpUpdate)
    (structure : parse_bgp_update_structure xs ≡ ok m) (parses : parse_bgp_update xs ≡ ok u) where
  nlri_family : 0 < length m.nlri → determine_family u.afi u.safi ≡ ipv4_unicast
  unfolding parse_bgp_update to_update take_nlri determine_family
  nlri_family some_nlri =
      elim (Result-cases (parse_prefixes parse_ipv4_prefix m.withdrawn_routes 0)) [
        | inr (x, p) ↦ ground (arith, structure, p)
        | inl (w, p) ↦ elim (Result-cases (parse_prefixes parse_ipv4_prefix m.nlri 0)) [
          | inr (x, q) ↦ ground (arith, structure, p, q)
          | inl (n, q) ↦
              let started : Fields = record initial_fields { withdrawn_prefixes = map cidr w } in
              ground (arith, structure, p, q, take_attributes_end m.path_attributes started)
        ]
      ]

  bare_family : m.path_attributes ≡ [] → m.nlri ≡ [] → determine_family u.afi u.safi ≡ other_family
  unfolding parse_bgp_update to_update take_nlri take_attributes determine_family
  bare_family no_attributes no_nlri =
      elim (Result-cases (parse_prefixes parse_ipv4_prefix m.withdrawn_routes 0)) [
        | inr (x, p) ↦ ground (arith, structure, p)
        | inl (w, p) ↦ ground (arith, structure, p, no_attributes, no_nlri)
      ]

  module _ (now : ℕ) (peer_ip : IpAddress) (peer : BmpPerPeerHeader) (prefix : Prefix) where
    announced_family :
        (announced_route now peer_ip peer u prefix).family ≡ determine_family u.afi u.safi
    unfolding announced_route
    announced_family =
        elim prefix
          as (λ p. (announced_route now peer_ip peer u p).family ≡ determine_family u.afi u.safi) [
            | cidr c ↦ refl
            | route_info i ↦ refl
          ]

    withdrawn_family :
        (withdrawn_route now peer_ip peer u prefix).family ≡ determine_family u.afi u.safi
    unfolding withdrawn_route
    withdrawn_family =
        elim prefix
          as (λ p. (withdrawn_route now peer_ip peer u p).family ≡ determine_family u.afi u.safi) [
            | cidr c ↦ refl
            | route_info i ↦ refl
          ]

    -- For an UPDATE that parses: with a byte of NLRI every announced route is of the family
    -- ipv4_unicast, those of MP_REACH_NLRI too; with neither attributes nor NLRI every withdrawn
    -- route is of the family "unknown", though the prefixes of the withdrawn routes are IPv4.
    pub route_family :
        (0 < length m.nlri → (announced_route now peer_ip peer u prefix).family ≡ ipv4_unicast)
        × (m.path_attributes ≡ []
            → m.nlri ≡ []
            → (withdrawn_route now peer_ip peer u prefix).family ≡ other_family)
    route_family = (
      λ some_nlri. announced_family ∙ nlri_family some_nlri,
      λ no_attributes no_nlri. withdrawn_family ∙ bare_family no_attributes no_nlri,
    )
