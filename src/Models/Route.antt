-- ===== src/Models/Route.antt =====
-- src/pybmpmon/models/route.py: a route as it is stored. A text of the source is kept as the value
-- that it is formatted from.
use pybmpmon.Base.{ℕ, List, Option, Bool}
use pybmpmon.Utils.Binary.{IpAddress}
use pybmpmon.Protocol.Bgp.{Cidr, Community, ExtendedCommunity, RouteDistinguisher}
use pybmpmon.Monitoring.PeerStats.{Family}

pub record RouteUpdate : Type 0 where
  pub time : ℕ
  pub bmp_peer_ip : IpAddress
  pub bmp_peer_asn : Option ℕ
  pub bgp_peer_ip : IpAddress
  pub bgp_peer_asn : Option ℕ
  pub family : Family
  pub prefix : Option Cidr
  pub next_hop : Option IpAddress
  pub as_path : Option (List ℕ)
  pub communities : Option (List Community)
  pub extended_communities : Option (List ExtendedCommunity)
  pub med : Option ℕ
  pub local_pref : Option ℕ
  pub is_withdrawn : Bool
  pub evpn_route_type : Option ℕ
  pub evpn_rd : Option RouteDistinguisher
  pub evpn_esi : Option (List ℕ)
  pub mac_address : Option (List ℕ)
