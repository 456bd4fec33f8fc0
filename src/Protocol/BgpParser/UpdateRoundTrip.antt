-- ===== src/Protocol/BgpParser/UpdateRoundTrip.antt =====
-- From the bytes of an UPDATE to the routes that are made of it.
use pybmpmon.Base.{ℕ, ◌≡◌, ap, ◌∙◌, List, ◌++◌, map, All, Returns}
use pybmpmon.Utils.Binary.{ipv4}
use pybmpmon.Protocol.Bgp.{BgpUpdateMessage, cidr}
use pybmpmon.Protocol.BgpParser.Prefixes.{parse_ipv4_prefix, parse_prefixes}
use pybmpmon.Protocol.BgpParser.Update.{parse_bgp_update}
use pybmpmon.Protocol.BgpParser.Wire.{encode_update, IsUpdate, encode_prefixes, IsPrefix, to_cidr}
use pybmpmon.Protocol.BgpParser.PrefixesRoundTrip.{parse_ipv4_prefixes-encode}
use pybmpmon.Protocol.BgpParser.StructureRoundTrip.{parse_bgp_update_structure-encode}
use pybmpmon.Protocol.BgpParser.UpdateLaws.{RoutesOf, parse_bgp_update_routes}

-- The bytes of a well-formed UPDATE, whatever follows it, whose withdrawn routes and NLRI are
-- lists of IPv4 prefixes are made into an update. Its prefixes are those of the MP_REACH_NLRI
-- attributes and then the NLRI's, its withdrawn prefixes those of the field and then of the
-- MP_UNREACH_NLRI attributes, in order.
pub parse_bgp_update-encode :
    (m : BgpUpdateMessage) (rest : List ℕ) (ws ns : List (ℕ × List ℕ))
    → IsUpdate m
    → All (IsPrefix 4) ws
    → All (IsPrefix 4) ns
    → m.withdrawn_routes ≡ encode_prefixes ws
    → m.nlri ≡ encode_prefixes ns
    → Returns
        (RoutesOf m (map cidr (map (to_cidr ipv4) ws)) (map cidr (map (to_cidr ipv4) ns)))
        (parse_bgp_update (encode_update m ++ rest))
parse_bgp_update-encode m rest ws ns valid valid_ws valid_ns withdrawn announced =
    let read = λ (bs : List ℕ). parse_prefixes parse_ipv4_prefix bs 0 in
    parse_bgp_update_routes (encode_update m ++ rest) m (map (to_cidr ipv4) ws)
      (map (to_cidr ipv4) ns) (parse_bgp_update_structure-encode m rest valid)
      (ap read withdrawn ∙ parse_ipv4_prefixes-encode ws valid_ws)
      (ap read announced ∙ parse_ipv4_prefixes-encode ns valid_ns)
