-- ===== src/Protocol/BgpParser/UpdateTotal.antt =====
-- What `parse_bgp_update` raises, and that no attribute makes it go on for ever.
use pybmpmon.Base.{
  ℕ, List, arith, bgp_parse_error, RaisesOnly, ReturnsOr, returns_or, map, Result-cases, inl, inr,
}
use pybmpmon.Protocol.Bgp.{cidr}
use pybmpmon.Protocol.BgpParser.Prefixes.{parse_ipv4_prefix, parse_prefixes}
use pybmpmon.Protocol.BgpParser.Structure.{parse_bgp_update_structure}
use pybmpmon.Protocol.BgpParser.Update.{Fields, initial_fields, take_nlri, parse_bgp_update}
use pybmpmon.Protocol.BgpParser.AttributesEnd.{take_attributes_end}
use pybmpmon.Protocol.BgpParser.Exceptions.{
  parse_bgp_update_structure-raises, parse_ipv4_prefixes-raises,
}

parse_bgp_update-raises : (xs : List ℕ) → RaisesOnly bgp_parse_error (parse_bgp_update xs)
unfolding parse_bgp_update take_nlri
parse_bgp_update-raises xs x e = elim (Result-cases (parse_bgp_update_structure xs)) [
  | inr (y, p) ↦ ground (arith, p, parse_bgp_update_structure-raises xs y p)
  | inl (u, p) ↦ elim (Result-cases (parse_prefixes parse_ipv4_prefix u.withdrawn_routes 0)) [
    | inr (y, q) ↦ ground (arith, p, q, parse_ipv4_prefixes-raises u.withdrawn_routes 0 x)
    | inl (w, q) ↦
        let started : Fields = record initial_fields { withdrawn_prefixes = map cidr w } in
        ground (
          arith,
          p,
          q,
          take_attributes_end u.path_attributes started,
          parse_ipv4_prefixes-raises u.nlri 0 x,
        )
  ]
]

-- Whatever the bytes, `parse_bgp_update` returns an update or raises BGPParseError; no
-- ValueError of a read gets out, and no loop goes on for ever.
pub parse_bgp_update_total : (xs : List ℕ) → ReturnsOr bgp_parse_error (parse_bgp_update xs)
parse_bgp_update_total xs =
    returns_or bgp_parse_error (parse_bgp_update xs) (parse_bgp_update-raises xs)
