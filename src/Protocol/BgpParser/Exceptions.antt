-- ===== src/Protocol/BgpParser/Exceptions.antt =====
-- Which exceptions bgp_parser.py raises, and that its loops end.
use pybmpmon.Base.{
  ℕ, zero, suc, ◌+◌, ◌-◌, ◌<◌, ◌≤◌, ◌≡◌, List, length, ok, err, arith, bgp_parse_error, RaisesOnly,
  Error, Result, inl, inr, Result-cases,
}
use pybmpmon.Base.Slices.{slice}
use pybmpmon.Utils.Binary.{IpAddress, ipv4, ipv6, from_bytes, read_uint8, read_uint16, read_bytes}
use pybmpmon.Utils.Binary.Reads.{read_uint16-fits, read_bytes-fits, read_bytes_until-fits}
use pybmpmon.Protocol.Bgp.{BgpPathAttribute, Cidr}
use pybmpmon.Protocol.BgpParser.Structure.{
  parse_bgp_header, attribute_extent, parse_path_attribute, path_attributes_loop,
  parse_path_attributes, parse_bgp_update_structure,
}
use pybmpmon.Protocol.BgpParser.Prefixes.{
  parse_prefix, parse_ipv4_prefix, parse_ipv6_prefix, prefixes_loop, parse_prefixes,
}

parse_bgp_header-raises : (xs : List ℕ) → RaisesOnly bgp_parse_error (parse_bgp_header xs)
unfolding parse_bgp_header read_uint8 read_uint16 read_bytes
parse_bgp_header-raises xs x h = ground arith

module _ (xs : List ℕ) (stop : ℕ) (fits : stop ≤ length xs) where
  parse_path_attribute-raises :
      (off : ℕ) → RaisesOnly bgp_parse_error (parse_path_attribute xs off stop)
  unfolding parse_path_attribute attribute_extent read_uint8 read_uint16 read_bytes
  parse_path_attribute-raises off x h = ground arith

  parse_path_attribute_moves :
      (off next : ℕ) (a : BgpPathAttribute)
      → parse_path_attribute xs off stop ≡ ok (a, next)
      → off + 3 ≤ next
  unfolding parse_path_attribute attribute_extent
  parse_path_attribute_moves off next a h = ground arith

  path_attributes_loop-raises :
      (fuel off : ℕ) (x : Error)
      → stop - off < fuel
      → path_attributes_loop fuel xs off stop ≡ err x
      → x ≡ bgp_parse_error
  unfolding path_attributes_loop
  path_attributes_loop-raises zero off x h e = absurd (omega arith)
  path_attributes_loop-raises (suc fuel) off x h e =
      elim (Result-cases (parse_path_attribute xs off stop)) [
        | inl ((a, next), p) ↦ ground (
          arith,
          p,
          parse_path_attribute_moves off next a p,
          path_attributes_loop-raises fuel next x,
        )
        | inr (y, p) ↦ ground (arith, p, parse_path_attribute-raises off y p)
      ]

  parse_path_attributes-raises :
      (off : ℕ) → RaisesOnly bgp_parse_error (parse_path_attributes xs off stop)
  unfolding parse_path_attributes
  parse_path_attributes-raises off x =
      path_attributes_loop-raises (suc (stop - off)) off x (omega arith)

pub parse_bgp_update_structure-raises :
    (xs : List ℕ) → RaisesOnly bgp_parse_error (parse_bgp_update_structure xs)
unfolding parse_bgp_update_structure
parse_bgp_update_structure-raises xs x e =
    let withdrawn = from_bytes (slice xs 19 2) in
    let attributes = from_bytes (slice xs (21 + withdrawn) 2) in
    let stop = 21 + withdrawn + 2 + attributes in
    elim (Result-cases (parse_bgp_header xs)) [
      | inr (y, p) ↦ ground (arith, p, parse_bgp_header-raises xs y p)
      | inl (h, p) ↦ ground (
        arith,
        p,
        read_uint16-fits xs 19,
        read_bytes-fits xs 21 withdrawn,
        read_uint16-fits xs (21 + withdrawn),
        λ (c : stop ≤ length xs). parse_path_attributes-raises xs stop c (21 + withdrawn + 2) x,
        read_bytes_until-fits xs stop h.length,
      )
    ]

module _ (bits width : ℕ) (make : List ℕ → IpAddress) (xs : List ℕ) where
  pub parse_prefix-raises :
      (off : ℕ) → RaisesOnly bgp_parse_error (parse_prefix bits width make xs off)
  unfolding parse_prefix read_uint8 read_bytes
  parse_prefix-raises off x h = ground arith

  pub parse_prefix_moves :
      (off n : ℕ) (c : Cidr) → parse_prefix bits width make xs off ≡ ok (c, n) → 0 < n
  unfolding parse_prefix
  parse_prefix_moves off n c h = ground arith

-- The loop over either parser, which raises only that exception and consumes a byte.
module _ (parse : List ℕ → ℕ → Result (Cidr × ℕ)) (xs : List ℕ)
    (raises : (off : ℕ) → RaisesOnly bgp_parse_error (parse xs off))
    (moves : (off n : ℕ) (c : Cidr) → parse xs off ≡ ok (c, n) → 0 < n) where
  prefixes_loop-raises :
      (fuel off : ℕ) (x : Error)
      → length xs - off < fuel
      → prefixes_loop parse fuel xs off ≡ err x
      → x ≡ bgp_parse_error
  unfolding prefixes_loop
  prefixes_loop-raises zero off x h e = absurd (omega arith)
  prefixes_loop-raises (suc fuel) off x h e = elim (Result-cases (parse xs off)) [
    | inl ((c, n), p) ↦ ground (arith, p, moves off n c p, prefixes_loop-raises fuel (off + n) x)
    | inr (y, p) ↦ ground (arith, p, raises off y p)
  ]

  pub parse_prefixes-raises : (off : ℕ) → RaisesOnly bgp_parse_error (parse_prefixes parse xs off)
  unfolding parse_prefixes
  parse_prefixes-raises off x = prefixes_loop-raises (suc (length xs - off)) off x (omega arith)

pub parse_ipv4_prefixes-raises :
    (xs : List ℕ) (off : ℕ) → RaisesOnly bgp_parse_error (parse_prefixes parse_ipv4_prefix xs off)
unfolding parse_ipv4_prefix
parse_ipv4_prefixes-raises xs =
    parse_prefixes-raises parse_ipv4_prefix xs (parse_prefix-raises 32 4 ipv4 xs)
      (parse_prefix_moves 32 4 ipv4 xs)

pub parse_ipv6_prefixes-raises :
    (xs : List ℕ) (off : ℕ) → RaisesOnly bgp_parse_error (parse_prefixes parse_ipv6_prefix xs off)
unfolding parse_ipv6_prefix
parse_ipv6_prefixes-raises xs =
    parse_prefixes-raises parse_ipv6_prefix xs (parse_prefix-raises 128 16 ipv6 xs)
      (parse_prefix_moves 128 16 ipv6 xs)
