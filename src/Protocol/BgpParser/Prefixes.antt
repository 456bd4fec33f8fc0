-- ===== src/Protocol/BgpParser/Prefixes.antt =====
-- bgp_parser.py: IPv4 and IPv6 prefixes, and the loops over them.
use pybmpmon.Base.{
  ℕ, zero, suc, ◌+◌, ◌-◌, ◌/◌, List, [], ◌∷◌, ◌++◌, length, replicate, ltb, leb, if◌then◌else◌,
  bgp_parse_error, out_of_fuel, Result, ok, err, ◌>>=◌,
}
use pybmpmon.Utils.Binary.{IpAddress, ipv4, ipv6, read_uint8, read_bytes}
use pybmpmon.Protocol.Bgp.{Cidr}

-- The common text of `parse_ipv4_prefix` and `parse_ipv6_prefix`, which differ in the bits and the
-- bytes of an address, and in its class. The result has the bytes consumed.
unfoldable pub parse_prefix : ℕ → ℕ → (List ℕ → IpAddress) → List ℕ → ℕ → Result (Cidr × ℕ)
parse_prefix bits width make data_bytes offset =
    if leb (length data_bytes) offset then err bgp_parse_error else do
      prefix_len ← read_uint8 data_bytes offset
      if ltb bits prefix_len then err bgp_parse_error else do
        let prefix_bytes = (prefix_len + 7) / 8
        if ltb (length data_bytes) (offset + 1 + prefix_bytes) then err bgp_parse_error else do
          prefix_data ← read_bytes data_bytes (offset + 1) prefix_bytes
          let padded = prefix_data ++ replicate (width - prefix_bytes) 0
          ok (record { address = make padded; prefix_len = prefix_len }, 1 + prefix_bytes)

unfoldable pub parse_ipv4_prefix : List ℕ → ℕ → Result (Cidr × ℕ)
unfolding parse_prefix
parse_ipv4_prefix data_bytes offset = parse_prefix 32 4 ipv4 data_bytes offset

unfoldable pub parse_ipv6_prefix : List ℕ → ℕ → Result (Cidr × ℕ)
unfolding parse_prefix
parse_ipv6_prefix data_bytes offset = parse_prefix 128 16 ipv6 data_bytes offset

-- `while offset < len(value)`, as it stands in `parse_mp_reach_nlri`, `parse_mp_unreach_nlri` and
-- `parse_bgp_update`, over either of the two parsers.
unfoldable pub prefixes_loop :
    (List ℕ → ℕ → Result (Cidr × ℕ)) → ℕ → List ℕ → ℕ → Result (List Cidr)
prefixes_loop parse zero value offset = err out_of_fuel
prefixes_loop parse (suc fuel) value offset =
    let rounds : Result (List Cidr) = (do
      (prefix, consumed) ← parse value offset
      prefixes ← prefixes_loop parse fuel value (offset + consumed)
      ok (prefix ∷ prefixes)) in
    if ltb offset (length value) then rounds else ok []

-- Each round consumes a byte at least.
unfoldable pub parse_prefixes : (List ℕ → ℕ → Result (Cidr × ℕ)) → List ℕ → ℕ → Result (List Cidr)
unfolding prefixes_loop
parse_prefixes parse value offset = prefixes_loop parse (suc (length value - offset)) value offset
