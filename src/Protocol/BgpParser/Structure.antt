-- ===== src/Protocol/BgpParser/Structure.antt =====
-- bgp_parser.py: the BGP header, the loop over path attributes, and the parts of an UPDATE.
use pybmpmon.Base.{
  ℕ, zero, suc, ◌+◌, ◌-◌, Bool, true, false, ◌&&◌, not, List, [], ◌∷◌, length, ltb, ◌==◌,
  if◌then◌else◌, bgp_parse_error, out_of_fuel, Result, ok, err, ◌>>=◌, ◌>>◌, require, of_option,
}
use pybmpmon.Utils.Binary.{read_uint8, read_uint16, read_bytes, read_bytes_until}
use pybmpmon.Protocol.Bgp.{
  BgpHeader, BgpPathAttribute, BgpUpdateMessage, update, message_type_of, message_type_code,
  bgp_header_size, bgp_marker, has_extended_length,
}

-- `==` on byte strings.
unfoldable pub bytes_eq : List ℕ → List ℕ → Bool
bytes_eq [] [] = true
bytes_eq [] (b ∷ bs) = false
bytes_eq (a ∷ as_) [] = false
bytes_eq (a ∷ as_) (b ∷ bs) = (a == b) && bytes_eq as_ bs

unfoldable pub parse_bgp_header : List ℕ → Result BgpHeader
parse_bgp_header data_bytes =
    if ltb (length data_bytes) bgp_header_size then err bgp_parse_error else do
      marker ← read_bytes data_bytes 0 16
      require (bytes_eq marker bgp_marker) bgp_parse_error
      message_length ← read_uint16 data_bytes 16
      msg_type_raw ← read_uint8 data_bytes 18
      msg_type ← of_option bgp_parse_error (message_type_of msg_type_raw)
      ok (record { marker = marker; length = message_length; msg_type = msg_type })

-- The length of an attribute's value, and the offset of the value, by the extended-length flag.
unfoldable pub attribute_extent : List ℕ → ℕ → ℕ → Bool → Result (ℕ × ℕ)
attribute_extent data_bytes offset stop extended =
    if extended
    then (if ltb stop (offset + 4)
        then err bgp_parse_error
        else do count ← read_uint16 data_bytes (offset + 2); ok (count, offset + 4))
    else (do count ← read_uint8 data_bytes (offset + 2); ok (count, offset + 3))

-- One round of the loop of `parse_path_attributes`: the attribute, and the next offset.
unfoldable pub parse_path_attribute : List ℕ → ℕ → ℕ → Result (BgpPathAttribute × ℕ)
parse_path_attribute data_bytes offset stop =
    if ltb stop (offset + 3) then err bgp_parse_error else do
      flags ← read_uint8 data_bytes offset
      type_code ← read_uint8 data_bytes (offset + 1)
      (count, value_offset) ← attribute_extent data_bytes offset stop (has_extended_length flags)
      if ltb stop (value_offset + count) then err bgp_parse_error else do
        value ← read_bytes data_bytes value_offset count
        ok (
          record { flags = flags; type_code = type_code; length = count; value = value },
          value_offset + count,
        )

-- `while offset < end`
unfoldable pub path_attributes_loop : ℕ → List ℕ → ℕ → ℕ → Result (List BgpPathAttribute)
path_attributes_loop zero data_bytes offset stop = err out_of_fuel
path_attributes_loop (suc fuel) data_bytes offset stop =
    let rounds : Result (List BgpPathAttribute) = (do
      (attribute, next) ← parse_path_attribute data_bytes offset stop
      attributes ← path_attributes_loop fuel data_bytes next stop
      ok (attribute ∷ attributes)) in
    if ltb offset stop then rounds else ok []

-- Each round moves on by 3 bytes at least.
unfoldable pub parse_path_attributes : List ℕ → ℕ → ℕ → Result (List BgpPathAttribute)
parse_path_attributes data_bytes start stop =
    path_attributes_loop (suc (stop - start)) data_bytes start stop

unfoldable pub is_update : BgpHeader → Bool
unfolding message_type_code
is_update header = message_type_code header.msg_type == message_type_code update

-- The offsets follow the code: 19 for the withdrawn routes' length, 21 for the withdrawn routes,
-- then the path attributes' length, the path attributes, and the NLRI up to `header.length`.
unfoldable pub parse_bgp_update_structure : List ℕ → Result BgpUpdateMessage
parse_bgp_update_structure data_bytes = do
  header ← parse_bgp_header data_bytes
  require (is_update header) bgp_parse_error
  require (not (ltb (length data_bytes) header.length)) bgp_parse_error
  require (not (ltb header.length 21)) bgp_parse_error
  withdrawn_routes_length ← read_uint16 data_bytes bgp_header_size
  require (not (ltb header.length (21 + withdrawn_routes_length))) bgp_parse_error
  withdrawn_routes ← read_bytes data_bytes 21 withdrawn_routes_length
  require (not (ltb header.length (21 + withdrawn_routes_length + 2))) bgp_parse_error
  total_path_attr_length ← read_uint16 data_bytes (21 + withdrawn_routes_length)
  let path_attrs_end = 21 + withdrawn_routes_length + 2 + total_path_attr_length
  require (not (ltb header.length path_attrs_end)) bgp_parse_error
  path_attributes ←
      parse_path_attributes data_bytes (21 + withdrawn_routes_length + 2) path_attrs_end
  nlri ← read_bytes_until data_bytes path_attrs_end header.length
  ok (record {
    withdrawn_routes_length = withdrawn_routes_length;
    withdrawn_routes = withdrawn_routes;
    total_path_attr_length = total_path_attr_length;
    path_attributes = path_attributes;
    nlri = nlri;
  })
