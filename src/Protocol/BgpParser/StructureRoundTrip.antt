-- ===== src/Protocol/BgpParser/StructureRoundTrip.antt =====
-- A whole UPDATE: the bytes of a well-formed one are taken apart into its parts.
use pybmpmon.Base.{ℕ, ◌+◌, ◌≡◌, refl, List, ◌++◌, length, length-append, le→ltb, true, ok, arith}
use mathlib.Core.Path.{subst}
use pybmpmon.Utils.Binary.{read_bytes}
use pybmpmon.Base.Slices.{At-cut, At-whole}
use pybmpmon.Utils.Binary.Wire.{u8, u16}
use pybmpmon.Utils.Binary.Reads.{read_uint8-At, read_uint16-At, read_bytes-At, read_bytes_until-At}
use pybmpmon.Protocol.Bgp.{BgpUpdateMessage, message_type_of, bgp_marker, message_type_code}
use pybmpmon.Protocol.BgpParser.Structure.{
  bytes_eq, parse_bgp_header, is_update, parse_bgp_update_structure,
}
use pybmpmon.Protocol.BgpParser.Wire.{update_length, encode_attributes, encode_update, IsUpdate}
use pybmpmon.Protocol.BgpParser.AttributesRoundTrip.{parse_path_attributes-encode}

marker_eq : bytes_eq bgp_marker bgp_marker ≡ true
unfolding bytes_eq
marker_eq = refl

-- The bytes of a well-formed UPDATE, whatever follows the message, are taken apart into its
-- parts.
pub parse_bgp_update_structure-encode :
    (m : BgpUpdateMessage) (rest : List ℕ)
    → IsUpdate m
    → parse_bgp_update_structure (encode_update m ++ rest) ≡ ok m
unfolding parse_bgp_update_structure parse_bgp_header message_type_of is_update message_type_code
parse_bgp_update_structure-encode m rest valid =
    let xs : List ℕ = encode_update m ++ rest in
    let w = m.withdrawn_routes_length in
    let t = m.total_path_attr_length in
    let attributes = encode_attributes m.path_attributes in
    let parts_size = length-append attributes m.nlri in
    let withdrawn_size = length-append m.withdrawn_routes (u16 t ++ (attributes ++ m.nlri)) in
    let whole = length-append (encode_update m) rest in
    let size : length (encode_update m) ≡ update_length m =
      omega (arith, valid.withdrawn, valid.attributes) in
    let (m_at, _) =
      At-cut xs 0 (update_length m) (encode_update m) rest (omega arith) (At-whole xs) in
    let (marker_at, r1) = At-cut xs 0 16 bgp_marker _ refl m_at in
    let (length_at, r2) = At-cut xs 16 18 (u16 (update_length m)) _ refl r1 in
    let (type_at, r3) = At-cut xs 18 19 (u8 2) _ refl r2 in
    let (w_length_at, r4) = At-cut xs 19 21 (u16 w) _ refl r3 in
    let (withdrawn_at, r5) =
      At-cut xs 21 (21 + w) m.withdrawn_routes _ (omega (arith, valid.withdrawn)) r4 in
    let (t_length_at, r6) = At-cut xs (21 + w) (21 + w + 2) (u16 t) _ refl r5 in
    let (attributes_at, nlri_at) =
      At-cut xs (21 + w + 2) (21 + w + 2 + t) attributes _ (omega (arith, valid.attributes)) r6 in
    let withdrawn_read : read_bytes xs 21 w ≡ ok m.withdrawn_routes =
      subst (λ n. read_bytes xs 21 n ≡ ok m.withdrawn_routes) valid.withdrawn
        (read_bytes-At xs 21 m.withdrawn_routes withdrawn_at) in
    rw (
      le→ltb (length xs) 19 (omega arith),
      read_bytes-At xs 0 bgp_marker marker_at,
      marker_eq,
      read_uint16-At xs 16 _ length_at,
      read_uint8-At xs 18 _ type_at,
      le→ltb (length xs) (update_length m) (omega arith),
      le→ltb (update_length m) 21 (omega arith),
      read_uint16-At xs 19 _ w_length_at,
      le→ltb (update_length m) (21 + w) (omega arith),
      withdrawn_read,
      le→ltb (update_length m) (21 + w + 2) (omega arith),
      read_uint16-At xs (21 + w) _ t_length_at,
      le→ltb (update_length m) (21 + w + 2 + t) (omega arith),
      parse_path_attributes-encode xs (21 + w + 2) (21 + w + 2 + t) m.path_attributes
          valid.each_attribute (omega (arith, valid.attributes)) attributes_at,
      read_bytes_until-At xs (21 + w + 2 + t) m.nlri (update_length m) (omega arith) nlri_at,
    )
