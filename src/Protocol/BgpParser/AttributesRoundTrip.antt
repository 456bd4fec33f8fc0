-- ===== src/Protocol/BgpParser/AttributesRoundTrip.antt =====
-- The path attributes that `parse_path_attributes` returns are those that stand in the bytes.
use pybmpmon.Base.{
  ℕ, zero, suc, ◌+◌, ◌-◌, ◌<◌, ◌≤◌, ◌≡◌, refl, sym, ◌↔◌, List, [], ◌∷◌, length, length-append, All,
  Bool, true, false, le→ltb, lt→ltb, ok, inl, inr, arith, Result-cases,
}
use pybmpmon.Base.Slices.{At, At-cut, At-join, At-nil}
use pybmpmon.Utils.Binary.{IsByte, read_uint8, read_uint16, read_bytes}
use pybmpmon.Utils.Binary.Reads.{
  read_uint8-At, read_uint16-At, read_bytes-At, read_uint8-eq-ok, read_uint16-eq-ok,
  read_bytes-eq-ok,
}
use pybmpmon.Utils.Binary.Wire.{u8}
use pybmpmon.Protocol.Bgp.{BgpPathAttribute, has_extended_length}
use pybmpmon.Protocol.BgpParser.Structure.{
  attribute_extent, parse_path_attribute, path_attributes_loop, parse_path_attributes,
}
use pybmpmon.Protocol.BgpParser.Wire.{
  length_field, length_limit, encode_attribute, encode_attributes, IsAttribute,
}

-- The bytes of an attribute in front of its value.
abbrev head_size : Bool → ℕ
head_size true = 4
head_size false = 3

length-length_field :
    (extended : Bool) (n : ℕ) → length (length_field extended n) + 2 ≡ head_size extended
length-length_field true n = omega arith
length-length_field false n = omega arith

three-le-head_size : (extended : Bool) → 3 ≤ head_size extended
three-le-head_size true = omega arith
three-le-head_size false = omega arith

module _ (xs : List ℕ) (stop : ℕ) where
  attribute_extent-encode :
      (off n : ℕ) (extended : Bool)
      → off + head_size extended ≤ stop
      → At xs (off + 2) (length_field extended n)
      → attribute_extent xs off stop extended ≡ ok (n, off + head_size extended)
  unfolding attribute_extent
  attribute_extent-encode off n true room at =
      rw (le→ltb stop (off + 4) room, read_uint16-At xs (off + 2) n at)
  attribute_extent-encode off n false room at = rw (read_uint8-At xs (off + 2) n at)

  parse_path_attribute-encode :
      (off : ℕ) (a : BgpPathAttribute)
      → IsAttribute a
      → off + length (encode_attribute a) ≤ stop
      → At xs off (encode_attribute a)
      → parse_path_attribute xs off stop ≡ ok (a, off + length (encode_attribute a))
  unfolding parse_path_attribute
  parse_path_attribute-encode off a (_, _, _, same) room at =
      let extended = has_extended_length a.flags in
      let field : List ℕ = length_field extended a.length in
      let field_size = length-length_field extended a.length in
      let value_offset = off + head_size extended in
      let size : off + length (encode_attribute a) ≡ value_offset + a.length =
        omega (arith, length-append field a.value) in
      let three = three-le-head_size extended in
      let (flags_at, r1) = At-cut xs off (off + 1) (u8 a.flags) _ (omega arith) at in
      let (type_at, r2) = At-cut xs (off + 1) (off + 2) (u8 a.type_code) _ (omega arith) r1 in
      let (field_at, value_at) = At-cut xs (off + 2) value_offset field _ (omega arith) r2 in
      let value_read : read_bytes xs value_offset a.length ≡ ok a.value =
        rw same at (read_bytes-At xs value_offset a.value value_at) in
      rw (
        le→ltb stop (off + 3) (omega arith),
        read_uint8-At xs off _ flags_at,
        read_uint8-At xs (off + 1) _ type_at,
        attribute_extent-encode off a.length extended (omega arith) field_at,
        le→ltb stop (value_offset + a.length) (omega arith),
        value_read,
        size,
      )

  path_attributes_loop-encode :
      (fuel off : ℕ) (as_ : List BgpPathAttribute)
      → All IsAttribute as_
      → stop - off < fuel
      → off + length (encode_attributes as_) ≡ stop
      → At xs off (encode_attributes as_)
      → path_attributes_loop fuel xs off stop ≡ ok as_
  unfolding path_attributes_loop
  path_attributes_loop-encode zero off as_ valid h e at = absurd (omega arith)
  path_attributes_loop-encode (suc fuel) off [] valid h e at = ground arith
  path_attributes_loop-encode (suc fuel) off (a ∷ as_) (valid_a, valid) h e at =
      let whole = length-append (encode_attribute a) (encode_attributes as_) in
      let next = off + length (encode_attribute a) in
      let (a_at, rest_at) = At-cut xs off next (encode_attribute a) _ refl at in
      rw (
        lt→ltb off stop (omega (arith, whole)),
        parse_path_attribute-encode off a valid_a (omega (arith, whole)) a_at,
        path_attributes_loop-encode fuel next as_ valid (omega (arith, whole))
            (omega (arith, whole)) rest_at,
      )

  -- What the length field holds, where its read succeeds.
  attribute_extent-eq-ok :
      (off n value_offset : ℕ) (extended : Bool)
      → All IsByte xs
      → attribute_extent xs off stop extended ≡ ok (n, value_offset)
      → At xs (off + 2) (length_field extended n)
        × (n < length_limit extended)
        × (value_offset ≡ off + head_size extended)
  unfolding attribute_extent
  attribute_extent-eq-ok off n value_offset true bytes h =
      let read : read_uint16 xs (off + 2) ≡ ok n = ground arith in
      let (at, small) = read_uint16-eq-ok xs bytes (off + 2) n read in (at, small, ground arith)
  attribute_extent-eq-ok off n value_offset false bytes h =
      let read : read_uint8 xs (off + 2) ≡ ok n = ground arith in
      let (at, small) = read_uint8-eq-ok xs bytes (off + 2) n read in (at, small, ground arith)

  attribute_steps :
      (off next : ℕ) (a : BgpPathAttribute)
      → parse_path_attribute xs off stop ≡ ok (a, next)
      → (value_offset : ℕ) × (read_uint8 xs off ≡ ok a.flags)
        × (read_uint8 xs (off + 1) ≡ ok a.type_code)
        × (attribute_extent xs off stop (has_extended_length a.flags) ≡ ok (a.length, value_offset))
        × (read_bytes xs value_offset a.length ≡ ok a.value)
        × (next ≡ value_offset + a.length)
        × (next ≤ stop)
  unfolding parse_path_attribute
  attribute_steps off next a h = (
    next - a.length,
    ground arith,
    ground arith,
    ground arith,
    ground arith,
    ground arith,
    ground arith,
  )

  parse_path_attribute-eq-ok :
      (off next : ℕ) (a : BgpPathAttribute)
      → All IsByte xs
      → parse_path_attribute xs off stop ≡ ok (a, next)
      → IsAttribute a
        × At xs off (encode_attribute a)
        × (next ≡ off + length (encode_attribute a))
        × (next ≤ stop)
  parse_path_attribute-eq-ok off next a bytes h =
      let extended = has_extended_length a.flags in
      let field : List ℕ = length_field extended a.length in
      let field_size = length-length_field extended a.length in
      let (value_offset, flags_read, type_read, extent_read, value_read, moved, room) =
        attribute_steps off next a h in
      let (flags_at, small_flags) = read_uint8-eq-ok xs bytes off a.flags flags_read in
      let (type_at, small_type) = read_uint8-eq-ok xs bytes (off + 1) a.type_code type_read in
      let (field_at, small_length, value_offset_eq) =
        attribute_extent-eq-ok off a.length value_offset extended bytes extent_read in
      let (value_at, same, _) = read_bytes-eq-ok xs value_offset a.length a.value value_read in
      (
        (small_flags, small_type, small_length, same),
        At-join xs off (off + 1) (u8 a.flags) _ (omega arith) flags_at (
            At-join xs (off + 1) (off + 2) (u8 a.type_code) _ (omega arith) type_at
              (At-join xs (off + 2) value_offset field _ (omega arith) field_at value_at)),
        omega (arith, length-append field a.value),
        room,
      )

  path_attributes_loop-eq-ok :
      (fuel off : ℕ) (as_ : List BgpPathAttribute)
      → All IsByte xs
      → stop ≤ length xs
      → off ≤ stop
      → path_attributes_loop fuel xs off stop ≡ ok as_
      → All IsAttribute as_
        × At xs off (encode_attributes as_)
        × (off + length (encode_attributes as_) ≡ stop)
  unfolding path_attributes_loop
  path_attributes_loop-eq-ok zero off as_ bytes fits h e = cc
  path_attributes_loop-eq-ok (suc fuel) off [] bytes fits h e =
      let done : off ≡ stop = ground arith in (tt, At-nil xs off (omega arith), omega arith)
  path_attributes_loop-eq-ok (suc fuel) off (a ∷ as_) bytes fits h e =
      elim (Result-cases (parse_path_attribute xs off stop)) [
        | inr (y, p) ↦ absurd (ground (arith, p))
        | inl ((b, next), p) ↦
            let first : b ≡ a = ground (arith, p) in
            let parsed : parse_path_attribute xs off stop ≡ ok (a, next) = cc p in
            let rest : path_attributes_loop fuel xs next stop ≡ ok as_ = ground (arith, p) in
            let (valid_a, a_at, moved, room) = parse_path_attribute-eq-ok off next a bytes parsed in
            let (valid, rest_at, ends) =
              path_attributes_loop-eq-ok fuel next as_ bytes fits room rest in
            (
              (valid_a, valid),
              At-join xs off next (encode_attribute a) _ (sym moved) a_at rest_at,
              omega (arith, length-append (encode_attribute a) (encode_attributes as_)),
            )
      ]

pub parse_path_attributes-encode :
    (xs : List ℕ) (off stop : ℕ) (as_ : List BgpPathAttribute)
    → All IsAttribute as_
    → off + length (encode_attributes as_) ≡ stop
    → At xs off (encode_attributes as_)
    → parse_path_attributes xs off stop ≡ ok as_
unfolding parse_path_attributes
parse_path_attributes-encode xs off stop as_ valid =
    path_attributes_loop-encode xs stop (suc (stop - off)) off as_ valid (omega arith)

-- On bytes, between `off` and `stop` inside the input, `parse_path_attributes` returns a list
-- exactly if the formats of its attributes, with one or two bytes of length as the flag says,
-- fill that range one after the other.
pub parse_path_attributes_iff :
    (xs : List ℕ) (off stop : ℕ) (as_ : List BgpPathAttribute)
    → All IsByte xs
    → off ≤ stop
    → stop ≤ length xs
    → (parse_path_attributes xs off stop ≡ ok as_) ↔ (
        All IsAttribute as_
        × At xs off (encode_attributes as_)
        × (off + length (encode_attributes as_) ≡ stop))
unfolding parse_path_attributes
parse_path_attributes_iff xs off stop as_ bytes h fits = (
  path_attributes_loop-eq-ok xs stop (suc (stop - off)) off as_ bytes fits h,
  λ p. parse_path_attributes-encode xs off stop as_ p.0 p.2 p.1,
)
