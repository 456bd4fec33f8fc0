-- ===== src/Protocol/BmpParser/HeaderRoundTrip.antt =====
-- The two headers of a BMP message: what is written is read back, and what is read was written.
use pybmpmon.Base.{ℕ, ◌<◌, ◌≡◌, ◌↔◌, List, All, some, ok, arith}
use pybmpmon.Base.Slices.{At, At-cut, At-join, slice}
use pybmpmon.Utils.Binary.{IsByte, read_uint8, read_uint32, from_bytes}
use pybmpmon.Utils.Binary.Reads.{
  read_uint8-At, read_uint32-At, read_uint8-eq-ok, read_uint32-eq-ok, read_uint8-fits,
}
use pybmpmon.Utils.Binary.Wire.{u8, u32}
use pybmpmon.Protocol.Bmp.{BmpHeader, BmpMessageType, message_type_code, message_type_of}
use pybmpmon.Protocol.BmpParser.Header.{parse_bmp_header}
use pybmpmon.Protocol.BmpParser.Wire.{encode_header, IsHeader}

message_type_of-code : (t : BmpMessageType) → message_type_of (message_type_code t) ≡ some t
unfolding message_type_of message_type_code
message_type_of-code t = ground arith

pub parse_bmp_header-encode :
    (xs : List ℕ) (h : BmpHeader)
    → IsHeader h
    → At xs 0 (encode_header h)
    → parse_bmp_header xs ≡ ok h
unfolding parse_bmp_header
parse_bmp_header-encode xs h valid at =
    let (version_at, rest) = At-cut xs 0 1 (u8 h.version) _ (omega arith) at in
    let (length_at, type_at) = At-cut xs 1 5 (u32 h.length) _ (omega arith) rest in
    ground (
      arith,
      valid.version,
      valid.long_enough,
      type_at.fits,
      read_uint8-At xs 0 h.version version_at,
      read_uint32-At xs 1 h.length length_at,
      read_uint8-At xs 5 (message_type_code h.msg_type) type_at,
      message_type_of-code h.msg_type,
    )

message_type_code-of :
    (n : ℕ) (t : BmpMessageType) → message_type_of n ≡ some t → message_type_code t ≡ n
unfolding message_type_of message_type_code
message_type_code-of n t h = ground arith

-- The steps that a successful parse took.
header_steps :
    (xs : List ℕ) (h : BmpHeader)
    → parse_bmp_header xs ≡ ok h
    → (read_uint8 xs 0 ≡ ok h.version)
      × (read_uint32 xs 1 ≡ ok h.length)
      × (read_uint8 xs 5 ≡ ok (message_type_code h.msg_type))
      × (h.version ≡ 3)
      × (5 < h.length)
unfolding parse_bmp_header
header_steps xs h e = (ground arith, ground arith, code, ground arith, ground arith)
  where
    code : read_uint8 xs 5 ≡ ok (message_type_code h.msg_type)
    code =
        ground
          (arith, read_uint8-fits xs 5, message_type_code-of (from_bytes (slice xs 5 1)) h.msg_type)

-- Where the parser returns a header, the input begins with its six bytes.
pub parse_bmp_header-eq-ok :
    (xs : List ℕ) (h : BmpHeader)
    → All IsByte xs
    → parse_bmp_header xs ≡ ok h
    → IsHeader h × At xs 0 (encode_header h)
parse_bmp_header-eq-ok xs h bytes e =
    let (version_read, length_read, type_read, version, long_enough) = header_steps xs h e in
    let (version_at, _) = read_uint8-eq-ok xs bytes 0 h.version version_read in
    let (length_at, word) = read_uint32-eq-ok xs bytes 1 h.length length_read in
    let (type_at, _) = read_uint8-eq-ok xs bytes 5 (message_type_code h.msg_type) type_read in
    (
      record { version = version; long_enough = long_enough; word = word },
      At-join xs 0 1 (u8 h.version) _ (omega arith) version_at
          (At-join xs 1 5 (u32 h.length) _ (omega arith) length_at type_at),
    )

-- On bytes, `parse_bmp_header` returns a header exactly if it is valid (version 3, a length of 6
-- at least, in 32 bits) and its format stands at the front.
pub parse_bmp_header_iff :
    (xs : List ℕ) (h : BmpHeader)
    → All IsByte xs
    → (parse_bmp_header xs ≡ ok h) ↔ (IsHeader h × At xs 0 (encode_header h))
parse_bmp_header_iff xs h bytes =
    (parse_bmp_header-eq-ok xs h bytes, λ p. parse_bmp_header-encode xs h p.0 p.1)
