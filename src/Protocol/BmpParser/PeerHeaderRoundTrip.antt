-- ===== src/Protocol/BmpParser/PeerHeaderRoundTrip.antt =====
-- The per-peer header of a BMP message: what is written is read back.
use pybmpmon.Base.{
  ℕ, ◌+◌, ◌≤◌, ◌≡◌, refl, sym, ap, ◌∙◌, List, ◌++◌, length, le→ltb, Bool, length-append, false,
  some, ok, arith, replicate,
}
use pybmpmon.Base.Slices.{At, At-cut, slice, slice_whole}
use pybmpmon.Utils.Binary.{
  IpAddress, ipv4, ipv6, read_bytes, read_ip_address, read_ipv4_address, any_nonzero,
}
use pybmpmon.Utils.Binary.Reads.{read_uint8-At, read_uint32-At, read_bytes-At}
use pybmpmon.Utils.Binary.Wire.{u8, u32}
use pybmpmon.Protocol.Bmp.{BmpPerPeerHeader, BmpPeerType, peer_type_code, peer_type_of}
use pybmpmon.Protocol.BmpParser.Header.{parse_per_peer_header}
use pybmpmon.Protocol.BmpParser.Wire.{
  encode_address, raw_address, IsAddress, encode_per_peer_header, IsPerPeerHeader,
}

peer_type_of-code : (t : BmpPeerType) → peer_type_of (peer_type_code t) ≡ some t
unfolding peer_type_of peer_type_code
peer_type_of-code t = ground arith

pub read_ipv4_address-At :
    (xs : List ℕ) (off : ℕ) (bs : List ℕ)
    → length bs ≡ 4
    → At xs off bs
    → read_ipv4_address xs off ≡ ok (ipv4 bs)
unfolding read_ipv4_address
read_ipv4_address-At xs off bs four at = ground (arith, four, at.fits, at.holds)

no_mark : (bs : List ℕ) → any_nonzero (slice (replicate 12 0 ++ bs) 0 12) ≡ false
unfolding any_nonzero slice
no_mark bs = refl

last_four : (bs : List ℕ) → length bs ≡ 4 → slice (replicate 12 0 ++ bs) 12 4 ≡ bs
unfolding slice
last_four bs four = ap (slice bs 0) (sym four) ∙ slice_whole bs

pub read_ip_address-At :
    (xs : List ℕ) (off : ℕ) (flag : Bool) (a : IpAddress)
    → IsAddress flag a
    → At xs off (encode_address a)
    → read_ip_address xs off flag ≡ ok a
unfolding read_ip_address
read_ip_address-At xs off flag (ipv4 bs) (four, unset) at =
    let field : slice xs off 16 ≡ replicate 12 0 ++ bs =
      ap (slice xs off) (omega arith) ∙ at.holds in
    let room : off + 16 ≤ length xs = omega (arith, at.fits) in
    rw (le→ltb _ _ room, field, no_mark bs, last_four bs four, unset) refl
read_ip_address-At xs off flag (ipv6 bs) (sixteen, marked) at =
    let field : slice xs off 16 ≡ bs = ap (slice xs off) (sym sixteen) ∙ at.holds in
    ground (arith, at.fits, field)

pub length-address :
    (flag : Bool) (a : IpAddress) → IsAddress flag a → length (encode_address a) ≡ 16
length-address flag (ipv4 bs) h = omega arith
length-address flag (ipv6 bs) h = omega arith

-- `parse_per_peer_header` reads back every well-formed per-peer header that stands at the
-- offset, with an IPv6 or IPv4 peer address as the V flag or the first twelve bytes of the field
-- say.
pub parse_per_peer_header-encode :
    (xs : List ℕ) (off : ℕ) (p : BmpPerPeerHeader)
    → IsPerPeerHeader p
    → At xs off (encode_per_peer_header p)
    → parse_per_peer_header xs off ≡ ok p
unfolding parse_per_peer_header
parse_per_peer_header-encode xs off p valid at =
    let (type_at, r1) =
      At-cut xs off (off + 1) (u8 (peer_type_code p.peer_type)) _ (omega arith) at in
    let (flags_at, r2) = At-cut xs (off + 1) (off + 2) (u8 p.peer_flags) _ (omega arith) r1 in
    let (distinguisher_at, r3) =
      At-cut xs (off + 2) (off + 10) p.peer_distinguisher _ (omega (arith, valid.distinguisher))
        r2 in
    let (address_at, r4) =
      At-cut xs (off + 10) (off + 26) (encode_address p.peer_address) _
        (omega (arith, length-address _ p.peer_address valid.address)) r3 in
    let (asn_at, r5) = At-cut xs (off + 26) (off + 30) (u32 p.peer_asn) _ (omega arith) r4 in
    let (id, id_eq, id_four) = valid.bgp_id in
    let (id_at, r6) =
      At-cut xs (off + 30) (off + 34) (raw_address p.peer_bgp_id) _ (rw id_eq (omega arith)) r5 in
    let (sec_at, usec_at) =
      At-cut xs (off + 34) (off + 38) (u32 p.timestamp_sec) _ (omega arith) r6 in
    let distinguisher_read : read_bytes xs (off + 2) 8 ≡ ok p.peer_distinguisher =
      rw valid.distinguisher at
        (read_bytes-At xs (off + 2) p.peer_distinguisher distinguisher_at) in
    let id_read : read_ipv4_address xs (off + 30) ≡ ok p.peer_bgp_id =
      rw id_eq (read_ipv4_address-At xs (off + 30) id id_four (rw id_eq at id_at)) in
    rw (
      le→ltb (length xs) (off + 42) (omega (arith, usec_at.fits)),
      read_uint8-At xs off _ type_at,
      read_uint8-At xs (off + 1) _ flags_at,
      peer_type_of-code,
      distinguisher_read,
      read_ip_address-At xs (off + 10) _ p.peer_address valid.address address_at,
      read_uint32-At xs (off + 26) _ asn_at,
      id_read,
      read_uint32-At xs (off + 34) _ sec_at,
      read_uint32-At xs (off + 38) _ usec_at,
    )

length-raw_address :
    (a : IpAddress) (bs : List ℕ) → a ≡ ipv4 bs → length (raw_address a) ≡ length bs
length-raw_address a bs e = ap (λ x. length (raw_address x)) e

pub length-encode_per_peer_header :
    (p : BmpPerPeerHeader) → IsPerPeerHeader p → length (encode_per_peer_header p) ≡ 42
length-encode_per_peer_header p valid =
    let (id, id_eq, id_four) = valid.bgp_id in
    let times : List ℕ = u32 p.timestamp_sec ++ u32 p.timestamp_usec in
    let peer : List ℕ = u32 p.peer_asn ++ (raw_address p.peer_bgp_id ++ times) in
    omega (
      arith,
      length-append (raw_address p.peer_bgp_id) times,
      length-raw_address p.peer_bgp_id id id_eq,
      length-address _ p.peer_address valid.address,
      length-append (encode_address p.peer_address) peer,
      length-append p.peer_distinguisher (encode_address p.peer_address ++ peer),
      valid.distinguisher,
    )
