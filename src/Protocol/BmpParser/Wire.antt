-- ===== src/Protocol/BmpParser/Wire.antt =====
-- RFC 7854, as an independent description: the bytes of each structure that bmp_parser.py reads.
use pybmpmon.Base.{
  ℕ, ◌+◌, ◌<◌, ◌^◌, ◌≡◌, List, [], ◌∷◌, ◌++◌, length, All, replicate, Bool, true, ◌||◌, false,
}
use pybmpmon.Base.Slices.{slice}
use pybmpmon.Utils.Binary.{IpAddress, ipv4, ipv6, any_nonzero, from_bytes, IsByte}
use pybmpmon.Utils.Binary.Wire.{u8, u16, u32}
use pybmpmon.Protocol.Bmp.{
  BmpHeader, BmpPerPeerHeader, BmpInfoTlv, BmpStatTlv, message_type_code, peer_type_code,
  has_ipv6_flag,
}

abbrev pub encode_header : BmpHeader → List ℕ
encode_header h = u8 h.version ++ u32 h.length ++ u8 (message_type_code h.msg_type)

-- A header that the parser may return.
pub record IsHeader (h : BmpHeader) : Type 0 where
  pub version : h.version ≡ 3
  pub long_enough : 5 < h.length
  pub word : h.length < 2 ^ 32

-- An address field has 16 bytes; an IPv4 address stands in the last four, behind zeros.
abbrev pub encode_address : IpAddress → List ℕ
encode_address (ipv4 bs) = replicate 12 0 ++ bs
encode_address (ipv6 bs) = bs

-- With the flag set the field is an IPv6 address. Without it an IPv6 address is one whose first
-- twelve bytes are not all zero.
abbrev pub IsAddress : Bool → IpAddress → Type 0
IsAddress flag (ipv4 bs) = (length bs ≡ 4) × (flag ≡ false)
IsAddress flag (ipv6 bs) = (length bs ≡ 16) × ((flag || any_nonzero (slice bs 0 12)) ≡ true)

abbrev pub raw_address : IpAddress → List ℕ
raw_address (ipv4 bs) = bs
raw_address (ipv6 bs) = bs

abbrev pub encode_per_peer_header : BmpPerPeerHeader → List ℕ
encode_per_peer_header p =
    u8 (peer_type_code p.peer_type)
    ++ (u8 p.peer_flags
        ++ (p.peer_distinguisher
            ++ (encode_address p.peer_address
                ++ (u32 p.peer_asn
                    ++ (raw_address p.peer_bgp_id
                        ++ (u32 p.timestamp_sec ++ u32 p.timestamp_usec))))))

pub record IsPerPeerHeader (p : BmpPerPeerHeader) : Type 0 where
  pub distinguisher : length p.peer_distinguisher ≡ 8
  pub address : IsAddress (has_ipv6_flag p.peer_flags) p.peer_address
  pub bgp_id : (bs : List ℕ) × (p.peer_bgp_id ≡ ipv4 bs) × (length bs ≡ 4)

abbrev pub encode_information_tlv : BmpInfoTlv → List ℕ
encode_information_tlv t = u16 t.info_type ++ (u16 t.info_length ++ t.info_value)

abbrev pub encode_information_tlvs : List BmpInfoTlv → List ℕ
encode_information_tlvs [] = []
encode_information_tlvs (t ∷ ts) = encode_information_tlv t ++ encode_information_tlvs ts

abbrev pub IsInformationTlv : BmpInfoTlv → Type 0
IsInformationTlv t =
    (t.info_type < 2 ^ 16) × (t.info_length < 2 ^ 16) × (length t.info_value ≡ t.info_length)

-- A BGP message: 16 bytes of marker, the length of the whole, and the rest, which begins with the
-- type byte.
pub record BgpFrame : Type 0 where
  pub marker : List ℕ
  pub body : List ℕ

abbrev pub frame_length : BgpFrame → ℕ
frame_length f = 18 + length f.body

abbrev pub encode_frame : BgpFrame → List ℕ
encode_frame f = f.marker ++ (u16 (frame_length f) ++ f.body)

pub record IsFrame (f : BgpFrame) : Type 0 where
  pub marker : length f.marker ≡ 16
  pub typed : 0 < length f.body

-- The fields of a Peer Up message between the per-peer header and the OPENs.
abbrev pub encode_session : IpAddress → ℕ → ℕ → List ℕ
encode_session a local_port remote_port = encode_address a ++ (u16 local_port ++ u16 remote_port)

-- A Peer Up message, with the two OPENs and optional TLVs.
abbrev pub encode_peer_up :
    BmpHeader → BmpPerPeerHeader → List ℕ → BgpFrame → BgpFrame → List BmpInfoTlv → List ℕ
encode_peer_up h p session sent received ts =
    encode_header h
    ++ (encode_per_peer_header p
        ++ (session
            ++ (encode_frame sent ++ (encode_frame received ++ encode_information_tlvs ts))))

-- A statistic: its type, and the bytes of its value, in network order.
pub record Statistic : Type 0 where
  pub stat_type : ℕ
  pub stat_bytes : List ℕ

abbrev pub encode_statistic : Statistic → List ℕ
encode_statistic s = u16 s.stat_type ++ (u16 (length s.stat_bytes) ++ s.stat_bytes)

abbrev pub encode_statistics : List Statistic → List ℕ
encode_statistics [] = []
encode_statistics (s ∷ ss) = encode_statistic s ++ encode_statistics ss

abbrev pub IsStatistic : Statistic → Type 0
IsStatistic s = All IsByte s.stat_bytes

abbrev pub to_stat_tlv : Statistic → BmpStatTlv
to_stat_tlv s = record {
  stat_type = s.stat_type;
  stat_length = length s.stat_bytes;
  stat_value = from_bytes s.stat_bytes;
}
