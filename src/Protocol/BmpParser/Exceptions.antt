-- ===== src/Protocol/BmpParser/Exceptions.antt =====
-- Which exceptions bmp_parser.py raises, and that its loops end.
use pybmpmon.Base.{
  ℕ, zero, suc, ◌+◌, ◌-◌, ◌<◌, ◌≤◌, ◌≡◌, List, length, Bool, false, ok, err, arith, bmp_parse_error,
  RaisesOnly, ReturnsOr, returns_or, Bool-cases, ltb, ltb→le, if◌then◌else◌, ◌||◌, Error, inl, inr,
  Result-cases,
}
use pybmpmon.Base.Slices.{slice}
use pybmpmon.Utils.Binary.{
  IpAddress, ipv4, ipv6, any_nonzero, from_bytes, read_uint8, read_uint16, read_uint32, read_bytes,
  read_ip_address, read_ipv4_address,
}
use pybmpmon.Protocol.Bmp.{
  BmpHeader, BmpPerPeerHeader, BmpMessageType, route_monitoring, statistics_report,
  peer_down_notification, peer_up_notification, initiation, termination, has_ipv6_flag,
}
use pybmpmon.Protocol.BmpParser.Header.{parse_bmp_header, parse_per_peer_header}
use pybmpmon.Utils.Binary.Reads.{
  read_uint8-fits, read_uint16-fits, read_uint32-fits, read_bytes-fits, read_bytes_until-fits,
}
use pybmpmon.Protocol.BmpParser.Messages.{
  parse_initiation_message, parse_termination_message, parse_route_monitoring_message,
  parse_statistics_report_message, parse_peer_down_message, parse_peer_up_message,
  read_open_message, dispatch, parse_bmp_message,
}
use pybmpmon.Protocol.BmpParser.Tlvs.{
  parse_information_tlv, information_tlvs_loop, parse_information_tlvs, read_stat_value,
  parse_stat_tlv, stat_tlvs_loop,
}

pub parse_bmp_header-raises : (xs : List ℕ) → RaisesOnly bmp_parse_error (parse_bmp_header xs)
unfolding parse_bmp_header read_uint8 read_uint32
parse_bmp_header-raises xs x h = ground arith

pub parse_per_peer_header-raises :
    (xs : List ℕ) (off : ℕ) → RaisesOnly bmp_parse_error (parse_per_peer_header xs off)
unfolding parse_per_peer_header read_uint8 read_uint32 read_bytes read_ipv4_address read_ip_address
parse_per_peer_header-raises xs off x h = ground arith

parse_information_tlv-raises :
    (xs : List ℕ) (pos stop : ℕ) → RaisesOnly bmp_parse_error (parse_information_tlv xs pos stop)
unfolding parse_information_tlv read_uint16 read_bytes
parse_information_tlv-raises xs pos stop x h = ground arith

parse_stat_tlv-raises :
    (xs : List ℕ) (pos stop : ℕ) → RaisesOnly bmp_parse_error (parse_stat_tlv xs pos stop)
unfolding parse_stat_tlv read_stat_value read_uint16 read_uint32 read_bytes
parse_stat_tlv-raises xs pos stop x h = ground arith

-- With more fuel than bytes are left the loop does not run out of it.
information_tlvs_loop-raises :
    (fuel : ℕ) (xs : List ℕ) (pos stop : ℕ) (x : Error)
    → stop - pos < fuel
    → information_tlvs_loop fuel xs pos stop ≡ err x
    → x ≡ bmp_parse_error
unfolding information_tlvs_loop
information_tlvs_loop-raises zero xs pos stop x h e = absurd (omega arith)
information_tlvs_loop-raises (suc fuel) xs pos stop x h e =
    elim (Result-cases (parse_information_tlv xs pos stop)) [
      | inl (tlv, p) ↦
          ground (arith, p, information_tlvs_loop-raises fuel xs (pos + 4 + tlv.info_length) stop x)
      | inr (y, p) ↦ ground (arith, p, parse_information_tlv-raises xs pos stop y p)
    ]

pub parse_information_tlvs-raises :
    (xs : List ℕ) (off stop : ℕ) → RaisesOnly bmp_parse_error (parse_information_tlvs xs off stop)
unfolding parse_information_tlvs
parse_information_tlvs-raises xs off stop x =
    information_tlvs_loop-raises (suc (stop - off)) xs off stop x (omega arith)

pub stat_tlvs_loop-raises :
    (rounds : ℕ) (xs : List ℕ) (off stop : ℕ)
    → RaisesOnly bmp_parse_error (stat_tlvs_loop rounds xs off stop)
unfolding stat_tlvs_loop
stat_tlvs_loop-raises zero xs off stop x e = cc
stat_tlvs_loop-raises (suc rounds) xs off stop x e =
    elim (Result-cases (parse_stat_tlv xs off stop)) [
      | inl (tlv, p) ↦
          ground (arith, p, stat_tlvs_loop-raises rounds xs (off + 4 + tlv.stat_length) stop x)
      | inr (y, p) ↦ ground (arith, p, parse_stat_tlv-raises xs off stop y p)
    ]

parse_initiation_message-raises :
    (xs : List ℕ) → RaisesOnly bmp_parse_error (parse_initiation_message xs)
unfolding parse_initiation_message
parse_initiation_message-raises xs x e = elim (Result-cases (parse_bmp_header xs)) [
  | inl (h, p) ↦ ground (arith, p, parse_information_tlvs-raises xs 6 h.length x)
  | inr (y, p) ↦ ground (arith, p, parse_bmp_header-raises xs y p)
]

parse_termination_message-raises :
    (xs : List ℕ) → RaisesOnly bmp_parse_error (parse_termination_message xs)
unfolding parse_termination_message
parse_termination_message-raises xs x e = elim (Result-cases (parse_bmp_header xs)) [
  | inl (h, p) ↦ ground (arith, p, parse_information_tlvs-raises xs 6 h.length x)
  | inr (y, p) ↦ ground (arith, p, parse_bmp_header-raises xs y p)
]

-- The remaining parsers rely on the test of `parse_bmp_message` that the message is complete.
module _ (xs : List ℕ) (h : BmpHeader) (parsed : parse_bmp_header xs ≡ ok h)
    (complete : h.length ≤ length xs) where
  parse_route_monitoring_message-raises :
      RaisesOnly bmp_parse_error (parse_route_monitoring_message xs)
  unfolding parse_route_monitoring_message
  parse_route_monitoring_message-raises x e = ground (
    arith,
    parsed,
    parse_per_peer_header-raises xs 6 x,
    read_bytes_until-fits xs 48 h.length complete,
  )

  parse_statistics_report_message-raises :
      RaisesOnly bmp_parse_error (parse_statistics_report_message xs)
  unfolding parse_statistics_report_message
  parse_statistics_report_message-raises x e = ground (
    arith,
    parsed,
    parse_per_peer_header-raises xs 6 x,
    read_uint32-fits xs 48,
    stat_tlvs_loop-raises (from_bytes (slice xs 48 4)) xs 52 h.length x,
  )

  parse_peer_down_message-raises : RaisesOnly bmp_parse_error (parse_peer_down_message xs)
  unfolding parse_peer_down_message
  parse_peer_down_message-raises x e = ground (
    arith,
    parsed,
    parse_per_peer_header-raises xs 6 x,
    read_uint8-fits xs 48,
    read_bytes_until-fits xs 49 h.length complete,
  )

read_open_message-raises :
    (xs : List ℕ) (off : ℕ) → RaisesOnly bmp_parse_error (read_open_message xs off)
unfolding read_open_message
read_open_message-raises xs off x e = ground (
  arith,
  read_uint16-fits xs (off + 16),
  read_bytes-fits xs off (from_bytes (slice xs (off + 16) 2)),
)

read_ip_address-fits :
    (xs : List ℕ) (off : ℕ) (flag : Bool)
    → off + 16 ≤ length xs
    → (a : IpAddress) × (read_ip_address xs off flag ≡ ok a)
unfolding read_ip_address
read_ip_address-fits xs off flag h =
    let field = slice xs off 16 in
    let address =
      if flag || any_nonzero (slice field 0 12) then ipv6 field else ipv4 (slice field 12 4) in
    (address, ground arith)

-- A Peer Up message with both headers and room for the fields up to the sent OPEN.
module _ (xs : List ℕ) (h : BmpHeader) (p : BmpPerPeerHeader) (parsed : parse_bmp_header xs ≡ ok h)
    (peer : parse_per_peer_header xs 6 ≡ ok p) (long : ltb (length xs) 68 ≡ false) where
  peer_up_opens-raises : RaisesOnly bmp_parse_error (parse_peer_up_message xs)
  unfolding parse_peer_up_message
  peer_up_opens-raises x e =
      let room : 68 ≤ length xs = ltb→le _ _ long in
      let (address, address_read) =
        read_ip_address-fits xs 48 (has_ipv6_flag p.peer_flags) (omega arith) in
      let local_read = read_uint16-fits xs 64 (omega arith) in
      let remote_read = read_uint16-fits xs 66 (omega arith) in
      elim (Result-cases (read_open_message xs 68)) [
        | inr (y, r) ↦
            ground
              (arith, address_read, local_read, remote_read, r, read_open_message-raises xs 68 y r)
        | inl (sent, r) ↦ elim (Result-cases (read_open_message xs (68 + length sent))) [
          | inr (y, s) ↦ ground (
            arith,
            address_read,
            local_read,
            remote_read,
            r,
            s,
            read_open_message-raises xs _ y s,
          )
          | inl (received, s) ↦ ground (
            arith,
            address_read,
            local_read,
            remote_read,
            r,
            s,
            parse_information_tlvs-raises xs (68 + length sent + length received) h.length x,
          )
        ]
      ]

pub parse_peer_up_message-raises :
    (xs : List ℕ) → RaisesOnly bmp_parse_error (parse_peer_up_message xs)
unfolding parse_peer_up_message
parse_peer_up_message-raises xs x e = elim (Result-cases (parse_bmp_header xs)) [
  | inr (y, parsed) ↦ ground (arith, parsed, parse_bmp_header-raises xs y parsed)
  | inl (h, parsed) ↦ elim (Result-cases (parse_per_peer_header xs 6)) [
    | inr (y, peer) ↦ ground (arith, parsed, peer, parse_per_peer_header-raises xs 6 y peer)
    | inl (p, peer) ↦ elim (Bool-cases (ltb (length xs) 68)) [
      | inl short ↦ ground (arith, parsed, peer, short)
      | inr long ↦ peer_up_opens-raises xs h p parsed peer long x e
    ]
  ]
]

dispatch-raises :
    (xs : List ℕ) (h : BmpHeader)
    → parse_bmp_header xs ≡ ok h
    → h.length ≤ length xs
    → (t : BmpMessageType) → RaisesOnly bmp_parse_error (dispatch t xs)
unfolding dispatch
dispatch-raises xs h parsed complete initiation x e =
    ground (arith, parse_initiation_message-raises xs x)
dispatch-raises xs h parsed complete termination x e =
    ground (arith, parse_termination_message-raises xs x)
dispatch-raises xs h parsed complete route_monitoring x e =
    ground (arith, parse_route_monitoring_message-raises xs h parsed complete x)
dispatch-raises xs h parsed complete statistics_report x e =
    ground (arith, parse_statistics_report_message-raises xs h parsed complete x)
dispatch-raises xs h parsed complete peer_down_notification x e =
    ground (arith, parse_peer_down_message-raises xs h parsed complete x)
dispatch-raises xs h parsed complete peer_up_notification x e =
    ground (arith, parse_peer_up_message-raises xs x)

parse_bmp_message-raises : (xs : List ℕ) → RaisesOnly bmp_parse_error (parse_bmp_message xs)
unfolding parse_bmp_message
parse_bmp_message-raises xs x e = elim (Result-cases (parse_bmp_header xs)) [
  | inl (h, p) ↦
      ground (arith, p, λ (c : h.length ≤ length xs). dispatch-raises xs h p c h.msg_type x)
  | inr (y, p) ↦ ground (arith, p, parse_bmp_header-raises xs y p)
]

-- Whatever the bytes, `parse_bmp_message` returns a message or raises BMPParseError; no
-- ValueError of a read gets out, and no loop goes on for ever.
pub parse_bmp_message_total : (xs : List ℕ) → ReturnsOr bmp_parse_error (parse_bmp_message xs)
parse_bmp_message_total xs =
    returns_or bmp_parse_error (parse_bmp_message xs) (parse_bmp_message-raises xs)
