-- ===== src/Protocol/BmpParser/Kind.antt =====
-- What the dispatching parser returns agrees with the header, and what its parts do when they are
-- called on their own.
use pybmpmon.Base.{
  ℕ, ◌<◌, ◌≤◌, ◌≡◌, List, length, ok, err, arith, Result-cases, inl, inr, value_error, lt→ltb,
}
use pybmpmon.Utils.Binary.{read_bytes_until}
use pybmpmon.Protocol.Bmp.{
  BmpHeader, BmpPerPeerHeader, BmpMessage, BmpMessageType, route_monitoring, statistics_report,
  peer_down_notification, peer_up_notification, initiation, termination, initiation_message,
  termination_message, route_monitoring_message, statistics_report_message, peer_down_message,
  peer_up_message,
}
use pybmpmon.Protocol.BmpParser.Header.{parse_bmp_header, parse_per_peer_header}
use pybmpmon.Protocol.BmpParser.Messages.{
  parse_initiation_message, parse_termination_message, parse_route_monitoring_message,
  parse_statistics_report_message, parse_peer_down_message, parse_peer_up_message, dispatch,
  parse_bmp_message,
}
use pybmpmon.Protocol.BmpParser.MessageRoundTrip.{is_type_self}

-- The type of message that a member of the union is, and its header.
abbrev pub kind_of : BmpMessage → BmpMessageType
kind_of (initiation_message m) = initiation
kind_of (termination_message m) = termination
kind_of (route_monitoring_message m) = route_monitoring
kind_of (statistics_report_message m) = statistics_report
kind_of (peer_down_message m) = peer_down_notification
kind_of (peer_up_message m) = peer_up_notification

abbrev pub header_of : BmpMessage → BmpHeader
header_of (initiation_message m) = m.header
header_of (termination_message m) = m.header
header_of (route_monitoring_message m) = m.header
header_of (statistics_report_message m) = m.header
header_of (peer_down_message m) = m.header
header_of (peer_up_message m) = m.header

module _ (xs : List ℕ) (h : BmpHeader) (parsed : parse_bmp_header xs ≡ ok h) where
  dispatch_kind :
      (t : BmpMessageType) (m : BmpMessage)
      → dispatch t xs ≡ ok m
      → (kind_of m ≡ t) × (header_of m ≡ h)
  unfolding dispatch parse_initiation_message parse_termination_message
      parse_route_monitoring_message parse_statistics_report_message parse_peer_down_message
      parse_peer_up_message
  dispatch_kind initiation m e = ground (arith, parsed)
  dispatch_kind termination m e = ground (arith, parsed)
  dispatch_kind route_monitoring m e = ground (arith, parsed)
  dispatch_kind statistics_report m e = ground (arith, parsed)
  dispatch_kind peer_down_notification m e = ground (arith, parsed)
  dispatch_kind peer_up_notification m e = ground (arith, parsed)

-- A message that `parse_bmp_message` returns carries the header at the front of the bytes, is of
-- the type that this header names, and was complete: the header's length is at most that of the
-- bytes.
pub parse_bmp_message-eq-ok :
    (xs : List ℕ) (m : BmpMessage)
    → parse_bmp_message xs ≡ ok m
    → (parse_bmp_header xs ≡ ok (header_of m))
      × (kind_of m ≡ (header_of m).msg_type)
      × ((header_of m).length ≤ length xs)
unfolding parse_bmp_message
parse_bmp_message-eq-ok xs m e = elim (Result-cases (parse_bmp_header xs)) [
  | inl (h, p) ↦ ground (arith, p, dispatch_kind xs h p h.msg_type m)
  | inr (y, p) ↦ ground (arith, p)
]

-- Called by itself on a Route Monitoring message that is cut short behind the per-peer header,
-- `parse_route_monitoring_message` raises ValueError, not the BMPParseError that its
-- documentation names.
pub parse_route_monitoring_message_cut :
    (xs : List ℕ) (h : BmpHeader) (p : BmpPerPeerHeader)
    → parse_bmp_header xs ≡ ok h
    → h.msg_type ≡ route_monitoring
    → parse_per_peer_header xs 6 ≡ ok p
    → length xs < h.length
    → parse_route_monitoring_message xs ≡ err value_error
unfolding parse_route_monitoring_message read_bytes_until
parse_route_monitoring_message_cut xs h p parsed e peer cut =
    rw (parsed, is_type_self h route_monitoring e, peer, lt→ltb (length xs) h.length cut)
