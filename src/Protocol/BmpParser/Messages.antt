-- ===== src/Protocol/BmpParser/Messages.antt =====
-- bmp_parser.py: one parser for each message type, and the dispatch on the type.
use pybmpmon.Base.{
  ℕ, ◌+◌, Bool, List, length, ltb, ◌==◌, if◌then◌else◌, bmp_parse_error, Result, ok, err, ◌>>=◌,
  ◌>>◌, require, on_value_error, of_option,
}
use pybmpmon.Utils.Binary.{
  read_uint8, read_uint16, read_uint32, read_bytes, read_bytes_until, read_ip_address,
}
use pybmpmon.Protocol.Bmp.{
  BmpMessageType, route_monitoring, statistics_report, peer_down_notification, peer_up_notification,
  initiation, termination, BmpInitiationMessage, BmpTerminationMessage, BmpRouteMonitoringMessage,
  BmpStatisticsReportMessage, BmpPeerDownMessage, BmpPeerUpMessage, BmpMessage, initiation_message,
  termination_message, route_monitoring_message, statistics_report_message, peer_down_message,
  peer_up_message, message_type_code, peer_down_reason_of, has_ipv6_flag, bmp_header_size,
  BmpHeader,
}
use pybmpmon.Protocol.BmpParser.Header.{parse_bmp_header, parse_per_peer_header}
use pybmpmon.Protocol.BmpParser.Tlvs.{parse_information_tlvs, stat_tlvs_loop}

-- Offsets are written out: 6 + 42 = 48 for what follows the two headers, and from there on 48 + 1,
-- 48 + 4, 48 + 16, 48 + 18, and 48 + 20 = 68 for the sent OPEN of a Peer Up message.

-- `header.msg_type == expected`, on the values of the enumeration.
unfoldable pub is_type : BmpHeader → BmpMessageType → Bool
unfolding message_type_code
is_type header expected = message_type_code header.msg_type == message_type_code expected

unfoldable pub parse_initiation_message : List ℕ → Result BmpInitiationMessage
parse_initiation_message data_bytes = do
  header ← parse_bmp_header data_bytes
  require (is_type header initiation) bmp_parse_error
  tlvs ← parse_information_tlvs data_bytes bmp_header_size header.length
  ok (record { header = header; information_tlvs = tlvs })

unfoldable pub parse_termination_message : List ℕ → Result BmpTerminationMessage
parse_termination_message data_bytes = do
  header ← parse_bmp_header data_bytes
  require (is_type header termination) bmp_parse_error
  tlvs ← parse_information_tlvs data_bytes bmp_header_size header.length
  ok (record { header = header; information_tlvs = tlvs })

unfoldable pub parse_route_monitoring_message : List ℕ → Result BmpRouteMonitoringMessage
parse_route_monitoring_message data_bytes = do
  header ← parse_bmp_header data_bytes
  require (is_type header route_monitoring) bmp_parse_error
  per_peer_header ← parse_per_peer_header data_bytes bmp_header_size
  bgp_update ← read_bytes_until data_bytes 48 header.length
  ok (record { header = header; per_peer_header = per_peer_header; bgp_update = bgp_update })

unfoldable pub parse_statistics_report_message : List ℕ → Result BmpStatisticsReportMessage
parse_statistics_report_message data_bytes = do
  header ← parse_bmp_header data_bytes
  require (is_type header statistics_report) bmp_parse_error
  per_peer_header ← parse_per_peer_header data_bytes bmp_header_size
  if ltb (length data_bytes) 52 then err bmp_parse_error else do
    stats_count ← read_uint32 data_bytes 48
    stats_tlvs ← stat_tlvs_loop stats_count data_bytes 52 header.length
    ok (record {
      header = header;
      per_peer_header = per_peer_header;
      stats_count = stats_count;
      stats_tlvs = stats_tlvs;
    })

unfoldable pub parse_peer_down_message : List ℕ → Result BmpPeerDownMessage
parse_peer_down_message data_bytes = do
  header ← parse_bmp_header data_bytes
  require (is_type header peer_down_notification) bmp_parse_error
  per_peer_header ← parse_per_peer_header data_bytes bmp_header_size
  if ltb (length data_bytes) 49 then err bmp_parse_error else do
    reason ← on_value_error bmp_parse_error do
      reason_raw ← read_uint8 data_bytes 48
      of_option bmp_parse_error (peer_down_reason_of reason_raw)
    additional_data ← read_bytes_until data_bytes 49 header.length
    ok (record {
      header = header;
      per_peer_header = per_peer_header;
      reason = reason;
      additional_data = additional_data;
    })

-- A BGP OPEN at an offset, sent or received: it needs 19 bytes, and says its length at byte 16.
unfoldable pub read_open_message : List ℕ → ℕ → Result (List ℕ)
read_open_message data_bytes open_offset =
    if ltb (length data_bytes) (open_offset + 19) then err bmp_parse_error else do
      open_length ← read_uint16 data_bytes (open_offset + 16)
      if ltb (length data_bytes) (open_offset + open_length)
          then err bmp_parse_error
          else read_bytes data_bytes open_offset open_length

-- The offset of what follows an OPEN is moved by its length, which is that of the bytes read.
unfoldable pub parse_peer_up_message : List ℕ → Result BmpPeerUpMessage
parse_peer_up_message data_bytes = do
  header ← parse_bmp_header data_bytes
  require (is_type header peer_up_notification) bmp_parse_error
  per_peer_header ← parse_per_peer_header data_bytes bmp_header_size
  if ltb (length data_bytes) 68 then err bmp_parse_error else do
    local_address ← read_ip_address data_bytes 48 (has_ipv6_flag per_peer_header.peer_flags)
    local_port ← read_uint16 data_bytes 64
    remote_port ← read_uint16 data_bytes 66
    sent_open_message ← read_open_message data_bytes 68
    received_open_message ← read_open_message data_bytes (68 + length sent_open_message)
    information_tlvs ←
        parse_information_tlvs data_bytes
          (68 + length sent_open_message + length received_open_message) header.length
    ok (record {
      header = header;
      per_peer_header = per_peer_header;
      local_address = local_address;
      local_port = local_port;
      remote_port = remote_port;
      sent_open_message = sent_open_message;
      received_open_message = received_open_message;
      information_tlvs = information_tlvs;
    })

-- The `elif` chain over the message type.
unfoldable pub dispatch : BmpMessageType → List ℕ → Result BmpMessage
dispatch initiation data_bytes = do
  message ← parse_initiation_message data_bytes
  ok (initiation_message message)
dispatch termination data_bytes = do
  message ← parse_termination_message data_bytes
  ok (termination_message message)
dispatch route_monitoring data_bytes = do
  message ← parse_route_monitoring_message data_bytes
  ok (route_monitoring_message message)
dispatch statistics_report data_bytes = do
  message ← parse_statistics_report_message data_bytes
  ok (statistics_report_message message)
dispatch peer_down_notification data_bytes = do
  message ← parse_peer_down_message data_bytes
  ok (peer_down_message message)
dispatch peer_up_notification data_bytes = do
  message ← parse_peer_up_message data_bytes
  ok (peer_up_message message)

unfoldable pub parse_bmp_message : List ℕ → Result BmpMessage
parse_bmp_message data_bytes = do
  header ← parse_bmp_header data_bytes
  if ltb (length data_bytes) header.length
      then err bmp_parse_error
      else dispatch header.msg_type data_bytes
