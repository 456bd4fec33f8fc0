-- ===== src/Protocol/BmpParser/Examples.antt =====
-- Tests of bmp_parser.py on concrete bytes, and its theorems applied to them.
use pybmpmon.Base.{
  ℕ, map, ◌+◌, ◌≤◌, ◌≡◌, refl, ◌↔◌, List, [], ◌∷◌, ◌++◌, length, replicate, take, All, ok, err,
  value_error, bmp_parse_error, ReturnsOr, arith,
}
use pybmpmon.Base.Slices.{slice, At, At-whole, At-front}
use pybmpmon.Utils.Binary.{
  ipv4, IsByte, read_uint8, read_uint16, read_uint32, read_bytes, read_ip_address,
  read_ipv4_address, read_ipv6_address, any_nonzero, from_bytes,
}
use pybmpmon.Utils.Binary.Wire.{u8, u16, u32}
use pybmpmon.Protocol.Bmp.{
  BmpHeader, BmpPerPeerHeader, BmpInfoTlv, BmpMessage, route_monitoring, statistics_report,
  termination, termination_message, peer_up_notification, peer_down_notification, initiation,
  global_instance, remote_notification, route_monitoring_message, statistics_report_message,
  initiation_message, peer_up_message, peer_down_message, message_type_code, message_type_of,
  peer_type_code, peer_type_of, has_ipv6_flag, peer_down_reason_code,
}
use pybmpmon.Protocol.BmpParser.Header.{parse_bmp_header, parse_per_peer_header}
use pybmpmon.Protocol.BmpParser.Tlvs.{
  parse_information_tlvs, stat_tlvs_loop, parse_stat_tlv, read_stat_value,
}
use pybmpmon.Protocol.BmpParser.Messages.{
  parse_route_monitoring_message, parse_bmp_message, dispatch, parse_statistics_report_message,
  is_type,
}
use pybmpmon.Protocol.BmpParser.Wire.{
  Statistic, encode_statistics, to_stat_tlv, encode_header, IsHeader, encode_per_peer_header,
  IsPerPeerHeader, encode_information_tlvs, IsInformationTlv, BgpFrame, encode_frame,
  encode_session, encode_peer_up,
}
use pybmpmon.Protocol.BmpParser.HeaderRoundTrip.{parse_bmp_header-encode, parse_bmp_header_iff}
use pybmpmon.Protocol.BmpParser.PeerHeaderRoundTrip.{parse_per_peer_header-encode}
use pybmpmon.Protocol.BmpParser.TlvsRoundTrip.{parse_information_tlvs_iff}
use pybmpmon.Protocol.BmpParser.MessageRoundTrip.{
  parse_bmp_message-route_monitoring, parse_bmp_message-initiation,
}
use pybmpmon.Protocol.BmpParser.PeerUpRoundTrip.{
  parse_bmp_message-peer_up, parse_bmp_message-peer_down,
}
use pybmpmon.Protocol.BmpParser.ReportRoundTrip.{
  parse_bmp_message-statistics_report, parse_bmp_message-termination,
}
use pybmpmon.Protocol.BmpParser.Exceptions.{parse_bmp_message_total}
use pybmpmon.Protocol.BmpParser.Kind.{
  header_of, kind_of, parse_bmp_message-eq-ok, parse_route_monitoring_message_cut,
}

abbrev peer : BmpPerPeerHeader
peer = record {
  peer_type = global_instance;
  peer_flags = 0;
  peer_distinguisher = replicate 8 0;
  peer_address = ipv4 (192 ∷ 0 ∷ 2 ∷ 1 ∷ []);
  peer_asn = 65001;
  peer_bgp_id = ipv4 (10 ∷ 0 ∷ 0 ∷ 1 ∷ []);
  timestamp_sec = 1700000000;
  timestamp_usec = 5;
}

peer-IsPerPeerHeader : IsPerPeerHeader peer
unfolding has_ipv6_flag
peer-IsPerPeerHeader = record {
  distinguisher = refl;
  address = (refl, refl);
  bgp_id = (10 ∷ 0 ∷ 0 ∷ 1 ∷ [], refl, refl);
}

abbrev tlvs : List BmpInfoTlv
tlvs =
    record { info_type = 2; info_length = 2; info_value = 0x72 ∷ 0x31 ∷ [] }
    ∷ record { info_type = 1; info_length = 0; info_value = [] }
    ∷ []

tlvs-IsInformationTlv : All IsInformationTlv tlvs
tlvs-IsInformationTlv = ((omega arith, omega arith, refl), ((omega arith, omega arith, refl), tt))

abbrev initiation_header : BmpHeader
initiation_header = record { version = 3; length = 16; msg_type = initiation }

initiation_header-IsHeader : IsHeader initiation_header
initiation_header-IsHeader = record {
  version = refl;
  long_enough = omega arith;
  word = omega arith;
}

abbrev initiation_bytes : List ℕ
initiation_bytes = encode_header initiation_header ++ encode_information_tlvs tlvs

initiation_bytes-IsByte : All IsByte initiation_bytes
unfolding message_type_code
initiation_bytes-IsByte = ground arith

abbrev monitoring_header : BmpHeader
monitoring_header = record { version = 3; length = 51; msg_type = route_monitoring }

monitoring_header-IsHeader : IsHeader monitoring_header
monitoring_header-IsHeader = record {
  version = refl;
  long_enough = omega arith;
  word = omega arith;
}

abbrev monitoring_bytes : List ℕ
monitoring_bytes =
    encode_header monitoring_header ++ (encode_per_peer_header peer ++ (1 ∷ 2 ∷ 3 ∷ []))

abbrev monitored : BmpMessage
monitored =
    route_monitoring_message
      (record { header = monitoring_header; per_peer_header = peer; bgp_update = 1 ∷ 2 ∷ 3 ∷ [] })

-- Two statistics, of four and of eight bytes.
statistics_bytes_parse :
    parse_bmp_message (
      encode_header (record { version = 3; length = 72; msg_type = statistics_report })
      ++ (encode_per_peer_header peer
          ++ (u32 2 ++ (u16 0 ++ (u16 4 ++ (u32 7 ++ (u16 7 ++ (u16 8 ++ (u32 1 ++ u32 2)))))))))
    ≡ ok (
        statistics_report_message (record {
          header = record { version = 3; length = 72; msg_type = statistics_report };
          per_peer_header = peer;
          stats_count = 2;
          stats_tlvs =
              record { stat_type = 0; stat_length = 4; stat_value = 7 }
              ∷ record { stat_type = 7; stat_length = 8; stat_value = 0x100000002 }
              ∷ [];
        }))
unfolding parse_bmp_message parse_bmp_header parse_per_peer_header dispatch
    parse_statistics_report_message is_type message_type_code message_type_of peer_type_code
    peer_type_of has_ipv6_flag stat_tlvs_loop parse_stat_tlv read_stat_value read_uint8 read_uint16
    read_uint32 read_bytes read_ip_address read_ipv4_address read_ipv6_address any_nonzero slice
    from_bytes
statistics_bytes_parse = refl

parse_bmp_message_total_example :
    ReturnsOr bmp_parse_error (parse_bmp_message (take 30 monitoring_bytes))
parse_bmp_message_total_example = parse_bmp_message_total (take 30 monitoring_bytes)

parse_bmp_header_iff_example :
    (parse_bmp_header initiation_bytes ≡ ok initiation_header)
    ↔ (IsHeader initiation_header × At initiation_bytes 0 (encode_header initiation_header))
parse_bmp_header_iff_example =
    parse_bmp_header_iff initiation_bytes initiation_header initiation_bytes-IsByte

parse_per_peer_header-encode_example :
    parse_per_peer_header (encode_per_peer_header peer) 0 ≡ ok peer
parse_per_peer_header-encode_example =
    parse_per_peer_header-encode (encode_per_peer_header peer) 0 peer peer-IsPerPeerHeader
      (At-whole (encode_per_peer_header peer))

parse_information_tlvs_iff_example : (parse_information_tlvs initiation_bytes 6 16 ≡ ok tlvs) ↔ (
    All IsInformationTlv tlvs
    × At initiation_bytes 6 (encode_information_tlvs tlvs)
    × (6 + length (encode_information_tlvs tlvs) ≡ 16))
parse_information_tlvs_iff_example =
    parse_information_tlvs_iff initiation_bytes 6 16 tlvs initiation_bytes-IsByte (omega arith)
      (omega arith)

parse_bmp_message-initiation_example :
    parse_bmp_message initiation_bytes
    ≡ ok (initiation_message (record { header = initiation_header; information_tlvs = tlvs }))
parse_bmp_message-initiation_example =
    parse_bmp_message-initiation initiation_bytes initiation_header initiation_header-IsHeader tlvs
      tlvs-IsInformationTlv refl refl (At-whole initiation_bytes)

parse_bmp_message-route_monitoring_example : parse_bmp_message monitoring_bytes ≡ ok monitored
parse_bmp_message-route_monitoring_example =
    parse_bmp_message-route_monitoring monitoring_bytes monitoring_header monitoring_header-IsHeader
      peer (1 ∷ 2 ∷ 3 ∷ []) peer-IsPerPeerHeader refl refl (At-whole monitoring_bytes)

parse_bmp_message-eq-ok_example :
    (parse_bmp_header monitoring_bytes ≡ ok (header_of monitored))
    × (kind_of monitored ≡ (header_of monitored).msg_type)
    × ((header_of monitored).length ≤ length monitoring_bytes)
parse_bmp_message-eq-ok_example =
    parse_bmp_message-eq-ok monitoring_bytes monitored parse_bmp_message-route_monitoring_example

abbrev cut_bytes : List ℕ
cut_bytes = take 50 monitoring_bytes

parse_route_monitoring_message_cut_example :
    parse_route_monitoring_message cut_bytes ≡ err value_error
unfolding slice
parse_route_monitoring_message_cut_example =
    parse_route_monitoring_message_cut cut_bytes monitoring_header peer
      (parse_bmp_header-encode cut_bytes monitoring_header monitoring_header-IsHeader (
        At-front cut_bytes 0 (encode_header monitoring_header)
          (encode_per_peer_header peer ++ (1 ∷ 2 ∷ [])) (At-whole cut_bytes)))
      refl
      (parse_per_peer_header-encode cut_bytes 6 peer peer-IsPerPeerHeader
        (record { fits = omega arith; holds = refl }))
      (omega arith)

abbrev down_header : BmpHeader
down_header = record { version = 3; length = 51; msg_type = peer_down_notification }

abbrev down_bytes : List ℕ
down_bytes = encode_header down_header ++ (encode_per_peer_header peer ++ (u8 3 ++ (6 ∷ 2 ∷ [])))

parse_bmp_message-peer_down_example :
    parse_bmp_message down_bytes
    ≡ ok (
        peer_down_message (record {
          header = down_header;
          per_peer_header = peer;
          reason = remote_notification;
          additional_data = 6 ∷ 2 ∷ [];
        }))
unfolding peer_down_reason_code
parse_bmp_message-peer_down_example =
    parse_bmp_message-peer_down down_bytes down_header peer
      (record { version = refl; long_enough = omega arith; word = omega arith })
      peer-IsPerPeerHeader remote_notification (6 ∷ 2 ∷ []) refl refl (At-whole down_bytes)

-- OPEN messages of 20 and of 19 bytes.
abbrev sent_open : BgpFrame
sent_open = record { marker = replicate 16 0xff; body = 1 ∷ 4 ∷ [] }

abbrev received_open : BgpFrame
received_open = record { marker = replicate 16 0xff; body = 1 ∷ [] }

abbrev up_header : BmpHeader
up_header = record { version = 3; length = 117; msg_type = peer_up_notification }

abbrev up_bytes : List ℕ
up_bytes =
    encode_peer_up up_header peer (encode_session (ipv4 (192 ∷ 0 ∷ 2 ∷ 9 ∷ [])) 179 33000) sent_open
      received_open tlvs

parse_bmp_message-peer_up_example :
    parse_bmp_message up_bytes
    ≡ ok (
        peer_up_message (record {
          header = up_header;
          per_peer_header = peer;
          local_address = ipv4 (192 ∷ 0 ∷ 2 ∷ 9 ∷ []);
          local_port = 179;
          remote_port = 33000;
          sent_open_message = encode_frame sent_open;
          received_open_message = encode_frame received_open;
          information_tlvs = tlvs;
        }))
unfolding has_ipv6_flag
parse_bmp_message-peer_up_example =
    parse_bmp_message-peer_up up_bytes up_header peer
      (record { version = refl; long_enough = omega arith; word = omega arith })
      peer-IsPerPeerHeader (ipv4 (192 ∷ 0 ∷ 2 ∷ 9 ∷ [])) 179 33000 sent_open received_open tlvs
      (refl, refl) (record { marker = refl; typed = omega arith })
      (record { marker = refl; typed = omega arith }) tlvs-IsInformationTlv refl refl
      (At-whole up_bytes)

abbrev statistics_header : BmpHeader
statistics_header = record { version = 3; length = 72; msg_type = statistics_report }

abbrev statistics : List Statistic
statistics =
    record { stat_type = 0; stat_bytes = 0 ∷ 0 ∷ 0 ∷ 7 ∷ [] }
    ∷ record { stat_type = 7; stat_bytes = 0 ∷ 0 ∷ 0 ∷ 1 ∷ 0 ∷ 0 ∷ 0 ∷ 2 ∷ [] }
    ∷ []

abbrev statistics_bytes : List ℕ
statistics_bytes =
    encode_header statistics_header
    ++ (encode_per_peer_header peer ++ (u32 2 ++ encode_statistics statistics))

parse_bmp_message-statistics_report_example :
    parse_bmp_message statistics_bytes
    ≡ ok (
        statistics_report_message (record {
          header = statistics_header;
          per_peer_header = peer;
          stats_count = 2;
          stats_tlvs = map to_stat_tlv statistics;
        }))
parse_bmp_message-statistics_report_example =
    parse_bmp_message-statistics_report statistics_bytes statistics_header
      (record { version = refl; long_enough = omega arith; word = omega arith }) peer statistics
      peer-IsPerPeerHeader (ground arith) refl refl (At-whole statistics_bytes)

abbrev termination_header : BmpHeader
termination_header = record { version = 3; length = 16; msg_type = termination }

abbrev termination_bytes : List ℕ
termination_bytes = encode_header termination_header ++ encode_information_tlvs tlvs

parse_bmp_message-termination_example :
    parse_bmp_message termination_bytes
    ≡ ok (termination_message (record { header = termination_header; information_tlvs = tlvs }))
parse_bmp_message-termination_example =
    parse_bmp_message-termination termination_bytes termination_header
      (record { version = refl; long_enough = omega arith; word = omega arith }) tlvs
      tlvs-IsInformationTlv refl refl (At-whole termination_bytes)
