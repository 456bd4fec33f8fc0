-- ===== src/Protocol/BmpParser/Header.antt =====
-- bmp_parser.py: the common header and the per-peer header.
use pybmpmon.Base.{
  ℕ, ◌+◌, List, length, ltb, ◌==◌, if◌then◌else◌, bmp_parse_error, Result, ok, err, ◌>>=◌, ◌>>◌,
  require, on_value_error, of_option,
}
use pybmpmon.Utils.Binary.{read_uint8, read_uint32, read_bytes, read_ip_address, read_ipv4_address}
use pybmpmon.Protocol.Bmp.{
  BmpHeader, BmpPerPeerHeader, message_type_of, peer_type_of, has_ipv6_flag, bmp_header_size,
  bmp_per_peer_header_size, bmp_current_version,
}

unfoldable pub parse_bmp_header : List ℕ → Result BmpHeader
parse_bmp_header data_bytes =
    if ltb (length data_bytes) bmp_header_size
    then err bmp_parse_error
    else on_value_error bmp_parse_error do
      version ← read_uint8 data_bytes 0
      require (version == bmp_current_version) bmp_parse_error
      message_length ← read_uint32 data_bytes 1
      if ltb message_length bmp_header_size then err bmp_parse_error else do
        msg_type_raw ← read_uint8 data_bytes 5
        msg_type ← of_option bmp_parse_error (message_type_of msg_type_raw)
        ok (record { version = version; length = message_length; msg_type = msg_type })

unfoldable pub parse_per_peer_header : List ℕ → ℕ → Result BmpPerPeerHeader
parse_per_peer_header data_bytes offset =
    if ltb (length data_bytes) (offset + bmp_per_peer_header_size)
    then err bmp_parse_error
    else on_value_error bmp_parse_error do
      peer_type_raw ← read_uint8 data_bytes offset
      peer_flags ← read_uint8 data_bytes (offset + 1)
      peer_type ← of_option bmp_parse_error (peer_type_of peer_type_raw)
      peer_distinguisher ← read_bytes data_bytes (offset + 2) 8
      peer_address ← read_ip_address data_bytes (offset + 10) (has_ipv6_flag peer_flags)
      peer_asn ← read_uint32 data_bytes (offset + 26)
      peer_bgp_id ← read_ipv4_address data_bytes (offset + 30)
      timestamp_sec ← read_uint32 data_bytes (offset + 34)
      timestamp_usec ← read_uint32 data_bytes (offset + 38)
      ok (record {
        peer_type = peer_type;
        peer_flags = peer_flags;
        peer_distinguisher = peer_distinguisher;
        peer_address = peer_address;
        peer_asn = peer_asn;
        peer_bgp_id = peer_bgp_id;
        timestamp_sec = timestamp_sec;
        timestamp_usec = timestamp_usec;
      })
