-- ===== src/Protocol/BmpParser/MessageRoundTrip.antt =====
-- Whole BMP messages: the bytes of a well-formed message, at the front of the input, are parsed
-- back into it by the dispatching parser.
use pybmpmon.Base.{ℕ, ◌+◌, ◌≤◌, ◌≡◌, ap, sym, List, ◌++◌, length, All, le→ltb, true, ok, arith}
use pybmpmon.Base.Slices.{At, At-cut}
use pybmpmon.Utils.Binary.Reads.{read_bytes_until-At}
use pybmpmon.Protocol.Bmp.{
  BmpHeader, BmpPerPeerHeader, BmpInfoTlv, BmpMessageType, route_monitoring, initiation,
  route_monitoring_message, initiation_message, message_type_code,
}
use pybmpmon.Protocol.BmpParser.Messages.{
  is_type, parse_initiation_message, parse_route_monitoring_message, dispatch, parse_bmp_message,
}
use pybmpmon.Protocol.BmpParser.Wire.{
  encode_header, IsHeader, encode_per_peer_header, IsPerPeerHeader, encode_information_tlvs,
  IsInformationTlv,
}
use pybmpmon.Protocol.BmpParser.HeaderRoundTrip.{parse_bmp_header-encode}
use pybmpmon.Protocol.BmpParser.PeerHeaderRoundTrip.{
  parse_per_peer_header-encode, length-encode_per_peer_header,
}
use pybmpmon.Protocol.BmpParser.TlvsRoundTrip.{parse_information_tlvs-encode}

pub is_type_self : (h : BmpHeader) (t : BmpMessageType) → h.msg_type ≡ t → is_type h t ≡ true
unfolding is_type
is_type_self h t e = ground (arith, ap message_type_code e)

module _ (xs : List ℕ) (h : BmpHeader) (valid : IsHeader h) where
  -- The dispatching parser, where the header and a complete message are there.
  pub dispatches :
      (t : BmpMessageType)
      → h.msg_type ≡ t
      → At xs 0 (encode_header h)
      → h.length ≤ length xs
      → parse_bmp_message xs ≡ dispatch t xs
  unfolding parse_bmp_message
  dispatches t e at complete =
      rw (parse_bmp_header-encode xs h valid at, le→ltb (length xs) h.length complete, e)

  -- The bytes of a Route Monitoring message, with a valid header whose length is that of the
  -- message and a valid per-peer header, are parsed into these headers and the BGP UPDATE behind
  -- them.
  pub parse_bmp_message-route_monitoring :
      (p : BmpPerPeerHeader) (update : List ℕ)
      → IsPerPeerHeader p
      → h.msg_type ≡ route_monitoring
      → h.length ≡ 48 + length update
      → At xs 0 (encode_header h ++ (encode_per_peer_header p ++ update))
      → parse_bmp_message xs
        ≡ ok (
            route_monitoring_message
              (record { header = h; per_peer_header = p; bgp_update = update }))
  unfolding dispatch parse_route_monitoring_message
  parse_bmp_message-route_monitoring p update valid_p e size at =
      let (h_at, rest) = At-cut xs 0 6 (encode_header h) _ (omega arith) at in
      let p_size = length-encode_per_peer_header p valid_p in
      let (p_at, update_at) = At-cut xs 6 48 (encode_per_peer_header p) _ (omega arith) rest in
      rw (
        dispatches route_monitoring e h_at (omega (arith, update_at.fits)),
        parse_bmp_header-encode xs h valid h_at,
        is_type_self h route_monitoring e,
        parse_per_peer_header-encode xs 6 p valid_p p_at,
        read_bytes_until-At xs 48 update h.length size update_at,
      )

  -- The bytes of an Initiation message, with a valid header whose length is that of the message
  -- and well-formed TLVs, are parsed into that header and these TLVs.
  pub parse_bmp_message-initiation :
      (ts : List BmpInfoTlv)
      → All IsInformationTlv ts
      → h.msg_type ≡ initiation
      → h.length ≡ 6 + length (encode_information_tlvs ts)
      → At xs 0 (encode_header h ++ encode_information_tlvs ts)
      → parse_bmp_message xs
        ≡ ok (initiation_message (record { header = h; information_tlvs = ts }))
  unfolding dispatch parse_initiation_message
  parse_bmp_message-initiation ts valid_ts e size at =
      let (h_at, ts_at) = At-cut xs 0 6 (encode_header h) _ (omega arith) at in
      rw (
        dispatches initiation e h_at (omega (arith, ts_at.fits)),
        parse_bmp_header-encode xs h valid h_at,
        is_type_self h initiation e,
        parse_information_tlvs-encode xs 6 h.length ts valid_ts (sym size) ts_at,
      )
