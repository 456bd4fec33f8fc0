-- ===== src/Protocol/BmpParser/PeerUpRoundTrip.antt =====
-- Peer Up and Peer Down messages: the bytes of a well-formed message are parsed back into it.
use pybmpmon.Base.{
  ℕ, ◌+◌, ◌≡◌, refl, List, ◌++◌, length, length-append, All, le→ltb, some, ok, arith,
}
use mathlib.Core.Path.{subst}
use pybmpmon.Base.Slices.{At, At-cut, At-front}
use pybmpmon.Utils.Binary.{IpAddress, read_bytes}
use pybmpmon.Utils.Binary.Wire.{u8, u16}
use pybmpmon.Utils.Binary.Reads.{read_uint8-At, read_uint16-At, read_bytes-At, read_bytes_until-At}
use pybmpmon.Protocol.Bmp.{
  BmpHeader, BmpPerPeerHeader, BmpInfoTlv, BmpPeerDownReason, peer_up_notification,
  peer_down_notification, peer_up_message, peer_down_message, has_ipv6_flag, peer_down_reason_code,
  peer_down_reason_of,
}
use pybmpmon.Protocol.BmpParser.Messages.{
  read_open_message, parse_peer_up_message, parse_peer_down_message, dispatch, parse_bmp_message,
}
use pybmpmon.Protocol.BmpParser.Wire.{
  encode_header, IsHeader, encode_per_peer_header, IsPerPeerHeader, encode_information_tlvs,
  IsInformationTlv, BgpFrame, frame_length, encode_frame, IsFrame, encode_session, encode_address,
  IsAddress, encode_peer_up,
}
use pybmpmon.Protocol.BmpParser.HeaderRoundTrip.{parse_bmp_header-encode}
use pybmpmon.Protocol.BmpParser.PeerHeaderRoundTrip.{
  parse_per_peer_header-encode, length-encode_per_peer_header, length-address, read_ip_address-At,
}
use pybmpmon.Protocol.BmpParser.TlvsRoundTrip.{parse_information_tlvs-encode}
use pybmpmon.Protocol.BmpParser.MessageRoundTrip.{is_type_self, dispatches}

pub length-encode_frame : (f : BgpFrame) → IsFrame f → length (encode_frame f) ≡ frame_length f
length-encode_frame f valid =
    omega (arith, length-append f.marker (u16 (frame_length f) ++ f.body), valid.marker)

read_open_message-encode :
    (xs : List ℕ) (off : ℕ) (f : BgpFrame)
    → IsFrame f
    → At xs off (encode_frame f)
    → read_open_message xs off ≡ ok (encode_frame f)
unfolding read_open_message
read_open_message-encode xs off f valid at =
    let (_, rest) = At-cut xs off (off + 16) f.marker _ (omega (arith, valid.marker)) at in
    let length_at = At-front xs (off + 16) (u16 (frame_length f)) f.body rest in
    let size = length-encode_frame f valid in
    let frame_read : read_bytes xs off (frame_length f) ≡ ok (encode_frame f) =
      subst (λ n. read_bytes xs off n ≡ ok (encode_frame f)) size
        (read_bytes-At xs off (encode_frame f) at) in
    rw (
      le→ltb (length xs) (off + 19) (omega (arith, at.fits, valid.typed)),
      read_uint16-At xs (off + 16) _ length_at,
      le→ltb (length xs) (off + frame_length f) (omega (arith, at.fits)),
      frame_read,
    )

reason_of-code : (r : BmpPeerDownReason) → peer_down_reason_of (peer_down_reason_code r) ≡ some r
unfolding peer_down_reason_of peer_down_reason_code
reason_of-code r = ground arith

module _ (xs : List ℕ) (h : BmpHeader) (p : BmpPerPeerHeader) (valid : IsHeader h)
    (valid_p : IsPerPeerHeader p) where
  -- The bytes of a Peer Up message, with a valid header whose length is that of the message, a
  -- valid per-peer header, an address of the kind that the flag says, two well-formed OPENs and
  -- well-formed TLVs, are parsed into exactly these parts.
  pub parse_bmp_message-peer_up :
      (a : IpAddress) (local_port remote_port : ℕ) (sent received : BgpFrame) (ts : List BmpInfoTlv)
      → IsAddress (has_ipv6_flag p.peer_flags) a
      → IsFrame sent
      → IsFrame received
      → All IsInformationTlv ts
      → h.msg_type ≡ peer_up_notification
      → h.length
        ≡ 68 + frame_length sent + frame_length received + length (encode_information_tlvs ts)
      → At xs 0 (encode_peer_up h p (encode_session a local_port remote_port) sent received ts)
      → parse_bmp_message xs
        ≡ ok (
            peer_up_message (record {
              header = h;
              per_peer_header = p;
              local_address = a;
              local_port = local_port;
              remote_port = remote_port;
              sent_open_message = encode_frame sent;
              received_open_message = encode_frame received;
              information_tlvs = ts;
            }))
  unfolding dispatch parse_peer_up_message
  parse_bmp_message-peer_up a local_port remote_port sent received ts valid_a sent_ok received_ok
        valid_ts e size at =
      let (h_at, r1) = At-cut xs 0 6 (encode_header h) _ (omega arith) at in
      let p_size = length-encode_per_peer_header p valid_p in
      let (p_at, r2) = At-cut xs 6 48 (encode_per_peer_header p) _ (omega arith) r1 in
      let a_size = length-address (has_ipv6_flag p.peer_flags) a valid_a in
      let session_size = length-append (encode_address a) (u16 local_port ++ u16 remote_port) in
      let (session_at, r3) =
        At-cut xs 48 68 (encode_session a local_port remote_port) _ (omega arith) r2 in
      let (a_at, ports_at) = At-cut xs 48 64 (encode_address a) _ (omega arith) session_at in
      let (local_at, remote_at) = At-cut xs 64 66 (u16 local_port) _ (omega arith) ports_at in
      let sent_size = length-encode_frame sent sent_ok in
      let received_size = length-encode_frame received received_ok in
      let (sent_at, r4) =
        At-cut xs 68 (68 + length (encode_frame sent)) (encode_frame sent) _ refl r3 in
      let (received_at, ts_at) =
        At-cut xs _ (68 + length (encode_frame sent) + length (encode_frame received))
          (encode_frame received) _ refl r4 in
      rw (
        dispatches xs h valid peer_up_notification e h_at (omega (arith, ts_at.fits)),
        parse_bmp_header-encode xs h valid h_at,
        is_type_self h peer_up_notification e,
        parse_per_peer_header-encode xs 6 p valid_p p_at,
        le→ltb (length xs) 68 (omega (arith, sent_at.fits)),
        read_ip_address-At xs 48 _ a valid_a a_at,
        read_uint16-At xs 64 _ local_at,
        read_uint16-At xs 66 _ remote_at,
        read_open_message-encode xs 68 sent sent_ok sent_at,
        read_open_message-encode xs _ received received_ok received_at,
        parse_information_tlvs-encode xs _ h.length ts valid_ts (omega arith) ts_at,
      )

  -- The bytes of a Peer Down message, with a valid header whose length is that of the message
  -- and a valid per-peer header, are parsed into these headers, the reason and whatever follows
  -- it.
  pub parse_bmp_message-peer_down :
      (r : BmpPeerDownReason) (rest : List ℕ)
      → h.msg_type ≡ peer_down_notification
      → h.length ≡ 49 + length rest
      → At xs 0
          (encode_header h ++ (encode_per_peer_header p ++ (u8 (peer_down_reason_code r) ++ rest)))
      → parse_bmp_message xs
        ≡ ok (
            peer_down_message
              (record { header = h; per_peer_header = p; reason = r; additional_data = rest }))
  unfolding dispatch parse_peer_down_message
  parse_bmp_message-peer_down r rest e size at =
      let (h_at, r1) = At-cut xs 0 6 (encode_header h) _ (omega arith) at in
      let p_size = length-encode_per_peer_header p valid_p in
      let (p_at, r2) = At-cut xs 6 48 (encode_per_peer_header p) _ (omega arith) r1 in
      let (r_at, rest_at) = At-cut xs 48 49 (u8 (peer_down_reason_code r)) _ (omega arith) r2 in
      rw (
        dispatches xs h valid peer_down_notification e h_at (omega (arith, rest_at.fits)),
        parse_bmp_header-encode xs h valid h_at,
        is_type_self h peer_down_notification e,
        parse_per_peer_header-encode xs 6 p valid_p p_at,
        le→ltb (length xs) 49 (omega (arith, rest_at.fits)),
        read_uint8-At xs 48 _ r_at,
        reason_of-code r,
        read_bytes_until-At xs 49 rest h.length size rest_at,
      )
