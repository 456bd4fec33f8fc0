-- ===== src/Protocol/BmpParser/TlvsRoundTrip.antt =====
-- The information TLVs that `parse_information_tlvs` returns are those that stand in the bytes.
use pybmpmon.Base.{
  ℕ, zero, suc, ◌+◌, ◌-◌, ◌<◌, ◌≤◌, ◌≡◌, ◌↔◌, List, [], ◌∷◌, length, length-append, All, le→ltb,
  lt→ltb, ok, arith,
}
use pybmpmon.Base.Slices.{At, At-cut, At-join, At-nil}
use pybmpmon.Utils.Binary.{IsByte, read_uint16, read_bytes}
use pybmpmon.Utils.Binary.Reads.{read_uint16-At, read_bytes-At, read_uint16-eq-ok, read_bytes-eq-ok}
use pybmpmon.Utils.Binary.Wire.{u16}
use pybmpmon.Protocol.Bmp.{BmpInfoTlv}
use pybmpmon.Protocol.BmpParser.Tlvs.{
  parse_information_tlv, information_tlvs_loop, parse_information_tlvs,
}
use pybmpmon.Protocol.BmpParser.Wire.{
  encode_information_tlv, encode_information_tlvs, IsInformationTlv,
}

length-encode : (t : BmpInfoTlv) → length (encode_information_tlv t) ≡ 4 + length t.info_value
length-encode t = omega arith

module _ (xs : List ℕ) (stop : ℕ) where
  parse_information_tlv-encode :
      (pos : ℕ) (t : BmpInfoTlv)
      → IsInformationTlv t
      → pos + 4 + t.info_length ≤ stop
      → At xs pos (encode_information_tlv t)
      → parse_information_tlv xs pos stop ≡ ok t
  unfolding parse_information_tlv
  parse_information_tlv-encode pos t (_, _, same) room at =
      let (type_at, rest) = At-cut xs pos (pos + 2) (u16 t.info_type) _ (omega arith) at in
      let (length_at, value_at) =
        At-cut xs (pos + 2) (pos + 4) (u16 t.info_length) _ (omega arith) rest in
      let value_read : read_bytes xs (pos + 4) t.info_length ≡ ok t.info_value =
        rw same at (read_bytes-At xs (pos + 4) t.info_value value_at) in
      rw (
        le→ltb stop (pos + 4) (omega arith),
        read_uint16-At xs pos _ type_at,
        read_uint16-At xs (pos + 2) _ length_at,
        le→ltb stop (pos + 4 + t.info_length) room,
        value_read,
      )

  information_tlvs_loop-encode :
      (fuel pos : ℕ) (ts : List BmpInfoTlv)
      → All IsInformationTlv ts
      → stop - pos < fuel
      → pos + length (encode_information_tlvs ts) ≡ stop
      → At xs pos (encode_information_tlvs ts)
      → information_tlvs_loop fuel xs pos stop ≡ ok ts
  unfolding information_tlvs_loop
  information_tlvs_loop-encode zero pos ts valid h e at = absurd (omega arith)
  information_tlvs_loop-encode (suc fuel) pos [] valid h e at = ground arith
  information_tlvs_loop-encode (suc fuel) pos (t ∷ ts) (valid_t, valid) h e at =
      let size : length (encode_information_tlv t) ≡ 4 + t.info_length =
        omega (arith, length-encode t) in
      let whole = length-append (encode_information_tlv t) (encode_information_tlvs ts) in
      let (t_at, ts_at) =
        At-cut xs pos (pos + 4 + t.info_length) (encode_information_tlv t) _ (omega arith) at in
      rw (
        lt→ltb pos stop (omega (arith, whole)),
        parse_information_tlv-encode pos t valid_t (omega (arith, whole)) t_at,
        information_tlvs_loop-encode fuel (pos + 4 + t.info_length) ts valid (omega (arith, whole))
            (omega (arith, whole)) ts_at,
      )

  -- What a successful round has read.
  tlv_steps :
      (pos : ℕ) (t : BmpInfoTlv)
      → parse_information_tlv xs pos stop ≡ ok t
      → (read_uint16 xs pos ≡ ok t.info_type)
        × (read_uint16 xs (pos + 2) ≡ ok t.info_length)
        × (read_bytes xs (pos + 4) t.info_length ≡ ok t.info_value)
        × (pos + 4 + t.info_length ≤ stop)
  unfolding parse_information_tlv
  tlv_steps pos t h = (ground arith, ground arith, ground arith, ground arith)

  parse_information_tlv-eq-ok :
      (pos : ℕ) (t : BmpInfoTlv)
      → All IsByte xs
      → parse_information_tlv xs pos stop ≡ ok t
      → IsInformationTlv t × At xs pos (encode_information_tlv t) × (pos + 4 + t.info_length ≤ stop)
  parse_information_tlv-eq-ok pos t bytes h =
      let (type_read, length_read, value_read, room) = tlv_steps pos t h in
      let (type_at, small_type) = read_uint16-eq-ok xs bytes pos t.info_type type_read in
      let (length_at, small_length) =
        read_uint16-eq-ok xs bytes (pos + 2) t.info_length length_read in
      let (value_at, same, _) =
        read_bytes-eq-ok xs (pos + 4) t.info_length t.info_value value_read in
      (
        (small_type, small_length, same),
        At-join xs pos (pos + 2) (u16 t.info_type) _ (omega arith) type_at
            (At-join xs (pos + 2) (pos + 4) (u16 t.info_length) _ (omega arith) length_at value_at),
        room,
      )

  information_tlvs_loop-eq-ok :
      (fuel pos : ℕ) (ts : List BmpInfoTlv)
      → All IsByte xs
      → stop ≤ length xs
      → pos ≤ stop
      → information_tlvs_loop fuel xs pos stop ≡ ok ts
      → All IsInformationTlv ts
        × At xs pos (encode_information_tlvs ts)
        × (pos + length (encode_information_tlvs ts) ≡ stop)
  unfolding information_tlvs_loop
  information_tlvs_loop-eq-ok zero pos ts bytes fits h e = cc
  information_tlvs_loop-eq-ok (suc fuel) pos [] bytes fits h e =
      let done : pos ≡ stop = ground arith in (tt, At-nil xs pos (omega arith), omega arith)
  information_tlvs_loop-eq-ok (suc fuel) pos (t ∷ ts) bytes fits h e =
      let first : parse_information_tlv xs pos stop ≡ ok t = ground arith in
      let (valid_t, t_at, room) = parse_information_tlv-eq-ok pos t bytes first in
      let rest : information_tlvs_loop fuel xs (pos + 4 + t.info_length) stop ≡ ok ts =
        ground arith in
      let (valid, ts_at, ends) =
        information_tlvs_loop-eq-ok fuel (pos + 4 + t.info_length) ts bytes fits room rest in
      (
        (valid_t, valid),
        At-join xs pos (pos + 4 + t.info_length) (encode_information_tlv t) _
            (omega (arith, length-encode t)) t_at ts_at,
        omega (
          arith,
          length-encode t,
          length-append (encode_information_tlv t) (encode_information_tlvs ts),
        ),
      )

pub parse_information_tlvs-encode :
    (xs : List ℕ) (off stop : ℕ) (ts : List BmpInfoTlv)
    → All IsInformationTlv ts
    → off + length (encode_information_tlvs ts) ≡ stop
    → At xs off (encode_information_tlvs ts)
    → parse_information_tlvs xs off stop ≡ ok ts
unfolding parse_information_tlvs
parse_information_tlvs-encode xs off stop ts valid =
    information_tlvs_loop-encode xs stop (suc (stop - off)) off ts valid (omega arith)

-- On bytes, between `off` and `stop` inside the input, `parse_information_tlvs` returns a list
-- exactly if the formats of its TLVs fill that range one after the other.
pub parse_information_tlvs_iff :
    (xs : List ℕ) (off stop : ℕ) (ts : List BmpInfoTlv)
    → All IsByte xs
    → off ≤ stop
    → stop ≤ length xs
    → (parse_information_tlvs xs off stop ≡ ok ts) ↔ (
        All IsInformationTlv ts
        × At xs off (encode_information_tlvs ts)
        × (off + length (encode_information_tlvs ts) ≡ stop))
unfolding parse_information_tlvs
parse_information_tlvs_iff xs off stop ts bytes h fits = (
  information_tlvs_loop-eq-ok xs stop (suc (stop - off)) off ts bytes fits h,
  λ p. parse_information_tlvs-encode xs off stop ts p.0 p.2 p.1,
)
