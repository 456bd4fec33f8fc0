-- ===== src/Protocol/BmpParser/Tlvs.antt =====
-- bmp_parser.py: the loops over information TLVs and over statistics TLVs.
use pybmpmon.Base.{
  ℕ, zero, suc, ◌+◌, ◌-◌, ◌*◌, ◌^◌, bit_or, List, [], ◌∷◌, ltb, ◌==◌, if◌then◌else◌,
  bmp_parse_error, out_of_fuel, Result, ok, err, ◌>>=◌, on_value_error,
}
use pybmpmon.Utils.Binary.{read_uint16, read_uint32, read_bytes, from_bytes}
use pybmpmon.Protocol.Bmp.{BmpInfoTlv, BmpStatTlv}

-- One round of the loop of `parse_information_tlvs`.
unfoldable pub parse_information_tlv : List ℕ → ℕ → ℕ → Result BmpInfoTlv
parse_information_tlv data_bytes pos stop =
    if ltb stop (pos + 4)
    then err bmp_parse_error
    else on_value_error bmp_parse_error do
      info_type ← read_uint16 data_bytes pos
      info_length ← read_uint16 data_bytes (pos + 2)
      if ltb stop (pos + 4 + info_length) then err bmp_parse_error else do
        info_value ← read_bytes data_bytes (pos + 4) info_length
        ok (record { info_type = info_type; info_length = info_length; info_value = info_value })

-- `while pos < end`. What the first round appends stands first in the result.
unfoldable pub information_tlvs_loop : ℕ → List ℕ → ℕ → ℕ → Result (List BmpInfoTlv)
information_tlvs_loop zero data_bytes pos stop = err out_of_fuel
information_tlvs_loop (suc fuel) data_bytes pos stop =
    let rounds : Result (List BmpInfoTlv) = (do
      tlv ← parse_information_tlv data_bytes pos stop
      tlvs ← information_tlvs_loop fuel data_bytes (pos + 4 + tlv.info_length) stop
      ok (tlv ∷ tlvs)) in
    if ltb pos stop then rounds else ok []

-- Each round moves on by 4 bytes at least.
unfoldable pub parse_information_tlvs : List ℕ → ℕ → ℕ → Result (List BmpInfoTlv)
parse_information_tlvs data_bytes offset stop =
    information_tlvs_loop (suc (stop - offset)) data_bytes offset stop

-- The value of a statistics TLV by its length.
unfoldable pub read_stat_value : List ℕ → ℕ → ℕ → Result ℕ
read_stat_value data_bytes tlv_offset stat_length =
    if stat_length == 4
    then read_uint32 data_bytes (tlv_offset + 4)
    else if stat_length == 8
    then (do
      high ← read_uint32 data_bytes (tlv_offset + 4)
      low ← read_uint32 data_bytes (tlv_offset + 8)
      ok (bit_or (high * 2 ^ 32) low))
    else (do
      stat_bytes ← read_bytes data_bytes (tlv_offset + 4) stat_length
      ok (from_bytes stat_bytes))

-- One round of the loop of `parse_statistics_report_message`.
unfoldable pub parse_stat_tlv : List ℕ → ℕ → ℕ → Result BmpStatTlv
parse_stat_tlv data_bytes tlv_offset message_length =
    if ltb message_length (tlv_offset + 4)
    then err bmp_parse_error
    else on_value_error bmp_parse_error do
      stat_type ← read_uint16 data_bytes tlv_offset
      stat_length ← read_uint16 data_bytes (tlv_offset + 2)
      if ltb message_length (tlv_offset + 4 + stat_length) then err bmp_parse_error else do
        stat_value ← read_stat_value data_bytes tlv_offset stat_length
        ok (record { stat_type = stat_type; stat_length = stat_length; stat_value = stat_value })

-- `for _ in range(stats_count)`
unfoldable pub stat_tlvs_loop : ℕ → List ℕ → ℕ → ℕ → Result (List BmpStatTlv)
stat_tlvs_loop zero data_bytes tlv_offset message_length = ok []
stat_tlvs_loop (suc rounds) data_bytes tlv_offset message_length = do
  tlv ← parse_stat_tlv data_bytes tlv_offset message_length
  tlvs ← stat_tlvs_loop rounds data_bytes (tlv_offset + 4 + tlv.stat_length) message_length
  ok (tlv ∷ tlvs)
