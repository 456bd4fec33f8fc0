-- ===== src/Protocol/BmpParser/ReportRoundTrip.antt =====
-- Statistics Report and Termination messages: the bytes of a well-formed message are parsed back
-- into it, each statistic with the number that its bytes write in network order.
use pybmpmon.Base.{
  ℕ, zero, suc, ◌+◌, ◌*◌, ◌<◌, ◌≤◌, ◌^◌, ◌≡◌, sym, ap, ◌∙◌, refl, length-take, length-drop,
  All-drop, List, [], ◌∷◌, ◌++◌, length, length-append, take, drop, All, map, bit_or, le→ltb, ok,
  arith,
}
use mathlib.Core.Path.{subst}
use native.Mathlib.Decide.{ℕ_discrete}
use pybmpmon.Base.Bits.{bit_or_add}
use pybmpmon.Base.Slices.{slice, At, At-cut}
use pybmpmon.Utils.Binary.{IsByte, from_bytes, read_uint32}
use pybmpmon.Utils.Binary.Wire.{u16, u32}
use pybmpmon.Utils.Binary.Reads.{read_uint16-At, read_uint32-At, read_bytes-At, read_uint32-fits}
use pybmpmon.Protocol.Bmp.{
  BmpHeader, BmpPerPeerHeader, BmpInfoTlv, statistics_report, termination,
  statistics_report_message, termination_message,
}
use pybmpmon.Protocol.BmpParser.Tlvs.{read_stat_value, parse_stat_tlv, stat_tlvs_loop}
use pybmpmon.Protocol.BmpParser.Messages.{
  parse_statistics_report_message, parse_termination_message, dispatch, parse_bmp_message,
}
use pybmpmon.Protocol.BmpParser.Wire.{
  encode_header, IsHeader, encode_per_peer_header, IsPerPeerHeader, encode_information_tlvs,
  IsInformationTlv, Statistic, encode_statistic, encode_statistics, IsStatistic, to_stat_tlv,
}
use pybmpmon.Protocol.BmpParser.HeaderRoundTrip.{parse_bmp_header-encode}
use pybmpmon.Protocol.BmpParser.PeerHeaderRoundTrip.{
  parse_per_peer_header-encode, length-encode_per_peer_header,
}
use pybmpmon.Protocol.BmpParser.TlvsRoundTrip.{parse_information_tlvs-encode}
use pybmpmon.Protocol.BmpParser.MessageRoundTrip.{is_type_self, dispatches}

four_bytes : (bs : List ℕ) → length bs ≡ 4 → (a b c d : ℕ) × (bs ≡ a ∷ b ∷ c ∷ d ∷ [])
four_bytes [] h = absurd (omega arith)
four_bytes (a ∷ []) h = absurd (omega arith)
four_bytes (a ∷ b ∷ []) h = absurd (omega arith)
four_bytes (a ∷ b ∷ c ∷ []) h = absurd (omega arith)
four_bytes (a ∷ b ∷ c ∷ d ∷ []) h = (a, b, c, d, refl)
four_bytes (a ∷ b ∷ c ∷ d ∷ e ∷ bs) h = absurd (omega arith)

word_small :
    (p q r s : ℕ) → All IsByte (p ∷ q ∷ r ∷ s ∷ []) → from_bytes (p ∷ q ∷ r ∷ s ∷ []) < 2 ^ 32
unfolding from_bytes
word_small p q r s (hp, (hq, (hr, (hs, _)))) = omega arith

-- Two words of four bytes, joined as the code joins them, are the number of all eight.
join_words :
    (hs ls : List ℕ)
    → length hs ≡ 4
    → length ls ≡ 4
    → All IsByte ls
    → bit_or (from_bytes hs * 2 ^ 32) (from_bytes ls) ≡ from_bytes (hs ++ ls)
unfolding from_bytes
join_words hs ls size_hs size_ls bytes =
    let (a, b, c, d, e) = four_bytes hs size_hs in
    let (p, q, r, s, f) = four_bytes ls size_ls in
    let low = p ∷ q ∷ r ∷ s ∷ [] in
    let small = word_small p q r s (subst (All IsByte) f bytes) in
    let joined : bit_or (from_bytes (a ∷ b ∷ c ∷ d ∷ []) * 2 ^ 32) (from_bytes low)
        ≡ from_bytes (a ∷ b ∷ c ∷ d ∷ low) =
      omega (arith, bit_or_add (from_bytes (a ∷ b ∷ c ∷ d ∷ [])) (from_bytes low) small) in
    rw (e, f) joined

take-drop : (n : ℕ) (bs : List ℕ) → take n bs ++ drop n bs ≡ bs
take-drop zero bs = refl
take-drop (suc n) [] = refl
take-drop (suc n) (b ∷ bs) = ap (λ t. b ∷ t) (take-drop n bs)

module _ (xs : List ℕ) where
  slice-At : (off n : ℕ) (bs : List ℕ) → length bs ≡ n → At xs off bs → slice xs off n ≡ bs
  slice-At off n bs size at = subst (λ k. slice xs off k ≡ bs) size at.holds

  read_word :
      (off : ℕ) (bs : List ℕ)
      → length bs ≡ 4
      → At xs off bs
      → read_uint32 xs off ≡ ok (from_bytes bs)
  read_word off bs four at =
      read_uint32-fits xs off (omega (arith, at.fits))
      ∙ ap (λ w. ok (from_bytes w)) (slice-At off 4 bs four at)

  read_long :
      (off : ℕ) (bs : List ℕ)
      → length bs ≡ 8
      → All IsByte bs
      → At xs (off + 4) bs
      → read_stat_value xs off 8 ≡ ok (from_bytes bs)
  unfolding read_stat_value
  read_long off bs eight bytes at =
      let halves = take-drop 4 bs in
      let size_high : length (take 4 bs) ≡ 4 = omega (arith, length-take 4 bs) in
      let size_low : length (drop 4 bs) ≡ 4 = omega (arith, length-drop 4 bs) in
      let (high_at, low_at) =
        At-cut xs (off + 4) (off + 8) (take 4 bs) (drop 4 bs) (omega arith)
          (subst (At xs (off + 4)) (sym halves) at) in
      rw (
        read_word (off + 4) (take 4 bs) size_high high_at,
        read_word (off + 8) (drop 4 bs) size_low low_at,
        join_words (take 4 bs) (drop 4 bs) size_high size_low (All-drop IsByte 4 bs bytes),
        halves,
      )

  -- The three ways to read a value give the number of its bytes.
  read_stat_value-encode :
      (off : ℕ) (bs : List ℕ)
      → All IsByte bs
      → At xs (off + 4) bs
      → read_stat_value xs off (length bs) ≡ ok (from_bytes bs)
  unfolding read_stat_value
  read_stat_value-encode off bs bytes at = elim (ℕ_discrete (length bs) 4) [
    | yes four ↦ ground (arith, read_word (off + 4) bs four at)
    | no other ↦ elim (ℕ_discrete (length bs) 8) [
      | yes eight ↦ rw eight (read_long off bs eight bytes at)
      | no odd ↦ ground (arith, read_bytes-At xs (off + 4) bs at)
    ]
  ]

  parse_stat_tlv-encode :
      (off stop : ℕ) (s : Statistic)
      → IsStatistic s
      → off + 4 + length s.stat_bytes ≤ stop
      → At xs off (encode_statistic s)
      → parse_stat_tlv xs off stop ≡ ok (to_stat_tlv s)
  unfolding parse_stat_tlv
  parse_stat_tlv-encode off stop s bytes room at =
      let (type_at, rest) = At-cut xs off (off + 2) (u16 s.stat_type) _ (omega arith) at in
      let (length_at, value_at) =
        At-cut xs (off + 2) (off + 4) (u16 (length s.stat_bytes)) _ (omega arith) rest in
      rw (
        le→ltb stop (off + 4) (omega arith),
        read_uint16-At xs off _ type_at,
        read_uint16-At xs (off + 2) _ length_at,
        le→ltb stop (off + 4 + length s.stat_bytes) room,
        read_stat_value-encode off s.stat_bytes bytes value_at,
      )

  stat_tlvs_loop-encode :
      (off stop : ℕ) (ss : List Statistic)
      → All IsStatistic ss
      → off + length (encode_statistics ss) ≤ stop
      → At xs off (encode_statistics ss)
      → stat_tlvs_loop (length ss) xs off stop ≡ ok (map to_stat_tlv ss)
  unfolding stat_tlvs_loop
  stat_tlvs_loop-encode off stop [] valid room at = refl
  stat_tlvs_loop-encode off stop (s ∷ ss) (valid_s, valid) room at =
      let whole = length-append (encode_statistic s) (encode_statistics ss) in
      let next = off + 4 + length s.stat_bytes in
      let (s_at, ss_at) = At-cut xs off next (encode_statistic s) _ (omega arith) at in
      rw (
        parse_stat_tlv-encode off stop s valid_s (omega (arith, whole)) s_at,
        stat_tlvs_loop-encode next stop ss valid (omega (arith, whole)) ss_at,
      )

module _ (xs : List ℕ) (h : BmpHeader) (valid : IsHeader h) where
  -- The bytes of a Statistics Report, with a valid header whose length is that of the message, a
  -- valid per-peer header and the count of its statistics, are parsed into the type, the length
  -- and the number of each statistic, whatever its length.
  pub parse_bmp_message-statistics_report :
      (p : BmpPerPeerHeader) (ss : List Statistic)
      → IsPerPeerHeader p
      → All IsStatistic ss
      → h.msg_type ≡ statistics_report
      → h.length ≡ 52 + length (encode_statistics ss)
      → At xs 0 (
          encode_header h
          ++ (encode_per_peer_header p ++ (u32 (length ss) ++ encode_statistics ss)))
      → parse_bmp_message xs
        ≡ ok (
            statistics_report_message (record {
              header = h;
              per_peer_header = p;
              stats_count = length ss;
              stats_tlvs = map to_stat_tlv ss;
            }))
  unfolding dispatch parse_statistics_report_message
  parse_bmp_message-statistics_report p ss valid_p valid_ss e size at =
      let (h_at, r1) = At-cut xs 0 6 (encode_header h) _ (omega arith) at in
      let p_size = length-encode_per_peer_header p valid_p in
      let (p_at, r2) = At-cut xs 6 48 (encode_per_peer_header p) _ (omega arith) r1 in
      let (count_at, ss_at) = At-cut xs 48 52 (u32 (length ss)) _ (omega arith) r2 in
      rw (
        dispatches xs h valid statistics_report e h_at (omega (arith, ss_at.fits)),
        parse_bmp_header-encode xs h valid h_at,
        is_type_self h statistics_report e,
        parse_per_peer_header-encode xs 6 p valid_p p_at,
        le→ltb (length xs) 52 (omega (arith, ss_at.fits)),
        read_uint32-At xs 48 _ count_at,
        stat_tlvs_loop-encode xs 52 h.length ss valid_ss (omega arith) ss_at,
      )

  -- The bytes of a Termination message, with a valid header whose length is that of the message
  -- and well-formed TLVs, are parsed into that header and these TLVs.
  pub parse_bmp_message-termination :
      (ts : List BmpInfoTlv)
      → All IsInformationTlv ts
      → h.msg_type ≡ termination
      → h.length ≡ 6 + length (encode_information_tlvs ts)
      → At xs 0 (encode_header h ++ encode_information_tlvs ts)
      → parse_bmp_message xs
        ≡ ok (termination_message (record { header = h; information_tlvs = ts }))
  unfolding dispatch parse_termination_message
  parse_bmp_message-termination ts valid_ts e size at =
      let (h_at, ts_at) = At-cut xs 0 6 (encode_header h) _ (omega arith) at in
      rw (
        dispatches xs h valid termination e h_at (omega (arith, ts_at.fits)),
        parse_bmp_header-encode xs h valid h_at,
        is_type_self h termination e,
        parse_information_tlvs-encode xs 6 h.length ts valid_ts (sym size) ts_at,
      )
