-- ===== src/Scripts/DecodeBmp/Examples.antt =====
-- Tests of decode_bmp.py, and its theorem applied to a Route Monitoring message.
use pybmpmon.Base.{
  ◌≡◌, refl, ℕ, List, [], ◌∷◌, ◌++◌, length, replicate, ok, err, value_error, arith,
}
use pybmpmon.Utils.Text.{skip_spaces}
use pybmpmon.Protocol.BmpParser.Messages.{parse_bmp_message}
use pybmpmon.Scripts.DecodeBmp.{
  Line, total_length, decode_bmp_message, from_hex, strip, remove_blanks,
}
use pybmpmon.Scripts.DecodeBmp.HexText.{hex_text}
use pybmpmon.Scripts.DecodeBmp.Laws.{collect, part, message_parts, decode_bmp_message-hex_text}

-- " 0a F\t0\n" is two bytes: the spaces are removed first, and the line end last.
blanks_between :
    from_hex (strip (remove_blanks (32 ∷ 48 ∷ 97 ∷ 32 ∷ 9 ∷ 70 ∷ 48 ∷ 10 ∷ [])))
    ≡ ok (10 ∷ 240 ∷ [])
unfolding from_hex strip remove_blanks skip_spaces
blanks_between = refl

-- "0" and "0g"
no_pair : from_hex (48 ∷ []) ≡ err value_error
unfolding from_hex
no_pair = refl

no_digit : from_hex (48 ∷ 103 ∷ []) ≡ err value_error
unfolding from_hex
no_digit = refl

-- A header of 75 bytes and the type 0, a per-peer header, and an UPDATE that announces 10.1.2.0/24.
abbrev message : List ℕ
message =
    (3 ∷ 0 ∷ 0 ∷ 0 ∷ 75 ∷ 0 ∷ [])
    ++ (replicate 42 0 ++ (replicate 16 255 ++ (0 ∷ 27 ∷ 2 ∷ 0 ∷ 0 ∷ 0 ∷ 0 ∷ 24 ∷ 10 ∷ 1 ∷ 2 ∷ [])))

decode_bmp_message-hex_text_example :
    (lines : List Line) × (decode_bmp_message (hex_text message)
      ≡ ok (total_length (length message) ∷ lines))
    × (collect part lines ≡ message_parts (parse_bmp_message message))
decode_bmp_message-hex_text_example = decode_bmp_message-hex_text message (omega arith)
