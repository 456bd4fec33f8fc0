-- ===== src/Database/Connection/MacAddress.antt =====
-- connection.py: the codec of MAC addresses. A text is a list of ASCII code points.
use pybmpmon.Base.{
  ℕ, ◌+◌, ◌-◌, ◌*◌, ◌/◌, ◌%◌, Bool, true, false, ◌&&◌, ◌||◌, List, [], ◌∷◌, ◌++◌, Option, none,
  some, leb, ltb, ◌==◌, if◌then◌else◌, Result, ok, err, value_error, ◌>>=◌,
}
use pybmpmon.Utils.Text.{all_spaces, skip_spaces}

-- `value.replace("-", ":")`
abbrev pub replace_dash : List ℕ → List ℕ
replace_dash [] = []
replace_dash (c ∷ cs) = (if c == 45 then 58 else c) ∷ replace_dash cs

-- `text.split(":")`: the first part and the parts after it.
unfoldable pub split_colon : List ℕ → List ℕ × List (List ℕ)
split_colon [] = ([], [])
split_colon (c ∷ cs) =
    let (part, parts) = split_colon cs in if c == 58 then ([], part ∷ parts) else (c ∷ part, parts)

abbrev pub hex_value : ℕ → Option ℕ
hex_value c =
    if leb 48 c && leb c 57
    then some (c - 48)
    else if leb 97 c && leb c 102
    then some (c - 87)
    else if leb 65 c && leb c 70
    then some (c - 55)
    else none

-- `int(text, 16)`: blanks, a sign, a prefix, digits with underscores between them, blanks. The flag
-- says whether an underscore was the last; a minus sign was replaced before.
unfoldable pub more_hex_digits : Bool → ℕ → List ℕ → Result ℕ
more_hex_digits true acc [] = err value_error
more_hex_digits false acc [] = ok acc
more_hex_digits after_underscore acc (c ∷ cs) =
    let underscore = more_hex_digits true acc cs in
    elim (hex_value c) [
      | some d ↦ more_hex_digits false (acc * 16 + d) cs
      | none ↦
          if after_underscore
          then err value_error
          else if c == 95
          then underscore
          else if all_spaces (c ∷ cs)
          then ok acc
          else err value_error
    ]

unfoldable pub hex_digits : List ℕ → Result ℕ
unfolding more_hex_digits
hex_digits [] = err value_error
hex_digits (c ∷ cs) = elim (hex_value c) [
  | none ↦ err value_error
  | some d ↦ more_hex_digits false d cs
]

abbrev skip_one : ℕ → List ℕ → List ℕ
skip_one d [] = []
skip_one d (c ∷ cs) = if c == d then cs else c ∷ cs

unfoldable pub skip_prefix : List ℕ → List ℕ
skip_prefix [] = []
skip_prefix (c ∷ []) = c ∷ []
skip_prefix (c ∷ x ∷ cs) =
    if (c == 48) && ((x == 120) || (x == 88)) then skip_one 95 cs else c ∷ x ∷ cs

unfoldable pub hex_int : List ℕ → Result ℕ
unfolding hex_digits skip_prefix skip_spaces
hex_int text = hex_digits (skip_prefix (skip_one 43 (skip_spaces text)))

-- `bytes(…)` takes numbers below 256.
abbrev pub to_byte : ℕ → Result ℕ
to_byte n = if ltb n 256 then ok n else err value_error

unfoldable pub encode_parts : List (List ℕ) → Result (List ℕ)
encode_parts [] = ok []
encode_parts (part ∷ parts) = do
  n ← hex_int part
  b ← to_byte n
  rest ← encode_parts parts
  ok (b ∷ rest)

-- What the encoder is called with: None, bytes or a text.
pub data Value : Type 0 where
  null : Value
  raw text : List ℕ → Value

abbrev encode_text : List ℕ × List (List ℕ) → Result (List ℕ)
encode_text (part, parts) = encode_parts (part ∷ parts)

unfoldable pub encode_macaddr : Value → Result (Option (List ℕ))
encode_macaddr null = ok none
encode_macaddr (raw value) = ok (some value)
encode_macaddr (text value) = do
  value_bytes ← encode_text (split_colon (replace_dash value))
  ok (some value_bytes)

-- f"{b:02x}" of a byte.
abbrev pub hex_digit : ℕ → ℕ
hex_digit d = if ltb d 10 then d + 48 else d + 87

abbrev pub hex_byte : ℕ → List ℕ
hex_byte b = hex_digit (b / 16) ∷ hex_digit (b % 16) ∷ []

-- ":".join(…)
unfoldable pub join_bytes : List ℕ → List ℕ
join_bytes [] = []
join_bytes (b ∷ []) = hex_byte b
join_bytes (b ∷ c ∷ bs) = hex_byte b ++ (58 ∷ join_bytes (c ∷ bs))

unfoldable pub decode_macaddr : Option (List ℕ) → Option (List ℕ)
unfolding join_bytes
decode_macaddr none = none
decode_macaddr (some value) = some (join_bytes value)
