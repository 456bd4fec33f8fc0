-- ===== src/Database/Connection/MacRoundTrip.antt =====
-- The codec of MAC addresses there and back.
use pybmpmon.Base.{ℕ, ◌/◌, ◌%◌, ◌<◌, ◌≡◌, refl, ◌∙◌, List, [], ◌∷◌, ◌++◌, some, ok, All, arith}
use pybmpmon.Utils.Text.{skip_spaces}
use pybmpmon.Utils.Binary.{IsByte}
use pybmpmon.Database.Connection.MacAddress.{
  text, replace_dash, split_colon, hex_value, more_hex_digits, hex_digits, skip_prefix, hex_int,
  encode_parts, encode_macaddr, hex_digit, hex_byte, join_bytes, decode_macaddr,
}

pub hex_value-hex_digit : (d : ℕ) → d < 16 → hex_value (hex_digit d) ≡ some d
hex_value-hex_digit d h = ground arith

hex_int-hex_byte : (b : ℕ) → b < 256 → hex_int (hex_byte b) ≡ ok b
unfolding hex_int hex_digits skip_prefix skip_spaces more_hex_digits
hex_int-hex_byte b h = ground (arith, hex_value-hex_digit (b / 16), hex_value-hex_digit (b % 16))

-- The text of a byte in front of a text.
front :
    (b : ℕ) (cs : List ℕ)
    → b < 256
    → split_colon (replace_dash (hex_byte b ++ cs))
      ≡ (hex_byte b ++ (split_colon (replace_dash cs)).0, (split_colon (replace_dash cs)).1)
unfolding split_colon
front b cs h = ground arith

-- The bytes of a text of parts.
abbrev parts_of : List ℕ → List (List ℕ)
parts_of [] = []
parts_of (b ∷ bs) = hex_byte b ∷ parts_of bs

split_join :
    (b : ℕ) (bs : List ℕ)
    → All IsByte (b ∷ bs)
    → split_colon (replace_dash (join_bytes (b ∷ bs))) ≡ (hex_byte b, parts_of bs)
unfolding join_bytes split_colon
split_join b [] (h, hs) = front b [] h
split_join b (c ∷ bs) (h, hs) =
    front b (58 ∷ join_bytes (c ∷ bs)) h ∙ ground (arith, split_join c bs hs)

encode_parts-parts_of : (bs : List ℕ) → All IsByte bs → encode_parts (parts_of bs) ≡ ok bs
unfolding encode_parts
encode_parts-parts_of [] h = refl
encode_parts-parts_of (b ∷ bs) (h, hs) =
    ground (arith, hex_int-hex_byte b h, encode_parts-parts_of bs hs)

-- The text that `_decode_macaddr` makes of bytes, one at least, is made into these bytes again
-- by `_encode_macaddr`.
pub encode_macaddr-decode_macaddr :
    (b : ℕ) (bs : List ℕ)
    → All IsByte (b ∷ bs)
    → (value : List ℕ) × (decode_macaddr (some (b ∷ bs)) ≡ some value)
      × (encode_macaddr (text value) ≡ ok (some (b ∷ bs)))
unfolding decode_macaddr encode_macaddr
encode_macaddr-decode_macaddr b bs h =
    (join_bytes (b ∷ bs), refl, ground (arith, split_join b bs h, encode_parts-parts_of (b ∷ bs) h))
