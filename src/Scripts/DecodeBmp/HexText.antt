-- ===== src/Scripts/DecodeBmp/HexText.antt =====
-- The hexadecimal text of bytes is read back.
use pybmpmon.Base.{ℕ, ◌<◌, ◌/◌, ◌%◌, ◌≡◌, refl, ◌∙◌, ap, false, List, [], ◌∷◌, ◌++◌, ok, All, arith}
use mathlib.Core.List.{reverse, reverse_aux, reverse-reverse}
use pybmpmon.Utils.Text.{is_space, skip_spaces}
use pybmpmon.Utils.Binary.{IsByte}
use pybmpmon.Database.Connection.MacAddress.{hex_byte, hex_digit}
use pybmpmon.Database.Connection.MacRoundTrip.{hex_value-hex_digit}
use pybmpmon.Scripts.DecodeBmp.{remove_blanks, strip, from_hex}

-- Two digits for each byte.
abbrev pub hex_text : List ℕ → List ℕ
hex_text [] = []
hex_text (b ∷ bs) = hex_byte b ++ hex_text bs

hex_digit_full : (d : ℕ) → d < 16 → is_space (hex_digit d) ≡ false
hex_digit_full d h = ground arith

from_hex-hex_text : (bs : List ℕ) → All IsByte bs → from_hex (hex_text bs) ≡ ok bs
unfolding from_hex
from_hex-hex_text [] h = refl
from_hex-hex_text (b ∷ bs) (h, hs) = ground (
  arith,
  hex_digit_full (b / 16),
  hex_value-hex_digit (b / 16),
  hex_value-hex_digit (b % 16),
  from_hex-hex_text bs hs,
)

abbrev IsFull : ℕ → Type 0
IsFull c = is_space c ≡ false

hex_text-IsFull : (bs : List ℕ) → All IsByte bs → All IsFull (hex_text bs)
hex_text-IsFull [] h = tt
hex_text-IsFull (b ∷ bs) (h, hs) = (
  hex_digit_full (b / 16) (omega arith),
  (hex_digit_full (b % 16) (omega arith), hex_text-IsFull bs hs),
)

remove_blanks-IsFull : (xs : List ℕ) → All IsFull xs → remove_blanks xs ≡ xs
unfolding remove_blanks
remove_blanks-IsFull [] h = refl
remove_blanks-IsFull (x ∷ xs) (h, hs) = ground (arith, remove_blanks-IsFull xs hs)

skip_spaces-IsFull : (xs : List ℕ) → All IsFull xs → skip_spaces xs ≡ xs
unfolding skip_spaces
skip_spaces-IsFull [] h = refl
skip_spaces-IsFull (x ∷ xs) (h, hs) = rw h refl

All-reverse_aux : (xs ys : List ℕ) → All IsFull xs → All IsFull ys → All IsFull (reverse_aux xs ys)
All-reverse_aux [] ys h k = k
All-reverse_aux (x ∷ xs) ys (h, hs) k = All-reverse_aux xs (x ∷ ys) hs (h, k)

strip-IsFull : (xs : List ℕ) → All IsFull xs → strip xs ≡ xs
unfolding strip
strip-IsFull xs h =
    ap (λ t. reverse (skip_spaces (reverse t))) (skip_spaces-IsFull xs h)
    ∙ ap reverse (skip_spaces-IsFull (reverse xs) (All-reverse_aux xs [] h tt))
    ∙ reverse-reverse xs

pub read_hex_text :
    (bs : List ℕ) → All IsByte bs → from_hex (strip (remove_blanks (hex_text bs))) ≡ ok bs
read_hex_text bs h =
    let full = hex_text-IsFull bs h in
    ap (λ t. from_hex (strip t)) (remove_blanks-IsFull (hex_text bs) full)
    ∙ ap from_hex (strip-IsFull (hex_text bs) full)
    ∙ from_hex-hex_text bs h
