-- ===== src/Database/Connection/Examples.antt =====
-- Tests of connection.py on concrete values, and its theorems applied to them.
use pybmpmon.Base.{
  ℕ, ◌≡◌, refl, List, [], ◌∷◌, Option, none, some, All, ok, err, value_error, arith,
}
use pybmpmon.Utils.Text.{skip_spaces}
use pybmpmon.Database.Connection.MacAddress.{
  text, encode_macaddr, decode_macaddr, encode_parts, split_colon, hex_int, hex_digits,
  more_hex_digits, skip_prefix,
}
use pybmpmon.Database.Connection.MacRoundTrip.{encode_macaddr-decode_macaddr}
use pybmpmon.Database.Connection.Pool.{
  refused, fails, connects, Attempt, returned, raised, calls, IsUnusable, get_database_pool,
  connect, refused_then-IsUnusable,
}

-- "8-0x1F"
dashes_and_prefix :
    encode_macaddr (text (56 ∷ 45 ∷ 48 ∷ 120 ∷ 49 ∷ 70 ∷ [])) ≡ ok (some (8 ∷ 31 ∷ []))
unfolding encode_macaddr encode_parts split_colon hex_int hex_digits more_hex_digits skip_prefix
    skip_spaces
dashes_and_prefix = refl

-- "100", a number that is no byte
no_byte : encode_macaddr (text (49 ∷ 48 ∷ 48 ∷ [])) ≡ err value_error
unfolding encode_macaddr encode_parts split_colon hex_int hex_digits more_hex_digits skip_prefix
    skip_spaces
no_byte = refl

encode_macaddr-decode_macaddr_example :
    (value : List ℕ) × (decode_macaddr (some (8 ∷ 0 ∷ 43 ∷ [])) ≡ some value)
    × (encode_macaddr (text value) ≡ ok (some (8 ∷ 0 ∷ 43 ∷ [])))
encode_macaddr-decode_macaddr_example =
    encode_macaddr-decode_macaddr 8 (0 ∷ 43 ∷ []) (omega arith, (omega arith, (omega arith, tt)))

-- A pool that is named by a number; it fails at its first query, and is kept.
failed_query_keeps_pool :
    calls {Pool = ℕ} (fails 7 ∷ refused ∷ []) none ≡ raised ∷ returned (some 7) ∷ []
unfolding calls get_database_pool connect
failed_query_keeps_pool = refl

refused_then-IsUnusable_example :
    (got : List (Attempt (Option ℕ))) × (calls (refused ∷ connects 7 ∷ connects 8 ∷ []) none
      ≡ raised ∷ got)
    × All IsUnusable got
refused_then-IsUnusable_example = refused_then-IsUnusable (connects 7 ∷ connects 8 ∷ [])
