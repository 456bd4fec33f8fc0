-- ===== src/Protocol/BgpParser/AsPath.antt =====
-- bgp_parser.py: the AS_PATH attribute.
use pybmpmon.Base.{
  ℕ, zero, suc, ◌+◌, ◌-◌, ◌*◌, ◌/◌, ◌||◌, List, [], ◌∷◌, ◌++◌, length, ltb, leb, ◌==◌,
  if◌then◌else◌, bgp_parse_error, out_of_fuel, Result, ok, err, ◌>>=◌,
}
use pybmpmon.Utils.Binary.{read_uint8, read_uint16, read_uint32}
use pybmpmon.Protocol.Bgp.{segment_as_set, segment_as_sequence}

-- The guess of the size of an AS number, from the bytes that are left behind the segment's header.
unfoldable pub as_size_of : ℕ → ℕ → ℕ
as_size_of remaining_bytes segment_length =
    if ltb 0 segment_length
    then (let bytes_per_as = remaining_bytes / segment_length in
        if bytes_per_as == 4
        then 4
        else if bytes_per_as == 2
        then 2
        else if leb (segment_length * 4) remaining_bytes
        then 4
        else 2)
    else 4

unfoldable pub read_as_number : ℕ → List ℕ → ℕ → Result ℕ
read_as_number as_size value offset =
    if as_size == 4 then read_uint32 value offset else read_uint16 value offset

-- `for _ in range(segment_length)`: each number is read, and kept if the segment is a sequence or a
-- set.
unfoldable pub read_segment : ℕ → ℕ → ℕ → List ℕ → ℕ → Result (List ℕ)
read_segment segment_type as_size zero value offset = ok []
read_segment segment_type as_size (suc rounds) value offset = do
  as_num ← read_as_number as_size value offset
  as_nums ← read_segment segment_type as_size rounds value (offset + as_size)
  ok (
      if (segment_type == segment_as_sequence) || (segment_type == segment_as_set)
      then as_num ∷ as_nums
      else as_nums)

-- One round of the loop: the numbers that the segment adds, and the next offset.
unfoldable pub parse_segment : List ℕ → ℕ → Result (List ℕ × ℕ)
parse_segment value offset = if ltb (length value) (offset + 2) then err bgp_parse_error else do
  segment_type ← read_uint8 value offset
  segment_length ← read_uint8 value (offset + 1)
  let as_size = as_size_of (length value - (offset + 2)) segment_length
  if ltb (length value) (offset + 2 + segment_length * as_size) then err bgp_parse_error else do
    as_nums ← read_segment segment_type as_size segment_length value (offset + 2)
    ok (as_nums, offset + 2 + segment_length * as_size)

-- `while offset < len(value)`
unfoldable pub as_path_loop : ℕ → List ℕ → ℕ → Result (List ℕ)
as_path_loop zero value offset = err out_of_fuel
as_path_loop (suc fuel) value offset =
    let rounds : Result (List ℕ) = (do
      (as_nums, next) ← parse_segment value offset
      as_path ← as_path_loop fuel value next
      ok (as_nums ++ as_path)) in
    if ltb offset (length value) then rounds else ok []

-- Each round moves on by 2 bytes at least.
unfoldable pub parse_as_path : List ℕ → Result (List ℕ)
parse_as_path value = as_path_loop (suc (length value)) value 0
