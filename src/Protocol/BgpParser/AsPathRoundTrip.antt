-- ===== src/Protocol/BgpParser/AsPathRoundTrip.antt =====
-- AS_PATH: paths of four-byte numbers are read back, and which two-byte paths are.
use pybmpmon.Base.{
  ℕ, zero, suc, ◌+◌, ◌-◌, ◌*◌, ◌<◌, ◌≤◌, ◌≡◌, refl, List, [], ◌∷◌, length, length-append, lt→ltb,
  le→ltb, if◌then◌else◌, ok, arith,
}
use pybmpmon.Base.Slices.{At, At-cut, At-whole}
use pybmpmon.Utils.Binary.Reads.{read_uint8-At, read_uint16-At, read_uint32-At}
use pybmpmon.Utils.Binary.Wire.{u8, u16, u32}
use pybmpmon.Protocol.BgpParser.AsPath.{
  as_size_of, read_as_number, read_segment, parse_segment, as_path_loop, parse_as_path,
}
use pybmpmon.Protocol.BgpParser.Wire.{
  Segment, encode_numbers, encode_segment, encode_segments, is_path_segment, path_of,
}

-- With four bytes or more left for each number, the guess is four.
pub as_size_of_four : (remaining n : ℕ) → n * 4 ≤ remaining → as_size_of remaining n ≡ 4
unfolding as_size_of
as_size_of_four remaining n h = grind arith

-- With exactly two bytes left for each number, and one number at least, the guess is two.
as_size_of_two : (n : ℕ) → 0 < n → as_size_of (n * 2) n ≡ 2
unfolding as_size_of
as_size_of_two n h = grind arith

length-encode_numbers_four : (ns : List ℕ) → length (encode_numbers u32 ns) ≡ length ns * 4
length-encode_numbers_four [] = refl
length-encode_numbers_four (n ∷ ns) = omega (arith, length-encode_numbers_four ns)

pub length-encode_numbers_two : (ns : List ℕ) → length (encode_numbers u16 ns) ≡ length ns * 2
length-encode_numbers_two [] = refl
length-encode_numbers_two (n ∷ ns) = omega (arith, length-encode_numbers_two ns)

module _ (xs : List ℕ) (kind : ℕ) where
  read_segment_four :
      (off : ℕ) (ns : List ℕ)
      → At xs off (encode_numbers u32 ns)
      → read_segment kind 4 (length ns) xs off ≡ ok (if is_path_segment kind then ns else [])
  unfolding read_segment read_as_number
  read_segment_four off [] at = ground arith
  read_segment_four off (n ∷ ns) at =
      let (n_at, rest_at) = At-cut xs off (off + 4) (u32 n) _ refl at in
      ground (arith, read_uint32-At xs off n n_at, read_segment_four (off + 4) ns rest_at)

  read_segment_two :
      (off : ℕ) (ns : List ℕ)
      → At xs off (encode_numbers u16 ns)
      → read_segment kind 2 (length ns) xs off ≡ ok (if is_path_segment kind then ns else [])
  unfolding read_segment read_as_number
  read_segment_two off [] at = ground arith
  read_segment_two off (n ∷ ns) at =
      let (n_at, rest_at) = At-cut xs off (off + 2) (u16 n) _ refl at in
      ground (arith, read_uint16-At xs off n n_at, read_segment_two (off + 2) ns rest_at)

module _ (xs : List ℕ) where
  -- A segment of four-byte numbers, whatever follows it.
  parse_segment_four :
      (off : ℕ) (s : Segment)
      → At xs off (encode_segment u32 s)
      → parse_segment xs off
        ≡ ok ((if is_path_segment s.kind then s.numbers else []), off + 2 + length s.numbers * 4)
  unfolding parse_segment
  parse_segment_four off s at =
      let n = length s.numbers in
      let size = length-encode_numbers_four s.numbers in
      let (kind_at, r1) = At-cut xs off (off + 1) (u8 s.kind) _ refl at in
      let (count_at, numbers_at) = At-cut xs (off + 1) (off + 2) (u8 n) _ (omega arith) r1 in
      let room : off + 2 + n * 4 ≤ length xs = omega (arith, numbers_at.fits) in
      rw (
        le→ltb (length xs) (off + 2) (omega arith),
        read_uint8-At xs off _ kind_at,
        read_uint8-At xs (off + 1) _ count_at,
        as_size_of_four (length xs - (off + 2)) n (omega arith),
        le→ltb (length xs) (off + 2 + n * 4) room,
        read_segment_four xs s.kind (off + 2) s.numbers numbers_at,
      )

  as_path_loop-encode :
      (fuel off : ℕ) (ss : List Segment)
      → length xs - off < fuel
      → off + length (encode_segments u32 ss) ≡ length xs
      → At xs off (encode_segments u32 ss)
      → as_path_loop fuel xs off ≡ ok (path_of ss)
  unfolding as_path_loop
  as_path_loop-encode zero off ss h e at = absurd (omega arith)
  as_path_loop-encode (suc fuel) off [] h e at = ground arith
  as_path_loop-encode (suc fuel) off (s ∷ ss) h e at =
      let size = length-encode_numbers_four s.numbers in
      let whole = length-append (encode_segment u32 s) (encode_segments u32 ss) in
      let next = off + 2 + length s.numbers * 4 in
      let (s_at, rest_at) = At-cut xs off next (encode_segment u32 s) _ (omega arith) at in
      rw (
        lt→ltb off (length xs) (omega (arith, whole)),
        parse_segment_four off s s_at,
        as_path_loop-encode fuel next ss (omega (arith, whole)) (omega (arith, whole)) rest_at,
      )

-- A path of four-byte AS numbers is read back, whatever its segments: the numbers of its
-- sequences and sets, in order.
pub parse_as_path-encode :
    (ss : List Segment) → parse_as_path (encode_segments u32 ss) ≡ ok (path_of ss)
unfolding parse_as_path
parse_as_path-encode ss =
    let xs : List ℕ = encode_segments u32 ss in
    as_path_loop-encode xs (suc (length xs)) 0 ss (omega arith) (omega arith) (At-whole xs)

parse_segment_two :
    (xs : List ℕ) (s : Segment)
    → 0 < length s.numbers
    → At xs 0 (encode_segment u16 s)
    → length xs ≡ 2 + length s.numbers * 2
    → parse_segment xs 0
      ≡ ok ((if is_path_segment s.kind then s.numbers else []), 2 + length s.numbers * 2)
unfolding parse_segment
parse_segment_two xs s some_number at ends =
    let n = length s.numbers in
    let size = length-encode_numbers_two s.numbers in
    let (kind_at, r1) = At-cut xs 0 1 (u8 s.kind) _ refl at in
    let (count_at, numbers_at) = At-cut xs 1 2 (u8 n) _ refl r1 in
    let left : length xs - 2 ≡ n * 2 = omega arith in
    rw (
      le→ltb (length xs) 2 (omega arith),
      read_uint8-At xs 0 _ kind_at,
      read_uint8-At xs 1 _ count_at,
      left,
      as_size_of_two n some_number,
      le→ltb (length xs) (2 + n * 2) (omega arith),
      read_segment_two xs s.kind 2 s.numbers numbers_at,
    )

as_path_loop_done :
    (fuel : ℕ) (xs : List ℕ) (off : ℕ) → length xs ≤ off → as_path_loop (suc fuel) xs off ≡ ok []
unfolding as_path_loop
as_path_loop_done fuel xs off h = ground arith

-- A path of two-byte AS numbers, of one segment with one number at least, is read back.
pub parse_as_path-encode_legacy :
    (s : Segment)
    → 0 < length s.numbers
    → parse_as_path (encode_segment u16 s) ≡ ok (path_of (s ∷ []))
unfolding parse_as_path as_path_loop
parse_as_path-encode_legacy s some_number =
    let xs : List ℕ = encode_segment u16 s in
    let ends : length xs ≡ 2 + length s.numbers * 2 =
      omega (arith, length-encode_numbers_two s.numbers) in
    ground (
      arith,
      parse_segment_two xs s some_number (At-whole xs) ends,
      as_path_loop_done (length (encode_numbers u16 s.numbers) + 1) xs (2 + length s.numbers * 2)
          (omega arith),
    )
