-- ===== src/Protocol/BgpParser/AsPathGuess.antt =====
-- AS_PATH: what the guess of the size of an AS number does to a path of two-byte numbers that has more
-- than one segment.
use pybmpmon.Base.{
  ℕ, ◌+◌, ◌-◌, ◌*◌, ◌<◌, ◌≤◌, ◌≡◌, refl, inl, inr, List, ◌++◌, length, length-append, le→ltb, ok,
  arith, Result-cases,
}
use pybmpmon.Base.Slices.{At-cut, At-whole}
use pybmpmon.Utils.Binary.Reads.{read_uint8-At}
use pybmpmon.Utils.Binary.Wire.{u8, u16}
use pybmpmon.Protocol.BgpParser.AsPath.{read_segment, parse_segment}
use pybmpmon.Protocol.BgpParser.Wire.{Segment, encode_segment}
use pybmpmon.Protocol.BgpParser.AsPathRoundTrip.{length-encode_numbers_two, as_size_of_four}
use pybmpmon.Protocol.BgpParser.AttributeExceptions.{read_segment_returns}

-- A segment of two-byte numbers, one at least, behind which two bytes or more follow for each of
-- them, is taken for one of four-byte numbers: the parser does not complain, and goes on that
-- many bytes behind the end of the segment.
pub parse_segment_misreads :
    (s : Segment) (rest : List ℕ)
    → 0 < length s.numbers
    → length s.numbers * 2 ≤ length rest
    → (numbers : List ℕ) × (parse_segment (encode_segment u16 s ++ rest) 0
        ≡ ok (numbers, length (encode_segment u16 s) + length s.numbers * 2))
unfolding parse_segment
parse_segment_misreads s rest some_number long =
    let xs : List ℕ = encode_segment u16 s ++ rest in
    let n = length s.numbers in
    let size = length-encode_numbers_two s.numbers in
    let whole = length-append (encode_segment u16 s) rest in
    let (s_at, _) =
      At-cut xs 0 (length (encode_segment u16 s)) (encode_segment u16 s) rest (omega arith)
        (At-whole xs) in
    let (kind_at, r1) = At-cut xs 0 1 (u8 s.kind) _ refl s_at in
    let (count_at, _) = At-cut xs 1 2 (u8 n) _ refl r1 in
    let guess = as_size_of_four (length xs - 2) n (omega arith) in
    let next : 2 + n * 4 ≡ length (encode_segment u16 s) + n * 2 = omega arith in
    elim (Result-cases (read_segment s.kind 4 n xs 2)) [
      | inl (numbers, p) ↦ (
        numbers,
        rw (
          le→ltb (length xs) 2 (omega arith),
          read_uint8-At xs 0 _ kind_at,
          read_uint8-At xs 1 _ count_at,
          guess,
          le→ltb (length xs) (2 + n * 4) (omega arith),
          p,
          next,
        ),
      )
      | inr (x, p) ↦ absurd (read_segment_returns xs s.kind 4 n 2 x (inl refl) (omega arith) p)
    ]
