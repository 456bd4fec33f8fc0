-- ===== src/Utils/Binary.antt =====
-- src/pybmpmon/utils/binary.py: reads from a byte string at an offset.
-- A byte string is a list of numbers. `len(data) < offset + n` raises ValueError.
pub mod Wire
pub mod Reads
use pybmpmon.Base.{
  ℕ, zero, suc, ◌+◌, ◌-◌, ◌*◌, ◌<◌, Bool, true, false, ◌||◌, not, List, [], ◌∷◌, length, ltb, ◌==◌,
  if◌then◌else◌, Error, value_error, Result, ok, err,
}
use pybmpmon.Base.Slices.{slice}

abbrev pub IsByte : ℕ → Type 0
IsByte b = b < 256

-- The text that `str(ipaddress.IPv4Address(bytes))` or `str(ipaddress.IPv6Address(bytes))` makes is
-- kept as the class and the bytes that it is made from.
pub data IpAddress : Type 0 where
  ipv4 : List ℕ → IpAddress
  ipv6 : List ℕ → IpAddress

-- Network order: `int.from_bytes(bytes, "big")`, and `struct.unpack` by "!H" and "!I".
be_from : ℕ → List ℕ → ℕ
be_from acc [] = acc
be_from acc (b ∷ bs) = be_from (acc * 256 + b) bs

unfoldable pub from_bytes : List ℕ → ℕ
unfolding be_from
from_bytes bs = be_from 0 bs

unfoldable pub read_uint8 : List ℕ → ℕ → Result ℕ
read_uint8 data_bytes offset =
    if ltb (length data_bytes) (offset + 1)
    then err value_error
    else ok (from_bytes (slice data_bytes offset 1))

unfoldable pub read_uint16 : List ℕ → ℕ → Result ℕ
read_uint16 data_bytes offset =
    if ltb (length data_bytes) (offset + 2)
    then err value_error
    else ok (from_bytes (slice data_bytes offset 2))

unfoldable pub read_uint32 : List ℕ → ℕ → Result ℕ
read_uint32 data_bytes offset =
    if ltb (length data_bytes) (offset + 4)
    then err value_error
    else ok (from_bytes (slice data_bytes offset 4))

unfoldable pub read_bytes : List ℕ → ℕ → ℕ → Result (List ℕ)
read_bytes data_bytes offset count =
    if ltb (length data_bytes) (offset + count)
    then err value_error
    else ok (slice data_bytes offset count)

-- `read_bytes(data, start, stop - start)`, where `stop` may lie before `start`: the code only adds
-- the length to the offset, and `data[start:stop]` is empty then.
unfoldable pub read_bytes_until : List ℕ → ℕ → ℕ → Result (List ℕ)
read_bytes_until data_bytes start stop =
    if ltb (length data_bytes) stop
    then err value_error
    else ok (slice data_bytes start (stop - start))

unfoldable pub read_ipv4_address : List ℕ → ℕ → Result IpAddress
read_ipv4_address data_bytes offset =
    if ltb (length data_bytes) (offset + 4)
    then err value_error
    else ok (ipv4 (slice data_bytes offset 4))

unfoldable pub read_ipv6_address : List ℕ → ℕ → Result IpAddress
read_ipv6_address data_bytes offset =
    if ltb (length data_bytes) (offset + 16)
    then err value_error
    else ok (ipv6 (slice data_bytes offset 16))

-- Python's `any` on a byte string.
unfoldable pub any_nonzero : List ℕ → Bool
any_nonzero [] = false
any_nonzero (b ∷ bs) = not (b == 0) || any_nonzero bs

unfoldable pub read_ip_address : List ℕ → ℕ → Bool → Result IpAddress
read_ip_address data_bytes offset is_ipv6 =
    if ltb (length data_bytes) (offset + 16)
    then err value_error
    else let addr_bytes = slice data_bytes offset 16 in
      if is_ipv6 || any_nonzero (slice addr_bytes 0 12)
      then ok (ipv6 addr_bytes)
      else ok (ipv4 (slice addr_bytes 12 4))
