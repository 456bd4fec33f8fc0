-- ===== src/Utils/Binary/Reads.antt =====
-- What a read returns where the wire format of a value stands at the offset, and when it fails.
use pybmpmon.Base.{ℕ, ◌+◌, ◌-◌, ◌≤◌, ◌<◌, ◌^◌, ◌≡◌, ap, sym, ◌∙◌, List, length, arith, All, ok}
use mathlib.Core.Path.{subst}
use pybmpmon.Base.Slices.{slice, length-slice, At, At-slice, All-slice}
use pybmpmon.Utils.Binary.{
  IsByte, from_bytes, read_uint8, read_uint16, read_uint32, read_bytes, read_bytes_until,
}
use pybmpmon.Utils.Binary.Wire.{
  u8, u16, u32, from_bytes-u8, from_bytes-u16, from_bytes-u32, u8-from_bytes, u16-from_bytes,
  u32-from_bytes,
}

module _ (xs : List ℕ) (off : ℕ) where
  pub read_uint8-At : (n : ℕ) → At xs off (u8 n) → read_uint8 xs off ≡ ok n
  unfolding read_uint8
  read_uint8-At n h = ground (arith, h.fits, h.holds, from_bytes-u8 n)

  pub read_uint16-At : (n : ℕ) → At xs off (u16 n) → read_uint16 xs off ≡ ok n
  unfolding read_uint16
  read_uint16-At n h = ground (arith, h.fits, h.holds, from_bytes-u16 n)

  pub read_uint32-At : (n : ℕ) → At xs off (u32 n) → read_uint32 xs off ≡ ok n
  unfolding read_uint32
  read_uint32-At n h = ground (arith, h.fits, h.holds, from_bytes-u32 n)

  pub read_bytes-At : (bs : List ℕ) → At xs off bs → read_bytes xs off (length bs) ≡ ok bs
  unfolding read_bytes
  read_bytes-At bs h = ground (arith, h.fits, h.holds)

  pub read_bytes_until-At :
      (bs : List ℕ) (stop : ℕ)
      → stop ≡ off + length bs
      → At xs off bs
      → read_bytes_until xs off stop ≡ ok bs
  unfolding read_bytes_until
  read_bytes_until-At bs stop e h =
      let same : stop - off ≡ length bs = omega arith in ground (arith, h.fits, h.holds, same)

  -- With enough bytes a read returns.
  pub read_uint8-fits : off + 1 ≤ length xs → read_uint8 xs off ≡ ok (from_bytes (slice xs off 1))
  unfolding read_uint8
  read_uint8-fits h = ground arith

  pub read_uint16-fits : off + 2 ≤ length xs → read_uint16 xs off ≡ ok (from_bytes (slice xs off 2))
  unfolding read_uint16
  read_uint16-fits h = ground arith

  pub read_uint32-fits : off + 4 ≤ length xs → read_uint32 xs off ≡ ok (from_bytes (slice xs off 4))
  unfolding read_uint32
  read_uint32-fits h = ground arith

  pub read_bytes-fits : (n : ℕ) → off + n ≤ length xs → read_bytes xs off n ≡ ok (slice xs off n)
  unfolding read_bytes
  read_bytes-fits n h = ground arith

  pub read_bytes_until-fits :
      (stop : ℕ) → stop ≤ length xs → read_bytes_until xs off stop ≡ ok (slice xs off (stop - off))
  unfolding read_bytes_until
  read_bytes_until-fits stop h = ground arith

At-format :
    (xs : List ℕ) (off n width : ℕ) (format : ℕ → List ℕ)
    → off + width ≤ length xs
    → from_bytes (slice xs off width) ≡ n
    → format (from_bytes (slice xs off width)) ≡ slice xs off width
    → At xs off (format n)
At-format xs off n width format h p e =
    subst (λ c. At xs off c) (sym e ∙ ap format p) (At-slice xs off width h)

-- A read that returns has found the wire format of its value at the offset.
module _ (xs : List ℕ) (bytes : All IsByte xs) (off n : ℕ) where
  pub read_uint8-eq-ok : read_uint8 xs off ≡ ok n → At xs off (u8 n) × (n < 256)
  unfolding read_uint8
  read_uint8-eq-ok h =
      let fits : off + 1 ≤ length xs = ground arith in
      let value : from_bytes (slice xs off 1) ≡ n = ground arith in
      let (format, small) =
        u8-from_bytes (slice xs off 1) (All-slice IsByte xs off 1 bytes)
          (length-slice xs off 1 fits) in
      (At-format xs off n 1 u8 fits value format, omega arith)

  pub read_uint16-eq-ok : read_uint16 xs off ≡ ok n → At xs off (u16 n) × (n < 2 ^ 16)
  unfolding read_uint16
  read_uint16-eq-ok h =
      let fits : off + 2 ≤ length xs = ground arith in
      let value : from_bytes (slice xs off 2) ≡ n = ground arith in
      let (format, small) =
        u16-from_bytes (slice xs off 2) (All-slice IsByte xs off 2 bytes)
          (length-slice xs off 2 fits) in
      (At-format xs off n 2 u16 fits value format, omega arith)

  pub read_uint32-eq-ok : read_uint32 xs off ≡ ok n → At xs off (u32 n) × (n < 2 ^ 32)
  unfolding read_uint32
  read_uint32-eq-ok h =
      let fits : off + 4 ≤ length xs = ground arith in
      let value : from_bytes (slice xs off 4) ≡ n = ground arith in
      let (format, small) =
        u32-from_bytes (slice xs off 4) (All-slice IsByte xs off 4 bytes)
          (length-slice xs off 4 fits) in
      (At-format xs off n 4 u32 fits value format, omega arith)

pub read_bytes-eq-ok :
    (xs : List ℕ) (off n : ℕ) (bs : List ℕ)
    → read_bytes xs off n ≡ ok bs
    → At xs off bs × (length bs ≡ n) × (bs ≡ slice xs off n)
unfolding read_bytes
read_bytes-eq-ok xs off n bs h =
    let fits : off + n ≤ length xs = ground arith in
    let value : slice xs off n ≡ bs = ground arith in
    (
      subst (λ c. At xs off c) value (At-slice xs off n fits),
      ap length (sym value) ∙ length-slice xs off n fits,
      sym value,
    )
