-- ===== src/Utils/Binary/Wire.antt =====
-- The wire format of numbers, as an independent description: how many bytes, which ones.
use pybmpmon.Base.{ℕ, ◌/◌, ◌%◌, ◌^◌, ◌<◌, ◌≡◌, List, [], ◌∷◌, length, arith, All}
use pybmpmon.Utils.Binary.{from_bytes, IsByte}

abbrev pub u8 : ℕ → List ℕ
u8 n = n ∷ []

abbrev pub u16 : ℕ → List ℕ
u16 n = n / 256 ∷ n % 256 ∷ []

abbrev pub u32 : ℕ → List ℕ
u32 n = n / 2 ^ 24 ∷ n / 2 ^ 16 % 256 ∷ n / 256 % 256 ∷ n % 256 ∷ []

pub from_bytes-u8 : (n : ℕ) → from_bytes (u8 n) ≡ n
unfolding from_bytes
from_bytes-u8 n = omega arith

pub from_bytes-u16 : (n : ℕ) → from_bytes (u16 n) ≡ n
unfolding from_bytes
from_bytes-u16 n = omega arith

pub from_bytes-u32 : (n : ℕ) → from_bytes (u32 n) ≡ n
unfolding from_bytes
from_bytes-u32 n = omega arith

-- A list of one, two or four bytes is the format of its value, which is in range.
pub u8-from_bytes :
    (bs : List ℕ)
    → All IsByte bs
    → length bs ≡ 1
    → (u8 (from_bytes bs) ≡ bs) × (from_bytes bs < 256)
unfolding from_bytes
u8-from_bytes [] h e = absurd (omega arith)
u8-from_bytes (a ∷ []) h e = (ground arith, ground arith)
u8-from_bytes (a ∷ b ∷ bs) h e = absurd (omega arith)

pub u16-from_bytes :
    (bs : List ℕ)
    → All IsByte bs
    → length bs ≡ 2
    → (u16 (from_bytes bs) ≡ bs) × (from_bytes bs < 2 ^ 16)
unfolding from_bytes
u16-from_bytes [] h e = absurd (omega arith)
u16-from_bytes (a ∷ []) h e = absurd (omega arith)
u16-from_bytes (a ∷ b ∷ []) h e = (ground arith, ground arith)
u16-from_bytes (a ∷ b ∷ c ∷ bs) h e = absurd (omega arith)

pub u32-from_bytes :
    (bs : List ℕ)
    → All IsByte bs
    → length bs ≡ 4
    → (u32 (from_bytes bs) ≡ bs) × (from_bytes bs < 2 ^ 32)
unfolding from_bytes
u32-from_bytes [] h e = absurd (omega arith)
u32-from_bytes (a ∷ []) h e = absurd (omega arith)
u32-from_bytes (a ∷ b ∷ []) h e = absurd (omega arith)
u32-from_bytes (a ∷ b ∷ c ∷ []) h e = absurd (omega arith)
u32-from_bytes (a ∷ b ∷ c ∷ d ∷ []) h e = (ground arith, ground arith)
u32-from_bytes (a ∷ b ∷ c ∷ d ∷ f ∷ bs) h e = absurd (omega arith)
