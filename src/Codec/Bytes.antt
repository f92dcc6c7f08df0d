-- ===== src/Codec/Bytes.antt =====
-- `std::string` and `std::string_view` as sequences of bytes, and the widths of C++ integers.
use vroot_kv.Base.{ℕ, ◌%◌, ◌^◌, ◌<◌, List, All}

abbrev pub IsByte : ℕ → Type 0
IsByte b = b < 256

abbrev pub IsBytes : List ℕ → Type 0
IsBytes = All IsByte

-- `static_cast` to a narrower unsigned type
abbrev pub u8 : ℕ → ℕ
u8 n = n % 2 ^ 8

abbrev pub u32 : ℕ → ℕ
u32 n = n % 2 ^ 32

abbrev pub u64 : ℕ → ℕ
u64 n = n % 2 ^ 64
