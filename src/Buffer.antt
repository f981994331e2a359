-- ===== src/Buffer.antt =====
-- Buffers of bytes as src/protocols_raw.c and src/protocols_rfc6455.c use them: reads and writes
-- through a pointer into a GString, C strings in it, and big-endian integers.
pub mod Laws
use quick_io.Common.{
  ℕ, zero, suc, ◌+◌, ◌*◌, ◌/◌, ◌%◌, Bool, ◌==◌, if◌then◌else◌, List, [], ◌∷◌, ◌++◌, Bytes, length,
  take, drop,
}

-- `n` bytes from position `at` on.
abbrev pub read : ℕ → ℕ → Bytes → Bytes
read at n buf = take n (drop at buf)

-- The bytes `bs` written at position `at`.
abbrev pub write : ℕ → Bytes → Bytes → Bytes
write at bs buf = take at buf ++ (bs ++ drop (at + length bs) buf)

-- What a C string function sees: the bytes before the first NUL.
unfoldable pub c_string : Bytes → Bytes
c_string [] = []
c_string (c ∷ cs) = let rest = c ∷ c_string cs in if c == 0 then [] else rest

-- `GUINT16_FROM_BE` and `GUINT64_FROM_BE` on the bytes in memory.
unfoldable pub from_be : ℕ → Bytes → ℕ
from_be acc [] = acc
from_be acc (b ∷ bs) = from_be (acc * 256 + b) bs

-- `GUINT16_TO_BE` and `GUINT64_TO_BE`: the bytes of a number of `n` bytes, in memory.
unfoldable pub to_be : ℕ → ℕ → Bytes
to_be zero x = []
to_be (suc n) x = to_be n (x / 256) ++ (x % 256) ∷ []
