-- ===== src/ByteOrder.antt =====
-- src/core/byte_order.c: big-endian words. `read_be*` takes the bytes from `buf` on, and a byte that
-- is not there reads as 0; `write_be*` returns the bytes that it stores at `buf`.
pub mod RoundTrip
mod Tests
use sockify.Prelude.{
  ℕ, ◌+◌, ◌*◌, ◌/◌, ◌%◌, ◌^◌, bit_or, bit_and, List, [], ◌∷◌, Bytes, u8, u16, u32, u64, ◌<<<◌,
  ◌>>>◌, get_or,
}

-- `(sockify_u16)buf[0] << 8` is done in `int`, where it fits; the cast cuts the result.
pub read_be16 : Bytes → ℕ
read_be16 buf = u16 (bit_or (get_or buf 0 0 <<< 8) (get_or buf 1 0))

unfoldable pub read_be32 : Bytes → ℕ
read_be32 buf =
    bit_or
      (bit_or (bit_or (u32 (get_or buf 0 0 <<< 24)) (u32 (get_or buf 1 0 <<< 16)))
        (u32 (get_or buf 2 0 <<< 8)))
      (get_or buf 3 0)

-- `(sockify_u64)buf[i] << k`
abbrev shifted_byte : Bytes → ℕ → ℕ → ℕ
shifted_byte buf i k = u64 (get_or buf i 0 <<< k)

pub read_be64 : Bytes → ℕ
read_be64 buf =
    bit_or
      (bit_or
        (bit_or
          (bit_or
            (bit_or
              (bit_or (bit_or (shifted_byte buf 0 56) (shifted_byte buf 1 48))
                (shifted_byte buf 2 40))
              (shifted_byte buf 3 32))
            (shifted_byte buf 4 24))
          (shifted_byte buf 5 16))
        (shifted_byte buf 6 8))
      (get_or buf 7 0)

-- `(unsigned char)((value >> k) & 0xffU)`
abbrev pub byte_of : ℕ → ℕ → ℕ
byte_of value k = u8 (bit_and (value >>> k) 0xff)

unfoldable pub write_be16 : ℕ → Bytes
write_be16 value = byte_of value 8 ∷ byte_of value 0 ∷ []

unfoldable pub write_be32 : ℕ → Bytes
write_be32 value = byte_of value 24 ∷ byte_of value 16 ∷ byte_of value 8 ∷ byte_of value 0 ∷ []

unfoldable pub write_be64 : ℕ → Bytes
write_be64 value =
    byte_of value 56
    ∷ byte_of value 48
    ∷ byte_of value 40
    ∷ byte_of value 32
    ∷ byte_of value 24
    ∷ byte_of value 16
    ∷ byte_of value 8
    ∷ byte_of value 0
    ∷ []
