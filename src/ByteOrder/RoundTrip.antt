-- ===== src/ByteOrder/RoundTrip.antt =====
-- Words as base-256 numbers, and reading back what was written.
use sockify.Prelude.{
  All, get_or, zero, suc, ℕ, ◌+◌, ◌*◌, ◌/◌, ◌%◌, ◌^◌, ◌<◌, ◌≡◌, ◌∙◌, bit_or, [], ◌∷◌, ◌++◌, Bytes,
  u16, u64, u32, IsByte, arith,
}
use sockify.Prelude.Bits.{bit_or_lt, bit_or_fields, mask_8}
use sockify.ByteOrder.{read_be16, read_be32, read_be64, write_be16, write_be32, write_be64, byte_of}

-- The number that bytes stand for, most significant first.
abbrev pub big_endian : ℕ → Bytes → ℕ
big_endian acc [] = acc
big_endian acc (b ∷ bs) = big_endian (acc * 256 + b) bs

-- `high | low` where `high` is a multiple of the power of two that `low` is below.
pub or_sum : (k q high low : ℕ) → high ≡ q * 2 ^ k → low < 2 ^ k → bit_or high low ≡ high + low
or_sum k q high low e h = rw e (bit_or_fields k q low h)

pub read_be16_value :
    (a b : ℕ)
    → IsByte a
    → IsByte b
    → (rest : Bytes) → read_be16 (a ∷ b ∷ rest) ≡ big_endian 0 (a ∷ b ∷ [])
unfolding read_be16
read_be16_value a b ha hb rest = omega (arith, bit_or_fields 8 a b hb)

byte_of_value : (value k : ℕ) → byte_of value k ≡ value / 2 ^ k % 256
byte_of_value value k = omega (arith, mask_8 (value / 2 ^ k))

pub write_be16_value : (v : ℕ) → write_be16 v ≡ v / 256 % 256 ∷ v % 256 ∷ []
unfolding write_be16
write_be16_value v = ground (arith, mask_8 (v / 256), mask_8 (v / 1))

pub read_be64_value :
    (a b c d e f g h : ℕ)
    → IsByte a
    → IsByte b
    → IsByte c
    → IsByte d
    → IsByte e
    → IsByte f
    → IsByte g
    → IsByte h
    → (rest : Bytes)
    → read_be64 (a ∷ b ∷ c ∷ d ∷ e ∷ f ∷ g ∷ h ∷ rest)
      ≡ big_endian 0 (a ∷ b ∷ c ∷ d ∷ e ∷ f ∷ g ∷ h ∷ [])
unfolding read_be64
read_be64_value a b c d e f g h ha hb hc hd he hf hg hh rest =
    let at_48 = or_sum 56 a (u64 (a * 2 ^ 56)) (u64 (b * 2 ^ 48)) (omega arith) (omega arith) in
    let at_40 =
      or_sum 48 (a * 256 + b) (u64 (a * 2 ^ 56) + u64 (b * 2 ^ 48)) (u64 (c * 2 ^ 40)) (omega arith)
        (omega arith) in
    let at_32 =
      or_sum 40 ((a * 256 + b) * 256 + c) (u64 (a * 2 ^ 56) + u64 (b * 2 ^ 48) + u64 (c * 2 ^ 40))
        (u64 (d * 2 ^ 32)) (omega arith) (omega arith) in
    let at_24 =
      or_sum 32 (((a * 256 + b) * 256 + c) * 256 + d)
        (u64 (a * 2 ^ 56) + u64 (b * 2 ^ 48) + u64 (c * 2 ^ 40) + u64 (d * 2 ^ 32))
        (u64 (e * 2 ^ 24)) (omega arith) (omega arith) in
    let at_16 =
      or_sum 24 ((((a * 256 + b) * 256 + c) * 256 + d) * 256 + e)
        (u64 (a * 2 ^ 56)
          + u64 (b * 2 ^ 48)
          + u64 (c * 2 ^ 40)
          + u64 (d * 2 ^ 32)
          + u64 (e * 2 ^ 24))
        (u64 (f * 2 ^ 16)) (omega arith) (omega arith) in
    let at_8 =
      or_sum 16 (((((a * 256 + b) * 256 + c) * 256 + d) * 256 + e) * 256 + f)
        (u64 (a * 2 ^ 56)
          + u64 (b * 2 ^ 48)
          + u64 (c * 2 ^ 40)
          + u64 (d * 2 ^ 32)
          + u64 (e * 2 ^ 24)
          + u64 (f * 2 ^ 16))
        (u64 (g * 2 ^ 8)) (omega arith) (omega arith) in
    let at_0 =
      or_sum 8 ((((((a * 256 + b) * 256 + c) * 256 + d) * 256 + e) * 256 + f) * 256 + g)
        (u64 (a * 2 ^ 56)
          + u64 (b * 2 ^ 48)
          + u64 (c * 2 ^ 40)
          + u64 (d * 2 ^ 32)
          + u64 (e * 2 ^ 24)
          + u64 (f * 2 ^ 16)
          + u64 (g * 2 ^ 8))
        h (omega arith) (omega arith) in
    rw (at_48, at_40, at_32, at_24, at_16, at_8, at_0) (omega arith)

pub read_be32_value :
    (a b c d : ℕ)
    → IsByte a
    → IsByte b
    → IsByte c
    → IsByte d
    → (rest : Bytes) → read_be32 (a ∷ b ∷ c ∷ d ∷ rest) ≡ big_endian 0 (a ∷ b ∷ c ∷ d ∷ [])
unfolding read_be32
read_be32_value a b c d ha hb hc hd rest =
    let at_16 = or_sum 24 a (u32 (a * 2 ^ 24)) (u32 (b * 2 ^ 16)) (omega arith) (omega arith) in
    let at_8 =
      or_sum 16 (a * 256 + b) (u32 (a * 2 ^ 24) + u32 (b * 2 ^ 16)) (u32 (c * 2 ^ 8)) (omega arith)
        (omega arith) in
    let at_0 =
      or_sum 8 ((a * 256 + b) * 256 + c) (u32 (a * 2 ^ 24) + u32 (b * 2 ^ 16) + u32 (c * 2 ^ 8)) d
        (omega arith) (omega arith) in
    rw (at_16, at_8, at_0) (omega arith)

pub byte_of-IsByte : (value k : ℕ) → IsByte (byte_of value k)
byte_of-IsByte value k = omega arith

read_write_16 : (v : ℕ) (rest : Bytes) → read_be16 (write_be16 v ++ rest) ≡ u16 v
unfolding write_be16
read_write_16 v rest =
    read_be16_value (byte_of v 8) (byte_of v 0) (byte_of-IsByte v 8) (byte_of-IsByte v 0) rest
    ∙ omega (arith, byte_of_value v 8, byte_of_value v 0)

read_write_32 : (v : ℕ) (rest : Bytes) → read_be32 (write_be32 v ++ rest) ≡ u32 v
unfolding write_be32
read_write_32 v rest =
    let at = byte_of-IsByte v in
    read_be32_value (byte_of v 24) (byte_of v 16) (byte_of v 8) (byte_of v 0) (at 24) (at 16) (at 8)
      (at 0) rest
    ∙ omega (arith, byte_of_value v 24, byte_of_value v 16, byte_of_value v 8, byte_of_value v 0)

read_write_64 : (v : ℕ) (rest : Bytes) → read_be64 (write_be64 v ++ rest) ≡ u64 v
unfolding write_be64
read_write_64 v rest =
    let at = byte_of-IsByte v in
    read_be64_value (byte_of v 56) (byte_of v 48) (byte_of v 40) (byte_of v 32) (byte_of v 24)
      (byte_of v 16) (byte_of v 8) (byte_of v 0) (at 56) (at 48) (at 40) (at 32) (at 24) (at 16)
      (at 8) (at 0) rest
    ∙ omega (
      arith,
      byte_of_value v 56,
      byte_of_value v 48,
      byte_of_value v 40,
      byte_of_value v 32,
      byte_of_value v 24,
      byte_of_value v 16,
      byte_of_value v 8,
      byte_of_value v 0,
    )

-- Reading what `sockify_write_be16`, `sockify_write_be32` and `sockify_write_be64` stored gives the
-- value reduced to the width, whatever stands behind it, for every value.
pub read_be-write_be :
    (v : ℕ) (rest : Bytes)
    → (read_be16 (write_be16 v ++ rest) ≡ u16 v)
      × (read_be32 (write_be32 v ++ rest) ≡ u32 v)
      × (read_be64 (write_be64 v ++ rest) ≡ u64 v)
read_be-write_be v rest = (read_write_16 v rest, read_write_32 v rest, read_write_64 v rest)

-- A byte read from bytes is a byte, also past the end.
pub get_or-IsByte : (xs : Bytes) (i : ℕ) → All IsByte xs → IsByte (get_or xs i 0)
get_or-IsByte [] i h = omega arith
get_or-IsByte (x ∷ xs) zero h = h.0
get_or-IsByte (x ∷ xs) (suc i) h = get_or-IsByte xs i h.1

pub read_be16-lt : (buf : Bytes) → read_be16 buf < 2 ^ 16
unfolding read_be16
read_be16-lt buf = omega arith

pub read_be64-lt : (buf : Bytes) → All IsByte buf → read_be64 buf < 2 ^ 64
unfolding read_be64
read_be64-lt buf h =
    bit_or_lt 64 _ _
      (bit_or_lt 64 _ _
        (bit_or_lt 64 _ _
          (bit_or_lt 64 _ _
            (bit_or_lt 64 _ _
              (bit_or_lt 64 _ _ (bit_or_lt 64 _ _ (omega arith) (omega arith)) (omega arith))
              (omega arith))
            (omega arith))
          (omega arith))
        (omega arith))
      (omega (arith, get_or-IsByte buf 7 h))

pub write_be64_value :
    (v : ℕ)
    → write_be64 v
      ≡ v / 2 ^ 56 % 256
        ∷ v / 2 ^ 48 % 256
        ∷ v / 2 ^ 40 % 256
        ∷ v / 2 ^ 32 % 256
        ∷ v / 2 ^ 24 % 256
        ∷ v / 2 ^ 16 % 256
        ∷ v / 2 ^ 8 % 256
        ∷ v / 2 ^ 0 % 256
        ∷ []
unfolding write_be64
write_be64_value v = rw (
  byte_of_value v 56,
  byte_of_value v 48,
  byte_of_value v 40,
  byte_of_value v 32,
  byte_of_value v 24,
  byte_of_value v 16,
  byte_of_value v 8,
  byte_of_value v 0,
)
