-- ===== src/ByteOrder/Tests.antt =====
-- The byte-order theorem at one value, and a run of each reader.
use sockify.Prelude.{◌≡◌, refl, [], ◌∷◌, ◌++◌}
use sockify.ByteOrder.{read_be16, read_be32, read_be64, write_be16, write_be32, write_be64}
use sockify.ByteOrder.RoundTrip.{read_be-write_be}

readers :
    (read_be16 (0x12 ∷ 0x34 ∷ []) ≡ 0x1234)
    × (read_be32 (0x12 ∷ 0x34 ∷ 0x56 ∷ 0x78 ∷ []) ≡ 0x12345678)
    × (write_be16 0xabcd ≡ 0xab ∷ 0xcd ∷ [])
unfolding read_be16 read_be32 write_be16
readers = (refl, refl, refl)

read_be-write_be_example :
    (read_be16 (write_be16 0x1_2345 ++ (9 ∷ [])) ≡ 0x2345)
    × (read_be32 (write_be32 0x1_2345 ++ (9 ∷ [])) ≡ 0x1_2345)
    × (read_be64 (write_be64 0x1_2345 ++ (9 ∷ [])) ≡ 0x1_2345)
read_be-write_be_example = read_be-write_be 0x1_2345 (9 ∷ [])
