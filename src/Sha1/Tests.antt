-- ===== src/Sha1/Tests.antt =====
-- The padding theorem at one message, and a vector of tests/test_sha1.c.
use sockify.Prelude.{◌≡◌, ◌/◌, ◌%◌, refl, [], ◌∷◌, Bytes, length}
use sockify.ByteOrder.{read_be32}
use sockify.Sha1.{process, final, absorbed, sha1, init_hash}
use sockify.Sha1.Feed.{hash_blocks}
use sockify.Sha1.Padding.{padded, digest, sha1-padded}

abbrev abc : Bytes
abc = 97 ∷ 98 ∷ 99 ∷ []

sha1-abc :
    sha1 abc
    ≡ 0xa9 ∷ 0x99 ∷ 0x3e ∷ 0x36 ∷ 0x47 ∷ 0x06 ∷ 0x81 ∷ 0x6a ∷ 0xba ∷ 0x3e ∷ 0x25 ∷ 0x71 ∷ 0x78
      ∷ 0x50 ∷ 0xc2 ∷ 0x6c ∷ 0x9c ∷ 0xd0 ∷ 0xd8 ∷ 0x9d ∷ []
unfolding sha1 absorbed final process read_be32
sha1-abc = refl

sha1-padded_example :
    (length (padded abc) % 64 ≡ 0)
    × (sha1 abc ≡ digest (hash_blocks (length (padded abc) / 64) init_hash (padded abc)))
sha1-padded_example = sha1-padded abc
