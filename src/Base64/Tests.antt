-- ===== src/Base64/Tests.antt =====
-- The encoder's theorem at an input that meets its hypotheses, and the vectors of
-- tests/test_base64.c.
use sockify.Prelude.{
  ◌+◌, ◌*◌, ◌/◌, ◌≡◌, ◌≤◌, ◌<◌, refl, ◌⊎◌, false, some, [], ◌∷◌, ◌++◌, Bytes, arith, length,
}
use sockify.Base64.{encode, encode_loop, digit}
use sockify.Base64.RoundTrip.{decode, encode-decode}
use sockify.Status.{ok, err_overflow}

vectors :
    (encode (some (102 ∷ [])) 1 false 64 ≡ (ok, 4, 90 ∷ 103 ∷ 61 ∷ 61 ∷ 0 ∷ []))
    × (encode (some (102 ∷ 111 ∷ [])) 2 false 64 ≡ (ok, 4, 90 ∷ 109 ∷ 56 ∷ 61 ∷ 0 ∷ []))
    × (encode (some (102 ∷ 111 ∷ 111 ∷ [])) 3 false 64 ≡ (ok, 4, 90 ∷ 109 ∷ 57 ∷ 118 ∷ 0 ∷ []))
unfolding encode encode_loop digit
vectors = (refl, refl, refl)

-- "f" with room for five characters.
encode-decode_example :
    ((1 + 2) / 3 * 4 < 5)
      × ((text : Bytes) × (encode (some (102 ∷ [])) 1 false 5 ≡ (ok, 4, text ++ (0 ∷ [])))
          × (length text ≡ 4)
          × (decode text ≡ 102 ∷ []))
    ⊎ (5 ≤ 4) × (encode (some (102 ∷ [])) 1 false 5 ≡ (err_overflow, 0, []))
encode-decode_example = encode-decode (102 ∷ []) 5 (omega arith) (omega arith)
