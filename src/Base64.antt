-- ===== src/Base64.antt =====
-- src/core/base64.c: the encoder.
pub mod RoundTrip
mod Tests
use sockify.Prelude.{
  ℕ, ◌+◌, ◌*◌, ◌/◌, bit_or, bit_and, Bool, ◌&&◌, ◌||◌, Option, List, [], ◌∷◌, ◌++◌, Bytes, u32, u64,
  ◌<<<◌, ◌>>>◌, ltb, ◌!=◌, if◌then◌else◌, get_or, take, length, add_size,
}
use sockify.Buffer.{is_null, bytes_of}
use sockify.Status.{Status, ok, err_invalid, err_overflow}

-- `base64_chars`: A to Z, a to z, 0 to 9, + and /.
abbrev pub base64_chars : Bytes
base64_chars =
    65 ∷ 66 ∷ 67 ∷ 68 ∷ 69 ∷ 70 ∷ 71 ∷ 72 ∷ 73 ∷ 74 ∷ 75 ∷ 76 ∷ 77 ∷ 78 ∷ 79 ∷ 80 ∷ 81 ∷ 82 ∷ 83
    ∷ 84 ∷ 85 ∷ 86 ∷ 87 ∷ 88 ∷ 89 ∷ 90 ∷ 97 ∷ 98 ∷ 99 ∷ 100 ∷ 101 ∷ 102 ∷ 103 ∷ 104 ∷ 105 ∷ 106
    ∷ 107 ∷ 108 ∷ 109 ∷ 110 ∷ 111 ∷ 112 ∷ 113 ∷ 114 ∷ 115 ∷ 116 ∷ 117 ∷ 118 ∷ 119 ∷ 120 ∷ 121 ∷ 122
    ∷ 48 ∷ 49 ∷ 50 ∷ 51 ∷ 52 ∷ 53 ∷ 54 ∷ 55 ∷ 56 ∷ 57 ∷ 43 ∷ 47 ∷ []

-- `base64_chars[(triple >> k) & 0x3f]`
unfoldable pub digit : ℕ → ℕ → ℕ
digit triple k = get_or base64_chars (bit_and (triple >>> k) 0x3f) 0

-- `(sockify_u32)x << k`
abbrev shifted : ℕ → ℕ → ℕ
shifted x k = u32 (x <<< k)

-- The loop and the two cases behind it; the list is `input[in..input_len)`.
unfoldable pub encode_loop : Bytes → Bytes
encode_loop [] = []
encode_loop (x ∷ []) = let triple = shifted x 16 in digit triple 18 ∷ digit triple 12 ∷ 61 ∷ 61 ∷ []
encode_loop (x ∷ y ∷ []) =
    let triple = bit_or (shifted x 16) (shifted y 8) in
    digit triple 18 ∷ digit triple 12 ∷ digit triple 6 ∷ 61 ∷ []
encode_loop (x ∷ y ∷ z ∷ rest) =
    let triple = bit_or (bit_or (shifted x 16) (shifted y 8)) z in
    digit triple 18 ∷ digit triple 12 ∷ digit triple 6 ∷ digit triple 0 ∷ encode_loop rest

-- `sockify_base64_encode`. The results are the return code, `*written` and the bytes stored in
-- `output`, the final NUL included.
unfoldable pub encode : Option Bytes → ℕ → Bool → ℕ → Status × ℕ × Bytes
unfolding encode_loop
encode input_ptr input_len output_null output_size =
    let encoded_len = u64 (add_size input_len 2 / 3 * 4) in
    let out = encode_loop (take input_len (bytes_of input_ptr)) in
    if output_null || is_null input_ptr && input_len != 0
    then (err_invalid, 0, [])
    else if ltb output_size (add_size encoded_len 1)
    then (err_overflow, 0, [])
    else (ok, length out, out ++ (0 ∷ []))
