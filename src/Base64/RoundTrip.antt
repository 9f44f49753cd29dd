-- ===== src/Base64/RoundTrip.antt =====
-- Base64 as RFC 4648 reads it, apart from the code, and the encoder against it.
use sockify.Prelude.{
  ℕ, ◌+◌, ◌-◌, ◌*◌, ◌/◌, ◌%◌, ◌^◌, ◌≤◌, ◌<◌, ◌≡◌, refl, ◌∙◌, ap, ap₂, bit_or, bit_and, true, false,
  some, [], ◌∷◌, ◌++◌, Bytes, IsByte, All, arith, ltb, leb, ◌⊎◌, inl, inr, Bool-cases, ◌==◌, ==_iff,
  if◌then◌else◌, length, take, take-ge, get_or, u32, add_size, u64,
}
use sockify.Prelude.Bits.{all_below, all_below_sound, mask_6}
use sockify.ByteOrder.RoundTrip.{or_sum}
use sockify.Base64.{base64_chars, digit, encode_loop, encode}
use sockify.Status.{ok, err_overflow}

-- The value of a character.
abbrev pub value : ℕ → ℕ
value c =
    if leb 97 c
    then c - 71
    else if leb 65 c
    then c - 65
    else if leb 48 c
    then c + 4
    else if c == 43
    then 62
    else 63

-- The bytes that four characters stand for; `=` fills the last group up.
unfoldable pub decode : Bytes → Bytes
decode (a ∷ b ∷ c ∷ d ∷ rest) =
    let bits = value a * 2 ^ 18 + value b * 2 ^ 12 in
    let bits_3 = bits + value c * 2 ^ 6 in
    let bits_4 = bits_3 + value d in
    if c == 61
    then bits / 2 ^ 16 ∷ []
    else if d == 61
    then bits_3 / 2 ^ 16 ∷ bits_3 / 2 ^ 8 % 256 ∷ []
    else bits_4 / 2 ^ 16 ∷ bits_4 / 2 ^ 8 % 256 ∷ bits_4 % 256 ∷ decode rest
decode _ = []

value_table : all_below 64 (λ i. value (get_or base64_chars i 0) == i) ≡ true
unfolding all_below
value_table = refl

fill_table : all_below 64 (λ i. if get_or base64_chars i 0 == 61 then false else true) ≡ true
unfolding all_below
fill_table = refl

value-digit : (triple k : ℕ) → value (digit triple k) ≡ triple / 2 ^ k % 64
unfolding digit
value-digit triple k =
    let i = bit_and (triple / 2 ^ k) 0x3f in
    let masked : i ≡ triple / 2 ^ k % 64 = mask_6 (triple / 2 ^ k) in
    (==_iff _ i).0
      (all_below_sound 64 (λ j. value (get_or base64_chars j 0) == j) i (omega arith) value_table)
    ∙ masked

digit_not_fill : (triple k : ℕ) → (digit triple k == 61) ≡ false
unfolding digit
digit_not_fill triple k =
    let i = bit_and (triple / 2 ^ k) 0x3f in
    let masked : i ≡ triple / 2 ^ k % 64 = mask_6 (triple / 2 ^ k) in
    ground (
      arith,
      all_below_sound 64 (λ j. if get_or base64_chars j 0 == 61 then false else true) i
          (omega arith) fill_table,
    )

pair_value :
    (x y : ℕ)
    → IsByte x
    → IsByte y
    → bit_or (u32 (x * 2 ^ 16)) (u32 (y * 2 ^ 8)) ≡ x * 2 ^ 16 + y * 2 ^ 8
pair_value x y hx hy =
    omega (arith, or_sum 16 x (u32 (x * 2 ^ 16)) (u32 (y * 2 ^ 8)) (omega arith) (omega arith))

triple_value :
    (x y z : ℕ)
    → IsByte x
    → IsByte y
    → IsByte z
    → bit_or (bit_or (u32 (x * 2 ^ 16)) (u32 (y * 2 ^ 8))) z ≡ x * 2 ^ 16 + y * 2 ^ 8 + z
triple_value x y z hx hy hz =
    let high = bit_or (u32 (x * 2 ^ 16)) (u32 (y * 2 ^ 8)) in
    let pair = pair_value x y hx hy in
    omega (arith, pair, or_sum 8 (x * 256 + y) high z (omega arith) (omega arith))

pub decode-encode_loop : (bytes : Bytes) → All IsByte bytes → decode (encode_loop bytes) ≡ bytes
unfolding decode encode_loop
decode-encode_loop [] h = refl
decode-encode_loop (x ∷ []) h =
    let t = u32 (x * 2 ^ 16) in
    rw (value-digit t 18, value-digit t 12) (ap (λ (v : ℕ). v ∷ []) (omega (arith, h.0)))
decode-encode_loop (x ∷ y ∷ []) h =
    let t = bit_or (u32 (x * 2 ^ 16)) (u32 (y * 2 ^ 8)) in
    let e = pair_value x y h.0 h.1.0 in
    rw (digit_not_fill t 6, value-digit t 18, value-digit t 12, value-digit t 6)
      (ap₂ ◌∷◌ (omega (arith, e, h.0)) (ap (λ (v : ℕ). v ∷ []) (omega (arith, e, h.0, h.1.0))))
decode-encode_loop (x ∷ y ∷ z ∷ rest) h =
    let t = bit_or (bit_or (u32 (x * 2 ^ 16)) (u32 (y * 2 ^ 8))) z in
    let e = triple_value x y z h.0 h.1.0 h.1.1.0 in
    rw
      (
        digit_not_fill t 6,
        digit_not_fill t 0,
        value-digit t 18,
        value-digit t 12,
        value-digit t 6,
        value-digit t 0,
      )
      (ap₂ ◌∷◌ (omega (arith, e, h.0)) (
        ap₂ ◌∷◌ (omega (arith, e, h.0, h.1.0))
          (ap₂ ◌∷◌ (omega (arith, e, h.0, h.1.0, h.1.1.0)) (decode-encode_loop rest h.1.1.1))))

pub length-encode_loop : (bytes : Bytes) → length (encode_loop bytes) ≡ (length bytes + 2) / 3 * 4
unfolding encode_loop
length-encode_loop [] = omega arith
length-encode_loop (x ∷ []) = omega arith
length-encode_loop (x ∷ y ∷ []) = omega arith
length-encode_loop (x ∷ y ∷ z ∷ rest) = omega (arith, length-encode_loop rest)

-- `sockify_base64_encode` on bytes, fewer than 2 ^ 60. With room for four characters for every three
-- bytes begun and a NUL it succeeds, stores that many characters and the NUL, reports the characters,
-- and RFC 4648 reads them back as the bytes. With less room it returns SOCKIFY_ERR_OVERFLOW, reports 0
-- and stores nothing.
pub encode-decode :
    (bytes : Bytes) (output_size : ℕ)
    → All IsByte bytes
    → length bytes < 2 ^ 60
    → ((length bytes + 2) / 3 * 4 < output_size)
        × ((text : Bytes) × (encode (some bytes) (length bytes) false output_size
              ≡ (ok, (length bytes + 2) / 3 * 4, text ++ (0 ∷ [])))
            × (length text ≡ (length bytes + 2) / 3 * 4)
            × (decode text ≡ bytes))
      ⊎ (output_size ≤ (length bytes + 2) / 3 * 4)
        × (encode (some bytes) (length bytes) false output_size ≡ (err_overflow, 0, []))
unfolding encode
encode-decode bytes output_size b small =
    let n = length bytes in
    let all : take n bytes ≡ bytes = take-ge n bytes (omega arith) in
    let whole : add_size (u64 (add_size n 2 / 3 * 4)) 1 ≡ (n + 2) / 3 * 4 + 1 = omega arith in
    elim (Bool-cases (ltb output_size ((n + 2) / 3 * 4 + 1))) [
      | inl over ↦ inr (ground arith, rw (whole, over))
      | inr fits ↦ inl (
        ground arith,
        (
          encode_loop bytes,
          rw (whole, fits, all, length-encode_loop bytes),
          length-encode_loop bytes,
          decode-encode_loop bytes b,
        ),
      )
    ]
