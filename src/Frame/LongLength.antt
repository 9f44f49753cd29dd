-- ===== src/Frame/LongLength.antt =====
-- The parser takes a 64-bit length field of a client frame.
use sockify.Prelude.{
  ℕ, ◌+◌, ◌/◌, ◌%◌, ◌^◌, ◌≤◌, ◌<◌, ◌≡◌, refl, ◌∙◌, ap, inr, true, [], ◌∷◌, ◌++◌, Bytes, arith,
  length, get_or, set, bit_and,
}
use sockify.Prelude.Bits.{mask_0x80}
use sockify.ByteOrder.{read_be64}
use sockify.ByteOrder.RoundTrip.{read_be64_value}
use sockify.Frame.{Parser, header_2, ext_len, is_payload, feed_loop}
use sockify.Frame.Spec.{allowed}
use sockify.Frame.Stages.{take_step}
use sockify.Frame.Lengths.{
  LengthTaken, reading_length, second_byte_stage, ext_step, ext_step_last, finish_64, set_eight,
  after_length,
}

-- The bytes of a 64-bit length, most significant first.
abbrev bytes_64 : ℕ → Bytes
bytes_64 n =
    (n / 2 ^ 56)
    ∷ (n / 2 ^ 48 % 256)
    ∷ (n / 2 ^ 40 % 256)
    ∷ (n / 2 ^ 32 % 256)
    ∷ (n / 2 ^ 24 % 256)
    ∷ (n / 2 ^ 16 % 256)
    ∷ (n / 2 ^ 8 % 256)
    ∷ (n % 256)
    ∷ []

bytes_64_value : (n : ℕ) → n < 2 ^ 63 → read_be64 (bytes_64 n) ≡ n
bytes_64_value n lt =
    read_be64_value (n / 2 ^ 56) (n / 2 ^ 48 % 256) (n / 2 ^ 40 % 256) (n / 2 ^ 32 % 256)
      (n / 2 ^ 24 % 256) (n / 2 ^ 16 % 256) (n / 2 ^ 8 % 256) (n % 256) (omega arith) (omega arith)
      (omega arith) (omega arith) (omega arith) (omega arith) (omega arith) (omega arith) []
    ∙ omega arith

-- The record of `p` with one more byte of the length stored.
abbrev stored : Parser → ℕ → ℕ → Parser
stored p i x = record p { ext_len_bytes = set p.ext_len_bytes i x; ext_len_pos = i + 1 }

store_step :
    (p : Parser) (x i : ℕ) (rest : Bytes) (pos room : ℕ)
    → p.state ≡ ext_len
    → p.ext_len_pos ≡ i
    → i + 1 < p.ext_len_needed
    → feed_loop (x ∷ rest) pos room p ≡ feed_loop rest (pos + 1) room (stored p i x)
store_step p x i rest pos room s e lt =
    take_step x rest pos room p (stored p i x) (ap is_payload s) (ext_step p x i s e lt)

pub stage_64 :
    (p : Parser) (n : ℕ) (rest : Bytes) (pos room : ℕ)
    → p.state ≡ header_2
    → length p.ext_len_bytes ≡ 8
    → 65536 ≤ n
    → n < 2 ^ 63
    → allowed p.fragmented_opcode p.fin p.opcode n ≡ true
    → (q : Parser) × (feed_loop ((128 + 127) ∷ (bytes_64 n ++ rest)) pos room p
        ≡ feed_loop rest (pos + 9) room q)
      × LengthTaken p n q
stage_64 p n rest pos room s size large small a =
    let p0 = reading_length p 127 in
    let p1 = stored p0 0 (n / 2 ^ 56) in
    let p2 = stored p1 1 (n / 2 ^ 48 % 256) in
    let p3 = stored p2 2 (n / 2 ^ 40 % 256) in
    let p4 = stored p3 3 (n / 2 ^ 32 % 256) in
    let p5 = stored p4 4 (n / 2 ^ 24 % 256) in
    let p6 = stored p5 5 (n / 2 ^ 16 % 256) in
    let p7 = stored p6 6 (n / 2 ^ 8 % 256) in
    let p8 = stored p7 7 (n % 256) in
    let all_eight : p8.ext_len_bytes ≡ bytes_64 n =
      set_eight p.ext_len_bytes (n / 2 ^ 56) (n / 2 ^ 48 % 256) (n / 2 ^ 40 % 256)
        (n / 2 ^ 32 % 256) (n / 2 ^ 24 % 256) (n / 2 ^ 16 % 256) (n / 2 ^ 8 % 256) (n % 256) size in
    let value : read_be64 p8.ext_len_bytes ≡ n = ap read_be64 all_eight ∙ bytes_64_value n small in
    let top : bit_and (get_or p8.ext_len_bytes 0 0) 0x80 ≡ 0 =
      ap (λ l. bit_and (get_or l 0 0) 0x80) all_eight
      ∙ omega (arith, mask_0x80 (n / 2 ^ 56) (omega arith)) in
    let nine : pos + 1 + 1 + 1 + 1 + 1 + 1 + 1 + 1 + 1 ≡ pos + 9 = omega arith in
    (
      after_length p8 n,
      second_byte_stage p 127 (bytes_64 n ++ rest) pos room s (inr refl)
          ∙ store_step p0 (n / 2 ^ 56) 0
              ((n / 2 ^ 48 % 256)
                ∷ (n / 2 ^ 40 % 256)
                ∷ (n / 2 ^ 32 % 256)
                ∷ (n / 2 ^ 24 % 256)
                ∷ (n / 2 ^ 16 % 256)
                ∷ (n / 2 ^ 8 % 256)
                ∷ (n % 256)
                ∷ rest)
              (pos + 1) room refl refl (omega arith)
          ∙ store_step p1 (n / 2 ^ 48 % 256) 1
              ((n / 2 ^ 40 % 256)
                ∷ (n / 2 ^ 32 % 256)
                ∷ (n / 2 ^ 24 % 256)
                ∷ (n / 2 ^ 16 % 256)
                ∷ (n / 2 ^ 8 % 256)
                ∷ (n % 256)
                ∷ rest)
              (pos + 1 + 1) room refl refl (omega arith)
          ∙ store_step p2 (n / 2 ^ 40 % 256) 2
              ((n / 2 ^ 32 % 256)
                ∷ (n / 2 ^ 24 % 256)
                ∷ (n / 2 ^ 16 % 256)
                ∷ (n / 2 ^ 8 % 256)
                ∷ (n % 256)
                ∷ rest)
              (pos + 1 + 1 + 1) room refl refl (omega arith)
          ∙ store_step p3 (n / 2 ^ 32 % 256) 3
              ((n / 2 ^ 24 % 256) ∷ (n / 2 ^ 16 % 256) ∷ (n / 2 ^ 8 % 256) ∷ (n % 256) ∷ rest)
              (pos + 1 + 1 + 1 + 1) room refl refl (omega arith)
          ∙ store_step p4 (n / 2 ^ 24 % 256) 4
              ((n / 2 ^ 16 % 256) ∷ (n / 2 ^ 8 % 256) ∷ (n % 256) ∷ rest) (pos + 1 + 1 + 1 + 1 + 1)
              room refl refl (omega arith)
          ∙ store_step p5 (n / 2 ^ 16 % 256) 5 ((n / 2 ^ 8 % 256) ∷ (n % 256) ∷ rest)
              (pos + 1 + 1 + 1 + 1 + 1 + 1) room refl refl (omega arith)
          ∙ store_step p6 (n / 2 ^ 8 % 256) 6 ((n % 256) ∷ rest) (pos + 1 + 1 + 1 + 1 + 1 + 1 + 1)
              room refl refl (omega arith)
          ∙ take_step (n % 256) rest (pos + 1 + 1 + 1 + 1 + 1 + 1 + 1 + 1) room p7
              (after_length p8 n) refl
              (ext_step_last p7 (n % 256) 7 n refl refl refl
                (finish_64 p8 n refl value top large a))
          ∙ ap (λ k. feed_loop rest k room (after_length p8 n)) nine,
      unfold after_length in ground arith,
    )
