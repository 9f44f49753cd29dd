-- ===== src/Frame/Writer/RoundTrip.antt =====
-- A client reads back what the server writes.
use sockify.Prelude.{
  ℕ, ◌+◌, ◌%◌, ◌^◌, ◌≤◌, ◌<◌, ◌≡◌, refl, sym, ◌∙◌, ap, true, false, ◌&&◌, some, [], ◌++◌,
  append_assoc, Bytes, arith, length, length-append, take, take-append, drop-append, take-ge, u8,
  u16, ltb, leb, ◌!=◌, bit_and, bit_or, add_size, Bool-cases, inl, inr,
}
use sockify.Prelude.Bits.{mask_0x0f, bit_or_fields}
use sockify.ByteOrder.{write_be16, write_be64}
use sockify.ByteOrder.RoundTrip.{write_be16_value, write_be64_value}
use sockify.Frame.{valid_opcode, is_control_opcode}
use sockify.Frame.Spec.{decode_frame, payload_of}
use sockify.Frame.Writer.{header_len, frame_header, write_frame}
use sockify.Status.{Status, ok, is_ok}

valid_opcode-lt : (opcode : ℕ) → valid_opcode opcode ≡ true → opcode < 16
valid_opcode-lt opcode h = ground arith

first_byte_value :
    (opcode : ℕ) → opcode < 16 → u8 (bit_or 0x80 (bit_and opcode 0x0f)) ≡ 128 + opcode
first_byte_value opcode lt =
    let low : bit_and opcode 0x0f ≡ opcode = omega (arith, mask_0x0f opcode (omega arith)) in
    rw low (omega (arith, bit_or_fields 7 1 opcode (omega arith)))

payload_of_whole :
    (opcode n : ℕ) (payload rest : Bytes)
    → opcode < 16
    → n ≡ length payload
    → payload_of (128 + opcode) n (payload ++ rest) ≡ some (true, opcode, payload, rest)
payload_of_whole opcode n payload rest lt e =
    let enough : leb (length payload) (length (payload ++ rest)) ≡ true =
      ground (arith, length-append payload rest) in
    let fin : leb 128 (128 + opcode) ≡ true = ground arith in
    let low : (128 + opcode) % 16 ≡ opcode = omega arith in
    rw (e, enough, fin, low, take-append payload rest, drop-append payload rest)

length-frame_header : (opcode n : ℕ) → length (frame_header opcode n) ≡ header_len n
unfolding frame_header write_be16 write_be64
length-frame_header opcode n = ground arith

decode-frame_header :
    (opcode : ℕ) (payload rest : Bytes)
    → valid_opcode opcode ≡ true
    → length payload < 2 ^ 63
    → decode_frame (frame_header opcode (length payload) ++ (payload ++ rest))
      ≡ some (true, opcode, payload, rest)
unfolding frame_header decode_frame
decode-frame_header opcode payload rest v small =
    let n = length payload in
    let lt = valid_opcode-lt opcode v in
    let first = first_byte_value opcode lt in
    elim (Bool-cases (leb n 125)) [
      | inl short ↦
          let byte : u8 n ≡ n = ground arith in
          rw (short, first, byte, short) (payload_of_whole opcode n payload rest lt refl)
      | inr not_short ↦ elim (Bool-cases (leb n 65535)) [
        | inl middle ↦
            let bound : n ≤ 65535 = ground arith in
            rw (not_short, middle, first, write_be16_value (u16 n))
              (payload_of_whole opcode _ payload rest lt (omega arith))
        | inr long ↦
            rw (not_short, long, first, write_be64_value n)
              (payload_of_whole opcode _ payload rest lt (omega arith))
      ]
    ]

-- What the writer may return.
pub data WriteResult (output_size : ℕ) (r : Status × ℕ × Bytes) : Type 0 where
  wrote : r.0 ≡ ok → r.1 ≤ output_size → r.1 ≡ length r.2 → WriteResult output_size r
  refused : is_ok r.0 ≡ false → r.1 ≡ 0 → r.2 ≡ [] → WriteResult output_size r

-- For a payload that the rules allow and an output buffer with room for it, the writer succeeds and
-- writes header and payload, and a client that reads them, whatever follows, finds a final frame
-- with the opcode and the payload, and what follows behind it.
pub write_frame-decode :
    (opcode : ℕ) (payload rest : Bytes) (output_size : ℕ)
    → valid_opcode opcode ≡ true
    → (is_control_opcode opcode && ltb 125 (length payload)) ≡ false
    → length payload < 2 ^ 63
    → header_len (length payload) + length payload ≤ output_size
    → (bytes : Bytes) × (write_frame opcode (some payload) (length payload) false output_size
        ≡ (ok, length bytes, bytes))
      × (length bytes ≡ header_len (length payload) + length payload)
      × (decode_frame (bytes ++ rest) ≡ some (true, opcode, payload, rest))
unfolding write_frame
write_frame-decode opcode payload rest output_size v c small fits =
    let n = length payload in
    let bytes = frame_header opcode n ++ payload in
    let size : length bytes ≡ header_len n + n =
      length-append (frame_header opcode n) payload
      ∙ ap (λ k. k + n) (length-frame_header opcode n) in
    let no_null : (length payload != 0 && false) ≡ false = ground arith in
    let no_overflow : add_size (header_len n) n ≡ header_len n + n = ground arith in
    let room : ltb output_size (header_len n + n) ≡ false = ground arith in
    (
      bytes,
      rw (no_null, v, c, no_overflow, room, take-ge n payload (omega arith), size),
      size,
      rw (append_assoc (frame_header opcode n) payload rest)
          (decode-frame_header opcode payload rest v small),
    )

-- The writer's outcomes for a payload below 2 ^ 63 bytes: success, with as many bytes stored as it
-- reports and no more than the output holds, or an error, with no byte reported and none stored.
pub write_frame-outcome :
    (opcode : ℕ) (payload : Bytes) (output_size : ℕ)
    → length payload < 2 ^ 63
    → WriteResult output_size (write_frame opcode (some payload) (length payload) false output_size)
unfolding write_frame
write_frame-outcome opcode payload output_size small =
    let n = length payload in
    let no_null : (n != 0 && false) ≡ false = ground arith in
    elim (Bool-cases (valid_opcode opcode)) [
      | inr bad ↦ rw (no_null, bad) (refused refl refl refl)
      | inl good ↦ elim (Bool-cases (is_control_opcode opcode && ltb 125 n)) [
        | inl long ↦ rw (no_null, good, long) (refused refl refl refl)
        | inr fine ↦ elim (Bool-cases (ltb output_size (add_size (header_len n) n))) [
          | inl over ↦ rw (no_null, good, fine, over) (refused refl refl refl)
          | inr fits ↦
              rw (no_null, good, fine, fits)
                (wrote refl (ground arith) (
                  sym (
                    length-append (frame_header opcode n) (take n payload)
                    ∙ rw (length-frame_header opcode n, take-ge n payload (omega arith))
                        (ground arith))))
        ]
      ]
    ]
