-- ===== src/Frame/Lengths.antt =====
-- The parser takes the length field of a client frame, in each of its three forms.
use sockify.Prelude.{
  ℕ, ◌+◌, ◌*◌, ◌/◌, ◌%◌, ◌≤◌, ◌<◌, ◌≡◌, refl, ◌∙◌, ap, ◌⊎◌, inl, true, false, [], ◌∷◌, Bytes,
  IsByte, arith, length, get_or, set, ltb, ◌==◌, if◌then◌else◌, bit_and,
}
use sockify.Prelude.Bits.{mask_0x80, mask_0x7f}
use sockify.ByteOrder.{read_be16, read_be64}
use sockify.ByteOrder.RoundTrip.{read_be16_value}
use sockify.Frame.{
  finish_length, Parser, header_2, ext_len, mask_key, more, step_in, is_payload, feed_loop,
  validate_frame_header, step_header_2,
}
use sockify.Frame.Spec.{allowed}
use sockify.Status.{ok}
use sockify.Frame.Stages.{take_step}

-- The header is what the rules allow.
pub validate-allowed :
    (p : Parser)
    → allowed p.fragmented_opcode p.fin p.opcode p.payload_len ≡ true
    → validate_frame_header p ≡ ok
unfolding allowed validate_frame_header
validate-allowed p h = ground arith

-- The length stage: from the second byte to the mask, with the length that was written.
pub record LengthTaken (p : Parser) (n : ℕ) (q : Parser) : Type 0 where
  pub at_mask : q.state ≡ mask_key
  pub same_fin : q.fin ≡ p.fin
  pub same_opcode : q.opcode ≡ p.opcode
  pub same_mask : q.mask ≡ p.mask
  pub same_mask_pos : q.mask_pos ≡ p.mask_pos
  pub same_offset : q.payload_offset ≡ p.payload_offset
  pub same_open : q.fragmented_opcode ≡ p.fragmented_opcode
  pub taken_len : q.payload_len ≡ n
  pub taken_remaining : q.payload_remaining ≡ n

second_byte_masks :
    (n : ℕ) → n < 128 → (bit_and (128 + n) 0x80 ≡ 128) × (bit_and (128 + n) 0x7f ≡ n)
second_byte_masks n lt =
    let byte : 128 + n < 256 = omega arith in
    (omega (arith, mask_0x80 (128 + n) byte), omega (arith, mask_0x7f (128 + n) byte))

unfoldable pub after_length : Parser → ℕ → Parser
after_length p n = record p { state = mask_key; payload_len = n; payload_remaining = n }

after_length-LengthTaken : (p : Parser) (n : ℕ) → LengthTaken p n (after_length p n)
unfolding after_length
after_length-LengthTaken p n = ground arith

-- A second byte that holds the length itself.
second_byte_short :
    (p : Parser) (n : ℕ)
    → n ≤ 125
    → allowed p.fragmented_opcode p.fin p.opcode n ≡ true
    → step_header_2 p (128 + n) ≡ more (after_length (record p { b1 = 128 + n; masked = true }) n)
unfolding step_header_2 after_length
second_byte_short p n small a =
    let masks = second_byte_masks n (omega arith) in
    let p' = record p { b1 = 128 + n; masked = true; payload_len = n; payload_remaining = n } in
    rw (masks.0, masks.1) (ground (arith, validate-allowed p' a))

-- A second byte that announces 16 or 64 bits.
second_byte_long :
    (p : Parser) (n : ℕ)
    → (n ≡ 126) ⊎ (n ≡ 127)
    → step_header_2 p (128 + n)
      ≡ more (record p {
        state = ext_len;
        b1 = 128 + n;
        masked = true;
        payload_len = n;
        ext_len_needed = if n == 126 then 2 else 8;
        ext_len_pos = 0;
      })
unfolding step_header_2
second_byte_long p n h =
    let masks = second_byte_masks n (omega arith) in rw (masks.0, masks.1) (ground arith)

-- A byte of a longer length field, and its last byte.
pub ext_step :
    (p : Parser) (x i : ℕ)
    → p.state ≡ ext_len
    → p.ext_len_pos ≡ i
    → i + 1 < p.ext_len_needed
    → step_in p.state p x
      ≡ more (record p { ext_len_bytes = set p.ext_len_bytes i x; ext_len_pos = i + 1 })
unfolding step_in
ext_step p x i s e lt = ap (λ st. step_in st p x) s ∙ ground arith

pub ext_step_last :
    (p : Parser) (x i n : ℕ)
    → p.state ≡ ext_len
    → p.ext_len_pos ≡ i
    → i + 1 ≡ p.ext_len_needed
    → let p' = record p { ext_len_bytes = set p.ext_len_bytes i x; ext_len_pos = i + 1 } in
      finish_length p' ≡ (ok, record p' { payload_len = n; payload_remaining = n })
      → step_in p.state p x ≡ more (after_length p' n)
unfolding step_in after_length
ext_step_last p x i n s e last f =
    let is_last : (i + 1 == p.ext_len_needed) ≡ true = ground arith in
    ap (λ st. step_in st p x) s ∙ rw (e, is_last, f)

-- What `finish_length` makes of the bytes of a 16-bit or a 64-bit length.
finish_16 :
    (p : Parser) (n : ℕ)
    → p.ext_len_needed ≡ 2
    → read_be16 p.ext_len_bytes ≡ n
    → 126 ≤ n
    → allowed p.fragmented_opcode p.fin p.opcode n ≡ true
    → finish_length p ≡ (ok, record p { payload_len = n; payload_remaining = n })
unfolding finish_length
finish_16 p n two e large a =
    let p' = record p { payload_len = n; payload_remaining = n } in
    let is_two : (p.ext_len_needed == 2) ≡ true = ground arith in
    let not_small : ltb n 126 ≡ false = ground arith in
    rw (e, is_two, not_small, validate-allowed p' a)

pub finish_64 :
    (p : Parser) (n : ℕ)
    → p.ext_len_needed ≡ 8
    → read_be64 p.ext_len_bytes ≡ n
    → bit_and (get_or p.ext_len_bytes 0 0) 0x80 ≡ 0
    → 65536 ≤ n
    → allowed p.fragmented_opcode p.fin p.opcode n ≡ true
    → finish_length p ≡ (ok, record p { payload_len = n; payload_remaining = n })
unfolding finish_length
finish_64 p n eight e top large a =
    let p' = record p { payload_len = n; payload_remaining = n } in
    let not_two : (p.ext_len_needed == 2) ≡ false = ground arith in
    let is_eight : (p.ext_len_needed == 8) ≡ true = ground arith in
    let not_small : ltb n 65536 ≡ false = ground arith in
    rw (e, not_two, is_eight, not_small, top, validate-allowed p' a)

set_two :
    (m : Bytes) (a b : ℕ)
    → length m ≡ 8
    → IsByte a
    → IsByte b
    → read_be16 (set (set m 0 a) 1 b) ≡ a * 256 + b
set_two (_ ∷ _ ∷ m) a b e ha hb = read_be16_value a b ha hb m ∙ omega arith
set_two (_ ∷ []) a b e ha hb = absurd (omega arith)
set_two [] a b e ha hb = absurd (omega arith)

pub set_eight :
    (m : Bytes) (a b c d e f g h : ℕ)
    → length m ≡ 8
    → set (set (set (set (set (set (set (set m 0 a) 1 b) 2 c) 3 d) 4 e) 5 f) 6 g) 7 h
      ≡ a ∷ b ∷ c ∷ d ∷ e ∷ f ∷ g ∷ h ∷ []
set_eight (_ ∷ _ ∷ _ ∷ _ ∷ _ ∷ _ ∷ _ ∷ _ ∷ []) a b c d e f g h k = refl
set_eight _ a b c d e f g h k = absurd (omega arith)

-- The state in which the bytes of a longer length come in.
abbrev pub reading_length : Parser → ℕ → Parser
reading_length p n = record p {
  state = ext_len;
  b1 = 128 + n;
  masked = true;
  payload_len = n;
  ext_len_needed = if n == 126 then 2 else 8;
  ext_len_pos = 0;
}

pub second_byte_stage :
    (p : Parser) (n : ℕ) (rest : Bytes) (pos room : ℕ)
    → p.state ≡ header_2
    → (n ≡ 126) ⊎ (n ≡ 127)
    → feed_loop ((128 + n) ∷ rest) pos room p ≡ feed_loop rest (pos + 1) room (reading_length p n)
second_byte_stage p n rest pos room s h =
    take_step (128 + n) rest pos room p (reading_length p n) (ap is_payload s)
      (ap (λ st. step_in st p (128 + n)) s ∙ unfold step_in in second_byte_long p n h)

pub short_stage :
    (p : Parser) (n : ℕ) (rest : Bytes) (pos room : ℕ)
    → p.state ≡ header_2
    → n ≤ 125
    → allowed p.fragmented_opcode p.fin p.opcode n ≡ true
    → (q : Parser) × (feed_loop ((128 + n) ∷ rest) pos room p ≡ feed_loop rest (pos + 1) room q)
      × LengthTaken p n q
short_stage p n rest pos room s small a =
    let p' = record p { b1 = 128 + n; masked = true } in
    (
      after_length p' n,
      take_step (128 + n) rest pos room p (after_length p' n) (ap is_payload s)
          (ap (λ st. step_in st p (128 + n)) s ∙ unfold step_in in second_byte_short p n small a),
      unfold after_length in ground arith,
    )

pub stage_16 :
    (p : Parser) (n : ℕ) (rest : Bytes) (pos room : ℕ)
    → p.state ≡ header_2
    → length p.ext_len_bytes ≡ 8
    → 126 ≤ n
    → n < 65536
    → allowed p.fragmented_opcode p.fin p.opcode n ≡ true
    → (q : Parser) × (feed_loop ((128 + 126) ∷ (n / 256) ∷ (n % 256) ∷ rest) pos room p
        ≡ feed_loop rest (pos + 1 + 1 + 1) room q)
      × LengthTaken p n q
stage_16 p n rest pos room s size large small a =
    let p0 = reading_length p 126 in
    let p1 = record p0 { ext_len_bytes = set p0.ext_len_bytes 0 (n / 256); ext_len_pos = 1 } in
    let p2 = record p1 { ext_len_bytes = set p1.ext_len_bytes 1 (n % 256); ext_len_pos = 2 } in
    let value : read_be16 p2.ext_len_bytes ≡ n =
      set_two p.ext_len_bytes (n / 256) (n % 256) size (omega arith) (omega arith) ∙ omega arith in
    (
      after_length p2 n,
      second_byte_stage p 126 ((n / 256) ∷ (n % 256) ∷ rest) pos room s (inl refl)
          ∙ take_step (n / 256) ((n % 256) ∷ rest) (pos + 1) room p0 p1 refl
              (ext_step p0 (n / 256) 0 refl refl (omega arith))
          ∙ take_step (n % 256) rest (pos + 1 + 1) room p1 (after_length p2 n) refl
              (ext_step_last p1 (n % 256) 1 n refl refl refl (finish_16 p2 n refl value large a)),
      unfold after_length in ground arith,
    )
