-- ===== src/Frame/Rounds.antt =====
-- Each header state keeps the parser's invariant, byte by byte.
use sockify.Prelude.{
  ℕ, zero, suc, ◌+◌, ◌^◌, ◌<◌, ◌≡◌, refl, ◌∙◌, ◌⊎◌, inl, inr, true, false, [], ◌∷◌, Bytes, IsByte,
  All, arith, length-set, bit_and, set, get_or, Bool-cases, ltb, ◌==◌, ◌!=◌, ◌||◌,
}
use sockify.Prelude.Bits.{mask_0x7f}
use sockify.ByteOrder.{read_be16, read_be64}
use sockify.ByteOrder.RoundTrip.{read_be16-lt, read_be64-lt}
use sockify.Frame.{
  prepare_message, Parser, header_1, header_2, ext_len, mask_key, payload_data, step_header_1,
  step_header_2, step_ext_len, step_mask_key, finish_length, validate_frame_header,
  emit_empty_frame, to_mask, valid_opcode,
}
use sockify.Status.{Status, ok}
use sockify.Frame.Inv.{
  AtState, IsWellFormed, IsSound, StepKeeps, Sized, IsWellFormed-of, Sized-of, at, to_state,
  reset_frame-ok, fresh_frame-IsWellFormed, accepted_control,
}

All-set : (xs : Bytes) (i x : ℕ) → All IsByte xs → IsByte x → All IsByte (set xs i x)
All-set [] i x h b = tt
All-set (y ∷ ys) zero x h b = (b, h.1)
All-set (y ∷ ys) (suc i) x h b = (h.0, All-set ys i x h.1 b)

to_mask-keeps :
    (rc : Status) (p : Parser)
    → Sized p
    → (rc ≡ ok → AtState mask_key p)
    → StepKeeps (to_mask (rc, p))
unfolding validate_frame_header
to_mask-keeps ok p s a = IsWellFormed-of (record p { state = mask_key }) s (a refl)
to_mask-keeps _ p s a = tt

pub header_1-keeps :
    (p : Parser) (x : ℕ) → p.state ≡ header_1 → IsWellFormed p → StepKeeps (step_header_1 p x)
unfolding step_header_1
header_1-keeps p x s w = let here = at w s in ground arith

-- Once a length is known the header is checked, and the mask comes next.
length-keeps :
    (p : Parser) (n : ℕ)
    → Sized p
    → valid_opcode p.opcode ≡ true
    → p.masked ≡ true
    → p.mask_pos ≡ 0
    → p.payload_offset ≡ 0
    → n < 2 ^ 64
    → let p' = record p { payload_len = n; payload_remaining = n } in
      StepKeeps (to_mask (validate_frame_header p', p'))
length-keeps p n s v m z o lt =
    let p' = record p { payload_len = n; payload_remaining = n } in
    to_mask-keeps (validate_frame_header p') p' s
      λ accepted. ((v, accepted, m, lt, ground arith), ground arith, o)

pub header_2-keeps :
    (p : Parser) (x : ℕ)
    → p.state ≡ header_2
    → IsByte x
    → IsWellFormed p
    → StepKeeps (step_header_2 p x)
unfolding step_header_2
header_2-keeps p x s b w =
    let here = at w s in
    let tiny =
      length-keeps (record p { b1 = x; masked = true }) (bit_and x 0x7f) (Sized-of w) here.0 refl
        here.1 here.2 (omega (arith, mask_0x7f x b)) in
    elim (Bool-cases (bit_and x 0x80 != 0)) [
      | inr unmasked ↦ rw unmasked tt
      | inl masked ↦ elim (Bool-cases (bit_and x 0x7f == 126)) [
        | inl short ↦ rw (masked, short) (ground arith)
        | inr not_short ↦ elim (Bool-cases (bit_and x 0x7f == 127)) [
          | inl long ↦ rw (masked, not_short, long) (ground arith)
          | inr not_long ↦ rw (masked, not_short, not_long) tiny
        ]
      ]
    ]

finish-keeps :
    (p : Parser)
    → Sized p
    → valid_opcode p.opcode ≡ true
    → p.masked ≡ true
    → p.mask_pos ≡ 0
    → p.payload_offset ≡ 0
    → (p.ext_len_needed ≡ 2) ⊎ (p.ext_len_needed ≡ 8)
    → StepKeeps (to_mask (finish_length p))
unfolding finish_length
finish-keeps p s v m z o (inl two) =
    let keeps =
      length-keeps p (read_be16 p.ext_len_bytes) s v m z o
        (omega (arith, read_be16-lt p.ext_len_bytes)) in
    let is_two : (p.ext_len_needed == 2) ≡ true = ground arith in
    elim (Bool-cases (ltb (read_be16 p.ext_len_bytes) 126)) [
      | inl small ↦ rw (is_two, small) tt
      | inr large ↦ rw (is_two, large) keeps
    ]
finish-keeps p s v m z o (inr eight) =
    let keeps =
      length-keeps p (read_be64 p.ext_len_bytes) s v m z o (read_be64-lt p.ext_len_bytes s.1) in
    let not_two : (p.ext_len_needed == 2) ≡ false = ground arith in
    let is_eight : (p.ext_len_needed == 8) ≡ true = ground arith in
    elim (Bool-cases
      (ltb (read_be64 p.ext_len_bytes) 65536 || bit_and (get_or p.ext_len_bytes 0 0) 0x80 != 0)) [
        | inl refused ↦ rw (not_two, is_eight, refused) tt
        | inr large ↦ rw (not_two, is_eight, large) keeps
      ]

pub ext_len-keeps :
    (p : Parser) (x : ℕ)
    → p.state ≡ ext_len
    → IsByte x
    → IsWellFormed p
    → StepKeeps (step_ext_len p x)
unfolding step_ext_len
ext_len-keeps p x s b w =
    let here = at w s in
    let p' = record p {
      ext_len_bytes = set p.ext_len_bytes p.ext_len_pos x;
      ext_len_pos = p.ext_len_pos + 1;
    } in
    let size = length-set p.ext_len_bytes p.ext_len_pos x in
    let bytes = All-set p.ext_len_bytes p.ext_len_pos x w.ext_bytes b in
    let sized : Sized p' = (size ∙ w.ext_size, bytes, w.mask_size, w.open_message) in
    elim (Bool-cases (p.ext_len_pos + 1 == p.ext_len_needed)) [
      | inl full ↦ rw full (finish-keeps p' sized here.0 here.1 here.2 here.3 here.5)
      | inr going ↦ rw going (IsWellFormed-of p' sized (to_state p' s (ground arith)))
    ]

pub mask_key-keeps :
    (p : Parser) (x : ℕ) → p.state ≡ mask_key → IsWellFormed p → StepKeeps (step_mask_key p x)
unfolding step_mask_key emit_empty_frame
mask_key-keeps p x s w =
    let here = at w s in
    let size = length-set p.mask p.mask_pos x in
    let p' = record p { mask = set p.mask p.mask_pos x; mask_pos = p.mask_pos + 1 } in
    let p'' = record p' { state = payload_data } in
    let sized : Sized p' = (w.ext_size, w.ext_bytes, size ∙ w.mask_size, w.open_message) in
    let checked : validate_frame_header p' ≡ ok = unfold validate_frame_header in here.0.1 in
    let accepted : validate_frame_header p'' ≡ ok = unfold validate_frame_header in here.0.1 in
    let sound : IsSound 0 (prepare_message p'' [] 0 true) = record {
      known = here.0.0;
      counted = refl;
      fits = omega arith;
      control = elim (accepted_control p here.0.1) [
        | inl plain ↦ inl plain
        | inr (whole, short) ↦ inr (whole, omega arith)
      ];
    } in
    elim (Bool-cases (p.mask_pos + 1 == 4)) [
      | inr going ↦ rw going (
          IsWellFormed-of p' sized (
            to_state p' s
              ((here.0.0, checked, here.0.2, here.0.3, here.0.4), ground arith, here.2)))
      | inl full ↦ elim (Bool-cases (p.payload_remaining == 0)) [
        | inl empty ↦
            rw (full, empty, reset_frame-ok p'' accepted)
              (fresh_frame-IsWellFormed p'' sized, sound)
        | inr some_left ↦
            rw (full, some_left)
              (IsWellFormed-of p'' sized
                ((here.0.0, accepted, here.0.2, here.0.3, here.0.4), ground arith))
      ]
    ]
