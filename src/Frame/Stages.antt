-- ===== src/Frame/Stages.antt =====
-- The parser takes a client frame: header, length, mask and payload, stage by stage.
use sockify.Prelude.{
  ℕ, ◌+◌, ◌<◌, ◌≡◌, refl, ◌∙◌, ap, Bool, true, false, [], ◌∷◌, Bytes, arith, length, set, ◌==◌,
}
use sockify.Prelude.Bits.{mask_0x80, mask_0x70, mask_0x0f}
use sockify.Frame.Inv.{reset_frame-ok, next_fragmented}
use sockify.Frame.{
  fresh_frame, prepare_message, emit_empty_frame, Parser, header_2, mask_key, payload_data, more,
  stop, step_in, is_payload, feed_loop, validate_frame_header, valid_opcode, step_header_1,
}
use sockify.Frame.Spec.{first_byte}
use sockify.Frame.Stream.{feed_loop-header, after_step}
use sockify.Status.{ok}

-- One header byte that the parser goes on after.
pub take_step :
    (x : ℕ) (rest : Bytes) (pos room : ℕ) (p q : Parser)
    → is_payload p.state ≡ false
    → step_in p.state p x ≡ more q
    → feed_loop (x ∷ rest) pos room p ≡ feed_loop rest (pos + 1) room q
take_step x rest pos room p q h e =
    feed_loop-header x rest pos room p h ∙ ap (after_step rest pos room) e

valid_opcode-lt : (opcode : ℕ) → valid_opcode opcode ≡ true → opcode < 16
valid_opcode-lt opcode h = ground arith

pub first_byte_step :
    (p : Parser) (fin : Bool) (opcode : ℕ)
    → valid_opcode opcode ≡ true
    → step_header_1 p (first_byte fin opcode)
      ≡ more (record p { state = header_2; b0 = first_byte fin opcode; fin = fin; opcode = opcode })
unfolding step_header_1 first_byte
first_byte_step p true opcode v =
    let small = valid_opcode-lt opcode v in
    let byte : 128 + opcode < 256 = omega arith in
    ground (
      arith,
      mask_0x80 (128 + opcode) byte,
      mask_0x70 (128 + opcode) byte,
      mask_0x0f (128 + opcode) byte,
    )
first_byte_step p false opcode v =
    let small = valid_opcode-lt opcode v in
    let byte : 0 + opcode < 256 = omega arith in
    ground
      (arith, mask_0x80 (0 + opcode) byte, mask_0x70 (0 + opcode) byte, mask_0x0f (0 + opcode) byte)

-- The four bytes of the mask, where a payload follows.
set_four :
    (m : Bytes) (a b c d : ℕ)
    → length m ≡ 4
    → set (set (set (set m 0 a) 1 b) 2 c) 3 d ≡ a ∷ b ∷ c ∷ d ∷ []
set_four (w ∷ x ∷ y ∷ z ∷ []) a b c d e = refl
set_four (w ∷ x ∷ y ∷ z ∷ v ∷ m) a b c d e = absurd (omega arith)
set_four [] a b c d e = absurd (omega arith)
set_four (w ∷ []) a b c d e = absurd (omega arith)
set_four (w ∷ x ∷ []) a b c d e = absurd (omega arith)
set_four (w ∷ x ∷ y ∷ []) a b c d e = absurd (omega arith)

mask_step :
    (p : Parser) (x i : ℕ)
    → p.state ≡ mask_key
    → p.mask_pos ≡ i
    → i < 3
    → step_in p.state p x ≡ more (record p { mask = set p.mask i x; mask_pos = i + 1 })
unfolding step_in
mask_step p x i s z lt = ap (λ st. step_in st p x) s ∙ ground arith

mask_step_last :
    (p : Parser) (x : ℕ)
    → p.state ≡ mask_key
    → p.mask_pos ≡ 3
    → 0 < p.payload_remaining
    → step_in p.state p x
      ≡ more (record p { state = payload_data; mask = set p.mask 3 x; mask_pos = 4 })
unfolding step_in
mask_step_last p x s z left = ap (λ st. step_in st p x) s ∙ ground arith

mask_step_empty :
    (p : Parser) (x : ℕ)
    → p.state ≡ mask_key
    → p.mask_pos ≡ 3
    → p.payload_remaining ≡ 0
    → let p' = record p { state = payload_data; mask = set p.mask 3 x; mask_pos = 4 } in
      validate_frame_header p' ≡ ok
      → step_in p.state p x
        ≡ stop ok (fresh_frame p' (next_fragmented p')) (prepare_message p' [] 0 true)
unfolding step_in emit_empty_frame
mask_step_empty p x s z empty v =
    let p' = record p { state = payload_data; mask = set p.mask 3 x; mask_pos = 4 } in
    let full : (p.mask_pos + 1 == 4) ≡ true = ground arith in
    let none_left : (p.payload_remaining == 0) ≡ true = ground arith in
    ap (λ st. step_in st p x) s ∙ rw (full, none_left, z, reset_frame-ok p' v)

pub mask_stage :
    (p : Parser) (a b c d : ℕ) (rest : Bytes) (pos room : ℕ)
    → p.state ≡ mask_key
    → p.mask_pos ≡ 0
    → length p.mask ≡ 4
    → 0 < p.payload_remaining
    → feed_loop (a ∷ b ∷ c ∷ d ∷ rest) pos room p
      ≡ feed_loop rest
          (pos + 1 + 1 + 1 + 1)
          room
          (record p { state = payload_data; mask = a ∷ b ∷ c ∷ d ∷ []; mask_pos = 4 })
mask_stage p a b c d rest pos room s z size left =
    let p1 = record p { mask = set p.mask 0 a; mask_pos = 1 } in
    let p2 = record p1 { mask = set p1.mask 1 b; mask_pos = 2 } in
    let p3 = record p2 { mask = set p2.mask 2 c; mask_pos = 3 } in
    let p4 = record p3 { state = payload_data; mask = set p3.mask 3 d; mask_pos = 4 } in
    let reading : is_payload p.state ≡ false = ap is_payload s in
    take_step a (b ∷ c ∷ d ∷ rest) pos room p p1 reading (mask_step p a 0 s z (omega arith))
    ∙ take_step b (c ∷ d ∷ rest) (pos + 1) room p1 p2 reading
        (mask_step p1 b 1 s refl (omega arith))
    ∙ take_step c (d ∷ rest) (pos + 1 + 1) room p2 p3 reading
        (mask_step p2 c 2 s refl (omega arith))
    ∙ take_step d rest (pos + 1 + 1 + 1) room p3 p4 reading (mask_step_last p3 d s refl left)
    ∙ ap
        (λ m.
          feed_loop rest (pos + 1 + 1 + 1 + 1) room
            (record p { state = payload_data; mask = m; mask_pos = 4 }))
        (set_four p.mask a b c d size)

-- The last mask byte of a frame with no payload closes the frame.
pub mask_stage_empty :
    (p : Parser) (a b c d : ℕ) (rest : Bytes) (pos room : ℕ)
    → p.state ≡ mask_key
    → p.mask_pos ≡ 0
    → p.payload_remaining ≡ 0
    → validate_frame_header p ≡ ok
    → (q : Parser) × (feed_loop (a ∷ b ∷ c ∷ d ∷ rest) pos room p
        ≡ (ok, pos + 1 + 1 + 1 + 1, fresh_frame q (next_fragmented p), prepare_message p [] 0 true))
mask_stage_empty p a b c d rest pos room s z empty v =
    let p1 = record p { mask = set p.mask 0 a; mask_pos = 1 } in
    let p2 = record p1 { mask = set p1.mask 1 b; mask_pos = 2 } in
    let p3 = record p2 { mask = set p2.mask 2 c; mask_pos = 3 } in
    let p4 = record p3 { state = payload_data; mask = set p3.mask 3 d; mask_pos = 4 } in
    let reading : is_payload p.state ≡ false = ap is_payload s in
    let checked : validate_frame_header p4 ≡ ok = unfold validate_frame_header in v in
    (
      p4,
      take_step a (b ∷ c ∷ d ∷ rest) pos room p p1 reading (mask_step p a 0 s z (omega arith))
          ∙ take_step b (c ∷ d ∷ rest) (pos + 1) room p1 p2 reading
              (mask_step p1 b 1 s refl (omega arith))
          ∙ take_step c (d ∷ rest) (pos + 1 + 1) room p2 p3 reading
              (mask_step p2 c 2 s refl (omega arith))
          ∙ feed_loop-header d rest (pos + 1 + 1 + 1) room p3 reading
          ∙ ap (after_step rest (pos + 1 + 1 + 1) room) (mask_step_empty p3 d s refl empty checked),
    )
