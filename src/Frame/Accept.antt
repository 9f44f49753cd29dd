-- ===== src/Frame/Accept.antt =====
-- The parser reads back every frame that the rules allow a client to send.
use sockify.Prelude.{
  some, ℕ, suc, ◌+◌, ◌%◌, ◌^◌, ◌≤◌, ◌<◌, ◌≡◌, refl, ◌∙◌, ap, ap₂, inl, inr, Bool, true, false, [],
  ◌∷◌, ◌++◌, append_assoc, Bytes, IsByte, All, arith, length, length-append, take-append, get_or,
  u64, u8, sub_size, Bool-cases, ltb, leb, ◌==◌, ◌&&◌, bit_and,
}
use sockify.Prelude.Bits.{mask_2, bit_xor_cancel}
use sockify.ByteOrder.RoundTrip.{get_or-IsByte}
use sockify.Frame.{
  parser_feed, Parser, header_1, header_2, mask_key, payload_data, step_in, step_payload,
  is_payload, feed_loop, Fed, unmask, chunk_size, validate_frame_header, valid_opcode,
  is_control_opcode, fresh_frame, prepare_message,
}
use sockify.Frame.Spec.{first_byte, length_field, mask_payload, client_frame, allowed, open_after}
use sockify.Frame.Stream.{parser_feed-loop, feed_loop-payload}
use sockify.Frame.Inv.{at, IsWellFormed, reset_frame-ok, next_fragmented}
use sockify.Frame.Stages.{mask_stage_empty, take_step, first_byte_step, mask_stage}
use sockify.Frame.Lengths.{LengthTaken, short_stage, stage_16, validate-allowed}
use sockify.Frame.LongLength.{stage_64}
use sockify.Status.{ok}

length-mask_payload :
    (key : Bytes) (i : ℕ) (xs : Bytes) → length (mask_payload key i xs) ≡ length xs
unfolding mask_payload
length-mask_payload key i [] = refl
length-mask_payload key i (x ∷ xs) = ap suc (length-mask_payload key (i + 1) xs)

-- The parser's unmasking undoes the client's masking.
unmask-mask_payload :
    (key : Bytes) (i : ℕ) (xs : Bytes)
    → All IsByte key
    → All IsByte xs
    → unmask key i (mask_payload key i xs) ≡ xs
unfolding unmask mask_payload
unmask-mask_payload key i [] k b = refl
unmask-mask_payload key i (x ∷ xs) k (b, bs) =
    let index : bit_and (u64 i) 3 ≡ i % 4 = omega (arith, mask_2 (u64 i)) in
    let key_byte = get_or-IsByte key (i % 4) k in
    let undone = bit_xor_cancel 8 x (get_or key (i % 4) 0) b key_byte in
    let same : u8 x ≡ x = omega arith in
    ap₂ ◌∷◌ (rw (index, undone, same)) (unmask-mask_payload key (i + 1) xs k bs)

length_stage :
    (p : Parser) (n : ℕ) (tail : Bytes) (pos room : ℕ)
    → p.state ≡ header_2
    → length p.ext_len_bytes ≡ 8
    → n < 2 ^ 63
    → allowed p.fragmented_opcode p.fin p.opcode n ≡ true
    → (q : Parser) × (feed_loop (length_field 128 n ++ tail) pos room p
        ≡ feed_loop tail (pos + length (length_field 128 n)) room q)
      × LengthTaken p n q
unfolding length_field
length_stage p n tail pos room s size lt a = elim (Bool-cases (leb n 125)) [
  | inl short ↦ rw short (short_stage p n tail pos room s (ground arith) a)
  | inr not_short ↦ elim (Bool-cases (leb n 65535)) [
    | inl middle ↦
        let (q, e, t) = stage_16 p n tail pos room s size (ground arith) (ground arith) a in
        rw (not_short, middle) (q, e ∙ ap (λ k. feed_loop tail k room q) (omega arith), t)
    | inr long ↦
        let (q, e, t) = stage_64 p n tail pos room s size (ground arith) lt a in
        rw (not_short, long) (q, e, t)
  ]
]

-- What the caller of the parser sees of a whole frame.
pub record Accepts (frame payload : Bytes) (fin : Bool) (opcode open_message : ℕ) (r : Fed)
    : Type 0 where
  pub accepted : r.0 ≡ ok
  pub used_all : r.1 ≡ length frame
  pub same_fin : r.3.fin ≡ fin
  pub same_opcode : r.3.opcode ≡ opcode
  pub same_payload : r.3.payload ≡ payload
  pub same_len : r.3.payload_len ≡ length payload
  pub complete : r.3.frame_complete ≡ true
  pub at_start : r.2.state ≡ header_1
  pub message_open : r.2.fragmented_opcode ≡ open_after open_message fin opcode

-- A payload that is there whole, and fits, is taken in one round.
step_payload_whole :
    (p : Parser) (masked rest : Bytes) (pos room : ℕ)
    → p.payload_remaining ≡ length masked
    → 0 < length masked
    → length masked < 2 ^ 63
    → length masked ≤ room
    → validate_frame_header p ≡ ok
    → let p' = record p {
      payload_offset = u64 (p.payload_offset + length masked);
      payload_remaining = 0;
    } in
      step_payload (masked ++ rest) pos room p ≡ (
        ok,
        pos + length masked,
        fresh_frame p' (next_fragmented p),
        prepare_message p (unmask p.mask p.payload_offset masked) (length masked) true,
      )
unfolding step_payload
step_payload_whole p masked rest pos room r nonempty small fits v =
    let whole : chunk_size (length (masked ++ rest)) room p.payload_remaining ≡ length masked =
      ground (arith, length-append masked rest) in
    let none_left : sub_size p.payload_remaining (length masked) ≡ 0 = omega arith in
    let has_room : (room == 0) ≡ false = ground arith in
    let fits_room : (is_control_opcode p.opcode && ltb room p.payload_remaining) ≡ false =
      ground arith in
    let p' = record p {
      payload_offset = u64 (p.payload_offset + length masked);
      payload_remaining = 0;
    } in
    let checked : validate_frame_header p' ≡ ok = unfold validate_frame_header in v in
    rw (has_room, fits_room, whole, take-append masked rest, none_left, reset_frame-ok p' checked)

payload_stage :
    (p : Parser) (x : ℕ) (xs rest : Bytes) (pos room : ℕ)
    → p.state ≡ payload_data
    → p.payload_offset ≡ 0
    → p.payload_remaining ≡ suc (length xs)
    → suc (length xs) < 2 ^ 63
    → suc (length xs) ≤ room
    → All IsByte p.mask
    → All IsByte (x ∷ xs)
    → validate_frame_header p ≡ ok
    → (q : Parser) × (feed_loop (mask_payload p.mask 0 (x ∷ xs) ++ rest) pos room p ≡ (
      ok,
      pos + suc (length xs),
      fresh_frame q (next_fragmented p),
      prepare_message p (x ∷ xs) (suc (length xs)) true,
    ))
payload_stage p x xs rest pos room s o r small fits k b v =
    let masked = mask_payload p.mask 0 (x ∷ xs) in
    let size : length masked ≡ suc (length xs) = length-mask_payload p.mask 0 (x ∷ xs) in
    let back : unmask p.mask p.payload_offset masked ≡ x ∷ xs =
      rw o (unmask-mask_payload p.mask 0 (x ∷ xs) k b) in
    (
      record p { payload_offset = u64 (p.payload_offset + length masked); payload_remaining = 0 },
      unfold mask_payload in
          feed_loop-payload _ _ pos room p (ap is_payload s)
          ∙ step_payload_whole p masked rest pos room (omega arith) (omega arith) (omega arith)
              (omega arith) v
          ∙ rw (back, size),
    )

open_after-next :
    (p : Parser)
    → valid_opcode p.opcode ≡ true
    → allowed p.fragmented_opcode p.fin p.opcode p.payload_len ≡ true
    → next_fragmented p ≡ open_after p.fragmented_opcode p.fin p.opcode
unfolding allowed open_after
open_after-next p v a = ground arith

-- From the mask on.
tail_stage :
    (q : Parser) (a b c d : ℕ) (payload rest : Bytes) (pos room : ℕ)
    → q.state ≡ mask_key
    → q.mask_pos ≡ 0
    → length q.mask ≡ 4
    → q.payload_offset ≡ 0
    → q.payload_remaining ≡ length payload
    → length payload < 2 ^ 63
    → length payload ≤ room
    → All IsByte (a ∷ b ∷ c ∷ d ∷ [])
    → All IsByte payload
    → validate_frame_header q ≡ ok
    → (q' : Parser) × (feed_loop
          (a ∷ b ∷ c ∷ d ∷ (mask_payload (a ∷ b ∷ c ∷ d ∷ []) 0 payload ++ rest))
          pos
          room
          q
        ≡ (
          ok,
          pos + 4 + length payload,
          fresh_frame q' (next_fragmented q),
          prepare_message q payload (length payload) true,
        ))
tail_stage q a b c d [] rest pos room s z size o r small fits k bytes v =
    let (q', e) = mask_stage_empty q a b c d rest pos room s z r v in
    let four : pos + 1 + 1 + 1 + 1 ≡ pos + 4 + 0 = omega arith in
    (
      q',
      unfold mask_payload in
          e
          ∙ ap (λ u. (ok, u, fresh_frame q' (next_fragmented q), prepare_message q [] 0 true)) four,
    )
tail_stage q a b c d (x ∷ xs) rest pos room s z size o r small fits k bytes v =
    let key = a ∷ b ∷ c ∷ d ∷ [] in
    let p = record q { state = payload_data; mask = key; mask_pos = 4 } in
    let checked : validate_frame_header p ≡ ok = unfold validate_frame_header in v in
    let (q', e) =
      payload_stage p x xs rest (pos + 1 + 1 + 1 + 1) room refl o r small fits k bytes checked in
    let used : pos + 1 + 1 + 1 + 1 + suc (length xs) ≡ pos + 4 + suc (length xs) = omega arith in
    (
      q',
      mask_stage q a b c d (mask_payload key 0 (x ∷ xs) ++ rest) pos room s z size (omega arith)
          ∙ e
          ∙ ap
              (λ u. (
                ok,
                u,
                fresh_frame q' (next_fragmented q),
                prepare_message q (x ∷ xs) (suc (length xs)) true,
              ))
              used,
    )

module _ (p : Parser) (fin : Bool) (opcode a b c d : ℕ) (payload rest : Bytes) (room : ℕ) where
  abbrev frame : Bytes
  frame = client_frame fin opcode (a ∷ b ∷ c ∷ d ∷ []) payload

  -- From the start of a frame, a call given a whole client frame that the rules allow, room for its
  -- payload, and any bytes behind it, returns SOCKIFY_OK, uses exactly the frame, reports its FIN
  -- bit, opcode and unmasked payload as complete, and is at the start of the next frame with the
  -- right message open. This covers all three length forms and the empty payload.
  pub parser_feed-client_frame :
      IsWellFormed p
      → p.state ≡ header_1
      → valid_opcode opcode ≡ true
      → All IsByte (a ∷ b ∷ c ∷ d ∷ [])
      → All IsByte payload
      → allowed p.fragmented_opcode fin opcode (length payload) ≡ true
      → length payload < 2 ^ 63
      → length payload ≤ room
      → Accepts frame payload fin opcode p.fragmented_opcode
          (parser_feed p (some (frame ++ rest)) (length (frame ++ rest)) false room)
  unfolding client_frame
  parser_feed-client_frame w s v k bytes ok_next small fits =
      let n = length payload in
      let key = a ∷ b ∷ c ∷ d ∷ [] in
      let masked = mask_payload key 0 payload in
      let field = length_field 128 n in
      let first = first_byte fin opcode in
      let p1 = record p { state = header_2; b0 = first; fin = fin; opcode = opcode } in
      let (q, to_q, t) =
        length_stage p1 n ((key ++ masked) ++ rest) 1 room refl w.ext_size small ok_next in
      let allowed_q : allowed q.fragmented_opcode q.fin q.opcode q.payload_len ≡ true =
        rw (t.same_open, t.same_fin, t.same_opcode, t.taken_len) ok_next in
      let checked = validate-allowed q allowed_q in
      let (q', e) =
        tail_stage q a b c d payload rest (1 + length field) room t.at_mask
          (t.same_mask_pos ∙ (at w s).0) (ap length t.same_mask ∙ w.mask_size)
          (t.same_offset ∙ (at w s).1) t.taken_remaining small fits k bytes checked in
      let whole : feed_loop ((first ∷ (field ++ (key ++ masked))) ++ rest) 0 room p ≡ (
        ok,
        1 + length field + 4 + n,
        fresh_frame q' (next_fragmented q),
        prepare_message q payload n true,
      ) =
        take_step first ((field ++ (key ++ masked)) ++ rest) 0 room p p1 (ap is_payload s)
          (ap (λ st. step_in st p first) s ∙ unfold step_in in first_byte_step p fin opcode v)
        ∙ ap (λ l. feed_loop l 1 room p1) (append_assoc field (key ++ masked) rest)
        ∙ to_q
        ∙ e in
      rw (parser_feed-loop p (frame ++ rest) room ∙ whole) (record {
        accepted = refl;
        used_all =
            omega (arith, length-append field (key ++ masked), length-mask_payload key 0 payload);
        same_fin = t.same_fin;
        same_opcode = t.same_opcode;
        same_payload = refl;
        same_len = refl;
        complete = refl;
        at_start = refl;
        message_open =
            open_after-next q (rw t.same_opcode v) allowed_q
            ∙ rw (t.same_open, t.same_fin, t.same_opcode);
      })
