-- ===== src/Frame/Progress.antt =====
-- What a call of the parser leaves, on every branch: how many bytes it used, what it reports, and
-- that the invariant holds for the next call.
use sockify.Prelude.{
  some, ℕ, suc, ◌+◌, ◌≤◌, ◌<◌, ◌≡◌, refl, ap, inl, inr, Bool, true, false, [], ◌∷◌, Bytes, IsByte,
  All, arith, length, length-take, take, u64, sub_size, Bool-cases, ◌&&◌, ltb, ◌==◌,
}
use sockify.Frame.{
  parser_feed, Parser, Message, State, header_1, header_2, ext_len, mask_key, payload_data,
  no_message, Step, more, stop, step_in, step_payload, is_payload, feed_loop, Fed, unmask,
  chunk_size, validate_frame_header, is_control_opcode, prepare_message,
}
use sockify.Frame.Inv.{
  IsWellFormed, IsWellFormed-of, Sized-of, StepKeeps, reset_frame-ok, fresh_frame-IsWellFormed, at,
  to_state, IsSound, accepted_control,
}
use sockify.Frame.Rounds.{header_1-keeps, header_2-keeps, ext_len-keeps, mask_key-keeps}
use sockify.Frame.Stream.{
  parser_feed-loop, feed_loop-header, feed_loop-payload, after_step, step_in-not_again, stops_again,
}
use sockify.Status.{Status, ok, err_again, is_again}

-- The result of a call at `pos` with `n` bytes left and `room` bytes for the payload.
abbrev pub FeedResult : ℕ → ℕ → ℕ → Fed → Type 0
FeedResult pos n room (ok, used, p, msg) =
    IsWellFormed p × (pos < used) × (used ≤ pos + n) × IsSound room msg
FeedResult pos n room (err_again, used, p, msg) =
    IsWellFormed p × (used ≡ pos + n) × (msg ≡ no_message)
FeedResult pos n room (_, used, p, msg) = (pos ≤ used) × (used ≤ pos + n)

pub length-unmask :
    (mask : Bytes) (offset : ℕ) (xs : Bytes) → length (unmask mask offset xs) ≡ length xs
unfolding unmask
length-unmask mask offset [] = refl
length-unmask mask offset (x ∷ xs) = ap suc (length-unmask mask (offset + 1) xs)

chunk_size_bounds :
    (n room r : ℕ)
    → (chunk_size n room r ≤ n) × (chunk_size n room r ≤ room) × (chunk_size n room r ≤ r)
chunk_size_bounds n room r = ground arith

chunk_size_pos : (n room r : ℕ) → 0 < n → 0 < room → 0 < r → 0 < chunk_size n room r
chunk_size_pos n room r a b c = ground arith

step_payload-FeedResult :
    (x : ℕ) (rest : Bytes) (pos room : ℕ) (p : Parser)
    → p.state ≡ payload_data
    → IsWellFormed p
    → FeedResult pos (suc (length rest)) room (step_payload (x ∷ rest) pos room p)
unfolding step_payload
step_payload-FeedResult x rest pos room p s w =
    let here = at w s in
    let c = chunk_size (suc (length rest)) room p.payload_remaining in
    let p' = record p {
      payload_offset = u64 (p.payload_offset + c);
      payload_remaining = sub_size p.payload_remaining c;
    } in
    let bounds = chunk_size_bounds (suc (length rest)) room p.payload_remaining in
    let checked : validate_frame_header p' ≡ ok = unfold validate_frame_header in here.0.1 in
    let size : length (unmask p.mask p.payload_offset (take c (x ∷ rest))) ≡ c = omega (
      arith,
      length-unmask p.mask p.payload_offset (take c (x ∷ rest)),
      length-take c (x ∷ rest),
    ) in
    elim (Bool-cases (room == 0)) [
      | inl no_room ↦ rw no_room (omega arith)
      | inr some_room ↦
          elim (Bool-cases (is_control_opcode p.opcode && ltb room p.payload_remaining)) [
            | inl too_long ↦ rw (some_room, too_long) (omega arith)
            | inr fits ↦
                let pos_chunk =
                  chunk_size_pos (suc (length rest)) room p.payload_remaining (omega arith)
                    (ground arith) here.1 in
                let sound : (b : Bool)
                    → IsSound room (
                        prepare_message p' (unmask p.mask p.payload_offset (take c (x ∷ rest))) c
                          b) =
                  λ b. record {
                    known = here.0.0;
                    counted = size;
                    fits = bounds.1;
                    control = elim (accepted_control p here.0.1) [
                      | inl plain ↦ inl plain
                      | inr (whole, short) ↦ inr (whole, omega arith)
                    ];
                  } in
                elim (Bool-cases (p'.payload_remaining == 0)) [
                  | inl done ↦
                      rw (some_room, fits, done, reset_frame-ok p' checked)
                        (
                          fresh_frame-IsWellFormed p' (Sized-of w),
                          omega arith,
                          omega arith,
                          sound true,
                        )
                  | inr going ↦
                      rw (some_room, fits, going)
                        (
                          IsWellFormed-of p' (Sized-of w) (
                              to_state p' s (
                                (here.0.0, checked, here.0.2, here.0.3, omega arith),
                                ground arith,
                              )),
                          omega arith,
                          omega arith,
                          sound false,
                        )
                ]
          ]
    ]

-- A round in a header state, as a result.
step_in-keeps :
    (p : Parser) (x : ℕ)
    → is_payload p.state ≡ false
    → IsByte x
    → IsWellFormed p
    → StepKeeps (step_in p.state p x)
step_in-keeps p x h b w = go p.state refl h
  where
    go : (s : State) → p.state ≡ s → is_payload s ≡ false → StepKeeps (step_in s p x)
    go header_1 e h = unfold step_in in header_1-keeps p x e w
    go header_2 e h = unfold step_in in header_2-keeps p x e b w
    go ext_len e h = unfold step_in in ext_len-keeps p x e b w
    go mask_key e h = unfold step_in in mask_key-keeps p x e w
    go payload_data e h = absurd (cc h)

one_later :
    (pos n room : ℕ) (r : Fed) → FeedResult (pos + 1) n room r → FeedResult pos (suc n) room r
one_later pos n room (ok, used, p, msg) h = (h.0, omega arith, omega arith, h.3)
one_later pos n room (err_again, used, p, msg) h = (h.0, omega arith, h.2)
one_later pos n room (_, used, p, msg) h = omega arith

stopped :
    (pos n room : ℕ) (rc : Status) (p : Parser) (msg : Message)
    → StepKeeps (stop rc p msg)
    → is_again rc ≡ false
    → FeedResult pos (suc n) room (rc, pos + 1, p, msg)
stopped pos n room ok p msg (w, s) h = (w, omega arith, omega arith, sound)
  where
    sound : IsSound room msg
    sound = record {
      known = s.known;
      counted = s.counted;
      fits = omega (arith, s.fits);
      control = s.control;
    }
stopped pos n room err_again p msg k h = absurd (cc h)
stopped pos n room _ p msg k h = omega arith

-- The invariant and the bounds, on every branch of a call at any position.
pub feed_loop-FeedResult :
    (xs : Bytes) (pos room : ℕ) (p : Parser)
    → All IsByte xs
    → IsWellFormed p
    → FeedResult pos (length xs) room (feed_loop xs pos room p)
feed_loop-FeedResult [] pos room p b w = unfold feed_loop in (w, omega arith, refl)
feed_loop-FeedResult (x ∷ xs) pos room p (b, bs) w = elim (Bool-cases (is_payload p.state)) [
  | inl paying ↦
      rw (feed_loop-payload x xs pos room p paying)
        (step_payload-FeedResult x xs pos room p (ground arith) w)
  | inr reading ↦ rw (feed_loop-header x xs pos room p reading) (
      go (step_in p.state p x) (step_in-keeps p x reading b w) (step_in-not_again p.state p x)
        (λ q. feed_loop-FeedResult xs (pos + 1) room q bs))
]
  where
    go :
        (st : Step)
        → StepKeeps st
        → stops_again st ≡ false
        → ((q : Parser)
            → IsWellFormed q
            → FeedResult (pos + 1) (length xs) room (feed_loop xs (pos + 1) room q))
        → FeedResult pos (suc (length xs)) room (after_step xs pos room st)
    go (more q) k h ih = one_later pos (length xs) room (feed_loop xs (pos + 1) room q) (ih q k)
    go (stop rc q msg) k h ih = stopped pos (length xs) room rc q msg k h

-- `sockify_ws_parser_feed` on bytes, from a well-formed parser. If it returns SOCKIFY_OK it used at
-- least one byte and reports a message with a known opcode and as many payload bytes as it says, at
-- most `payload_capacity`, and a control message has FIN set and at most 125 bytes. If it returns
-- SOCKIFY_ERR_AGAIN it used all bytes and reports nothing. In both cases the parser is well-formed
-- again. On every path it used at most the bytes it was given.
pub parser_feed-FeedResult :
    (p : Parser) (bytes : Bytes) (room : ℕ)
    → All IsByte bytes
    → IsWellFormed p
    → FeedResult 0 (length bytes) room (parser_feed p (some bytes) (length bytes) false room)
parser_feed-FeedResult p bytes room b w =
    rw (parser_feed-loop p bytes room) (feed_loop-FeedResult bytes 0 room p b w)
