-- ===== src/Frame/Stream.antt =====
-- A header may arrive in any number of pieces: a call that asks for more has taken all its bytes,
-- and the next call goes on as if they had come together.
use sockify.Prelude.{
  take-ge, some, ltb, sub_size, ◌&&◌, ◌||◌, ◌!=◌, ◌==◌, ℕ, suc, ◌+◌, ◌≡◌, refl, sym, ◌∙◌, ap, Bool,
  true, false, [], ◌∷◌, ◌++◌, Bytes, arith, length, Bool-cases, inl, inr, set,
}
use sockify.Frame.{
  parser_feed, is_control_opcode, chunk_size, Parser, Message, State, header_1, header_2, ext_len,
  mask_key, payload_data, no_message, Step, more, stop, step_in, step_payload, is_payload,
  feed_loop, Fed, finish_length, validate_frame_header, emit_empty_frame, to_mask,
}
use sockify.Status.{Status, ok, err_again, is_again}

-- Whether a round returns SOCKIFY_ERR_AGAIN.
abbrev pub stops_again : Step → Bool
stops_again (more _) = false
stops_again (stop rc _ _) = is_again rc

to_mask-not_again :
    (rc : Status) (p : Parser) → is_again rc ≡ false → stops_again (to_mask (rc, p)) ≡ false
to_mask-not_again ok p h = refl
to_mask-not_again err_again p h = h
to_mask-not_again _ p h = refl

validate-not_again : (p : Parser) → is_again (validate_frame_header p) ≡ false
unfolding validate_frame_header
validate-not_again p = ground arith

to_mask_pair-not_again :
    (r : Status × Parser) → is_again r.0 ≡ false → stops_again (to_mask r) ≡ false
to_mask_pair-not_again (rc, p) h = to_mask-not_again rc p h

finish_length-not_again : (p : Parser) → is_again (finish_length p).0 ≡ false
unfolding finish_length validate_frame_header
finish_length-not_again p = ground arith

pub step_in-not_again : (s : State) (p : Parser) (x : ℕ) → stops_again (step_in s p x) ≡ false
unfolding step_in
step_in-not_again header_1 p x = ground arith
step_in-not_again header_2 p x = unfold validate_frame_header in ground arith
step_in-not_again ext_len p x =
    let p' = record p {
      ext_len_bytes = set p.ext_len_bytes p.ext_len_pos x;
      ext_len_pos = p.ext_len_pos + 1;
    } in
    ground (arith, to_mask_pair-not_again (finish_length p') (finish_length-not_again p'))
step_in-not_again mask_key p x = unfold emit_empty_frame in ground arith
step_in-not_again payload_data p x = refl

step_payload-not_again :
    (rest : Bytes) (pos room : ℕ) (p : Parser) → is_again (step_payload rest pos room p).0 ≡ false
unfolding step_payload
step_payload-not_again rest pos room p = ground arith

-- What the loop makes of a round's outcome, with the rest of the bytes.
abbrev pub after_step : Bytes → ℕ → ℕ → Step → Fed
after_step rest pos room (more p') = feed_loop rest (pos + 1) room p'
after_step rest pos room (stop rc p' msg) = (rc, pos + 1, p', msg)

pub feed_loop-header :
    (x : ℕ) (rest : Bytes) (pos room : ℕ) (p : Parser)
    → is_payload p.state ≡ false
    → feed_loop (x ∷ rest) pos room p ≡ after_step rest pos room (step_in p.state p x)
unfolding feed_loop
feed_loop-header x rest pos room p h = ground arith

pub feed_loop-payload :
    (x : ℕ) (rest : Bytes) (pos room : ℕ) (p : Parser)
    → is_payload p.state ≡ true
    → feed_loop (x ∷ rest) pos room p ≡ step_payload (x ∷ rest) pos room p
unfolding feed_loop
feed_loop-payload x rest pos room p h = rw (h, feed_loop)

-- A call that asks for more bytes has used all it was given, and reports no message. Were those
-- bytes followed by others, the call would go on with the others from the parser that it leaves.
pub feed_loop-append :
    (xs ys : Bytes) (pos room used : ℕ) (p p' : Parser) (msg : Message)
    → feed_loop xs pos room p ≡ (err_again, used, p', msg)
    → (used ≡ pos + length xs)
      × (msg ≡ no_message)
      × (feed_loop (xs ++ ys) pos room p ≡ feed_loop ys used room p')
feed_loop-append [] ys pos room used p p' msg e = unfold feed_loop in ground arith
feed_loop-append (x ∷ xs) ys pos room used p p' msg e = elim (Bool-cases (is_payload p.state)) [
  | inl paying ↦
      let early = rw (feed_loop-payload x xs pos room p paying) at e in
      let not_again = step_payload-not_again (x ∷ xs) pos room p in
      absurd (cc (ap (λ (r : Fed). is_again r.0) early))
  | inr reading ↦
      let first = rw (feed_loop-header x xs pos room p reading) at e in
      rw (feed_loop-header x (xs ++ ys) pos room p reading) (
        go (step_in p.state p x) (step_in-not_again p.state p x) first
          (λ q. feed_loop-append xs ys (pos + 1) room used q p' msg))
]
  where
    go :
        (st : Step)
        → stops_again st ≡ false
        → after_step xs pos room st ≡ (err_again, used, p', msg)
        → ((q : Parser)
            → feed_loop xs (pos + 1) room q ≡ (err_again, used, p', msg)
            → (used ≡ pos + 1 + length xs)
              × (msg ≡ no_message)
              × (feed_loop (xs ++ ys) (pos + 1) room q ≡ feed_loop ys used room p'))
        → (used ≡ pos + suc (length xs))
          × (msg ≡ no_message)
          × (after_step (xs ++ ys) pos room st ≡ feed_loop ys used room p')
    go (more q) h e' ih = let (a, b, c) = ih q e' in (omega arith, b, c)
    go (stop rc q m) h e' ih = absurd (cc (ap (λ (r : Fed). is_again r.0) e'))

-- Counting the bytes used from `k` on.
abbrev pub later : ℕ → Fed → Fed
later k (rc, used, p, msg) = (rc, k + used, p, msg)

step_payload-later :
    (rest : Bytes) (k pos room : ℕ) (p : Parser)
    → step_payload rest (k + pos) room p ≡ later k (step_payload rest pos room p)
unfolding step_payload
step_payload-later rest k pos room p =
    let c = chunk_size (length rest) room p.payload_remaining in
    let further : k + pos + c ≡ k + (pos + c) = omega arith in
    elim (Bool-cases (room == 0)) [
      | inl no_room ↦ rw no_room
      | inr some_room ↦
          elim (Bool-cases (is_control_opcode p.opcode && ltb room p.payload_remaining)) [
            | inl too_long ↦ rw (some_room, too_long)
            | inr fits ↦ elim (Bool-cases (sub_size p.payload_remaining c == 0)) [
              | inl done ↦ rw (some_room, fits, done, further)
              | inr going ↦ rw (some_room, fits, going, further)
            ]
          ]
    ]

feed_loop-later :
    (xs : Bytes) (k pos room : ℕ) (p : Parser)
    → feed_loop xs (k + pos) room p ≡ later k (feed_loop xs pos room p)
feed_loop-later [] k pos room p = unfold feed_loop in refl
feed_loop-later (x ∷ xs) k pos room p = elim (Bool-cases (is_payload p.state)) [
  | inl paying ↦
      rw (feed_loop-payload x xs (k + pos) room p paying, feed_loop-payload x xs pos room p paying)
        (step_payload-later (x ∷ xs) k pos room p)
  | inr reading ↦
      rw (feed_loop-header x xs (k + pos) room p reading, feed_loop-header x xs pos room p reading)
        (go (step_in p.state p x) (λ q. feed_loop-later xs k (pos + 1) room q))
]
  where
    go :
        (st : Step)
        → ((q : Parser)
            → feed_loop xs (k + (pos + 1)) room q ≡ later k (feed_loop xs (pos + 1) room q))
        → after_step xs (k + pos) room st ≡ later k (after_step xs pos room st)
    go (more q) ih =
        let e : k + pos + 1 ≡ k + (pos + 1) = omega arith in
        ap (λ n. feed_loop xs n room q) e ∙ ih q
    go (stop rc q msg) ih = ap (λ n. (rc, n, q, msg)) (omega arith)

-- A call on given bytes is its loop.
pub parser_feed-loop :
    (p : Parser) (bytes : Bytes) (room : ℕ)
    → parser_feed p (some bytes) (length bytes) false room ≡ feed_loop bytes 0 room p
unfolding parser_feed
parser_feed-loop p bytes room =
    let given : (length bytes != 0 && false || room != 0 && false) ≡ false = ground arith in
    rw (given, take-ge (length bytes) bytes (omega arith))

-- A header may come in pieces: if a call of `sockify_ws_parser_feed` on `xs` asks for more, it used
-- all of `xs` and reports nothing, and the call on `ys` that follows returns what one call on
-- `xs ++ ys` would have returned, the bytes used counted from the start of `ys`.
pub parser_feed-append :
    (p p' : Parser) (xs ys : Bytes) (room used : ℕ) (msg : Message)
    → parser_feed p (some xs) (length xs) false room ≡ (err_again, used, p', msg)
    → (used ≡ length xs)
      × (msg ≡ no_message)
      × (parser_feed p (some (xs ++ ys)) (length (xs ++ ys)) false room
          ≡ later (length xs) (parser_feed p' (some ys) (length ys) false room))
parser_feed-append p p' xs ys room used msg e =
    let first = sym (parser_feed-loop p xs room) ∙ e in
    let (u, m, joined) = feed_loop-append xs ys 0 room used p p' msg first in
    let start : used ≡ length xs + 0 = omega arith in
    (
      omega arith,
      m,
      parser_feed-loop p (xs ++ ys) room
          ∙ joined
          ∙ ap (λ n. feed_loop ys n room p') start
          ∙ feed_loop-later ys (length xs) 0 room p'
          ∙ ap (later (length xs)) (sym (parser_feed-loop p' ys room)),
    )
