-- ===== src/Frame/Inv.antt =====
-- The parser's invariant: what each state knows of the frame that it is in.
use sockify.Prelude.{
  ℕ, ◌+◌, ◌^◌, ◌≤◌, ◌<◌, ◌≡◌, refl, sym, ◌⊎◌, true, false, IsByte, All, arith, length, ◌==◌, ◌&&◌,
  ◌||◌, if◌then◌else◌,
}
use mathlib.Core.Path.{subst}
use sockify.Frame.{
  fresh_frame, opcode_text, opcode_binary, opcode_continuation, Parser, Message, State, header_1,
  header_2, ext_len, mask_key, payload_data, Step, more, stop, parser_init, validate_frame_header,
  reset_frame, valid_opcode, is_control_opcode,
}
use sockify.Status.{ok}

-- The header has been accepted.
abbrev pub Accepted : Parser → Type 0
Accepted p =
    (valid_opcode p.opcode ≡ true)
    × (validate_frame_header p ≡ ok)
    × (p.masked ≡ true)
    × (p.payload_len < 2 ^ 64)
    × (p.payload_offset + p.payload_remaining ≡ p.payload_len)

abbrev pub AtState : State → Parser → Type 0
AtState header_1 p = (p.mask_pos ≡ 0) × (p.payload_offset ≡ 0)
AtState header_2 p = (valid_opcode p.opcode ≡ true) × (p.mask_pos ≡ 0) × (p.payload_offset ≡ 0)
AtState ext_len p =
    (valid_opcode p.opcode ≡ true)
    × (p.masked ≡ true)
    × (p.mask_pos ≡ 0)
    × (p.payload_offset ≡ 0)
    × (p.ext_len_pos < p.ext_len_needed)
    × ((p.ext_len_needed ≡ 2) ⊎ (p.ext_len_needed ≡ 8))
AtState mask_key p = Accepted p × (p.mask_pos < 4) × (p.payload_offset ≡ 0)
AtState payload_data p = Accepted p × (0 < p.payload_remaining)

-- The arrays have their sizes, the length bytes are bytes, and only a text or binary message can
-- be open.
pub record IsWellFormed (p : Parser) : Type 0 where
  pub ext_size : length p.ext_len_bytes ≡ 8
  pub ext_bytes : All IsByte p.ext_len_bytes
  pub mask_size : length p.mask ≡ 4
  pub open_message :
      (p.fragmented_opcode ≡ 0) ⊎ ((p.fragmented_opcode ≡ 1) ⊎ (p.fragmented_opcode ≡ 2))
  pub at_state : AtState p.state p

-- A message that the parser may report: a known opcode, as many payload bytes as it says, and a
-- control frame only whole-message and short.
pub record IsSound (room : ℕ) (msg : Message) : Type 0 where
  pub known : valid_opcode msg.opcode ≡ true
  pub counted : length msg.payload ≡ msg.payload_len
  pub fits : msg.payload_len ≤ room
  pub control :
      (is_control_opcode msg.opcode ≡ false) ⊎ ((msg.fin ≡ true) × (msg.payload_len ≤ 125))

-- What a round leaves: the invariant, and a sound empty message if it returns one.
abbrev pub StepKeeps : Step → Type 0
StepKeeps (more p) = IsWellFormed p
StepKeeps (stop ok p msg) = IsWellFormed p × IsSound 0 msg
StepKeeps (stop _ _ _) = Unit

pub parser_init-IsWellFormed : IsWellFormed parser_init
unfolding parser_init
parser_init-IsWellFormed = ground arith

-- The facts that hold in every state.
abbrev pub Sized : Parser → Type 0
Sized p =
    (length p.ext_len_bytes ≡ 8)
    × All IsByte p.ext_len_bytes
    × (length p.mask ≡ 4)
    × ((p.fragmented_opcode ≡ 0) ⊎ ((p.fragmented_opcode ≡ 1) ⊎ (p.fragmented_opcode ≡ 2)))

pub IsWellFormed-of : (p : Parser) → Sized p → AtState p.state p → IsWellFormed p
IsWellFormed-of p s a = record {
  ext_size = s.0;
  ext_bytes = s.1;
  mask_size = s.2;
  open_message = s.3;
  at_state = a;
}

pub Sized-of : {p : Parser} → IsWellFormed p → Sized p
Sized-of w = (w.ext_size, w.ext_bytes, w.mask_size, w.open_message)

pub at : {p : Parser} {s : State} → IsWellFormed p → p.state ≡ s → AtState s p
at {p} w e = subst (λ s. AtState s p) e w.at_state

pub to_state : (q : Parser) {s : State} → q.state ≡ s → AtState s q → AtState q.state q
to_state q e h = subst (λ s. AtState s q) (sym e) h

-- The opcode of the message that is open when the frame of `p` ends.
abbrev pub next_fragmented : Parser → ℕ
next_fragmented p =
    if p.opcode == opcode_text || p.opcode == opcode_binary
    then if p.fin then p.fragmented_opcode else p.opcode
    else if p.opcode == opcode_continuation && p.fin
    then 0
    else p.fragmented_opcode

-- A frame whose header was accepted can always be closed.
pub reset_frame-ok :
    (p : Parser)
    → validate_frame_header p ≡ ok
    → reset_frame p ≡ (ok, fresh_frame p (next_fragmented p))
unfolding reset_frame validate_frame_header
reset_frame-ok p h = ground arith

pub fresh_frame-IsWellFormed :
    (p : Parser) → Sized p → IsWellFormed (fresh_frame p (next_fragmented p))
fresh_frame-IsWellFormed p s = record {
  ext_size = s.0;
  ext_bytes = s.1;
  mask_size = s.2;
  open_message = ground arith;
  at_state = (refl, refl);
}

-- A header that was accepted allows a control frame only whole-message and short.
pub accepted_control :
    (p : Parser)
    → validate_frame_header p ≡ ok
    → (is_control_opcode p.opcode ≡ false) ⊎ ((p.fin ≡ true) × (p.payload_len ≤ 125))
unfolding validate_frame_header
accepted_control p h = ground arith
