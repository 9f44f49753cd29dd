-- ===== src/Frame.antt =====
-- src/ws/ws_frame.c: the streaming parser of client frames. `sockify_ws_write_frame` is in
-- Frame/Writer. A function that updates `*parser` returns the new parser.
pub mod Writer
pub mod Spec
pub mod Inv
pub mod Rounds
pub mod Progress
pub mod Stream
pub mod Stages
pub mod Accept
pub mod Lengths
pub mod LongLength
mod Tests
use sockify.Prelude.{
  ℕ, suc, ◌+◌, ◌^◌, bit_and, bit_xor, Bool, true, false, not, ◌&&◌, ◌||◌, Option, none, some, List,
  [], ◌∷◌, Bytes, u8, u64, ltb, leb, ◌==◌, ◌!=◌, if◌then◌else◌, length, get_or, set, take,
  replicate, sub_size,
}
use sockify.Buffer.{is_null, bytes_of}
use sockify.ByteOrder.{read_be16, read_be64}
use sockify.Status.{Status, ok, err_invalid, err_overflow, err_again, err_protocol, is_ok}

abbrev pub opcode_continuation : ℕ
opcode_continuation = 0

abbrev pub opcode_text : ℕ
opcode_text = 1

abbrev pub opcode_binary : ℕ
opcode_binary = 2

abbrev pub opcode_close : ℕ
opcode_close = 8

abbrev pub opcode_ping : ℕ
opcode_ping = 9

abbrev pub opcode_pong : ℕ
opcode_pong = 10

-- `WS_STATE_*`. The `int` of the source takes no other value, so the last branch of
-- `sockify_ws_parser_feed` has no counterpart.
pub data State : Type 0 where
  header_1 : State
  header_2 : State
  ext_len : State
  mask_key : State
  payload_data : State

-- `struct sockify_ws_parser`
pub record Parser : Type 0 where
  pub state : State
  pub b0 : ℕ
  pub b1 : ℕ
  pub fin : Bool
  pub opcode : ℕ
  pub masked : Bool
  pub ext_len_bytes : Bytes
  pub ext_len_needed : ℕ
  pub ext_len_pos : ℕ
  pub mask : Bytes
  pub mask_pos : ℕ
  pub payload_len : ℕ
  pub payload_remaining : ℕ
  pub payload_offset : ℕ
  pub fragmented_opcode : ℕ

-- `struct sockify_ws_message`; `payload` is what stands at `payload[0..payload_len)`.
pub record Message : Type 0 where
  pub fin : Bool
  pub opcode : ℕ
  pub payload : Bytes
  pub payload_len : ℕ
  pub frame_complete : Bool

-- `memset(msg, 0, sizeof(*msg))`
abbrev pub no_message : Message
no_message = record {
  fin = false;
  opcode = 0;
  payload = [];
  payload_len = 0;
  frame_complete = false;
}

-- `sockify_ws_parser_init`
unfoldable pub parser_init : Parser
parser_init = record {
  state = header_1;
  b0 = 0;
  b1 = 0;
  fin = false;
  opcode = 0;
  masked = false;
  ext_len_bytes = replicate 8 0;
  ext_len_needed = 0;
  ext_len_pos = 0;
  mask = replicate 4 0;
  mask_pos = 0;
  payload_len = 0;
  payload_remaining = 0;
  payload_offset = 0;
  fragmented_opcode = 0;
}

abbrev pub is_control_opcode : ℕ → Bool
is_control_opcode opcode = leb 8 opcode

abbrev pub valid_opcode : ℕ → Bool
valid_opcode opcode =
    opcode == opcode_continuation
    || opcode == opcode_text
    || opcode == opcode_binary
    || opcode == opcode_close
    || opcode == opcode_ping
    || opcode == opcode_pong

-- The assignments at the end of `reset_frame`, with the value that `fragmented_opcode` got above.
abbrev pub fresh_frame : Parser → ℕ → Parser
fresh_frame p fragmented = record p {
  state = header_1;
  b0 = 0;
  b1 = 0;
  fin = false;
  opcode = 0;
  masked = false;
  ext_len_needed = 0;
  ext_len_pos = 0;
  mask_pos = 0;
  payload_len = 0;
  payload_remaining = 0;
  payload_offset = 0;
  fragmented_opcode = fragmented;
}

unfoldable pub reset_frame : Parser → Status × Parser
reset_frame p =
    if p.opcode == opcode_text || p.opcode == opcode_binary
    then if p.fin
      then (ok, fresh_frame p p.fragmented_opcode)
      else if p.fragmented_opcode != 0
      then (err_protocol, p)
      else (ok, fresh_frame p p.opcode)
    else if p.opcode == opcode_continuation
    then if p.fragmented_opcode == 0
      then (err_protocol, p)
      else (ok, fresh_frame p (if p.fin then 0 else p.fragmented_opcode))
    else (ok, fresh_frame p p.fragmented_opcode)

abbrev pub prepare_message : Parser → Bytes → ℕ → Bool → Message
prepare_message p payload payload_len frame_complete = record {
  fin = p.fin;
  opcode = p.opcode;
  payload = payload;
  payload_len = payload_len;
  frame_complete = frame_complete;
}

unfoldable pub validate_frame_header : Parser → Status
validate_frame_header p =
    if is_control_opcode p.opcode
    then if not p.fin || ltb 125 p.payload_len then err_protocol else ok
    else if p.opcode == opcode_continuation
    then if p.fragmented_opcode == 0 then err_protocol else ok
    else if p.fragmented_opcode != 0
    then err_protocol
    else ok

-- The last two statements of `finish_length`.
abbrev with_remaining : Parser → Status × Parser
with_remaining p =
    let p' = record p { payload_remaining = p.payload_len } in (validate_frame_header p', p')

unfoldable pub finish_length : Parser → Status × Parser
finish_length p =
    let len_16 = read_be16 p.ext_len_bytes in
    let len_64 = read_be64 p.ext_len_bytes in
    if p.ext_len_needed == 2
    then if ltb len_16 126
      then (err_protocol, record p { payload_len = len_16 })
      else with_remaining (record p { payload_len = len_16 })
    else if p.ext_len_needed == 8
    then if ltb len_64 65536 || bit_and (get_or p.ext_len_bytes 0 0) 0x80 != 0
      then (err_protocol, record p { payload_len = len_64 })
      else with_remaining (record p { payload_len = len_64 })
    else with_remaining p

-- What one round of the loop in a header state does: go on, or return.
pub data Step : Type 0 where
  more : Parser → Step
  stop : Status → Parser → Message → Step

-- `emit_empty_frame`, which the caller returns.
unfoldable pub emit_empty_frame : Parser → Step
unfolding reset_frame
emit_empty_frame p = let (rc, p') = reset_frame p in stop rc p' (prepare_message p [] 0 true)

-- To the state after the length, if `rc` is SOCKIFY_OK.
abbrev pub to_mask : Status × Parser → Step
to_mask (ok, p) = more (record p { state = mask_key })
to_mask (rc, p) = stop rc p no_message

-- One round in a header state, on the byte `data[pos]`.
unfoldable pub step_header_1 : Parser → ℕ → Step
step_header_1 p x =
    let p' = record p { b0 = x; fin = bit_and x 0x80 != 0; opcode = bit_and x 0x0f } in
    if bit_and x 0x70 != 0 || not (valid_opcode p'.opcode)
    then stop err_protocol p' no_message
    else more (record p' { state = header_2 })

unfoldable pub step_header_2 : Parser → ℕ → Step
step_header_2 p x =
    let p' = record p { b1 = x; masked = bit_and x 0x80 != 0; payload_len = bit_and x 0x7f } in
    if not p'.masked
    then stop err_protocol p' no_message
    else if p'.payload_len == 126
    then more (record p' { ext_len_needed = 2; ext_len_pos = 0; state = ext_len })
    else if p'.payload_len == 127
    then more (record p' { ext_len_needed = 8; ext_len_pos = 0; state = ext_len })
    else to_mask (with_remaining p')

unfoldable pub step_ext_len : Parser → ℕ → Step
step_ext_len p x =
    let p' = record p {
      ext_len_bytes = set p.ext_len_bytes p.ext_len_pos x;
      ext_len_pos = p.ext_len_pos + 1;
    } in
    if p'.ext_len_pos == p'.ext_len_needed then to_mask (finish_length p') else more p'

unfoldable pub step_mask_key : Parser → ℕ → Step
step_mask_key p x =
    let p' = record p { mask = set p.mask p.mask_pos x; mask_pos = p.mask_pos + 1 } in
    let p'' = record p' { state = payload_data } in
    if p'.mask_pos == 4
    then if p''.payload_remaining == 0 then emit_empty_frame p'' else more p''
    else more p'

-- `payload[i] = data[pos + i] ^ mask[(payload_offset + i) & 3]` over a chunk.
pub unmask : Bytes → ℕ → Bytes → Bytes
unmask mask offset [] = []
unmask mask offset (x ∷ xs) =
    u8 (bit_xor x (get_or mask (bit_and (u64 offset) 3) 0)) ∷ unmask mask (offset + 1) xs

-- What a call returns: the code, `*used`, `*parser` and `*msg`.
abbrev pub Fed : Type 0
Fed = Status × ℕ × Parser × Message

-- `min_size(available, payload_capacity)`, cut to what remains of the payload.
abbrev pub chunk_size : ℕ → ℕ → ℕ → ℕ
chunk_size available payload_capacity remaining =
    let chunk_len = if ltb available payload_capacity then available else payload_capacity in
    if ltb remaining chunk_len then remaining else chunk_len

-- The payload branch at `pos`, where `rest`, not empty, is `data[pos..data_len)`.
unfoldable pub step_payload : Bytes → ℕ → ℕ → Parser → Fed
unfolding reset_frame
step_payload rest pos payload_capacity p =
    let chunk_len = chunk_size (length rest) payload_capacity p.payload_remaining in
    let p' = record p {
      payload_offset = u64 (p.payload_offset + chunk_len);
      payload_remaining = sub_size p.payload_remaining chunk_len;
    } in
    let chunk = unmask p.mask p.payload_offset (take chunk_len rest) in
    let msg = prepare_message p' chunk chunk_len (p'.payload_remaining == 0) in
    let (rc, p'') = reset_frame p' in
    if payload_capacity == 0
    then (err_overflow, pos, p, no_message)
    else if is_control_opcode p.opcode && ltb payload_capacity p.payload_remaining
    then (err_overflow, pos, p, no_message)
    else if p'.payload_remaining == 0
    then (rc, pos + chunk_len, p'', msg)
    else (ok, pos + chunk_len, p', msg)

-- One round in the state of the parser, for the states that take one byte.
unfoldable pub step_in : State → Parser → ℕ → Step
unfolding step_header_1 step_header_2 step_ext_len step_mask_key
step_in header_1 p x = step_header_1 p x
step_in header_2 p x = step_header_2 p x
step_in ext_len p x = step_ext_len p x
step_in mask_key p x = step_mask_key p x
step_in payload_data p x = more p

abbrev pub is_payload : State → Bool
is_payload payload_data = true
is_payload _ = false

-- The loop at `pos`; the list is `data[pos..data_len)`. With no byte left every state ends it.
unfoldable pub feed_loop : Bytes → ℕ → ℕ → Parser → Fed
feed_loop [] pos payload_capacity p = (err_again, pos, p, no_message)
feed_loop (x ∷ rest) pos payload_capacity p = elim (is_payload p.state) [
  | true ↦ step_payload (x ∷ rest) pos payload_capacity p
  | false ↦ elim (step_in p.state p x) [
    | more p' ↦ feed_loop rest (pos + 1) payload_capacity p'
    | stop rc p' msg ↦ (rc, pos + 1, p', msg)
  ]
]

-- `sockify_ws_parser_feed`. A rejected call leaves `*msg` alone; `no_message` stands for that.
unfoldable pub parser_feed : Parser → Option Bytes → ℕ → Bool → ℕ → Fed
unfolding feed_loop
parser_feed p data_ptr data_len payload_null payload_capacity =
    if data_len != 0 && is_null data_ptr || payload_capacity != 0 && payload_null
    then (err_invalid, 0, p, no_message)
    else feed_loop (take data_len (bytes_of data_ptr)) 0 payload_capacity p
