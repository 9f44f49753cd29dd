-- ===== src/Session/Client.antt =====
-- src/proxy/proxy.c: what a session does with the bytes of an open WebSocket client.
pub mod Rounds
pub mod Stream
pub mod Frames
pub mod Freed
use sockify.Prelude.{
  ℕ, zero, suc, Bool, true, false, not, ◌&&◌, ◌||◌, Option, none, some, List, [], ◌∷◌, Bytes, ltb,
  ◌==◌, ◌!=◌, if◌then◌else◌, length, take, drop,
}
use sockify.Buffer
use sockify.Buffer.{Buffer, writable}
use sockify.Frame.{
  Parser, Message, parser_feed, opcode_binary, opcode_text, opcode_continuation, opcode_ping,
  opcode_pong, opcode_close,
}
use sockify.Session.{Session, make_ws_frame, close, seen, min_size, io_chunk}
use sockify.Status.{Status, ok, err_again, err_closed, is_ok, is_again}
use sockify.Transport.{Backend}

abbrev pub is_data_opcode : ℕ → Bool
is_data_opcode opcode =
    opcode == opcode_binary || opcode == opcode_text || opcode == opcode_continuation

-- The answer to a CLOSE, at once if nothing else waits to be sent.
abbrev pub answer_close : Session → Session
answer_close s =
    let (rc, s') = make_ws_frame s opcode_close s.pending_close_payload in
    if s.client_out_len == s.client_out_pos && is_ok rc
    then record s' { pending_close = false }
    else s

abbrev pub note_close : Session → Message → Session
note_close s msg = record s {
  closing = 1;
  pending_close_payload =
      take (if ltb 125 msg.payload_len then 125 else msg.payload_len) msg.payload;
  pending_close = true;
}

module _ {W : Type 0} (io : Backend W) where
  -- `session_handle_ws_message`
  unfoldable pub handle_ws_message : Session → Message → W → Session × W
  handle_ws_message s msg w =
      let (rc, written, buf) = Buffer.write s.client_to_target (some msg.payload) msg.payload_len in
      let s1 = record s { client_to_target = buf } in
      let (rc_pong, s2) = make_ws_frame s opcode_pong msg.payload in
      if is_data_opcode msg.opcode
      then if not (is_ok rc) || written != msg.payload_len then close io s1 w else (s1, w)
      else if msg.opcode == opcode_ping
      then if not (is_ok rc_pong) then close io s2 w else (s2, w)
      else if msg.opcode == opcode_close
      then (answer_close (note_close s msg), w)
      else (s, w)

  abbrev at_end : Session → W → Option (Status × Session × W)
  at_end s w = some (if s.closing == 2 then err_closed else ok, seen s, w)

  -- The loop of `session_process_ws_bytes` on `data[offset..data_len)`; `none` means that the fuel
  -- ran out.
  unfoldable pub process_loop : ℕ → Bytes → Session → W → Option (Status × Session × W)
  process_loop zero bytes s w = none
  process_loop (suc fuel) [] s w = at_end s w
  process_loop (suc fuel) (x ∷ xs) s w =
      let capacity = min_size io_chunk (writable s.client_to_target) in
      let (rc, used, p, msg) =
        parser_feed s.ws_parser (some (x ∷ xs)) (length (x ∷ xs)) false capacity in
      let s1 = record s { ws_parser = p } in
      let (s2, w2) = handle_ws_message s1 msg w in
      elim (not (s.closing == 0)) [
        | true ↦ at_end s w
        | false ↦ elim (capacity == 0) [
          | true ↦ some (err_again, s, w)
          | false ↦ elim (is_ok rc) [
            | true ↦ process_loop fuel (drop used (x ∷ xs)) s2 w2
            | false ↦ elim (is_again rc) [
              | true ↦ elim (used == 0) [
                | true ↦ at_end s1 w
                | false ↦ process_loop fuel (drop used (x ∷ xs)) s1 w
              ]
              | false ↦ some (rc, s1, w)
            ]
          ]
        ]
      ]

  -- `session_process_ws_bytes`: a round uses at least one byte, or is the last.
  unfoldable pub process_ws_bytes : Session → Bytes → W → Option (Status × Session × W)
  unfolding process_loop
  process_ws_bytes s bytes w = process_loop (suc (length bytes)) bytes s w
