-- ===== src/Session/Opening/Inv/Unchanged.antt =====
-- What leaves the parser and the buffered request of a session as they are.
use sockify.Prelude.{ℕ, zero, suc, ◌≡◌, refl, false, Bytes, arith, drop, add_size, some, []}
use sockify.Buffer
use sockify.Buffer.{readable}
use sockify.Frame.{Message}
use sockify.Session.{Session, Config, set_client_out, make_ws_frame, close, min_size, io_chunk}
use sockify.Session.Client.{handle_ws_message, answer_close, note_close}
use sockify.Session.Events.{drive_client_tls}
use sockify.Session.Opening.{start_target, register_target}
use sockify.Session.Target.{
  write_client, write_client_loop, after_client_out, frame_target_bytes, touch_if_sent,
}
use sockify.Transport.{Backend, transport_write}

abbrev pub Keeps : Session → Session → Type 0
Keeps s s' = (s'.ws_parser ≡ s.ws_parser) × (s'.handshake ≡ s.handshake)

pub make_ws_frame-Keeps :
    (s : Session) (opcode : ℕ) (payload : Bytes) → Keeps s (make_ws_frame s opcode payload).1
unfolding make_ws_frame
make_ws_frame-Keeps s opcode payload = ground arith

pub set_client_out-Keeps : (s : Session) (bytes : Bytes) → Keeps s (set_client_out s bytes).1
unfolding set_client_out
set_client_out-Keeps s bytes = ground arith

answer_close-Keeps : (s : Session) → Keeps s (answer_close s)
answer_close-Keeps s = ground (arith, make_ws_frame-Keeps s 8 s.pending_close_payload)

module _ {W : Type 0} (io : Backend W) where
  pub close-Keeps : (s : Session) (w : W) → Keeps s (close io s w).0
  unfolding close
  close-Keeps s w = ground arith

  pub handle_ws_message-Keeps :
      (s : Session) (msg : Message) (w : W) → Keeps s (handle_ws_message io s msg w).0
  unfolding handle_ws_message
  handle_ws_message-Keeps s msg w =
      let stored : Session = record s {
        client_to_target = (Buffer.write s.client_to_target (some msg.payload) msg.payload_len).2;
      } in
      let pong = make_ws_frame s 10 msg.payload in
      ground (
        arith,
        close-Keeps stored w,
        close-Keeps pong.1 w,
        make_ws_frame-Keeps s 10 msg.payload,
        answer_close-Keeps (note_close s msg),
      )

  pub start_target-Keeps :
      (config : Config) (s : Session) (w : W) → Keeps s (start_target io config s w).1
  unfolding start_target register_target
  start_target-Keeps config s w = ground arith

  pub drive_client_tls-Keeps : (s : Session) (w : W) → Keeps s (drive_client_tls io s w).1
  unfolding drive_client_tls
  drive_client_tls-Keeps s w = ground arith

  frame_target_bytes-Keeps : (s : Session) (w : W) → Keeps s (frame_target_bytes io s w).0
  frame_target_bytes-Keeps s w =
      let r =
        Buffer.read s.target_to_client false (min_size io_chunk (readable s.target_to_client)) in
      let taken : Session = record s { target_to_client = r.3 } in
      ground (arith, close-Keeps taken w, make_ws_frame-Keeps taken 2 r.2)

  pub after_client_out-Keeps : (s : Session) (w : W) → Keeps s (after_client_out io s w).0
  unfolding after_client_out
  after_client_out-Keeps s w =
      let emptied : Session = record s {
        client_out_len = 0;
        client_out_pos = 0;
        client_out = [];
      } in
      let framed = frame_target_bytes io emptied w in
      ground (
        arith,
        close-Keeps emptied w,
        answer_close-Keeps emptied,
        frame_target_bytes-Keeps emptied w,
      )

  pub write_client_loop-Keeps :
      (rounds : ℕ) (s : Session) (w : W) → Keeps s (write_client_loop io rounds s w).1
  unfolding write_client_loop
  write_client_loop-Keeps zero s w = (refl, refl)
  write_client_loop-Keeps (suc rounds) s w =
      let r = transport_write io w s.client_transport (drop s.client_out_pos s.client_out) in
      let s1 =
        touch_if_sent io r.1 (record s { client_out_pos = add_size s.client_out_pos r.1 }) r.2 in
      ground (arith, close-Keeps s r.2, write_client_loop-Keeps rounds s1 r.2)

  pub write_client-Keeps :
      (config : Config) (s : Session) (w : W) → Keeps s (write_client io config s w).0
  unfolding write_client
  write_client-Keeps config s w =
      let r = write_client_loop io config.write_budget s w in
      ground
        (arith, write_client_loop-Keeps config.write_budget s w, after_client_out-Keeps r.1 r.2)
