-- ===== src/Session/Target.antt =====
-- src/proxy/proxy.c: what a session does with its target's socket, and how it writes to its client.
pub mod Stream
pub mod Forward
use sockify.Prelude.{
  some, ℕ, zero, suc, ◌+◌, Bool, true, false, not, ◌&&◌, ◌||◌, List, [], ◌∷◌, Bytes, ltb, ◌==◌,
  ◌!=◌, if◌then◌else◌, length, take, drop, add_size,
}
use sockify.Buffer
use sockify.Buffer.{Buffer, readable, is_high, peek, consume}
use sockify.Frame.{opcode_binary}
use sockify.Session.{Session, Config, make_ws_frame, close, touch, min_size, io_chunk}
use sockify.Session.Client.{answer_close}
use sockify.Status.{Status, ok, err_again, is_ok, is_again}
use sockify.Transport.{Backend, transport_read, transport_write}

module _ {W : Type 0} (io : Backend W) where
  -- `if (sent != 0) session_touch(session);`
  abbrev pub touch_if_sent : ℕ → Session → W → Session
  touch_if_sent sent s w = record s {
    last_activity_at = if sent != 0 then (touch io s w).last_activity_at else s.last_activity_at;
  }

  -- The loop of `session_write_target` with `rounds` left of the budget.
  unfoldable pub write_target_loop : ℕ → Session → W → Session × W
  write_target_loop zero s w = (s, w)
  write_target_loop (suc rounds) s w =
      let count = min_size io_chunk (readable s.client_to_target) in
      let (rc, _, bytes) = peek s.client_to_target false count in
      let (rc_sent, sent, w1) = transport_write io w s.target_transport bytes in
      let s1 = touch_if_sent sent s w1 in
      let (rc_consume, _, buf) = consume s1.client_to_target sent in
      elim (readable s.client_to_target == 0) [
        | true ↦ (s, w)
        | false ↦ elim (is_ok rc) [
          | false ↦ close io s w
          | true ↦ elim (is_again rc_sent) [
            | true ↦ (s, w1)
            | false ↦ elim (is_ok rc_sent) [
              | false ↦ close io s w1
              | true ↦ elim (is_ok rc_consume) [
                | false ↦ close io (record s1 { client_to_target = buf }) w1
                | true ↦ write_target_loop rounds (record s1 { client_to_target = buf }) w1
              ]
            ]
          ]
        ]
      ]

  -- `session_write_target`
  unfoldable pub write_target : Config → Session → W → Session × W
  unfolding write_target_loop
  write_target config s w = write_target_loop config.write_budget s w

  -- The loop of `session_read_target`.
  unfoldable pub read_target_loop : ℕ → Session → W → Session × W
  read_target_loop zero s w = (s, w)
  read_target_loop (suc rounds) s w =
      let (rc, bytes, w1) = transport_read io w s.target_transport io_chunk in
      let s1 = touch io s w1 in
      let (rc_write, written, buf) = Buffer.write s1.target_to_client (some bytes) (length bytes) in
      let s2 = record s1 { target_to_client = buf } in
      elim (is_high s.target_to_client) [
        | true ↦ (s, w)
        | false ↦ elim (is_again rc) [
          | true ↦ (s, w1)
          | false ↦ elim (is_ok rc) [
            | false ↦ close io s w1
            | true ↦ elim (not (is_ok rc_write) || written != length bytes) [
              | true ↦ close io s2 w1
              | false ↦ read_target_loop rounds s2 w1
            ]
          ]
        ]
      ]

  -- `session_read_target`
  unfoldable pub read_target : Config → Session → W → Session × W
  unfolding read_target_loop
  read_target config s w = read_target_loop config.read_budget s w

  -- The loop of `session_write_client`; the Boolean says that it ran to its end, not to a `return`.
  unfoldable pub write_client_loop : ℕ → Session → W → Bool × Session × W
  write_client_loop zero s w = (true, s, w)
  write_client_loop (suc rounds) s w =
      let (rc, sent, w1) =
        transport_write io w s.client_transport (drop s.client_out_pos s.client_out) in
      let s1 =
        touch_if_sent sent (record s { client_out_pos = add_size s.client_out_pos sent }) w1 in
      elim (ltb s.client_out_pos s.client_out_len) [
        | false ↦ (true, s, w)
        | true ↦ elim (is_again rc) [
          | true ↦ (false, s, w1)
          | false ↦ elim (is_ok rc) [
            | false ↦ let (s2, w2) = close io s w1 in (false, s2, w2)
            | true ↦ write_client_loop rounds s1 w1
          ]
        ]
      ]

  -- The last part of `session_write_client`: the next bytes from the target become a frame.
  abbrev pub frame_target_bytes : Session → W → Session × W
  frame_target_bytes s w =
      let count = min_size io_chunk (readable s.target_to_client) in
      let (rc, _, bytes, buf) = Buffer.read s.target_to_client false count in
      let s1 = record s { target_to_client = buf } in
      let (rc_frame, s2) = make_ws_frame s1 opcode_binary bytes in
      if s.handshake_done && readable s.target_to_client != 0
      then if not (is_ok rc)
        then close io s1 w
        else if not (is_ok rc_frame)
        then close io s1 w
        else (s2, w)
      else (s, w)

  -- `session_write_client` after its loop.
  unfoldable pub after_client_out : Session → W → Session × W
  after_client_out s w =
      let s1 = record s { client_out_len = 0; client_out_pos = 0; client_out = [] } in
      if ltb s.client_out_pos s.client_out_len
      then (s, w)
      else if s1.pending_close
      then (answer_close s1, w)
      else if s1.closing != 0
      then close io s1 w
      else frame_target_bytes s1 w

  -- `session_write_client`
  unfoldable pub write_client : Config → Session → W → Session × W
  unfolding write_client_loop after_client_out
  write_client config s w =
      let (ended, s1, w1) = write_client_loop config.write_budget s w in
      if ended then after_client_out s1 w1 else (s1, w1)
