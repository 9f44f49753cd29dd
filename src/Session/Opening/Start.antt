-- ===== src/Session/Opening/Start.antt =====
-- What a session does once a request is accepted: the response, the connect to the target, and the
-- frames behind the request.
use sockify.Prelude.{
  ℕ, ◌-◌, ◌≤◌, ◌<◌, ◌≡◌, refl, sym, ap, ◌∙◌, Bool, true, false, Option, some, List, [], ◌∷◌, ◌++◌,
  append-nil, Bytes, arith, length, length-append, drop, drop-append, ltb, ◌!=◌,
}
use sockify.Buffer.Window.{contents}
use sockify.Session.{Session, Config, set_client_out, has_socket, close}
use sockify.Session.Client.Frames.{IsOpen, with_data_of, process_ws_bytes-frames}
use sockify.Session.Client.Stream.{DataFrame, stream, payloads, InOrder, length-stream}
use sockify.Session.Events.{event_write}
use sockify.Session.Opening.{start_target, register_target, after_handshake, accept_handshake}
use sockify.Status.{Status, ok, is_ok}
use sockify.Transport.{Backend, Socket, init_plain}

module _ {W : Type 0} (io : Backend W) where
  -- What a connect to the target gives, and the world after the socket is in the event loop.
  abbrev pub connected : Config → W → Status × Socket × Bool × W
  connected config w = io.net_connect w config.target_host config.target_port

  abbrev pub registered : Config → W → Status × W
  registered config w = let r = connected config w in io.loop_add r.3 r.1 event_write

  -- The session once the response waits for the client and the target is registered.
  abbrev pub started : Config → Bytes → Session → W → Session
  started config response s w =
      let r = connected config w in
      record s {
        client_out = response;
        client_out_len = length response;
        client_out_pos = 0;
        handshake_done = true;
        target_fd = r.1;
        target_connecting = r.2;
        connect_started_at = io.now r.3;
        target_transport = init_plain r.1;
        target_registered = true;
      }

  set_client_out_lem :
      (s : Session) (response : Bytes)
      → length response ≤ s.client_out_capacity
      → s.client_out_len ≡ s.client_out_pos
      → set_client_out s response ≡ (
        ok,
        record s { client_out = response; client_out_len = length response; client_out_pos = 0 },
      )
  unfolding set_client_out
  set_client_out_lem s response fits idle =
      let room : ltb s.client_out_capacity (length response) ≡ false = ground (arith, fits) in
      let all_sent : (s.client_out_len != s.client_out_pos) ≡ false = ground (arith, idle) in
      rw (room, all_sent)

  register_target_lem :
      (s : Session) (w : W)
      → s.target_registered ≡ false
      → is_ok (io.loop_add w s.target_fd event_write).0 ≡ true
      → register_target io s w
        ≡ (ok, record s { target_registered = true }, (io.loop_add w s.target_fd event_write).1)
  unfolding register_target
  register_target_lem s w e a = rw (register_target, e, a)

  start_target_lem :
      (config : Config) (s : Session) (w : W)
      → has_socket s.target_fd ≡ false
      → s.target_registered ≡ false
      → is_ok (connected config w).0 ≡ true
      → is_ok (registered config w).0 ≡ true
      → let r = connected config w in
        start_target io config s w ≡ (
          ok,
          record s {
            target_fd = r.1;
            target_connecting = r.2;
            connect_started_at = io.now r.3;
            target_transport = init_plain r.1;
            target_registered = true;
          },
          (registered config w).1,
        )
  unfolding start_target
  start_target_lem config s w no_target not_registered c a =
      let r = connected config w in
      let s2 : Session = record s {
        target_fd = r.1;
        target_connecting = r.2;
        connect_started_at = io.now r.3;
        target_transport = init_plain r.1;
      } in
      rw (start_target, no_target, c) (register_target_lem s2 r.3 not_registered a)

  pub accept_handshake-started :
      (config : Config) (response : Bytes) (consumed : ℕ) (s : Session) (w : W)
      → length response ≤ s.client_out_capacity
      → s.client_out_len ≡ s.client_out_pos
      → has_socket s.target_fd ≡ false
      → s.target_registered ≡ false
      → is_ok (connected config w).0 ≡ true
      → is_ok (registered config w).0 ≡ true
      → accept_handshake io config response consumed s w
        ≡ after_handshake io consumed (started config response s w) (registered config w).1
  unfolding accept_handshake
  accept_handshake-started config response consumed s w fits idle no_target not_registered c a =
      let s1 : Session = record s {
        client_out = response;
        client_out_len = length response;
        client_out_pos = 0;
        handshake_done = true;
      } in
      let on_start : Status × Session × W → Option (Session × W) = λ r. elim (is_ok r.0) [
        | false ↦ some (close io r.1 r.2)
        | true ↦ after_handshake io consumed r.1 r.2
      ] in
      let on_set : Status × Session → Option (Session × W) = λ u. elim (is_ok u.0) [
        | false ↦ some (close io u.1 w)
        | true ↦ on_start (start_target io config (record u.1 { handshake_done = true }) w)
      ] in
      ap on_set (set_client_out_lem s response fits idle)
      ∙ ap on_start (start_target_lem config s1 w no_target not_registered c a)

  -- The bytes behind a request are frames of an open client.
  pub after_handshake-frames :
      (header : Bytes) (fs : List DataFrame) (s : Session) (w : W)
      → IsOpen s
      → InOrder s.ws_parser.fragmented_opcode fs
      → length (payloads fs) < s.client_to_target.capacity - s.client_to_target.len
      → s.handshake ≡ header ++ stream fs
      → (s' : Session) × (after_handshake io (length header) s w ≡ some (s', w))
        × IsOpen s'
        × (contents s'.client_to_target ≡ contents s.client_to_target ++ payloads fs)
        × (s' ≡ with_data_of s' (record s { handshake = [] }))
  unfolding after_handshake
  after_handshake-frames header [] s w o h room e =
      let all_used : ltb (length header) (length s.handshake) ≡ false =
        ground (arith, ap (length {A = ℕ}) (e ∙ append-nil header)) in
      (
        record s { handshake = [] },
        rw (after_handshake, all_used),
        record {
          not_closing = o.not_closing;
          parser = o.parser;
          at_start = o.at_start;
          buffer = o.buffer;
        },
        sym (append-nil (contents s.client_to_target)),
        refl,
      )
  after_handshake-frames header (f ∷ fs) s w o h room e =
      let more : ltb (length header) (length s.handshake) ≡ true = ground (
        arith,
        ap (length {A = ℕ}) e,
        length-append header (stream (f ∷ fs)),
        length-stream (f ∷ fs),
      ) in
      let behind : drop (length header) s.handshake ≡ stream (f ∷ fs) =
        ap (drop (length header)) e ∙ drop-append header (stream (f ∷ fs)) in
      let (s', step, o', joined, same) = process_ws_bytes-frames io (f ∷ fs) s w o h room in
      (
        record s' { handshake = [] },
        rw (after_handshake, more, behind, step),
        record {
          not_closing = o'.not_closing;
          parser = o'.parser;
          at_start = o'.at_start;
          buffer = o'.buffer;
        },
        joined,
        ap (λ (u : Session). record u { handshake = [] }) same,
      )
