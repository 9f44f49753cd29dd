-- ===== src/Session/Opening/Opens.antt =====
-- A session from the first byte of its client's request to the bytes for its target.
use sockify.Prelude.{
  ℕ, ◌-◌, ◌≤◌, ◌<◌, ◌≡◌, sym, ap, ◌∙◌, true, false, some, List, [], ◌∷◌, ◌++◌, Bytes, All, arith,
  length, length-append, take, take-append, ltb, ◌==◌,
}
use sockify.Buffer.Window.{contents}
use sockify.Base64.RoundTrip.{decode}
use sockify.Sha1.{sha1}
use sockify.Handshake.{max_http_request, nothing_seen, guid, crlf, response_prefix, build_response}
use sockify.Handshake.Accept.{respond-accept}
use sockify.Handshake.Fields.{seen_key}
use sockify.Handshake.Loops.{Field, IsField, IsLine, read_fields}
use sockify.Handshake.Request.{header_of, build_response-fields}
use sockify.Session.{Session, Config, has_socket}
use sockify.Session.Client.Frames.{IsOpen}
use sockify.Session.Client.Stream.{DataFrame, stream, payloads, InOrder}
use sockify.Session.Opening.{handle_handshake_bytes}
use sockify.Status.{is_ok}
use sockify.Text.Laws.{No}
use sockify.Transport.{Backend}
use sockify.Session.Opening.Start.{
  connected, registered, started, accept_handshake-started, after_handshake-frames,
}

module _ {W : Type 0} (io : Backend W) where
  -- What a session relies on when the last bytes of a request arrive: it is new, its client waits for no
  -- other bytes, there is room for a response, and the target can be reached.
  pub record IsNew (config : Config) (s : Session) (w : W) : Type 0 where
    pub opened : IsOpen s
    pub nothing_yet : s.handshake ≡ []
    pub room : 129 ≤ s.client_out_capacity
    pub idle : s.client_out_len ≡ s.client_out_pos
    pub no_target : has_socket s.target_fd ≡ false
    pub not_registered : s.target_registered ≡ false
    pub connects : is_ok (connected io config w).0 ≡ true
    pub registers : is_ok (registered io config w).0 ≡ true

  -- A new session, whose target can be reached, gets a GET of HTTP/1.1 with header fields in any order and
  -- data frames behind it in one read, 8192 bytes in all at most. The fields show an upgrade, a
  -- connection, version 13 and a key without a NUL; the frames are in an order that the rules allow, and
  -- their payloads fit in the buffer for the target. Then `session_handle_handshake_bytes` ends. The
  -- response that waits for the client, all of it, is that of RFC 6455, with characters that RFC 4648 reads as the SHA-1
  -- digest of the key and the GUID; the target is registered; the payloads stand in the buffer for the
  -- target, in order, behind what was there; and the session waits for a frame.
  pub handle_handshake_bytes-opens :
      (config : Config) (path : Bytes) (fields : List Field) (fs : List DataFrame) (s : Session)
      (w : W)
      → IsNew config s w
      → 0 < length path
      → IsLine path
      → All IsField fields
      → length (header_of path fields ++ stream fs) ≤ max_http_request
      → (read_fields nothing_seen fields).saw_upgrade ≡ true
      → (read_fields nothing_seen fields).saw_connection ≡ true
      → (read_fields nothing_seen fields).saw_version ≡ true
      → (read_fields nothing_seen fields).saw_key ≡ true
      → No (λ c. c == 0) (read_fields nothing_seen fields).key
      → InOrder s.ws_parser.fragmented_opcode fs
      → length (payloads fs) < s.client_to_target.capacity - s.client_to_target.len
      → (s' : Session) × (accept : Bytes) × (handle_handshake_bytes io config s
            (header_of path fields ++ stream fs)
            w
          ≡ some (s', (registered io config w).1))
        × IsOpen s'
        × (s'.handshake_done ≡ true)
        × (s'.target_registered ≡ true)
        × (contents s'.client_to_target ≡ contents s.client_to_target ++ payloads fs)
        × (s'.client_out ≡ response_prefix ++ (accept ++ (crlf ++ crlf)))
        × (s'.client_out_len ≡ length s'.client_out)
        × (s'.client_out_pos ≡ 0)
        × (decode accept ≡ sha1 ((read_fields nothing_seen fields).key ++ guid))
  unfolding handle_handshake_bytes
  handle_handshake_bytes-opens config path fields fs s w n p l f short u c v k no_nul h room =
      let seen = read_fields nothing_seen fields in
      let header = header_of path fields in
      let all = header ++ stream fs in
      let key = seen_key fields k in
      let (accept, answered, size, digest) =
        respond-accept seen (length header) 256 u c v k no_nul key.0 key.1 (omega arith) in
      let response = response_prefix ++ (accept ++ (crlf ++ crlf)) in
      let full : length response ≡ 129 = omega (
        arith,
        length-append response_prefix (accept ++ (crlf ++ crlf)),
        length-append accept (crlf ++ crlf),
        size,
      ) in
      let arrived : s.handshake ++ all ≡ all = ap (λ l. l ++ all) n.nothing_yet in
      let fits : ltb (max_http_request - length s.handshake) (length all) ≡ false =
        ground (arith, short, ap (length {A = ℕ}) n.nothing_yet) in
      let s1 : Session = record s { handshake = s.handshake ++ all } in
      let built =
        ap (λ r. build_response r 256) arrived
        ∙ build_response-fields path fields (stream fs) 256 p l f short
        ∙ ap some answered in
      let cut : take 129 (response ++ (0 ∷ [])) ≡ response =
        ap (λ m. take m (response ++ (0 ∷ []))) (sym full) ∙ take-append response (0 ∷ []) in
      let s2 = started io config response s1 w in
      let o2 : IsOpen s2 = record {
        not_closing = n.opened.not_closing;
        parser = n.opened.parser;
        at_start = n.opened.at_start;
        buffer = n.opened.buffer;
      } in
      let (s', done, o', joined, same) =
        after_handshake-frames io header fs s2 (registered io config w).1 o2 h room arrived in
      (
        s',
        accept,
        rw (handle_handshake_bytes, fits, built, cut)
            (accept_handshake-started io config response (length header) s1 w (omega arith) n.idle
                n.no_target n.not_registered n.connects n.registers
              ∙ done),
        o',
        ap (λ (u : Session). u.handshake_done) same,
        ap (λ (u : Session). u.target_registered) same,
        joined,
        ap (λ (u : Session). u.client_out) same,
        ap (λ (u : Session). u.client_out_len) same
            ∙ sym (ap (λ (u : Session). length u.client_out) same),
        ap (λ (u : Session). u.client_out_pos) same,
        digest,
      )
