-- ===== src/Session/Client/Frames.antt =====
-- Data frames that a client sends end up, in order and whole, in the buffer for the target.
use sockify.Prelude.{
  ℕ, zero, suc, ◌-◌, ◌≤◌, ◌<◌, ◌≡◌, refl, sym, ap, ◌∙◌, true, false, some, List, [], ◌∷◌, ◌++◌,
  append-nil, append_assoc, Bytes, IsByte, All, All-append, arith, length, length-append, drop,
  drop-append, ◌==◌,
}
use mathlib.Core.Path.{subst}
use sockify.Buffer
use sockify.Buffer.{Buffer, writable}
use sockify.Buffer.Inv.{IsValid}
use sockify.Buffer.Window.{contents}
use sockify.Frame.{header_1}
use sockify.Frame.Inv.{IsWellFormed}
use sockify.Frame.Spec.{client_frame}
use sockify.Frame.Accept.{Accepts, parser_feed-client_frame}
use sockify.Frame.Progress.{parser_feed-FeedResult}
use sockify.Session.{Session, min_size, io_chunk}
use sockify.Session.Client.{is_data_opcode, process_loop, process_ws_bytes}
use sockify.Status.{ok}
use sockify.Transport.{Backend}
use sockify.Session.Client.Rounds.{Stored, write-Stored, fed, round_ok, handle_data}
use sockify.Session.Client.Stream.{
  DataFrame, frame_bytes, stream, payloads, InOrder, FeedResult-accepted, client_frame-IsByte,
  stream-IsByte, length-stream,
}

-- A session that waits for a frame of an open client.
pub record IsOpen (s : Session) : Type 0 where
  pub not_closing : s.closing ≡ 0
  pub parser : IsWellFormed s.ws_parser
  pub at_start : s.ws_parser.state ≡ header_1
  pub buffer : IsValid s.client_to_target

-- `s` with the parser and the buffer for the target of `s'`.
abbrev pub with_data_of : Session → Session → Session
with_data_of s' s = record s { ws_parser = s'.ws_parser; client_to_target = s'.client_to_target }

module _ {W : Type 0} (io : Backend W) where
  -- One data frame takes one round, and leaves the session open with the payload stored.
  one_frame :
      (f : DataFrame) (rest : Bytes) (fuel : ℕ) (s : Session) (w : W) (fs : List DataFrame)
      → IsOpen s
      → All IsByte rest
      → InOrder s.ws_parser.fragmented_opcode (f ∷ fs)
      → length f.payload < s.client_to_target.capacity - s.client_to_target.len
      → (s' : Session) × (process_loop io (suc fuel) (frame_bytes f ++ rest) s w
          ≡ process_loop io fuel rest s' w)
        × IsOpen s'
        × InOrder s'.ws_parser.fragmented_opcode fs
        × Stored s.client_to_target s'.client_to_target f.payload
        × (s' ≡ with_data_of s' s)
  unfolding client_frame writable
  one_frame f rest fuel s w fs o br (v, d, a, kb, pb, small, later) room =
      let capacity = min_size io_chunk (writable s.client_to_target) in
      let bytes = frame_bytes f ++ rest in
      let r = fed io s bytes in
      let accepts : Accepts (frame_bytes f) f.payload f.fin f.opcode s.ws_parser.fragmented_opcode
          r =
        parser_feed-client_frame s.ws_parser f.fin f.opcode f.key.0 f.key.1 f.key.2 f.key.3
          f.payload rest capacity o.parser o.at_start v kb pb a (omega arith) (ground arith) in
      let msg = r.3 in
      let s1 = record s { ws_parser = r.2 } in
      let kept : IsWellFormed r.2 =
        FeedResult-accepted 0 (length bytes) capacity r
          (parser_feed-FeedResult s.ws_parser bytes capacity
            (All-append IsByte (frame_bytes f) rest (client_frame-IsByte f v kb pb (omega arith))
              br)
            o.parser)
          accepts.accepted in
      let fits : length msg.payload ≤ s.client_to_target.capacity - s.client_to_target.len =
        rw accepts.same_payload (omega arith) in
      let buffered = write-Stored s.client_to_target msg.payload o.buffer fits in
      let has_room : (capacity == 0) ≡ false = ground arith in
      let same_data : is_data_opcode msg.opcode ≡ true = rw accepts.same_opcode d in
      let counted : msg.payload_len ≡ length msg.payload =
        accepts.same_len ∙ sym (ap (length {A = ℕ}) accepts.same_payload) in
      let step = handle_data io s1 msg w same_data o.buffer counted fits in
      let after : drop r.1 bytes ≡ rest = rw accepts.used_all (drop-append (frame_bytes f) rest) in
      let s2 = record s1 {
        client_to_target =
            (Buffer.write s.client_to_target (some msg.payload) (length msg.payload)).2;
      } in
      (
        s2,
        round_ok io fuel _ _ s w o.not_closing has_room accepts.accepted
            ∙ ap (λ u. process_loop io fuel (drop r.1 bytes) u.0 u.1) step
            ∙ ap (λ l. process_loop io fuel l s2 w) after,
        record {
          not_closing = o.not_closing;
          parser = kept;
          at_start = accepts.at_start;
          buffer = buffered.valid;
        },
        subst (λ m. InOrder m fs) (sym accepts.message_open) later,
        subst (λ l. Stored s.client_to_target s2.client_to_target l) accepts.same_payload buffered,
        refl,
      )

  -- The same on the loop, with any fuel beyond the bytes.
  frames_loop :
      (fs : List DataFrame) (fuel : ℕ) (s : Session) (w : W)
      → IsOpen s
      → InOrder s.ws_parser.fragmented_opcode fs
      → length (payloads fs) < s.client_to_target.capacity - s.client_to_target.len
      → length fs < fuel
      → (s' : Session) × (process_loop io fuel (stream fs) s w ≡ some (ok, s', w))
        × IsOpen s'
        × (contents s'.client_to_target ≡ contents s.client_to_target ++ payloads fs)
        × (s' ≡ with_data_of s' s)
  unfolding process_loop
  frames_loop fs zero s w o h room lt = absurd (omega arith)
  frames_loop [] (suc fuel) s w o h room lt =
      let not_closed : (s.closing == 2) ≡ false = ground arith in
      (s, rw not_closed, o, sym (append-nil (contents s.client_to_target)), refl)
  frames_loop (f ∷ fs) (suc fuel) s w o h room lt =
      let (s1, step, o1, h1, st, same) =
        one_frame f (stream fs) fuel s w fs o (stream-IsByte fs _ h.6) h
          (omega (arith, length-append f.payload (payloads fs))) in
      let (s2, rest, o2, joined, same') =
        frames_loop fs fuel s1 w o1 h1
          (omega (arith, length-append f.payload (payloads fs), st.longer, st.same_capacity))
          (omega arith) in
      (
        s2,
        step ∙ rest,
        o2,
        joined
            ∙ ap (λ l. l ++ payloads fs) st.appended
            ∙ append_assoc (contents s.client_to_target) f.payload (payloads fs),
        same' ∙ ap (with_data_of s2) same,
      )

  -- An open session that waits for a frame is given the bytes of any number of data frames, fragmented
  -- messages and empty frames included, in an order that the rules allow, each payload at most
  -- SOCKIFY_PROXY_IO_CHUNK bytes and all of them together less than the room in the buffer for the
  -- target. Then `session_process_ws_bytes` returns SOCKIFY_OK, its loop ends, the unmasked payloads
  -- stand in that buffer in order behind what was there, and the session is open and waits for a
  -- frame again, with nothing but its parser and that buffer changed.
  pub process_ws_bytes-frames :
      (fs : List DataFrame) (s : Session) (w : W)
      → IsOpen s
      → InOrder s.ws_parser.fragmented_opcode fs
      → length (payloads fs) < s.client_to_target.capacity - s.client_to_target.len
      → (s' : Session) × (process_ws_bytes io s (stream fs) w ≡ some (ok, s', w))
        × IsOpen s'
        × (contents s'.client_to_target ≡ contents s.client_to_target ++ payloads fs)
        × (s' ≡ with_data_of s' s)
  unfolding process_ws_bytes
  process_ws_bytes-frames fs s w o h room =
      frames_loop fs (suc (length (stream fs))) s w o h room (omega (arith, length-stream fs))
