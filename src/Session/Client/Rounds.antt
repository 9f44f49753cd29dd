-- ===== src/Session/Client/Rounds.antt =====
-- One round of the loop of `session_process_ws_bytes`, and a data message in it.
use sockify.Prelude.{
  ℕ, suc, ◌+◌, ◌-◌, ◌≤◌, ◌≡◌, ap, ◌∙◌, true, false, not, some, ◌∷◌, ◌++◌, Bytes, arith, length,
  length-append, take, drop, leb, ◌==◌, ◌!=◌, min, take-ge,
}
use sockify.Buffer
use sockify.Buffer.{Buffer, writable}
use sockify.Buffer.Inv.{IsValid}
use sockify.Buffer.Window.{contents, length-window}
use sockify.Buffer.Write.{write-IsValid, contents-write, write_reply, capacity-write}
use sockify.Frame.{Parser, Message, parser_feed}
use sockify.Session.{Session, min_size, io_chunk}
use sockify.Session.Client.{is_data_opcode, handle_ws_message, process_loop}
use sockify.Status.{Status, ok, is_ok}
use sockify.Transport.{Backend}

-- What a valid buffer is after a write that fits.
pub record Stored (buf after : Buffer) (bytes : Bytes) : Type 0 where
  pub valid : IsValid after
  pub same_capacity : after.capacity ≡ buf.capacity
  pub longer : after.len ≡ buf.len + length bytes
  pub appended : contents after ≡ contents buf ++ bytes

pub write-Stored :
    (buf : Buffer) (bytes : Bytes)
    → IsValid buf
    → length bytes ≤ buf.capacity - buf.len
    → Stored buf (Buffer.write buf (some bytes) (length bytes)).2 bytes
write-Stored buf bytes v fits =
    let after = (Buffer.write buf (some bytes) (length bytes)).2 in
    let all : take (min (length bytes) (buf.capacity - buf.len)) bytes ≡ bytes =
      take-ge (min (length bytes) (buf.capacity - buf.len)) bytes (omega arith) in
    let joined : contents after ≡ contents buf ++ bytes =
      contents-write bytes v ∙ ap (λ l. contents buf ++ l) all in
    record {
      valid = write-IsValid bytes v;
      same_capacity = capacity-write bytes v;
      longer = omega (
        arith,
        ap (length {A = ℕ}) joined,
        length-append (contents buf) bytes,
        length-window after.storage after.capacity after.read_pos after.len,
        length-window buf.storage buf.capacity buf.read_pos buf.len,
      );
      appended = joined;
    }

module _ {W : Type 0} (io : Backend W) where
  -- What the parser makes of `bytes` in a session.
  abbrev pub fed : Session → Bytes → Status × ℕ × Parser × Message
  fed s bytes =
      parser_feed s.ws_parser (some bytes) (length bytes) false
        (min_size io_chunk (writable s.client_to_target))

  pub round_ok :
      (fuel x : ℕ) (xs : Bytes) (s : Session) (w : W)
      → s.closing ≡ 0
      → (min_size io_chunk (writable s.client_to_target) == 0) ≡ false
      → (fed s (x ∷ xs)).0 ≡ ok
      → let r = fed s (x ∷ xs) in
        let (s2, w2) = handle_ws_message io (record s { ws_parser = r.2 }) r.3 w in
        process_loop io (suc fuel) (x ∷ xs) s w ≡ process_loop io fuel (drop r.1 (x ∷ xs)) s2 w2
  unfolding process_loop
  round_ok fuel x xs s w not_closing room e =
      let no_end : not (s.closing == 0) ≡ false = ground arith in
      let goes_on : is_ok (fed s (x ∷ xs)).0 ≡ true = ap is_ok e in
      rw (process_loop, no_end, room, goes_on)

  -- A data message that fits is stored whole, and nothing else changes.
  pub handle_data :
      (s : Session) (msg : Message) (w : W)
      → is_data_opcode msg.opcode ≡ true
      → IsValid s.client_to_target
      → msg.payload_len ≡ length msg.payload
      → length msg.payload ≤ s.client_to_target.capacity - s.client_to_target.len
      → handle_ws_message io s msg w ≡ (
        record s {
          client_to_target =
              (Buffer.write s.client_to_target (some msg.payload) (length msg.payload)).2;
        },
        w,
      )
  unfolding handle_ws_message
  handle_data s msg w is_data v len fits =
      let (code, count) = write_reply msg.payload v in
      let all : leb (length msg.payload) (s.client_to_target.capacity - s.client_to_target.len)
          ≡ true =
        ground arith in
      let whole : (min (length msg.payload) (s.client_to_target.capacity - s.client_to_target.len)
            != length msg.payload)
          ≡ false =
        ground arith in
      rw (is_data, len, code, count, all, whole)
