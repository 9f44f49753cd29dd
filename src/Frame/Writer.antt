-- ===== src/Frame/Writer.antt =====
-- `sockify_ws_write_frame`: an unmasked frame for the client.
pub mod RoundTrip
use sockify.Prelude.{
  ℕ, ◌+◌, bit_and, bit_or, Bool, true, false, not, ◌&&◌, ◌||◌, Option, List, [], ◌∷◌, ◌++◌, Bytes,
  u8, u16, ltb, leb, ◌!=◌, if◌then◌else◌, take, add_size,
}
use sockify.Buffer.{is_null, bytes_of}
use sockify.ByteOrder.{write_be16, write_be64}
use sockify.Frame.{is_control_opcode, valid_opcode}
use sockify.Status.{Status, ok, err_invalid, err_overflow, err_protocol}

abbrev pub header_len : ℕ → ℕ
header_len payload_len = if leb payload_len 125 then 2 else if leb payload_len 65535 then 4 else 10

-- What is stored at `output[0..header_len)`.
unfoldable pub frame_header : ℕ → ℕ → Bytes
frame_header opcode payload_len =
    u8 (bit_or 0x80 (bit_and opcode 0x0f))
    ∷ (if leb payload_len 125
        then u8 payload_len ∷ []
        else if leb payload_len 65535
        then 126 ∷ write_be16 (u16 payload_len)
        else 127 ∷ write_be64 payload_len)

-- The results are the return code, `*written` and the bytes stored in `output`.
unfoldable pub write_frame : ℕ → Option Bytes → ℕ → Bool → ℕ → Status × ℕ × Bytes
write_frame opcode payload_ptr payload_len output_null output_size =
    if output_null || payload_len != 0 && is_null payload_ptr
    then (err_invalid, 0, [])
    else if not (valid_opcode opcode)
    then (err_protocol, 0, [])
    else if is_control_opcode opcode && ltb 125 payload_len
    then (err_protocol, 0, [])
    else if ltb output_size (add_size (header_len payload_len) payload_len)
    then (err_overflow, 0, [])
    else (
      ok,
      add_size (header_len payload_len) payload_len,
      frame_header opcode payload_len ++ take payload_len (bytes_of payload_ptr),
    )
