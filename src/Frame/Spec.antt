-- ===== src/Frame/Spec.antt =====
-- Frames as RFC 6455 writes them, apart from the code: what a client sends, and how a client reads
-- what the server sends.
use sockify.Prelude.{
  ℕ, ◌+◌, ◌*◌, ◌/◌, ◌%◌, ◌^◌, bit_xor, Bool, not, ◌&&◌, Option, none, some, [], ◌∷◌, ◌++◌, Bytes,
  leb, ◌==◌, if◌then◌else◌, length, get_or, take, drop,
}

-- The first byte of a frame: the FIN bit and the opcode.
unfoldable pub first_byte : Bool → ℕ → ℕ
first_byte fin opcode = (if fin then 128 else 0) + opcode

-- The length field: 7 bits, or a marker and 16 or 64 bits, most significant byte first. `high` is
-- the mask bit.
unfoldable pub length_field : ℕ → ℕ → Bytes
length_field high n =
    if leb n 125
    then (high + n) ∷ []
    else if leb n 65535
    then (high + 126) ∷ (n / 256) ∷ (n % 256) ∷ []
    else (high + 127)
      ∷ (n / 2 ^ 56)
      ∷ (n / 2 ^ 48 % 256)
      ∷ (n / 2 ^ 40 % 256)
      ∷ (n / 2 ^ 32 % 256)
      ∷ (n / 2 ^ 24 % 256)
      ∷ (n / 2 ^ 16 % 256)
      ∷ (n / 2 ^ 8 % 256)
      ∷ (n % 256)
      ∷ []

-- Byte `i` of the payload goes with byte `i % 4` of the mask.
unfoldable pub mask_payload : Bytes → ℕ → Bytes → Bytes
mask_payload key i [] = []
mask_payload key i (x ∷ xs) = bit_xor x (get_or key (i % 4) 0) ∷ mask_payload key (i + 1) xs

-- A frame from the client: masked with the four bytes of `key`.
unfoldable pub client_frame : Bool → ℕ → Bytes → Bytes → Bytes
client_frame fin opcode key payload =
    first_byte fin opcode
    ∷ (length_field 128 (length payload) ++ (key ++ mask_payload key 0 payload))

-- Whether a frame may come next, where `open` is the opcode of the message that is open, or 0: a
-- control frame is whole and short, a continuation needs an open message, and any other frame must
-- not interrupt one.
unfoldable pub allowed : ℕ → Bool → ℕ → ℕ → Bool
allowed open_message fin opcode n =
    if leb 8 opcode
    then fin && leb n 125
    else if opcode == 0
    then not (open_message == 0)
    else open_message == 0

-- The opcode of the message that is open after a frame.
unfoldable pub open_after : ℕ → Bool → ℕ → ℕ
open_after open_message fin opcode =
    if leb 8 opcode
    then open_message
    else if fin
    then 0
    else if opcode == 0
    then open_message
    else opcode

-- What a client reads: FIN, opcode, payload, and the bytes behind the frame.
abbrev pub Decoded : Type 0
Decoded = Bool × ℕ × Bytes × Bytes

-- The number that bytes stand for, most significant first.
abbrev pub number : Bytes → ℕ → ℕ
number [] acc = acc
number (b ∷ bs) acc = number bs (acc * 256 + b)

abbrev pub payload_of : ℕ → ℕ → Bytes → Option Decoded
payload_of first n rest =
    if leb n (length rest) then some (leb 128 first, first % 16, take n rest, drop n rest) else none

-- An unmasked frame at the front of `bytes`, as a client reads it.
unfoldable pub decode_frame : Bytes → Option Decoded
decode_frame (first ∷ second ∷ rest) =
    if leb second 125
    then payload_of first second rest
    else if second == 126
    then payload_of first (number (take 2 rest) 0) (drop 2 rest)
    else if second == 127
    then payload_of first (number (take 8 rest) 0) (drop 8 rest)
    else none
decode_frame _ = none
