-- ===== src/Session/Client/Stream.antt =====
-- The bytes of data frames that a client sends in order.
use sockify.Prelude.{
  ℕ, ◌+◌, ◌≤◌, ◌<◌, ◌^◌, ◌≡◌, ap, Bool, true, List, [], ◌∷◌, ◌++◌, Bytes, IsByte, All, All-append,
  arith, length, length-append, get_or, ◌%◌,
}
use sockify.Prelude.Bits.{bit_xor_lt}
use sockify.ByteOrder.RoundTrip.{get_or-IsByte}
use sockify.Frame.{Fed, valid_opcode}
use sockify.Frame.Inv.{IsWellFormed}
use sockify.Frame.Spec.{client_frame, first_byte, length_field, mask_payload, allowed, open_after}
use sockify.Frame.Progress.{FeedResult}
use sockify.Session.{io_chunk}
use sockify.Session.Client.{is_data_opcode}
use sockify.Status.{err_again, ok, is_ok}

-- A data frame as the client builds it.
pub record DataFrame : Type 0 where
  pub fin : Bool
  pub opcode : ℕ
  pub key : ℕ × ℕ × ℕ × ℕ
  pub payload : Bytes

abbrev pub key_bytes : DataFrame → Bytes
key_bytes f = f.key.0 ∷ f.key.1 ∷ f.key.2 ∷ f.key.3 ∷ []

abbrev pub frame_bytes : DataFrame → Bytes
frame_bytes f = client_frame f.fin f.opcode (key_bytes f) f.payload

abbrev pub stream : List DataFrame → Bytes
stream [] = []
stream (f ∷ fs) = frame_bytes f ++ stream fs

abbrev pub payloads : List DataFrame → Bytes
payloads [] = []
payloads (f ∷ fs) = f.payload ++ payloads fs

-- Frames that may follow each other, where `message` is the opcode of the open message or 0.
abbrev pub InOrder : ℕ → List DataFrame → Type 0
InOrder message [] = Unit
InOrder message (f ∷ fs) =
    (valid_opcode f.opcode ≡ true)
    × (is_data_opcode f.opcode ≡ true)
    × (allowed message f.fin f.opcode (length f.payload) ≡ true)
    × All IsByte (key_bytes f)
    × All IsByte f.payload
    × (length f.payload ≤ io_chunk)
    × InOrder (open_after message f.fin f.opcode) fs

pub FeedResult-accepted :
    (pos n room : ℕ) (r : Fed) → FeedResult pos n room r → r.0 ≡ ok → IsWellFormed r.2
FeedResult-accepted pos n room (ok, used, p, msg) h e = h.0
FeedResult-accepted pos n room (err_again, used, p, msg) h e = absurd (ground (arith, ap is_ok e))
FeedResult-accepted pos n room (_, used, p, msg) h e = absurd (ground (arith, ap is_ok e))

mask_payload-IsByte :
    (key : Bytes) (i : ℕ) (xs : Bytes)
    → All IsByte key
    → All IsByte xs
    → All IsByte (mask_payload key i xs)
unfolding mask_payload
mask_payload-IsByte key i [] k h = tt
mask_payload-IsByte key i (x ∷ xs) k (h, hs) = (
  bit_xor_lt 8 x (get_or key (i % 4) 0) h (get_or-IsByte key (i % 4) k),
  mask_payload-IsByte key (i + 1) xs k hs,
)

length_field-IsByte : (n : ℕ) → n < 2 ^ 63 → All IsByte (length_field 128 n)
unfolding length_field
length_field-IsByte n lt = ground arith

pub client_frame-IsByte :
    (f : DataFrame)
    → valid_opcode f.opcode ≡ true
    → All IsByte (key_bytes f)
    → All IsByte f.payload
    → length f.payload < 2 ^ 63
    → All IsByte (frame_bytes f)
unfolding client_frame first_byte
client_frame-IsByte f v k b lt = (
  ground arith,
  All-append IsByte (length_field 128 (length f.payload)) _ (length_field-IsByte _ lt)
      (All-append IsByte (key_bytes f) _ k (mask_payload-IsByte (key_bytes f) 0 f.payload k b)),
)

pub stream-IsByte :
    (fs : List DataFrame) (message : ℕ) → InOrder message fs → All IsByte (stream fs)
stream-IsByte [] message h = tt
stream-IsByte (f ∷ fs) message (v, d, a, kb, pb, small, later) =
    All-append IsByte (frame_bytes f) (stream fs) (client_frame-IsByte f v kb pb (omega arith))
      (stream-IsByte fs _ later)

-- Every frame has at least one byte.
pub length-stream : (fs : List DataFrame) → length fs ≤ length (stream fs)
unfolding client_frame
length-stream [] = omega arith
length-stream (f ∷ fs) = omega (arith, length-append (frame_bytes f) (stream fs), length-stream fs)
