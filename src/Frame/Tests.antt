-- ===== src/Frame/Tests.antt =====
-- The frame theorems at inputs that meet their hypotheses, and the frames of tests/test_ws.c.
use sockify.Prelude.{ℕ, ◌≡◌, refl, true, false, Bytes, some, [], ◌∷◌, ◌++◌, length, arith, drop}
use sockify.Frame.{
  Parser, parser_init, parser_feed, feed_loop, unmask, no_message, validate_frame_header, step_in,
  step_payload,
}
use sockify.Frame.Spec.{allowed, client_frame, decode_frame}
use sockify.Frame.Inv.{parser_init-IsWellFormed}
use sockify.Frame.Progress.{FeedResult, parser_feed-FeedResult}
use sockify.Frame.Stream.{parser_feed-append, later}
use sockify.Frame.Accept.{Accepts, parser_feed-client_frame}
use sockify.Frame.Writer.{frame_header, write_frame}
use sockify.Frame.Writer.RoundTrip.{write_frame-decode, WriteResult, write_frame-outcome}
use sockify.Status.{ok, err_again, err_protocol}

-- `check_masked_binary_frame`: "hi" under the mask 1, 2, 3, 4.
abbrev hi_frame : Bytes
hi_frame = 0x82 ∷ 0x82 ∷ 1 ∷ 2 ∷ 3 ∷ 4 ∷ 105 ∷ 107 ∷ []

masked_binary_frame :
    let r = parser_feed parser_init (some hi_frame) 8 false 8 in
    (r.0 ≡ ok) × (r.1 ≡ 8) × (r.3.payload ≡ 104 ∷ 105 ∷ []) × (r.3.frame_complete ≡ true)
unfolding parser_feed parser_init feed_loop step_payload step_in validate_frame_header unmask
masked_binary_frame = (refl, refl, refl, refl)

-- `check_chunked_binary_frame`: "abcdef" into three bytes at a time.
abbrev chunked : Bytes
chunked = 0x82 ∷ 0x86 ∷ 1 ∷ 2 ∷ 3 ∷ 4 ∷ 96 ∷ 96 ∷ 96 ∷ 96 ∷ 100 ∷ 100 ∷ []

chunked_binary_frame :
    let first = parser_feed parser_init (some chunked) 12 false 3 in
    let second = parser_feed first.2 (some (drop 9 chunked)) 3 false 3 in
    (first.0 ≡ ok)
    × (first.1 ≡ 9)
    × (first.3.payload ≡ 97 ∷ 98 ∷ 99 ∷ [])
    × (first.3.frame_complete ≡ false)
    × (second.1 ≡ 3)
    × (second.3.payload ≡ 100 ∷ 101 ∷ 102 ∷ [])
    × (second.3.frame_complete ≡ true)
unfolding parser_feed parser_init feed_loop step_payload step_in validate_frame_header unmask
chunked_binary_frame = (refl, refl, refl, refl, refl, refl, refl)

-- `check_unmasked_rejected`
unmasked_rejected :
    (parser_feed parser_init (some (0x82 ∷ 2 ∷ 111 ∷ 107 ∷ [])) 4 false 4).0 ≡ err_protocol
unfolding parser_feed parser_init feed_loop step_payload step_in validate_frame_header unmask
unmasked_rejected = refl

-- `check_frame_writer`
frame_writer :
    write_frame 2 (some (97 ∷ 98 ∷ 99 ∷ [])) 3 false 16 ≡ (ok, 5, 0x82 ∷ 3 ∷ 97 ∷ 98 ∷ 99 ∷ [])
unfolding write_frame frame_header
frame_writer = refl

parser_feed-FeedResult_example :
    FeedResult 0 8 8 (parser_feed parser_init (some hi_frame) 8 false 8)
parser_feed-FeedResult_example =
    parser_feed-FeedResult parser_init hi_frame 8 (omega arith) parser_init-IsWellFormed

-- The parser after the first five bytes of `hi_frame`.
abbrev in_mask : Parser
in_mask = (parser_feed parser_init (some (0x82 ∷ 0x82 ∷ 1 ∷ 2 ∷ 3 ∷ [])) 5 false 8).2

five_bytes :
    parser_feed parser_init (some (0x82 ∷ 0x82 ∷ 1 ∷ 2 ∷ 3 ∷ [])) 5 false 8
    ≡ (err_again, 5, in_mask, no_message)
unfolding parser_feed parser_init feed_loop step_payload step_in validate_frame_header unmask
five_bytes = refl

parser_feed-append_example :
    (length {A = ℕ} (0x82 ∷ 0x82 ∷ 1 ∷ 2 ∷ 3 ∷ []) ≡ 5)
    × (no_message ≡ no_message)
    × (parser_feed parser_init (some hi_frame) 8 false 8
        ≡ later 5 (parser_feed in_mask (some (4 ∷ 105 ∷ 107 ∷ [])) 3 false 8))
parser_feed-append_example =
    parser_feed-append parser_init in_mask (0x82 ∷ 0x82 ∷ 1 ∷ 2 ∷ 3 ∷ []) (4 ∷ 105 ∷ 107 ∷ []) 8 5
      no_message five_bytes

parser_feed-client_frame_example :
    Accepts (client_frame true 2 (1 ∷ 2 ∷ 3 ∷ 4 ∷ []) (104 ∷ 105 ∷ [])) (104 ∷ 105 ∷ []) true 2 0 (
      parser_feed parser_init
        (some (client_frame true 2 (1 ∷ 2 ∷ 3 ∷ 4 ∷ []) (104 ∷ 105 ∷ []) ++ (7 ∷ [])))
        (length (client_frame true 2 (1 ∷ 2 ∷ 3 ∷ 4 ∷ []) (104 ∷ 105 ∷ []) ++ (7 ∷ [])))
        false
        8)
unfolding parser_init allowed
parser_feed-client_frame_example =
    parser_feed-client_frame parser_init true 2 1 2 3 4 (104 ∷ 105 ∷ []) (7 ∷ []) 8
      parser_init-IsWellFormed refl refl (omega arith) (omega arith) refl (omega arith)
      (omega arith)

write_frame-decode_example :
    (bytes : Bytes) × (write_frame 2 (some (97 ∷ 98 ∷ 99 ∷ [])) 3 false 16
      ≡ (ok, length bytes, bytes))
    × (length bytes ≡ 5)
    × (decode_frame (bytes ++ (7 ∷ [])) ≡ some (true, 2, 97 ∷ 98 ∷ 99 ∷ [], 7 ∷ []))
write_frame-decode_example =
    write_frame-decode 2 (97 ∷ 98 ∷ 99 ∷ []) (7 ∷ []) 16 refl refl (omega arith) (omega arith)

write_frame-outcome_example : WriteResult 4 (write_frame 2 (some (97 ∷ 98 ∷ 99 ∷ [])) 3 false 4)
write_frame-outcome_example = write_frame-outcome 2 (97 ∷ 98 ∷ 99 ∷ []) 4 (omega arith)
