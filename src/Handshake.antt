-- ===== src/Handshake.antt =====
-- src/ws/ws_handshake.c: the request of a client and the answer to it.
pub mod Accept
pub mod Fields
pub mod Loops
pub mod Outcome
pub mod Request
mod Tests
use sockify.Prelude.{
  ℕ, zero, suc, ◌+◌, ◌-◌, Bool, true, false, not, ◌&&◌, ◌||◌, Option, none, some, List, [], ◌∷◌,
  ◌++◌, Bytes, codes, same_text, c_string, leb, ltb, ◌==◌, ◌!=◌, if◌then◌else◌, length, get_or,
  take, drop,
}
use sockify.Base64.{encode}
use sockify.Sha1.{sha1}
use sockify.Status.{Status, ok, err_invalid, err_overflow, err_again, err_protocol, is_ok}
use sockify.Text.{ci_equal_n, ci_equal_string_n, ci_contains_token, trim_span, memory_contains}

abbrev pub max_http_request : ℕ
max_http_request = 8192

abbrev pub accept_size : ℕ
accept_size = 29

abbrev pub guid : Bytes
guid = codes "258EAFA5-E914-47DA-95CA-C5AB0DC85B11"

abbrev pub crlf : Bytes
crlf = 13 ∷ 10 ∷ []

-- `request[i] == '\r' && request[i + 1] == '\n'` on the bytes from `i` on.
unfoldable pub at_crlf : Bytes → Bool
at_crlf (a ∷ b ∷ rest) = a == 13 && b == 10
at_crlf _ = false

-- The test of `find_header_end` on the bytes from `i` on.
unfoldable pub at_blank_line : Bytes → Bool
at_blank_line (a ∷ b ∷ c ∷ d ∷ rest) = a == 13 && b == 10 && c == 13 && d == 10
at_blank_line _ = false

-- The loop of `find_header_end` at `i`; `none` means that it ran to its end.
unfoldable pub header_end_loop : Bytes → ℕ → Option ℕ
unfolding at_blank_line
header_end_loop [] i = none
header_end_loop (x ∷ xs) i =
    let later = header_end_loop xs (i + 1) in if at_blank_line (x ∷ xs) then some (i + 4) else later

unfoldable pub find_header_end : Bytes → Status × ℕ
unfolding header_end_loop
find_header_end request =
    if ltb max_http_request (length request)
    then (err_overflow, 0)
    else elim (header_end_loop request 0) [
      | some header_len ↦ (ok, header_len)
      | none ↦ (err_again, 0)
    ]

-- How far `line_end` moves from the start of a line: to the CR of the first CR LF, or to the last
-- byte of the header.
unfoldable pub line_length : Bytes → ℕ
unfolding at_crlf
line_length [] = 0
line_length (x ∷ []) = 0
line_length (x ∷ y ∷ rest) = if at_crlf (x ∷ y ∷ rest) then 0 else suc (line_length (y ∷ rest))

-- `name_len`: how far the first colon of a line is, or its length.
unfoldable pub name_length : Bytes → ℕ
name_length [] = 0
name_length (x ∷ xs) = if x == 58 then 0 else suc (name_length xs)

-- The `saw_*` variables, and `key_value[0..key_len)`.
pub record Seen : Type 0 where
  pub saw_upgrade : Bool
  pub saw_connection : Bool
  pub saw_version : Bool
  pub saw_key : Bool
  pub key : Bytes

abbrev pub nothing_seen : Seen
nothing_seen = record {
  saw_upgrade = false;
  saw_connection = false;
  saw_version = false;
  saw_key = false;
  key = [];
}

-- The `else if` chain over the names of the headers; the value is trimmed.
unfoldable pub note_header : Seen → Bytes → Bytes → Seen
note_header seen name value =
    if ci_equal_string_n name (codes "Upgrade")
    then if ci_equal_string_n value (codes "websocket")
      then record seen { saw_upgrade = true }
      else seen
    else if ci_equal_string_n name (codes "Connection")
    then if ci_contains_token value (codes "upgrade")
      then record seen { saw_connection = true }
      else seen
    else if ci_equal_string_n name (codes "Sec-WebSocket-Version")
    then if same_text value (codes "13") then record seen { saw_version = true } else seen
    else if ci_equal_string_n name (codes "Sec-WebSocket-Key")
    then if length value != 0 && ltb (length value) 128
      then record seen { saw_key = true; key = value }
      else seen
    else seen

-- What a round makes of the line at `line_start`; `none` is the `return` for a line with no colon.
unfoldable pub note_line : Seen → Bytes → Option Seen
unfolding note_header name_length
note_line seen line =
    let n = name_length line in
    if leb (length line) n
    then none
    else some (note_header seen (take n line) (trim_span (drop (n + 1) line)))

-- The loop over the header lines on `request[line_start..header_len)`. A round goes on two bytes
-- behind the line at least, so the length bounds the rounds; the outer `none` means that the fuel
-- ran out, the inner one the `return` of a round.
unfoldable pub headers_loop : ℕ → Bytes → Seen → Option (Option Seen)
headers_loop zero rest seen = none
headers_loop (suc fuel) [] seen = some (some seen)
headers_loop (suc fuel) (x ∷ []) seen = some (some seen)
headers_loop (suc fuel) (x ∷ y ∷ xs) seen =
    let rest = x ∷ y ∷ xs in
    elim (at_crlf rest) [
      | true ↦ some (some seen)
      | false ↦ elim (note_line seen (take (line_length rest) rest)) [
        | none ↦ some none
        | some seen' ↦ headers_loop fuel (drop (line_length rest + 2) rest) seen'
      ]
    ]

-- `sockify_ws_accept_key` on the memory at `client_key`; the bytes are those stored in `output`.
unfoldable pub accept_key : Bytes → ℕ → Status × Bytes
unfolding c_string
accept_key client_key output_size =
    let key = c_string client_key in
    let digest = sha1 (key ++ guid) in
    let (rc, _, bytes) = encode (some digest) (length digest) false output_size in
    if length key == 0 || leb 256 (length key + length guid)
    then (err_invalid, [])
    else if ltb output_size accept_size
    then (err_overflow, 0 ∷ [])
    else (rc, bytes)

abbrev pub response_prefix : Bytes
response_prefix =
    codes "HTTP/1.1 101 Switching Protocols"
    ++ crlf
    ++ codes "Upgrade: websocket"
    ++ crlf
    ++ codes "Connection: Upgrade"
    ++ crlf
    ++ codes "Sec-WebSocket-Accept: "

-- The results of the call: the code, `*written`, `*consumed` and the bytes stored in `response`.
abbrev pub Answer : Type 0
Answer = Status × ℕ × ℕ × Bytes

-- From the test of the `saw_*` variables on.
unfoldable pub respond : Seen → ℕ → ℕ → Answer
respond seen header_len response_size =
    let (rc, accept) = accept_key (seen.key ++ (0 ∷ [])) accept_size in
    let text = response_prefix ++ (c_string accept ++ (crlf ++ crlf)) in
    if not seen.saw_upgrade || not seen.saw_connection || not seen.saw_version || not seen.saw_key
    then (err_protocol, 0, 0, [])
    else if not (is_ok rc)
    then (rc, 0, 0, [])
    else if leb 256 (length text)
    then (err_overflow, 0, 0, [])
    else if leb response_size (length text)
    then (err_overflow, 0, 0, 0 ∷ [])
    else (ok, length text, header_len, text ++ (0 ∷ []))

-- The tests on the request line.
unfoldable pub is_get : Bytes → ℕ → Bool
is_get request line_end =
    not (ltb line_end 14)
    && ci_equal_n request (codes "GET ") 4
    && (memory_contains (take line_end request) (codes " HTTP/1.1")
        || memory_contains (take line_end request) (codes " HTTP/1.0"))

-- `sockify_ws_build_handshake_response_ex` behind `find_header_end`, on `request[0..header_len)`.
unfoldable pub answer_header : Bytes → ℕ → Option Answer
answer_header header response_size =
    let line_end = line_length header in
    if not (is_get header line_end)
    then some (err_protocol, 0, 0, [])
    else elim (headers_loop (suc (length header)) (drop (line_end + 2) header) nothing_seen) [
      | none ↦ none
      | some none ↦ some (err_protocol, 0, 0, [])
      | some (some seen) ↦ some (respond seen (length header) response_size)
    ]

-- `sockify_ws_build_handshake_response_ex`; `none` means that the fuel ran out.
unfoldable pub build_response : Bytes → ℕ → Option Answer
build_response request response_size =
    let (rc, header_len) = find_header_end request in
    if not (is_ok rc)
    then some (rc, 0, 0, [])
    else answer_header (take header_len request) response_size

-- `sockify_ws_build_handshake_response`
unfoldable pub build_response_only : Bytes → ℕ → Option (Status × ℕ × Bytes)
build_response_only request response_size = elim (build_response request response_size) [
  | none ↦ none
  | some (rc, written, consumed, response) ↦ some (rc, written, response)
]
