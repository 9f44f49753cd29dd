-- ===== src/Handshake/Tests.antt =====
-- Handshakes of tests/test_ws.c.
use sockify.Prelude.{
  true, All, arith, length, ◌==◌, ◌≡◌, refl, some, List, [], ◌∷◌, ◌++◌, Bytes, codes, c_string,
  same_text,
}
use sockify.Sha1.{process, final, absorbed, sha1}
use sockify.ByteOrder.{read_be32}
use sockify.Base64.{encode, encode_loop, digit}
use sockify.Handshake.{
  crlf, accept_key, build_response, find_header_end, header_end_loop, answer_header, headers_loop,
  note_line, note_header, name_length, respond, is_get, line_length,
}
use sockify.Base64.RoundTrip.{decode}
use sockify.Handshake.{Seen, nothing_seen, guid, response_prefix}
use sockify.Handshake.Accept.{respond-accept}
use sockify.Handshake.Fields.{
  shows, is_websocket, is_upgraded, is_version, is_key, read_fields-shows,
}
use sockify.Handshake.Loops.{Field, IsField, IsLine, read_fields}
use sockify.Handshake.Outcome.{Settled, build_response-Settled}
use sockify.Handshake.Request.{header_of, build_response-fields}
use sockify.Text.Laws.{No}
use sockify.Status.{ok, err_protocol}
use sockify.Text.{ci_equal_n, ci_equal_string_n, ci_contains_token, trim_span, memory_contains}

-- `check_accept_key`
accept_key_value :
    accept_key (codes "dGhlIHNhbXBsZSBub25jZQ==" ++ (0 ∷ [])) 64
    ≡ (ok, codes "s3pPLMBiTxaQ9kYGzzhZRbK+xOo=" ++ (0 ∷ []))
unfolding accept_key c_string sha1 absorbed final process read_be32 encode encode_loop digit
accept_key_value = refl

abbrev line : Bytes → Bytes → Bytes
line text rest = text ++ (crlf ++ rest)

-- `check_handshake_consumed_length`, with a frame behind the request.
abbrev request : Bytes → Bytes → Bytes
request version rest = line (codes "GET /websockify HTTP/1.1") (
    line (codes "Host: example.com") (
      line (codes "Upgrade: websocket") (
        line (codes "Connection: keep-alive, Upgrade") (
          line (codes "Sec-WebSocket-Key: dGhlIHNhbXBsZSBub25jZQ==")
            (line (codes "Sec-WebSocket-Version: " ++ version) (crlf ++ rest))))))

-- `check_invalid_handshake`
invalid_version : build_response (request (codes "12") []) 256 ≡ some (err_protocol, 0, 0, [])
unfolding build_response find_header_end header_end_loop answer_header headers_loop note_line
    note_header name_length respond is_get line_length same_text ci_equal_n ci_equal_string_n
    ci_contains_token trim_span memory_contains
invalid_version = refl

-- A request with one field of each kind, in mixed case, and a frame behind it.
abbrev fields : List Field
fields =
    (codes "Host", codes " example.com")
    ∷ (codes "upgrade", codes " WebSocket ")
    ∷ (codes "Connection", codes " keep-alive, Upgrade")
    ∷ (codes "Sec-WebSocket-Key", codes " dGhlIHNhbXBsZSBub25jZQ==")
    ∷ (codes "Sec-WebSocket-Version", codes "13")
    ∷ []

fields-IsField : All IsField fields
fields-IsField = search

path-IsLine : IsLine (codes "/websockify")
path-IsLine = search

build_response-fields_example :
    build_response (header_of (codes "/websockify") fields ++ (0x81 ∷ 0x80 ∷ [])) 512
    ≡ some (
        respond
          (read_fields nothing_seen fields)
          (length (header_of (codes "/websockify") fields))
          512)
build_response-fields_example =
    build_response-fields (codes "/websockify") fields (0x81 ∷ 0x80 ∷ []) 512 (omega arith)
      path-IsLine fields-IsField (omega arith)

build_response-Settled_example : Settled 4 256 (build_response (codes "GET ") 256)
build_response-Settled_example = build_response-Settled (codes "GET ") 256

abbrev all_seen : Seen
all_seen = record {
  saw_upgrade = true;
  saw_connection = true;
  saw_version = true;
  saw_key = true;
  key = codes "dGhlIHNhbXBsZSBub25jZQ==";
}

key_without_nul : No (λ c. c == 0) all_seen.key
key_without_nul = search

respond-accept_example :
    (accept : Bytes) × (respond all_seen 200 512
      ≡ (ok, 129, 200, (response_prefix ++ (accept ++ (crlf ++ crlf))) ++ (0 ∷ [])))
    × (length accept ≡ 28)
    × (decode accept ≡ sha1 (all_seen.key ++ guid))
respond-accept_example =
    respond-accept all_seen 200 512 refl refl refl refl key_without_nul (omega arith) (omega arith)
      (omega arith)

read_fields-shows_example :
    let seen = read_fields nothing_seen fields in
    (seen.saw_upgrade ≡ shows (codes "Upgrade") is_websocket fields)
    × (seen.saw_connection ≡ shows (codes "Connection") is_upgraded fields)
    × (seen.saw_version ≡ shows (codes "Sec-WebSocket-Version") is_version fields)
    × (seen.saw_key ≡ shows (codes "Sec-WebSocket-Key") is_key fields)
read_fields-shows_example = read_fields-shows fields
