-- ===== src/Handshake/Request.antt =====
-- The handshake builder on a request that is made of lines.
use mathlib.Core.List.{map}
use sockify.Prelude.{
  ℕ, suc, ◌+◌, ◌≤◌, ◌<◌, ◌≡◌, refl, sym, ap, ◌∙◌, inl, inr, true, false, some, List, [], ◌∷◌, ◌++◌,
  append_assoc, Bytes, All, All-append, arith, leb, ltb, ◌==◌, same_text, same_text_iff, codes,
  length, length-append, take, drop, take-append, drop-append, drop-drop, Bool-cases,
}
use sockify.Handshake.{
  max_http_request, crlf, find_header_end, header_end_loop, line_length, nothing_seen, headers_loop,
  respond, is_get, answer_header, build_response,
}
use sockify.Handshake.Loops.{
  IsLine, Field, field_line, IsField, read_fields, render, line_length-line, header_end_loop-render,
  headers_loop-fields, lines-IsFull, length-fields,
}
use sockify.Text.{contains_loop, memory_contains, ci_equal_n}

contains_loop-here :
    (needle t : Bytes) → 0 < length needle → contains_loop (needle ++ t) needle ≡ true
unfolding contains_loop
contains_loop-here [] t h = absurd (omega arith)
contains_loop-here (x ∷ needle) t h =
    let fits : leb (length (x ∷ needle)) (length (x ∷ (needle ++ t))) ≡ true =
      ground (arith, length-append needle t) in
    rw (fits, take-append needle t, (same_text_iff (x ∷ needle) (x ∷ needle)).1 refl)

contains_loop-append :
    (pre needle t : Bytes) → 0 < length needle → contains_loop (pre ++ (needle ++ t)) needle ≡ true
unfolding contains_loop
contains_loop-append [] needle t h = contains_loop-here needle t h
contains_loop-append (x ∷ pre) needle t h =
    let fits : leb (length needle) (suc (length (pre ++ (needle ++ t)))) ≡ true =
      ground (arith, length-append pre (needle ++ t), length-append needle t) in
    rw (fits, contains_loop-append pre needle t h)
      (elim (Bool-cases (same_text (take (length needle) (x ∷ (pre ++ (needle ++ t)))) needle)) [
        | inl e ↦ rw e refl
        | inr e ↦ rw e refl
      ])

memory_contains-append :
    (pre needle t : Bytes)
    → 0 < length needle
    → memory_contains (pre ++ (needle ++ t)) needle ≡ true
unfolding memory_contains
memory_contains-append pre needle t h =
    let full : (length needle == 0) ≡ false = ground arith in
    let fits : ltb (length (pre ++ (needle ++ t))) (length needle) ≡ false =
      ground (arith, length-append pre (needle ++ t), length-append needle t) in
    rw (full, fits, contains_loop-append pre needle t h)

abbrev pub request_line : Bytes → Bytes
request_line path = codes "GET " ++ (path ++ codes " HTTP/1.1")

abbrev pub header_of : Bytes → List Field → Bytes
header_of path fields = render (request_line path ∷ map field_line fields) ++ crlf

request_line-contains :
    (path : Bytes) → memory_contains (request_line path) (codes " HTTP/1.1") ≡ true
request_line-contains path =
    ap (λ l. memory_contains l (codes " HTTP/1.1"))
      (sym (append_assoc (codes "GET ") path (codes " HTTP/1.1" ++ [])))
    ∙ memory_contains-append (codes "GET " ++ path) (codes " HTTP/1.1") [] (omega arith)

length-request_line : (path : Bytes) → length (request_line path) ≡ length path + 13
length-request_line path = omega (arith, length-append path (codes " HTTP/1.1"))

is_get-request :
    (path t : Bytes)
    → 0 < length path
    → is_get (request_line path ++ t) (length (request_line path)) ≡ true
unfolding is_get ci_equal_n
is_get-request path t h =
    let long : ltb (length (request_line path)) 14 ≡ false =
      ground (arith, length-request_line path) in
    rw (long, take-append (request_line path) t, request_line-contains path)

request_line-IsLine : (path : Bytes) → IsLine path → IsLine (request_line path)
request_line-IsLine path h =
    All-append (λ c. (c == 13) ≡ false) (codes "GET ") (path ++ codes " HTTP/1.1")
      (refl, (refl, (refl, (refl, tt))))
      (All-append (λ c. (c == 13) ≡ false) path (codes " HTTP/1.1") h
        (refl, (refl, (refl, (refl, (refl, (refl, (refl, (refl, (refl, tt))))))))))

answer_header-fields :
    (path : Bytes) (fields : List Field) (size : ℕ)
    → 0 < length path
    → IsLine path
    → All IsField fields
    → answer_header (header_of path fields) size
      ≡ some (respond (read_fields nothing_seen fields) (length (header_of path fields)) size)
unfolding answer_header
answer_header-fields path fields size p l f =
    rw (e, n, is_get-request path (crlf ++ (t ++ crlf)) p, later, loop)
  where
    rl : Bytes
    rl = request_line path

    t : Bytes
    t = render (map field_line fields)

    e : header_of path fields ≡ rl ++ (crlf ++ (t ++ crlf))
    e = append_assoc rl (crlf ++ t) crlf

    n : line_length (rl ++ (crlf ++ (t ++ crlf))) ≡ length rl
    n = line_length-line rl (t ++ crlf) (request_line-IsLine path l)

    later : drop (length rl + 2) (rl ++ (crlf ++ (t ++ crlf))) ≡ t ++ crlf
    later =
        sym (drop-drop 2 (length rl) (rl ++ (crlf ++ (t ++ crlf))))
        ∙ ap (drop 2) (drop-append rl (crlf ++ (t ++ crlf)))

    loop :
        headers_loop (suc (length (header_of path fields))) (t ++ crlf) nothing_seen
        ≡ some (some (read_fields nothing_seen fields))
    loop = headers_loop-fields (suc (length (header_of path fields))) fields nothing_seen f (
        omega (
          arith,
          ap (length {A = ℕ}) e,
          length-append rl (crlf ++ (t ++ crlf)),
          length-append t crlf,
          length-fields fields,
        ))

-- `sockify_ws_build_handshake_response_ex` on a GET of HTTP/1.1 with a path that is not empty and
-- header fields in any order, each a name with no colon and a text, none with a CR, a blank line, and
-- any bytes behind it, 8192 in all at most. The call reads every field, with the blanks round its value
-- taken off, and answers by what they showed; the part of the request that it uses ends at the blank line.
pub build_response-fields :
    (path : Bytes) (fields : List Field) (rest : Bytes) (size : ℕ)
    → 0 < length path
    → IsLine path
    → All IsField fields
    → length (header_of path fields ++ rest) ≤ max_http_request
    → build_response (header_of path fields ++ rest) size
      ≡ some (respond (read_fields nothing_seen fields) (length (header_of path fields)) size)
unfolding build_response find_header_end
build_response-fields path fields rest size p l f short =
    rw (find_header_end, fits, end, take-append (header_of path fields) rest)
      (answer_header-fields path fields size p l f)
  where
    ls : List Bytes
    ls = map field_line fields

    all : Bytes
    all = header_of path fields ++ rest

    end : header_end_loop all 0 ≡ some (length (header_of path fields))
    end =
        ap (λ t. header_end_loop t 0) (append_assoc (render (request_line path ∷ ls)) crlf rest)
        ∙ header_end_loop-render (request_line path) ls rest 0 (request_line-IsLine path l)
            (lines-IsFull fields f)
        ∙ ap some (omega (arith, length-append (render (request_line path ∷ ls)) crlf))

    fits : ltb max_http_request (length all) ≡ false
    fits = ground (arith, short)
