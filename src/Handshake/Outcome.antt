-- ===== src/Handshake/Outcome.antt =====
-- What a call of the handshake builder reports, whatever the client sent.
use sockify.Prelude.{
  ℕ, zero, suc, ◌+◌, ◌≤◌, ◌<◌, ◌≡◌, ◌≢◌, refl, ◌⊎◌, inl, inr, false, not, ◌||◌, Option, none, some,
  [], ◌∷◌, ◌++◌, Bytes, arith, c_string, leb, ltb, length, length-append, length-take, length-drop,
  take, drop, Bool-cases,
}
use sockify.Handshake.{
  max_http_request, at_blank_line, header_end_loop, find_header_end, line_length, at_crlf, Seen,
  nothing_seen, note_line, headers_loop, respond, is_get, answer_header, build_response, Answer,
  accept_key, response_prefix, crlf, accept_size,
}
use sockify.Status.{Status, ok, err_again, err_overflow, err_protocol, is_ok}

-- Success stores the bytes that it reports and a NUL and uses a part of the request; an error
-- reports nothing, uses nothing and stores a NUL at most. A call that never ends is neither.
abbrev pub Settled : ℕ → ℕ → Option Answer → Type 0
Settled n size (some (ok, written, consumed, bytes)) =
    (length bytes ≡ written + 1) × (written < size) × (0 < consumed) × (consumed ≤ n)
Settled n size (some (_, written, consumed, bytes)) =
    (written ≡ 0) × (consumed ≡ 0) × (length bytes ≤ 1)
Settled n size none = ⊥

Settled-error :
    (n size : ℕ) (rc : Status) (bytes : Bytes)
    → is_ok rc ≡ false
    → length bytes ≤ 1
    → Settled n size (some (rc, 0, 0, bytes))
Settled-error n size ok bytes e h = absurd (cc e)
Settled-error n size _ bytes e h = (refl, refl, h)

respond-Settled :
    (seen : Seen) (n m size : ℕ) → 0 < n → n ≤ m → Settled m size (some (respond seen n size))
unfolding respond
respond-Settled seen n m size pos within =
    let (rc, accept) = accept_key (seen.key ++ (0 ∷ [])) accept_size in
    let text = response_prefix ++ (c_string accept ++ (crlf ++ crlf)) in
    elim (Bool-cases (
      not seen.saw_upgrade
      || not seen.saw_connection
      || not seen.saw_version
      || not seen.saw_key)) [
        | inl missing ↦ rw missing (omega arith)
        | inr all_seen ↦ elim (Bool-cases (is_ok rc)) [
          | inr bad ↦ rw (all_seen, bad) (Settled-error m size rc [] bad (omega arith))
          | inl good ↦ elim (Bool-cases (leb 256 (length text))) [
            | inl over ↦ rw (all_seen, good, over) (omega arith)
            | inr short ↦ elim (Bool-cases (leb size (length text))) [
              | inl over ↦ rw (all_seen, good, short, over) (omega arith)
              | inr fits ↦
                  rw (all_seen, good, short, fits)
                    (length-append text (0 ∷ []), ground arith, pos, within)
            ]
          ]
        ]
      ]

-- With more fuel than bytes the loop over the header lines ends.
headers_loop-ends :
    (fuel : ℕ) (rest : Bytes) (seen : Seen)
    → length rest < fuel
    → headers_loop fuel rest seen ≢ none
unfolding headers_loop
headers_loop-ends zero rest seen h = absurd (omega arith)
headers_loop-ends (suc fuel) [] seen h = λ e. absurd (cc e)
headers_loop-ends (suc fuel) (x ∷ []) seen h = λ e. absurd (cc e)
headers_loop-ends (suc fuel) (x ∷ y ∷ xs) seen h =
    let rest = x ∷ y ∷ xs in
    elim (Bool-cases (at_crlf rest)) [
      | inl end ↦ rw (headers_loop, end) (λ e. absurd (cc e))
      | inr line ↦
          rw (headers_loop, line)
            (go (note_line seen (take (line_length rest) rest)) (λ seen'.
              headers_loop-ends fuel (drop (line_length rest + 2) rest) seen'
                (omega (arith, length-drop (line_length rest + 2) rest))))
    ]
  where
    go :
        {later : Seen → Option (Option Seen)} (r : Option Seen)
        → ((seen' : Seen) → later seen' ≢ none)
        → elim r [ none ↦ some none | some seen' ↦ later seen' ] ≢ none
    go none h = λ e. absurd (cc e)
    go (some seen') h = h seen'

-- Where the end of the header is found.
header_end_loop-bounds :
    (xs : Bytes) (i header_len : ℕ)
    → header_end_loop xs i ≡ some header_len
    → (i < header_len) × (header_len ≤ i + length xs)
unfolding header_end_loop at_blank_line
header_end_loop-bounds (a ∷ b ∷ c ∷ d ∷ xs) i header_len h =
    elim (Bool-cases (at_blank_line (a ∷ b ∷ c ∷ d ∷ xs))) [
      | inl here ↦ let e : i + 4 ≡ header_len = ground (arith, here, h) in omega arith
      | inr later ↦ omega (
        arith,
        header_end_loop-bounds (b ∷ c ∷ d ∷ xs) (i + 1) header_len (ground (arith, later, h)),
      )
    ]
header_end_loop-bounds (a ∷ b ∷ c ∷ []) i header_len h = absurd (cc h)
header_end_loop-bounds (a ∷ b ∷ []) i header_len h = absurd (cc h)
header_end_loop-bounds (a ∷ []) i header_len h = absurd (cc h)
header_end_loop-bounds [] i header_len h = absurd (cc h)

answer_header-Settled :
    (header : Bytes) (m size : ℕ)
    → 0 < length header
    → length header ≤ m
    → Settled m size (answer_header header size)
unfolding answer_header
answer_header-Settled header m size pos within =
    elim (Bool-cases (is_get header (line_length header))) [
      | inr bad ↦ rw bad (omega arith)
      | inl good ↦ rw good (
          go
            (headers_loop (suc (length header)) (drop (line_length header + 2) header) nothing_seen)
            (headers_loop-ends (suc (length header)) (drop (line_length header + 2) header)
              nothing_seen (omega (arith, length-drop (line_length header + 2) header))))
    ]
  where
    go :
        (r : Option (Option Seen))
        → r ≢ none
        → Settled m size (elim r [
          | none ↦ none
          | some none ↦ some (err_protocol, 0, 0, [])
          | some (some seen) ↦ some (respond seen (length header) size)
        ])
    go none h = absurd (h refl)
    go (some none) h = omega arith
    go (some (some seen)) h = respond-Settled seen (length header) m size pos within

pub find_header_end-cases :
    (request : Bytes)
    → ((rc : Status) × (find_header_end request ≡ (rc, 0)) × (is_ok rc ≡ false))
      ⊎ ((k : ℕ) × (find_header_end request ≡ (ok, k)) × (0 < k) × (k ≤ length request))
unfolding find_header_end
find_header_end-cases request = elim (Bool-cases (ltb max_http_request (length request))) [
  | inl over ↦ inl (err_overflow, rw over, refl)
  | inr fits ↦ go (header_end_loop request 0) refl fits
]
  where
    go :
        (r : Option ℕ)
        → header_end_loop request 0 ≡ r
        → ltb max_http_request (length request) ≡ false
        → ((rc : Status) × (find_header_end request ≡ (rc, 0)) × (is_ok rc ≡ false))
          ⊎ ((k : ℕ) × (find_header_end request ≡ (ok, k)) × (0 < k) × (k ≤ length request))
    go none e fits = inl (err_again, rw (fits, e), refl)
    go (some k) e fits =
        let b = header_end_loop-bounds request 0 k e in
        inr (k, rw (fits, e), b.0, omega (arith, b.1))

-- `sockify_ws_build_handshake_response_ex` ends on every request. When it succeeds, it stored
-- `*written` bytes and a NUL, fewer bytes than the response holds, and used a part of the request that
-- is not empty. Otherwise both counts are 0 and at most a NUL is stored.
pub build_response-Settled :
    (request : Bytes) (size : ℕ) → Settled (length request) size (build_response request size)
unfolding build_response
build_response-Settled request size = elim (find_header_end-cases request) [
  | inl (rc, e, bad) ↦ rw (e, bad) (Settled-error (length request) size rc [] bad (omega arith))
  | inr (k, e, pos, within) ↦
      let l : length (take k request) ≡ k = omega (arith, length-take k request) in
      rw e
        (answer_header-Settled (take k request) (length request) size (omega arith) (omega arith))
]
