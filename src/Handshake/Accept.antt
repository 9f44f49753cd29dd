-- ===== src/Handshake/Accept.antt =====
-- The answer to a request that shows all that RFC 6455 asks for.
use sockify.Prelude.{
  ℕ, ◌+◌, ◌*◌, ◌/◌, ◌%◌, ◌^◌, ◌<◌, ◌≡◌, refl, ap, true, false, not, ◌||◌, some, [], ◌∷◌, ◌++◌,
  Bytes, All, IsByte, arith, c_string, leb, ltb, ◌==◌, if◌then◌else◌, length, length-append, get_or,
  bit_and, u64, add_size, take-ge, All-append,
}
use sockify.Prelude.Bits.{all_below, all_below_sound, mask_6}
use sockify.Base64.{base64_chars, digit, encode_loop, encode}
use sockify.Base64.RoundTrip.{decode, decode-encode_loop, length-encode_loop}
use sockify.ByteOrder.{write_be32}
use sockify.ByteOrder.RoundTrip.{byte_of-IsByte}
use sockify.Sha1.{Ctx, update, pad_loop, length_loop, final, sha1, absorbed}
use sockify.Handshake.{guid, crlf, accept_key, accept_size, response_prefix, Seen, respond}
use sockify.Status.{ok}
use sockify.Text.Laws.{No}

write_be32-bytes : (v : ℕ) → All IsByte (write_be32 v)
unfolding write_be32
write_be32-bytes v =
    (byte_of-IsByte v 24, (byte_of-IsByte v 16, (byte_of-IsByte v 8, (byte_of-IsByte v 0, tt))))

digest_words :
    (a b c d e : ℕ)
    → let digest =
        write_be32 a ++ (write_be32 b ++ (write_be32 c ++ (write_be32 d ++ write_be32 e))) in
      (length digest ≡ 20) × All IsByte digest
digest_words a b c d e =
    let last = write_be32-bytes in
    (
      unfold write_be32 in refl,
      All-append IsByte (write_be32 a)
          (write_be32 b ++ (write_be32 c ++ (write_be32 d ++ write_be32 e))) (last a)
          (All-append IsByte (write_be32 b) (write_be32 c ++ (write_be32 d ++ write_be32 e))
            (last b)
            (All-append IsByte (write_be32 c) (write_be32 d ++ write_be32 e) (last c)
              (All-append IsByte (write_be32 d) (write_be32 e) (last d) (last e)))),
    )

final-digest : (ctx : Ctx) → (length (final ctx) ≡ 20) × All IsByte (final ctx)
unfolding final
final-digest ctx =
    let h = (length_loop (u64 (ctx.total_len * 8)) 8 (pad_loop 64 (update ctx (0x80 ∷ [])))).hash in
    digest_words h.0 h.1 h.2 h.3 h.4

pub sha1-digest : (input : Bytes) → (length (sha1 input) ≡ 20) × All IsByte (sha1 input)
unfolding sha1
sha1-digest input = final-digest (absorbed input)

no_nul_table : all_below 64 (λ i. if get_or base64_chars i 0 == 0 then false else true) ≡ true
unfolding all_below
no_nul_table = refl

digit_not_nul : (triple k : ℕ) → (digit triple k == 0) ≡ false
unfolding digit
digit_not_nul triple k =
    let i = bit_and (triple / 2 ^ k) 0x3f in
    let masked : i ≡ triple / 2 ^ k % 64 = mask_6 (triple / 2 ^ k) in
    ground (
      arith,
      all_below_sound 64 (λ j. if get_or base64_chars j 0 == 0 then false else true) i (omega arith)
          no_nul_table,
    )

encode_loop-No_nul : (bytes : Bytes) → No (λ c. c == 0) (encode_loop bytes)
unfolding encode_loop
encode_loop-No_nul [] = tt
encode_loop-No_nul (x ∷ []) = (digit_not_nul _ 18, (digit_not_nul _ 12, (refl, (refl, tt))))
encode_loop-No_nul (x ∷ y ∷ []) =
    (digit_not_nul _ 18, (digit_not_nul _ 12, (digit_not_nul _ 6, (refl, tt))))
encode_loop-No_nul (x ∷ y ∷ z ∷ rest) = (
  digit_not_nul _ 18,
  (digit_not_nul _ 12, (digit_not_nul _ 6, (digit_not_nul _ 0, encode_loop-No_nul rest))),
)

pub c_string-text :
    (text rest : Bytes) → No (λ c. c == 0) text → c_string (text ++ (0 ∷ rest)) ≡ text
unfolding c_string
c_string-text [] rest h = refl
c_string-text (x ∷ text) rest h = rw h.0 (ap (◌∷◌ x) (c_string-text text rest h.1))

encode_lem :
    (bytes : Bytes) (size : ℕ)
    → length bytes ≡ 20
    → 28 < size
    → encode (some bytes) (length bytes) false size ≡ (ok, 28, encode_loop bytes ++ (0 ∷ []))
unfolding encode
encode_lem bytes size l room =
    let fits : ltb size (add_size (u64 (add_size (length bytes) 2 / 3 * 4)) 1) ≡ false =
      ground (arith, l) in
    let n : length (encode_loop bytes) ≡ 28 = omega (arith, length-encode_loop bytes, l) in
    rw (fits, take-ge (length bytes) bytes (omega arith), n)

accept_key_lem :
    (key : Bytes)
    → No (λ c. c == 0) key
    → 0 < length key
    → length key < 128
    → accept_key (key ++ (0 ∷ [])) accept_size ≡ (ok, encode_loop (sha1 (key ++ guid)) ++ (0 ∷ []))
unfolding accept_key
accept_key_lem key n pos short =
    let valid : (length key == 0 || leb 256 (length key + length guid)) ≡ false = ground arith in
    rw (
      c_string-text key [] n,
      valid,
      encode_lem (sha1 (key ++ guid)) accept_size (sha1-digest (key ++ guid)).0 (omega arith),
    )

-- The answer to a request that showed an upgrade to a WebSocket, a connection that is upgraded,
-- version 13 and a key of 1 to 127 bytes, none of them a NUL, with room for 130 bytes. The answer is the
-- response of RFC 6455, 129 bytes and a NUL, with 28 characters behind `Sec-WebSocket-Accept: ` that
-- RFC 4648 reads as the SHA-1 digest of the key and the GUID.
pub respond-accept :
    (seen : Seen) (header_len size : ℕ)
    → seen.saw_upgrade ≡ true
    → seen.saw_connection ≡ true
    → seen.saw_version ≡ true
    → seen.saw_key ≡ true
    → No (λ c. c == 0) seen.key
    → 0 < length seen.key
    → length seen.key < 128
    → 129 < size
    → (accept : Bytes) × (respond seen header_len size
        ≡ (ok, 129, header_len, (response_prefix ++ (accept ++ (crlf ++ crlf))) ++ (0 ∷ [])))
      × (length accept ≡ 28)
      × (decode accept ≡ sha1 (seen.key ++ guid))
unfolding respond
respond-accept seen header_len size u c v k n pos short room =
    let digest = sha1 (seen.key ++ guid) in
    let accept = encode_loop digest in
    let size_28 : length accept ≡ 28 =
      omega (arith, length-encode_loop digest, (sha1-digest (seen.key ++ guid)).0) in
    let total : length (response_prefix ++ (accept ++ (crlf ++ crlf))) ≡ 129 = omega (
      arith,
      length-append response_prefix (accept ++ (crlf ++ crlf)),
      length-append accept (crlf ++ crlf),
    ) in
    let all_seen : (not seen.saw_upgrade
          || not seen.saw_connection
          || not seen.saw_version
          || not seen.saw_key)
        ≡ false =
      rw (u, c, v, k) in
    let fits : leb size 129 ≡ false = ground arith in
    (
      accept,
      rw (
        all_seen,
        accept_key_lem seen.key n pos short,
        c_string-text accept [] (encode_loop-No_nul digest),
        total,
        fits,
      ),
      size_28,
      decode-encode_loop digest (sha1-digest (seen.key ++ guid)).1,
    )
