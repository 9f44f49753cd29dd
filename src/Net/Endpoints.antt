-- ===== src/Net/Endpoints.antt =====
-- Endpoints that are printed and parsed again.
use sockify.Prelude.{
  ℕ, ◌<◌, ◌≡◌, refl, ap₂, true, false, ◌||◌, none, some, [], ◌∷◌, ◌++◌, Bytes, arith, leb, ◌==◌,
  length, get_or,
}
use sockify.Config.{Endpoint}
use sockify.Net.{
  split_first, split_last, copy_part, copy_both, parse_bracketed, parse_plain, parse_endpoint,
}
use sockify.Status.{Status, ok, err_overflow}
use sockify.Text.Laws.{No}

split_first-here :
    (c : ℕ) (xs ys : Bytes) → No (λ x. x == c) xs → split_first c (xs ++ (c ∷ ys)) ≡ some (xs, ys)
unfolding split_first
split_first-here c [] ys h = let same : (c == c) ≡ true = ground arith in rw same refl
split_first-here c (x ∷ xs) ys h = rw (h.0, split_first-here c xs ys h.1) refl

split_last-none : (c : ℕ) (xs : Bytes) → No (λ x. x == c) xs → split_last c xs ≡ none
unfolding split_last
split_last-none c [] h = refl
split_last-none c (x ∷ xs) h = rw (split_last-none c xs h.1, h.0) refl

split_last-here :
    (c : ℕ) (xs ys : Bytes) → No (λ x. x == c) ys → split_last c (xs ++ (c ∷ ys)) ≡ some (xs, ys)
unfolding split_last
split_last-here c [] ys h =
    let same : (c == c) ≡ true = ground arith in rw (split_last-none c ys h, same) refl
split_last-here c (x ∷ xs) ys h = rw (split_last-here c xs ys h) refl

copy_part_lem :
    (dst : Bytes) (dst_size : ℕ) (src : Bytes)
    → length src < dst_size
    → copy_part dst dst_size src ≡ (ok, src)
unfolding copy_part
copy_part_lem dst dst_size src h =
    let short : leb dst_size (length src) ≡ false = ground arith in rw short refl

copy_both_lem :
    (host port : Bytes) (endpoint : Endpoint)
    → length host < 256
    → length port < 16
    → copy_both host port endpoint ≡ (ok, record { host = host; port = port })
unfolding copy_both
copy_both_lem host port endpoint h p =
    let joined : Status × Bytes → Status × Bytes → Status × Endpoint = λ r r'. elim r.0 [
      | ok ↦ (r'.0, record endpoint { host = r.1; port = r'.1 })
      | _ ↦ (err_overflow, endpoint)
    ] in
    ap₂ joined (copy_part_lem endpoint.host 256 host h) (copy_part_lem endpoint.port 16 port p)

-- `sockify_net_parse_endpoint` on a host of 1 to 255 bytes that does not begin with `[`, a colon, and a
-- port of 1 to 15 bytes without a colon. It succeeds with that host and port, whatever colons the host has.
pub parse_endpoint-plain :
    (host port : Bytes) (endpoint : Endpoint)
    → 0 < length host
    → length host < 256
    → 0 < length port
    → length port < 16
    → (get_or host 0 0 == 91) ≡ false
    → No (λ x. x == 58) port
    → parse_endpoint (host ++ (58 ∷ port)) endpoint ≡ (ok, record { host = host; port = port })
unfolding parse_endpoint parse_plain
parse_endpoint-plain [] port endpoint some_host h some_port p start no_colon = absurd (omega arith)
parse_endpoint-plain (x ∷ xs) port endpoint some_host h some_port p start no_colon =
    let both : (length (x ∷ xs) == 0 || length port == 0) ≡ false = ground arith in
    rw (start, parse_plain, split_last-here 58 (x ∷ xs) port no_colon, both)
      (copy_both_lem (x ∷ xs) port endpoint h p)

-- `sockify_net_parse_endpoint` on a host of up to 255 bytes without `]` in brackets, a colon, and a port of
-- up to 15 bytes. It succeeds with that host and port.
pub parse_endpoint-bracketed :
    (host port : Bytes) (endpoint : Endpoint)
    → length host < 256
    → length port < 16
    → No (λ x. x == 93) host
    → parse_endpoint (91 ∷ (host ++ (93 ∷ 58 ∷ port))) endpoint
      ≡ (ok, record { host = host; port = port })
unfolding parse_endpoint parse_bracketed
parse_endpoint-bracketed host port endpoint h p no_bracket =
    rw (parse_bracketed, split_first-here 93 host (58 ∷ port) no_bracket)
      (copy_both_lem host port endpoint h p)
