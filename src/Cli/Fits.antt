-- ===== src/Cli/Fits.antt =====
-- No argument writes beyond an array of the configuration.
use sockify.Prelude.{
  ℕ, ◌+◌, ◌<◌, ◌^◌, inl, inr, ◌||◌, Option, none, some, List, [], ◌∷◌, Bytes, arith, ◌==◌, ◌!=◌,
  if◌then◌else◌, length, get_or, drop, Bool-cases,
}
use sockify.Cli.{
  Strtoul, copy_str, parse_size, parse_uint, set_number, set_client_text, set_target_text,
  set_option, set_flag, set_endpoint, Parsed, prints, is_option, args_loop, parse_args,
}
use sockify.Config.{Endpoint, ProxyConfig}
use sockify.Net.{
  split_first, split_last, copy_part, copy_both, parse_bracketed, parse_plain, parse_endpoint,
}
use sockify.Status.{Status, err_invalid, is_ok}

abbrev pub EndpointFits : Endpoint → Type 0
EndpointFits e = (length e.host < 256) × (length e.port < 16)

-- Every text has room for its NUL in its array, and every number fits its type.
abbrev pub Fits : ProxyConfig → Type 0
Fits c =
    EndpointFits c.listen_endpoint
    × EndpointFits c.target_endpoint
    × (length c.client_tls_cert_file < 512)
    × (length c.client_tls_key_file < 512)
    × (length c.client_tls_pfx_file < 512)
    × (length c.client_tls_pfx_password < 256)
    × (length c.client_tls_cert_store < 128)
    × (length c.client_tls_cert_thumbprint < 128)
    × (length c.target_tls_server_name < 256)
    × (length c.target_tls_ca_file < 512)
    × (c.max_connections < 2 ^ 64)
    × (c.buffer_size < 2 ^ 64)
    × (c.handshake_timeout_ms < 2 ^ 32)
    × (c.idle_timeout_ms < 2 ^ 32)
    × (c.connect_timeout_ms < 2 ^ 32)

copy_str-fits :
    (dest : Bytes) (n : ℕ) (src : Bytes) → length dest < n → length (copy_str dest n src).1 < n
unfolding copy_str
copy_str-fits dest n src h = ground arith

copy_both-fits :
    (host port : Bytes) (e : Endpoint) → EndpointFits e → EndpointFits (copy_both host port e).1
unfolding copy_both copy_part
copy_both-fits host port e h = ground arith

parse_endpoint-fits :
    (text : Bytes) (e : Endpoint) → EndpointFits e → EndpointFits (parse_endpoint text e).1
unfolding parse_endpoint parse_plain parse_bracketed
parse_endpoint-fits text e h = elim (Bool-cases (get_or text 0 0 == 91)) [
  | inl b ↦ rw b (bracketed (split_first 93 (drop 1 text)))
  | inr b ↦ rw b (plain (split_last 58 text))
]
  where
    bracketed :
        (r : Option (Bytes × Bytes))
        → EndpointFits
            (elim r as (λ _. Status × Endpoint) [
              | none ↦ (err_invalid, e)
              | some (host, behind) ↦
                  if get_or behind 0 0 != 58
                  then (err_invalid, e)
                  else copy_both host (drop 1 behind) e
            ]).1
    bracketed none = h
    bracketed (some (host, behind)) = ground (arith, copy_both-fits host (drop 1 behind) e h)

    plain :
        (r : Option (Bytes × Bytes))
        → EndpointFits
            (elim r as (λ _. Status × Endpoint) [
              | none ↦ (err_invalid, e)
              | some (host, port) ↦
                  if length host == 0 || length port == 0
                  then (err_invalid, e)
                  else copy_both host port e
            ]).1
    plain none = h
    plain (some (host, port)) = ground (arith, copy_both-fits host port e h)

-- What an option leaves, if the argument is that option.
abbrev Accepted : Option (Status × ProxyConfig) → Type 0
Accepted none = Unit
Accepted (some (rc, c)) = Fits c

parse_size-fits :
    (strtoul : Strtoul) (text : Bytes) (out : ℕ)
    → (strtoul text).0 < 2 ^ 64
    → out < 2 ^ 64
    → (parse_size strtoul text out).1 < 2 ^ 64
unfolding parse_size
parse_size-fits strtoul text out b h = ground arith

parse_uint-fits :
    (strtoul : Strtoul) (text : Bytes) (out : ℕ)
    → out < 2 ^ 32
    → (parse_uint strtoul text out).1 < 2 ^ 32
unfolding parse_uint
parse_uint-fits strtoul text out h = ground arith

set_number-Fits :
    (strtoul : Strtoul) (c : ProxyConfig) (arg value : Bytes)
    → (strtoul value).0 < 2 ^ 64
    → Fits c
    → Accepted (set_number strtoul c arg value)
unfolding set_number
set_number-Fits strtoul c arg value b h = ground (
  arith,
  parse_size-fits strtoul value c.max_connections b h.10,
  parse_size-fits strtoul value c.buffer_size b h.11,
  parse_uint-fits strtoul value c.handshake_timeout_ms h.12,
  parse_uint-fits strtoul value c.idle_timeout_ms h.13,
  parse_uint-fits strtoul value c.connect_timeout_ms h.14,
)

set_client_text-Fits :
    (c : ProxyConfig) (arg value : Bytes) → Fits c → Accepted (set_client_text c arg value)
unfolding set_client_text
set_client_text-Fits c arg value h = ground (
  arith,
  copy_str-fits c.client_tls_cert_file 512 value,
  copy_str-fits c.client_tls_key_file 512 value,
  copy_str-fits c.client_tls_pfx_file 512 value,
  copy_str-fits c.client_tls_pfx_password 256 value,
  copy_str-fits c.client_tls_cert_store 128 value,
  copy_str-fits c.client_tls_cert_thumbprint 128 value,
)

set_target_text-Fits :
    (c : ProxyConfig) (arg value : Bytes) → Fits c → Fits (set_target_text c arg value).1
unfolding set_target_text
set_target_text-Fits c arg value h = ground (
  arith,
  copy_str-fits c.target_tls_server_name 256 value,
  copy_str-fits c.target_tls_ca_file 512 value,
)

abbrev Flagged : Option ProxyConfig → Type 0
Flagged none = Unit
Flagged (some c) = Fits c

set_flag-Fits : (c : ProxyConfig) (arg : Bytes) → Fits c → Flagged (set_flag c arg)
unfolding set_flag
set_flag-Fits c arg h = ground arith

set_endpoint-Fits : (n : ℕ) (c : ProxyConfig) (arg : Bytes) → Fits c → Fits (set_endpoint n c arg).1
unfolding set_endpoint
set_endpoint-Fits n c arg h = ground (
  arith,
  parse_endpoint-fits arg c.listen_endpoint h.0,
  parse_endpoint-fits arg c.target_endpoint h.1,
)

set_option-Fits :
    (strtoul : Strtoul) (c : ProxyConfig) (arg value : Bytes)
    → (strtoul value).0 < 2 ^ 64
    → Fits c
    → Fits (set_option strtoul c arg value).1
unfolding set_option
set_option-Fits strtoul c arg value b h =
    go (set_number strtoul c arg value) (set_client_text c arg value)
      (set_number-Fits strtoul c arg value b h) (set_client_text-Fits c arg value h)
      (set_target_text-Fits c arg value h)
  where
    go :
        (number text : Option (Status × ProxyConfig))
        → Accepted number
        → Accepted text
        → Fits (set_target_text c arg value).1
        → Fits
            (elim number as (λ _. Status × ProxyConfig) [
              | some r ↦ r
              | none ↦ elim text [ some r ↦ r | none ↦ set_target_text c arg value ]
            ]).1
    go (some (rc, c')) text n t last = n
    go none (some (rc, c')) n t last = t
    go none none n t last = last

-- Whatever number `strtoul` reads, it is an `unsigned long`.
abbrev pub GivesLong : Strtoul → Type 0
GivesLong strtoul = (text : Bytes) → (strtoul text).0 < 2 ^ 64

-- What stands behind the tests for a flag, in both cases.
flag_or :
    (P : ProxyConfig → Type 0) (flag : Option ProxyConfig)
    (next : ProxyConfig → Parsed × ProxyConfig) (otherwise : Parsed × ProxyConfig)
    → Flagged flag
    → ((c : ProxyConfig) → Fits c → P (next c).1)
    → P otherwise.1
    → P
        (elim flag as (λ _. Parsed × ProxyConfig) [
          | some flagged ↦ next flagged
          | none ↦ otherwise
        ]).1
flag_or P none next otherwise f h k = k
flag_or P (some c) next otherwise f h k = h c f

args_loop-Fits :
    (strtoul : Strtoul) (args : List Bytes) (positional : ℕ) (c : ProxyConfig)
    → GivesLong strtoul
    → Fits c
    → Fits (args_loop strtoul args positional c).1
unfolding args_loop
args_loop-Fits strtoul [] positional c b h = h
args_loop-Fits strtoul (arg ∷ []) positional c b h = elim (Bool-cases (prints arg)) [
  | inl e ↦ rw (args_loop, e) h
  | inr e ↦
      rw (args_loop, e)
        (flag_or Fits (set_flag c arg) _ _ (set_flag-Fits c arg h)
          (λ flagged f. args_loop-Fits strtoul [] positional flagged b f)
          (elim (Bool-cases (is_option arg)) [
            | inl o ↦ rw o h
            | inr o ↦ elim (Bool-cases (is_ok (set_endpoint positional c arg).0)) [
              | inl good ↦ rw (o, good) (set_endpoint-Fits positional c arg h)
              | inr bad ↦ rw (o, bad) (set_endpoint-Fits positional c arg h)
            ]
          ]))
]
args_loop-Fits strtoul (arg ∷ value ∷ rest) positional c b h =
    let (rc, c') = set_endpoint positional c arg in
    let (rc_option, configured) = set_option strtoul c arg value in
    elim (Bool-cases (prints arg)) [
      | inl e ↦ rw (args_loop, e) h
      | inr e ↦
          rw (args_loop, e)
            (flag_or Fits (set_flag c arg) _ _ (set_flag-Fits c arg h)
              (λ flagged f. args_loop-Fits strtoul (value ∷ rest) positional flagged b f)
              (elim (Bool-cases (is_option arg)) [
                | inl o ↦ elim (Bool-cases (is_ok rc_option)) [
                  | inr bad ↦ rw (o, bad) (set_option-Fits strtoul c arg value (b value) h)
                  | inl good ↦
                      rw (o, good)
                        (args_loop-Fits strtoul rest positional configured b
                          (set_option-Fits strtoul c arg value (b value) h))
                ]
                | inr o ↦ elim (Bool-cases (is_ok rc)) [
                  | inr bad ↦ rw (o, bad) (set_endpoint-Fits positional c arg h)
                  | inl good ↦
                      rw (o, good)
                        (args_loop-Fits strtoul (value ∷ rest) (positional + 1) c' b
                          (set_endpoint-Fits positional c arg h))
                ]
              ]))
    ]

-- `sockify_cli_parse_args` on any arguments, when `strtoul` gives an `unsigned long`, and every text of the
-- configuration has room for its NUL and every number fits its type. The same holds afterwards, on
-- every path.
pub parse_args-Fits :
    (strtoul : Strtoul) (args : List Bytes) (c : ProxyConfig)
    → GivesLong strtoul
    → Fits c
    → Fits (parse_args strtoul args c).1
unfolding parse_args
parse_args-Fits strtoul args c b h = args_loop-Fits strtoul args 0 c b h
