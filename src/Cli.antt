-- ===== src/Cli.antt =====
-- src/core/cli.c and src/core/log.c: the command line. An argument is its bytes before the NUL. `strtoul`
-- of the C library is a parameter: for a text, the number and the text that `end` points to.
pub mod Fits
pub mod Tests
use sockify.Prelude.{
  ℕ, zero, suc, ◌+◌, ◌%◌, ◌^◌, Bool, true, false, not, ◌&&◌, ◌||◌, Option, none, some, List, [],
  ◌∷◌, Bytes, codes, same_text, ltb, ◌==◌, ◌!=◌, if◌then◌else◌, length, get_or,
}
use sockify.Config.{
  Endpoint, ProxyConfig, LogLevel, log_error, log_warn, log_info, log_debug, validate_tls,
}
use sockify.Net.{parse_endpoint}
use sockify.Status.{Status, ok, err_invalid, err_overflow, is_ok}

-- `sockify_log_level_from_string`
unfoldable pub log_level_from_string : Bytes → LogLevel
log_level_from_string value =
    if same_text value (codes "error")
    then log_error
    else if same_text value (codes "warn")
    then log_warn
    else if same_text value (codes "info")
    then log_info
    else if same_text value (codes "debug")
    then log_debug
    else log_info

-- `copy_str`: the code, and the text at `dest`.
unfoldable pub copy_str : Bytes → ℕ → Bytes → Status × Bytes
copy_str dest dest_size src =
    if ltb dest_size (length src + 1) then (err_overflow, dest) else (ok, src)

abbrev pub Strtoul : Type 0
Strtoul = Bytes → ℕ × Bytes

-- `parse_size`; the number is `*out`.
unfoldable pub parse_size : Strtoul → Bytes → ℕ → Status × ℕ
parse_size strtoul text out =
    let (value, rest) = strtoul text in
    if length rest == length text || length rest != 0 then (err_invalid, out) else (ok, value)

-- `parse_uint`: the conversion to `unsigned int` keeps 32 bits.
unfoldable pub parse_uint : Strtoul → Bytes → ℕ → Status × ℕ
parse_uint strtoul text out =
    let (value, rest) = strtoul text in
    if length rest == length text || length rest != 0
    then (err_invalid, out)
    else (ok, value % 2 ^ 32)

-- `SOCKIFY_PATH_MAX`
abbrev pub path_max : ℕ
path_max = 512

-- The options that take a number.
unfoldable pub set_number : Strtoul → ProxyConfig → Bytes → Bytes → Option (Status × ProxyConfig)
set_number strtoul config arg value =
    let (rc_connections, connections) = parse_size strtoul value config.max_connections in
    let (rc_buffer, buffer) = parse_size strtoul value config.buffer_size in
    let (rc_handshake, handshake) = parse_uint strtoul value config.handshake_timeout_ms in
    let (rc_idle, idle) = parse_uint strtoul value config.idle_timeout_ms in
    let (rc_connect, connect) = parse_uint strtoul value config.connect_timeout_ms in
    if same_text arg (codes "--max-connections")
    then some (rc_connections, record config { max_connections = connections })
    else if same_text arg (codes "--buffer-size")
    then some (rc_buffer, record config { buffer_size = buffer })
    else if same_text arg (codes "--handshake-timeout")
    then some (rc_handshake, record config { handshake_timeout_ms = handshake })
    else if same_text arg (codes "--idle-timeout")
    then some (rc_idle, record config { idle_timeout_ms = idle })
    else if same_text arg (codes "--connect-timeout")
    then some (rc_connect, record config { connect_timeout_ms = connect })
    else if same_text arg (codes "--log-level")
    then some (ok, record config { log_level = log_level_from_string value })
    else none

-- The options of the client's TLS that take a text.
unfoldable pub set_client_text : ProxyConfig → Bytes → Bytes → Option (Status × ProxyConfig)
set_client_text config arg value =
    let (rc_cert, cert) = copy_str config.client_tls_cert_file path_max value in
    let (rc_key, key) = copy_str config.client_tls_key_file path_max value in
    let (rc_pfx, pfx) = copy_str config.client_tls_pfx_file path_max value in
    let (rc_password, password) = copy_str config.client_tls_pfx_password 256 value in
    let (rc_store, store) = copy_str config.client_tls_cert_store 128 value in
    let (rc_print, print) = copy_str config.client_tls_cert_thumbprint 128 value in
    if same_text arg (codes "--client-tls-cert")
    then some (rc_cert, record config { client_tls_cert_file = cert })
    else if same_text arg (codes "--client-tls-key")
    then some (rc_key, record config { client_tls_key_file = key })
    else if same_text arg (codes "--client-tls-pfx")
    then some (rc_pfx, record config { client_tls_pfx_file = pfx })
    else if same_text arg (codes "--client-tls-pfx-password")
    then some (rc_password, record config { client_tls_pfx_password = password })
    else if same_text arg (codes "--client-tls-cert-store")
    then some (rc_store, record config { client_tls_cert_store = store })
    else if same_text arg (codes "--client-tls-cert-thumbprint")
    then some (rc_print, record config { client_tls_cert_thumbprint = print })
    else none

-- The options of the target's TLS that take a text, and the end of the `else if` chain.
unfoldable pub set_target_text : ProxyConfig → Bytes → Bytes → Status × ProxyConfig
set_target_text config arg value =
    let (rc_name, name) = copy_str config.target_tls_server_name 256 value in
    let (rc_file, file) = copy_str config.target_tls_ca_file path_max value in
    if same_text arg (codes "--target-tls-server-name")
    then (rc_name, record config { target_tls_server_name = name })
    else if same_text arg (codes "--target-tls-ca-file")
    then (rc_file, record config { target_tls_ca_file = file })
    else (err_invalid, config)

-- The `else if` chain over the options that take a value.
unfoldable pub set_option : Strtoul → ProxyConfig → Bytes → Bytes → Status × ProxyConfig
set_option strtoul config arg value = elim (set_number strtoul config arg value) [
  | some r ↦ r
  | none ↦ elim (set_client_text config arg value) [
    | some r ↦ r
    | none ↦ set_target_text config arg value
  ]
]

-- The options without a value.
unfoldable pub set_flag : ProxyConfig → Bytes → Option ProxyConfig
set_flag config arg =
    if same_text arg (codes "--client-tls")
    then some (record config { client_tls_enabled = true })
    else if same_text arg (codes "--target-tls")
    then some (record config { target_tls_enabled = true })
    else if same_text arg (codes "--target-tls-insecure")
    then some (record config { target_tls_insecure = true })
    else none

-- A positional argument: the endpoint to listen on, then the target's.
unfoldable pub set_endpoint : ℕ → ProxyConfig → Bytes → Status × ProxyConfig
set_endpoint positional config arg =
    let (rc_listen, listen) = parse_endpoint arg config.listen_endpoint in
    let (rc_target, target) = parse_endpoint arg config.target_endpoint in
    if positional == 0
    then (rc_listen, record config { listen_endpoint = listen })
    else if positional == 1
    then (rc_target, record config { target_endpoint = target })
    else (err_invalid, config)

-- What `sockify_cli_parse_args` returns: a code, or 1 when it printed the usage or the version.
pub data Parsed : Type 0 where
  returned : Status → Parsed
  printed : Parsed

-- The first tests of a round.
abbrev pub prints : Bytes → Bool
prints arg = same_text arg (codes "--help") || same_text arg (codes "--version")

-- `arg[0] == '-' && arg[1] == '-'`
abbrev pub is_option : Bytes → Bool
is_option arg = get_or arg 0 0 == 45 && get_or arg 1 0 == 45

-- The loop of `sockify_cli_parse_args` on `argv[i..argc)`, and what follows it.
unfoldable pub args_loop : Strtoul → List Bytes → ℕ → ProxyConfig → Parsed × ProxyConfig
args_loop strtoul [] positional config =
    (returned (if positional != 2 then err_invalid else validate_tls config), config)
args_loop strtoul (arg ∷ []) positional config =
    let (rc, config') = set_endpoint positional config arg in
    elim (prints arg) [
      | true ↦ (printed, config)
      | false ↦ elim (set_flag config arg) [
        | some flagged ↦ args_loop strtoul [] positional flagged
        | none ↦ elim (is_option arg) [
          | true ↦ (returned err_invalid, config)
          | false ↦ elim (is_ok rc) [
            | false ↦ (returned err_invalid, config')
            | true ↦ args_loop strtoul [] (positional + 1) config'
          ]
        ]
      ]
    ]
args_loop strtoul (arg ∷ value ∷ rest) positional config =
    let (rc, config') = set_endpoint positional config arg in
    let (rc_option, configured) = set_option strtoul config arg value in
    elim (prints arg) [
      | true ↦ (printed, config)
      | false ↦ elim (set_flag config arg) [
        | some flagged ↦ args_loop strtoul (value ∷ rest) positional flagged
        | none ↦ elim (is_option arg) [
          | true ↦ elim (is_ok rc_option) [
            | false ↦ (returned err_invalid, configured)
            | true ↦ args_loop strtoul rest positional configured
          ]
          | false ↦ elim (is_ok rc) [
            | false ↦ (returned err_invalid, config')
            | true ↦ args_loop strtoul (value ∷ rest) (positional + 1) config'
          ]
        ]
      ]
    ]

-- `sockify_cli_parse_args` on `argv[1..argc)`.
unfoldable pub parse_args : Strtoul → List Bytes → ProxyConfig → Parsed × ProxyConfig
parse_args strtoul args config = args_loop strtoul args 0 config
