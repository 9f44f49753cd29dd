-- ===== src/Config.antt =====
-- src/proxy/proxy.c and src/core/cli.c: the configuration of the proxy, its defaults and its
-- validation. A text is its
-- bytes before the NUL, so a text whose first character is NUL is empty.
mod Tests
use sockify.Prelude.{
  ℕ, ◌+◌, Bool, true, false, not, ◌&&◌, ◌||◌, [], Bytes, ◌==◌, if◌then◌else◌, length,
}
use sockify.Status.{Status, ok, err_invalid}

-- `struct sockify_endpoint`
pub record Endpoint : Type 0 where
  pub host : Bytes
  pub port : Bytes

-- `enum sockify_log_level`
pub data LogLevel : Type 0 where
  log_error : LogLevel
  log_warn : LogLevel
  log_info : LogLevel
  log_debug : LogLevel

-- `struct sockify_proxy_config`
pub record ProxyConfig : Type 0 where
  pub listen_endpoint : Endpoint
  pub target_endpoint : Endpoint
  pub max_connections : ℕ
  pub buffer_size : ℕ
  pub accept_budget : ℕ
  pub read_budget : ℕ
  pub write_budget : ℕ
  pub backlog : ℕ
  pub handshake_timeout_ms : ℕ
  pub idle_timeout_ms : ℕ
  pub connect_timeout_ms : ℕ
  pub log_level : LogLevel
  pub client_tls_enabled : Bool
  pub client_tls_cert_file : Bytes
  pub client_tls_key_file : Bytes
  pub client_tls_pfx_file : Bytes
  pub client_tls_pfx_password : Bytes
  pub client_tls_cert_store : Bytes
  pub client_tls_cert_thumbprint : Bytes
  pub target_tls_enabled : Bool
  pub target_tls_insecure : Bool
  pub target_tls_server_name : Bytes
  pub target_tls_ca_file : Bytes

abbrev no_endpoint : Endpoint
no_endpoint = record { host = []; port = [] }

-- `sockify_proxy_config_init`
abbrev pub config_init : ProxyConfig
config_init = record {
  listen_endpoint = no_endpoint;
  target_endpoint = no_endpoint;
  max_connections = 10000;
  buffer_size = 65536;
  accept_budget = 64;
  read_budget = 16;
  write_budget = 16;
  backlog = 512;
  handshake_timeout_ms = 10000;
  idle_timeout_ms = 300000;
  connect_timeout_ms = 10000;
  log_level = log_info;
  client_tls_enabled = false;
  client_tls_cert_file = [];
  client_tls_key_file = [];
  client_tls_pfx_file = [];
  client_tls_pfx_password = [];
  client_tls_cert_store = [];
  client_tls_cert_thumbprint = [];
  target_tls_enabled = false;
  target_tls_insecure = false;
  target_tls_server_name = [];
  target_tls_ca_file = [];
}

-- `text[0] == '\0'`
abbrev pub is_empty : Bytes → Bool
is_empty text = length text == 0

-- `proxy_validate_config`
unfoldable pub validate_config : ProxyConfig → Status
validate_config c =
    if is_empty c.listen_endpoint.host
      || is_empty c.listen_endpoint.port
      || is_empty c.target_endpoint.host
      || is_empty c.target_endpoint.port
    then err_invalid
    else if c.max_connections == 0
        || c.buffer_size == 0
        || c.accept_budget == 0
        || c.read_budget == 0
        || c.write_budget == 0
    then err_invalid
    else if not c.client_tls_enabled
        && (not (is_empty c.client_tls_cert_file)
            || not (is_empty c.client_tls_key_file)
            || not (is_empty c.client_tls_pfx_file)
            || not (is_empty c.client_tls_cert_store)
            || not (is_empty c.client_tls_cert_thumbprint))
    then err_invalid
    else if not c.target_tls_enabled
        && (c.target_tls_insecure
            || not (is_empty c.target_tls_server_name)
            || not (is_empty c.target_tls_ca_file))
    then err_invalid
    else ok

-- `b ? 1 : 0`
abbrev pub one_if : Bool → ℕ
one_if b = if b then 1 else 0

-- `validate_tls` of src/core/cli.c
unfoldable pub validate_tls : ProxyConfig → Status
validate_tls c =
    let has_pem = not (is_empty c.client_tls_cert_file) || not (is_empty c.client_tls_key_file) in
    let has_pfx = not (is_empty c.client_tls_pfx_file) in
    let has_store =
      not (is_empty c.client_tls_cert_store) || not (is_empty c.client_tls_cert_thumbprint) in
    if c.target_tls_insecure && not c.target_tls_enabled
    then err_invalid
    else if c.client_tls_enabled
    then if has_pem && (is_empty c.client_tls_cert_file || is_empty c.client_tls_key_file)
      then err_invalid
      else if not (one_if has_pem + one_if has_pfx + one_if has_store == 1)
      then err_invalid
      else ok
    else ok
