-- ===== src/Tls.antt =====
-- src/tls/tls_openssl.c: TLS over OpenSSL. OpenSSL and `calloc` are the record `Openssl` of functions on a
-- state `W` of the world; an `SSL_CTX *` or `SSL *` is a number. `none` as the result of one of its calls
-- is a number below 0. The destroy functions free memory and call OpenSSL; only the call is modelled.
pub mod Wants
pub mod Verified
pub mod Released
mod Tests
use sockify.Prelude.{
  ℕ, zero, suc, Bool, true, false, not, ◌&&◌, ◌||◌, Option, none, some, [], ◌∷◌, Bytes, ltb,
  if◌then◌else◌, length,
}
use sockify.Config.{ProxyConfig, is_empty}
use sockify.Status.{
  Status, ok, err_invalid, err_nomem, err_again, err_closed, err_sys, err_unsupported,
  err_tls_handshake, err_tls_verify, is_ok,
}
use sockify.Transport.{Socket}

-- What `SSL_get_error` gives, as far as the code reads it.
pub data SslError : Type 0 where
  want_read : SslError
  want_write : SslError
  zero_return : SslError
  other : ℕ → SslError

-- A Boolean says that a call returned 1, and that `calloc` did not return null. `set_session_cache` stands
-- for `SSL_CTX_set_session_cache_mode` and `SSL_CTX_set_session_id_context`, `verify_ok` for
-- `SSL_get_verify_result(ssl) == X509_V_OK`.
pub record Openssl (W : Type 0) : Type 0 where
  pub calloc : W → Bool × W
  pub ctx_new : W → Bool → Option ℕ × W
  pub ctx_free : W → ℕ → W
  pub set_min_proto : W → ℕ → W
  pub no_renegotiation : W → ℕ → W
  pub set_session_cache : W → ℕ → W
  pub set_verify : W → ℕ → Bool → W
  pub use_certificate_file : W → ℕ → Bytes → Bool × W
  pub use_private_key_file : W → ℕ → Bytes → Bool × W
  pub check_private_key : W → ℕ → Bool × W
  pub load_verify_locations : W → ℕ → Bytes → Bool × W
  pub set_default_verify_paths : W → ℕ → Bool × W
  pub ssl_new : W → ℕ → Option ℕ × W
  pub ssl_free : W → ℕ → W
  pub set_fd : W → ℕ → Socket → Bool × W
  pub set_accept_state : W → ℕ → W
  pub set_connect_state : W → ℕ → W
  pub set_host_name : W → ℕ → Bytes → Bool × W
  pub set_hostflags : W → ℕ → W
  pub set1_host : W → ℕ → Bytes → Bool × W
  pub do_handshake : W → ℕ → Option ℕ × W
  pub read : W → ℕ → ℕ → Option Bytes × W
  pub write : W → ℕ → Bytes → Option ℕ × W
  pub shutdown : W → ℕ → Option ℕ × W
  pub get_error : W → ℕ → Option ℕ → SslError
  pub verify_ok : W → ℕ → Bool

-- `struct sockify_tls_context`
pub record Context : Type 0 where
  pub ctx : ℕ
  pub server_side : Bool
  pub verify_peer : Bool

-- `struct sockify_tls_connection`
pub record Connection : Type 0 where
  pub ssl : ℕ
  pub want_read : Bool
  pub want_write : Bool
  pub server_side : Bool
  pub verify_peer : Bool

-- `INT_MAX`
abbrev pub int_max : ℕ
int_max = 2147483647

-- `connection_clear_wants`
unfoldable pub clear_wants : Connection → Connection
clear_wants c = record c { want_read = false; want_write = false }

-- `map_ssl_error`, given what `SSL_get_error` returned.
unfoldable pub map_ssl_error : Connection → SslError → Bool → Status × Connection
unfolding clear_wants
map_ssl_error c want_read handshake = (err_again, record (clear_wants c) { want_read = true })
map_ssl_error c want_write handshake = (err_again, record (clear_wants c) { want_write = true })
map_ssl_error c zero_return handshake = (err_closed, clear_wants c)
map_ssl_error c (other n) handshake =
    (if handshake then err_tls_handshake else err_sys, clear_wants c)

module _ {W : Type 0} (lib : Openssl W) where
  -- `context_load_verify_paths`
  unfoldable pub load_verify_paths : W → ℕ → Bytes → Status × W
  load_verify_paths w ctx ca_file =
      let (located, w1) = lib.load_verify_locations w ctx ca_file in
      let (found, w2) = lib.set_default_verify_paths (if is_empty ca_file then w else w1) ctx in
      if not (is_empty ca_file) && not located
      then (err_sys, w1)
      else if found
      then (ok, w2)
      else (err_sys, w2)

  -- `context_load_server_cert`
  unfoldable pub load_server_cert : W → ℕ → ProxyConfig → Status × W
  load_server_cert w ctx config =
      let (certificate, w1) = lib.use_certificate_file w ctx config.client_tls_cert_file in
      let (key, w2) = lib.use_private_key_file w1 ctx config.client_tls_key_file in
      let (fits, w3) = lib.check_private_key w2 ctx in
      if is_empty config.client_tls_cert_file || is_empty config.client_tls_key_file
      then (err_unsupported, w)
      else if not certificate
      then (err_sys, w1)
      else if not key
      then (err_sys, w2)
      else if fits
      then (ok, w3)
      else (err_sys, w3)

  -- `sockify_tls_context_destroy`
  unfoldable pub context_destroy : W → Context → W
  context_destroy w context = lib.ctx_free w context.ctx

  -- The part of `sockify_tls_context_create` that depends on the side.
  unfoldable pub set_side : W → ProxyConfig → Context → Status × W
  set_side w config context =
      if context.server_side
      then load_server_cert (lib.set_session_cache w context.ctx) context.ctx config
      else if context.verify_peer
      then load_verify_paths (lib.set_verify w context.ctx true) context.ctx
          config.target_tls_ca_file
      else (ok, lib.set_verify w context.ctx false)

  -- What `sockify_tls_context_create` does with the result of `SSL_CTX_new`.
  unfoldable pub setup_context : W → Option ℕ → ProxyConfig → Bool → Status × Option Context × W
  setup_context w none config server_side = (err_sys, none, w)
  setup_context w (some n) config server_side =
      let context : Context = record {
        ctx = n;
        server_side = server_side;
        verify_peer = if server_side then false else not config.target_tls_insecure;
      } in
      let (rc, w1) = set_side (lib.no_renegotiation (lib.set_min_proto w n) n) config context in
      if is_ok rc then (ok, some context, w1) else (rc, none, context_destroy w1 context)

  -- `sockify_tls_context_create`; the second result is `*out_context`.
  unfoldable pub context_create : W → ProxyConfig → Bool → Status × Option Context × W
  context_create w config server_side =
      let (allocated, w1) = lib.calloc w in
      let (ctx, w2) = lib.ctx_new w1 server_side in
      if allocated then setup_context w2 ctx config server_side else (err_nomem, none, w1)

  -- `set_connection_hostname`; `none` is a null pointer.
  unfoldable pub set_hostname : W → Connection → Option Bytes → Status × W
  set_hostname w c none = (ok, w)
  set_hostname w c (some server_name) =
      let (named, w1) = lib.set_host_name w c.ssl server_name in
      let (expected, w2) = lib.set1_host (lib.set_hostflags w1 c.ssl) c.ssl server_name in
      if is_empty server_name
      then (ok, w)
      else if not named
      then (err_sys, w1)
      else if not c.verify_peer
      then (ok, w1)
      else if expected
      then (ok, w2)
      else (err_sys, w2)

  -- `sockify_tls_connection_destroy`
  unfoldable pub connection_destroy : W → Connection → W
  connection_destroy w c = lib.ssl_free w c.ssl

  -- The end of `sockify_tls_connection_create`, once the connection has its socket.
  unfoldable pub set_state : W → Connection → Option Bytes → Status × W
  set_state w c server_name =
      if c.server_side
      then (ok, lib.set_accept_state w c.ssl)
      else set_hostname (lib.set_connect_state w c.ssl) c server_name

  -- What `sockify_tls_connection_create` does with the result of `SSL_new`.
  unfoldable pub open_connection :
      W → Option ℕ → Context → Socket → Bool → Option Bytes → Status × Option Connection × W
  open_connection w none context fd server_side server_name = (err_sys, none, w)
  open_connection w (some n) context fd server_side server_name =
      let c : Connection = record {
        ssl = n;
        want_read = false;
        want_write = false;
        server_side = server_side;
        verify_peer = context.verify_peer;
      } in
      let (bound, w1) = lib.set_fd w n fd in
      let (rc, w2) = set_state w1 c server_name in
      if not bound
      then (err_sys, none, connection_destroy w1 c)
      else if is_ok rc
      then (ok, some c, w2)
      else (rc, none, connection_destroy w2 c)

  -- `sockify_tls_connection_create`; the second result is `*out_connection`.
  unfoldable pub connection_create :
      W → Context → Socket → Bool → Option Bytes → Status × Option Connection × W
  connection_create w context fd server_side server_name =
      let (allocated, w1) = lib.calloc w in
      let (ssl, w2) = lib.ssl_new w1 context.ctx in
      let same_side = if server_side then context.server_side else not context.server_side in
      if not same_side
      then (err_invalid, none, w)
      else if not allocated
      then (err_nomem, none, w1)
      else open_connection w2 ssl context fd server_side server_name

  -- The failure of a call on a connection: the code of `map_ssl_error` and the new connection.
  unfoldable pub call_failed : W → Connection → Option ℕ → Bool → Status × Connection
  call_failed w c ret handshake = map_ssl_error c (lib.get_error w c.ssl ret) handshake

  -- `sockify_tls_connection_handshake`
  unfoldable pub connection_handshake : W → Connection → Status × Connection × W
  connection_handshake w c =
      let (ret, w1) = lib.do_handshake w c.ssl in
      let (rc, failed) = call_failed w1 c ret true in
      elim ret [
        | some (suc zero) ↦
            if not c.server_side && c.verify_peer && not (lib.verify_ok w1 c.ssl)
            then (err_tls_verify, clear_wants c, w1)
            else (ok, clear_wants c, w1)
        | _ ↦ (rc, failed, w1)
      ]

  -- `sockify_tls_connection_read`; the bytes are those stored in `buffer`.
  unfoldable pub connection_read : W → Connection → ℕ → Status × Bytes × Connection × W
  connection_read w c buffer_size =
      let (result, w1) = lib.read w c.ssl buffer_size in
      elim (ltb int_max buffer_size) [
        | true ↦ (err_invalid, [], c, w)
        | false ↦ elim result [
          | some (x ∷ xs) ↦ (ok, x ∷ xs, clear_wants c, w1)
          | some [] ↦ let (rc, failed) = call_failed w1 c (some 0) false in (rc, [], failed, w1)
          | none ↦ let (rc, failed) = call_failed w1 c none false in (rc, [], failed, w1)
        ]
      ]

  -- `sockify_tls_connection_write`; the number is `*written`.
  unfoldable pub connection_write : W → Connection → Bytes → Status × ℕ × Connection × W
  connection_write w c buffer =
      let (ret, w1) = lib.write w c.ssl buffer in
      let (rc, failed) = call_failed w1 c ret false in
      elim (ltb int_max (length buffer)) [
        | true ↦ (err_invalid, 0, c, w)
        | false ↦ elim buffer [
          | [] ↦ (ok, 0, c, w)
          | _ ∷ _ ↦ elim ret [
            | some (suc n) ↦ (ok, suc n, clear_wants c, w1)
            | _ ↦ (rc, 0, failed, w1)
          ]
        ]
      ]

  -- `sockify_tls_connection_shutdown`
  unfoldable pub connection_shutdown : W → Connection → Status × Connection × W
  connection_shutdown w c =
      let (ret, w1) = lib.shutdown w c.ssl in
      let (rc, failed) = call_failed w1 c ret false in
      elim ret [
        | some (suc zero) ↦ (ok, clear_wants c, w1)
        | some zero ↦ (err_again, record c { want_read = true; want_write = true }, w1)
        | _ ↦ (rc, failed, w1)
      ]
