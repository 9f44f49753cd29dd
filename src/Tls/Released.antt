-- ===== src/Tls/Released.antt =====
-- A context or a connection that cannot be made leaves nothing behind in OpenSSL.
use sockify.Prelude.{
  ℕ, ◌+◌, ◌-◌, ◌≡◌, refl, ap, ◌∙◌, Bool, true, false, not, Option, none, some, Bytes, arith,
  if◌then◌else◌,
}
use sockify.Config.{ProxyConfig}
use sockify.Status.{Status, is_ok}
use sockify.Tls.{
  Openssl, Context, Connection, context_create, load_verify_paths, load_server_cert, set_side,
  context_destroy, set_hostname, set_state, setup_context, open_connection, connection_destroy,
  connection_create,
}
use sockify.Transport.{Socket}

-- How many an allocation adds.
abbrev pub added : Option ℕ → ℕ
added none = 0
added (some _) = 1

-- OpenSSL's allocations: `live` counts the `SSL_CTX` and `SSL` objects. The two `new` functions add one
-- unless they return null, the two `free` functions take one away, and the settings change no number.
pub record Counts {W : Type 0} (lib : Openssl W) (live : W → ℕ) : Type 0 where
  pub calloc : (w : W) → live (lib.calloc w).1 ≡ live w
  pub ctx_new : (w : W) (b : Bool) → live (lib.ctx_new w b).1 ≡ live w + added (lib.ctx_new w b).0
  pub ctx_free : (w : W) (n : ℕ) → live (lib.ctx_free w n) ≡ live w - 1
  pub set_min_proto : (w : W) (n : ℕ) → live (lib.set_min_proto w n) ≡ live w
  pub no_renegotiation : (w : W) (n : ℕ) → live (lib.no_renegotiation w n) ≡ live w
  pub set_session_cache : (w : W) (n : ℕ) → live (lib.set_session_cache w n) ≡ live w
  pub set_verify : (w : W) (n : ℕ) (b : Bool) → live (lib.set_verify w n b) ≡ live w
  pub use_certificate_file :
      (w : W) (n : ℕ) (f : Bytes) → live (lib.use_certificate_file w n f).1 ≡ live w
  pub use_private_key_file :
      (w : W) (n : ℕ) (f : Bytes) → live (lib.use_private_key_file w n f).1 ≡ live w
  pub check_private_key : (w : W) (n : ℕ) → live (lib.check_private_key w n).1 ≡ live w
  pub load_verify_locations :
      (w : W) (n : ℕ) (f : Bytes) → live (lib.load_verify_locations w n f).1 ≡ live w
  pub set_default_verify_paths :
      (w : W) (n : ℕ) → live (lib.set_default_verify_paths w n).1 ≡ live w
  pub ssl_new : (w : W) (n : ℕ) → live (lib.ssl_new w n).1 ≡ live w + added (lib.ssl_new w n).0
  pub ssl_free : (w : W) (n : ℕ) → live (lib.ssl_free w n) ≡ live w - 1
  pub set_fd : (w : W) (n : ℕ) (fd : Socket) → live (lib.set_fd w n fd).1 ≡ live w
  pub set_accept_state : (w : W) (n : ℕ) → live (lib.set_accept_state w n) ≡ live w
  pub set_connect_state : (w : W) (n : ℕ) → live (lib.set_connect_state w n) ≡ live w
  pub set_host_name : (w : W) (n : ℕ) (h : Bytes) → live (lib.set_host_name w n h).1 ≡ live w
  pub set_hostflags : (w : W) (n : ℕ) → live (lib.set_hostflags w n) ≡ live w
  pub set1_host : (w : W) (n : ℕ) (h : Bytes) → live (lib.set1_host w n h).1 ≡ live w

-- One more object when the code is SOCKIFY_OK, and none more when it is not.
abbrev pub Made : {A W : Type 0} → (W → ℕ) → W → Status × A × W → Type 0
Made live w r = live r.2 ≡ live w + (if is_ok r.0 then 1 else 0)

module _ {W : Type 0} (lib : Openssl W) (live : W → ℕ) (laws : Counts lib live) where
  load_server_cert-live :
      (w : W) (ctx : ℕ) (config : ProxyConfig) → live (load_server_cert lib w ctx config).1 ≡ live w
  unfolding load_server_cert
  load_server_cert-live w ctx config =
      let w1 = (lib.use_certificate_file w ctx config.client_tls_cert_file).1 in
      let w2 = (lib.use_private_key_file w1 ctx config.client_tls_key_file).1 in
      ground (
        arith,
        laws.use_certificate_file w ctx config.client_tls_cert_file,
        laws.use_private_key_file w1 ctx config.client_tls_key_file,
        laws.check_private_key w2 ctx,
      )

  load_verify_paths-live :
      (w : W) (ctx : ℕ) (file : Bytes) → live (load_verify_paths lib w ctx file).1 ≡ live w
  unfolding load_verify_paths
  load_verify_paths-live w ctx file =
      let w1 = (lib.load_verify_locations w ctx file).1 in
      ground (
        arith,
        laws.load_verify_locations w ctx file,
        laws.set_default_verify_paths w1 ctx,
        laws.set_default_verify_paths w ctx,
      )

  set_side-live :
      (w : W) (config : ProxyConfig) (context : Context)
      → live (set_side lib w config context).1 ≡ live w
  unfolding set_side
  set_side-live w config context =
      let cached = lib.set_session_cache w context.ctx in
      let verifying = lib.set_verify w context.ctx true in
      ground (
        arith,
        load_server_cert-live cached context.ctx config,
        load_verify_paths-live verifying context.ctx config.target_tls_ca_file,
        laws.set_session_cache w context.ctx,
        laws.set_verify w context.ctx true,
        laws.set_verify w context.ctx false,
      )

  set_hostname-live :
      (w : W) (c : Connection) (name : Option Bytes) → live (set_hostname lib w c name).1 ≡ live w
  unfolding set_hostname
  set_hostname-live w c none = refl
  set_hostname-live w c (some name) =
      let w1 = (lib.set_host_name w c.ssl name).1 in
      let w2 = lib.set_hostflags w1 c.ssl in
      ground (
        arith,
        laws.set_host_name w c.ssl name,
        laws.set_hostflags w1 c.ssl,
        laws.set1_host w2 c.ssl name,
      )

  set_state-live :
      (w : W) (c : Connection) (name : Option Bytes) → live (set_state lib w c name).1 ≡ live w
  unfolding set_state
  set_state-live w c name = ground (
    arith,
    set_hostname-live (lib.set_connect_state w c.ssl) c name,
    laws.set_accept_state w c.ssl,
    laws.set_connect_state w c.ssl,
  )

  open_connection-Made :
      (k : ℕ) (w : W) (ssl : Option ℕ) (context : Context) (fd : Socket) (b : Bool)
      (name : Option Bytes)
      → live w ≡ k + added ssl
      → live (open_connection lib w ssl context fd b name).2
        ≡ k + (if is_ok (open_connection lib w ssl context fd b name).0 then 1 else 0)
  unfolding open_connection connection_destroy
  open_connection-Made k w none context fd b name h = omega arith
  open_connection-Made k w (some n) context fd b name h =
      let c : Connection = record {
        ssl = n;
        want_read = false;
        want_write = false;
        server_side = b;
        verify_peer = context.verify_peer;
      } in
      let w1 = (lib.set_fd w n fd).1 in
      let w2 = (set_state lib w1 c name).1 in
      ground (
        arith,
        laws.set_fd w n fd,
        set_state-live w1 c name,
        laws.ssl_free w1 n,
        laws.ssl_free w2 n,
      )

  connection_create-Made :
      (w : W) (context : Context) (fd : Socket) (b : Bool) (name : Option Bytes)
      → Made live w (connection_create lib w context fd b name)
  unfolding connection_create
  connection_create-Made w context fd b name =
      let w1 = (lib.calloc w).1 in
      let r = lib.ssl_new w1 context.ctx in
      let new : live r.1 ≡ live w + added r.0 =
        laws.ssl_new w1 context.ctx ∙ ap (λ (n : ℕ). n + added r.0) (laws.calloc w) in
      ground (arith, laws.calloc w, open_connection-Made (live w) r.1 r.0 context fd b name new)

  setup_context-Made :
      (k : ℕ) (w : W) (ctx : Option ℕ) (config : ProxyConfig) (b : Bool)
      → live w ≡ k + added ctx
      → live (setup_context lib w ctx config b).2
        ≡ k + (if is_ok (setup_context lib w ctx config b).0 then 1 else 0)
  unfolding setup_context context_destroy
  setup_context-Made k w none config b h = omega arith
  setup_context-Made k w (some n) config b h =
      let context : Context = record {
        ctx = n;
        server_side = b;
        verify_peer = if b then false else not config.target_tls_insecure;
      } in
      let w1 = lib.set_min_proto w n in
      let w2 = lib.no_renegotiation w1 n in
      let w3 = (set_side lib w2 config context).1 in
      ground (
        arith,
        laws.set_min_proto w n,
        laws.no_renegotiation w1 n,
        set_side-live w2 config context,
        laws.ctx_free w3 n,
      )

  context_create-Made :
      (w : W) (config : ProxyConfig) (b : Bool) → Made live w (context_create lib w config b)
  unfolding context_create
  context_create-Made w config b =
      let w1 = (lib.calloc w).1 in
      let r = lib.ctx_new w1 b in
      let new : live r.1 ≡ live w + added r.0 =
        laws.ctx_new w1 b ∙ ap (λ (n : ℕ). n + added r.0) (laws.calloc w) in
      ground (arith, laws.calloc w, setup_context-Made (live w) r.1 r.0 config b new)

  -- `sockify_tls_context_create` and `sockify_tls_connection_create` on any configuration, either side and
  -- any results of the calls of OpenSSL and `calloc`, when OpenSSL's `new` functions add an object unless
  -- they return null, its `free` functions take one away and its settings neither. With SOCKIFY_OK
  -- OpenSSL has one object more; with any other code it has as many as before.
  pub create-Made :
      (w : W) (config : ProxyConfig) (context : Context) (fd : Socket) (b : Bool)
      (name : Option Bytes)
      → Made live w (context_create lib w config b)
        × Made live w (connection_create lib w context fd b name)
  create-Made w config context fd b name =
      (context_create-Made w config b, connection_create-Made w context fd b name)
