-- ===== src/Tls/Verified.antt =====
-- What a finished handshake with the target says about its certificate.
use sockify.Prelude.{
  ℕ, ◌≡◌, refl, ◌∙◌, true, false, Option, none, some, List, [], ◌∷◌, Bytes, arith,
}
use mathlib.Core.Path.{subst}
use sockify.Config.{ProxyConfig, is_empty}
use sockify.Status.{ok}
use sockify.Tls.{
  Openssl, Context, Connection, context_create, set_hostname, set_state, setup_context,
  open_connection, connection_create, connection_handshake, connection_read, connection_write,
  connection_shutdown, call_failed, map_ssl_error,
}
use sockify.Tls.Wants.{Call, handshake, read, write, shutdown, Same, Reaches, call, call-Wants}
use sockify.Transport.{Socket}

module _ {W : Type 0} (lib : Openssl W) where
  -- Calls on a connection, one after the other.
  abbrev pub calls : List Call → W → Connection → Connection × W
  calls [] w c = (c, w)
  calls (k ∷ rest) w c = let r = call lib k w c in calls rest r.2 r.1

  abbrev pub AllReach : List Call → Type 0
  AllReach [] = Unit
  AllReach (k ∷ rest) = Reaches k × AllReach rest

  calls-Same : (ks : List Call) (w : W) (c : Connection) → AllReach ks → Same c (calls ks w c).0
  calls-Same [] w c h = (refl, refl, refl)
  calls-Same (k ∷ rest) w c (h, hs) =
      let (a, b, d) = (call-Wants lib k w c h).1 in
      let r = call lib k w c in
      let (a', b', d') = calls-Same rest r.2 r.1 hs in (a' ∙ a, b' ∙ b, d' ∙ d)

  setup_context-verifies :
      (w w' : W) (ctx : Option ℕ) (config : ProxyConfig) (context : Context)
      → setup_context lib w ctx config false ≡ (ok, some context, w')
      → config.target_tls_insecure ≡ false
      → (context.server_side ≡ false) × (context.verify_peer ≡ true)
  unfolding setup_context
  setup_context-verifies w w' none config context e h = ground arith
  setup_context-verifies w w' (some n) config context e h = ground arith

  -- A context for the target verifies its peer unless the configuration turns that off.
  context_create-verifies :
      (w w' : W) (config : ProxyConfig) (context : Context)
      → context_create lib w config false ≡ (ok, some context, w')
      → config.target_tls_insecure ≡ false
      → (context.server_side ≡ false) × (context.verify_peer ≡ true)
  unfolding context_create
  context_create-verifies w w' config context e h =
      let r = lib.ctx_new (lib.calloc w).1 false in
      let made : setup_context lib r.1 r.0 config false ≡ (ok, some context, w') = ground arith in
      setup_context-verifies r.1 w' r.0 config context made h

  open_connection-keeps :
      (w w' : W) (ssl : Option ℕ) (context : Context) (fd : Socket) (name : Option Bytes)
      (c : Connection)
      → open_connection lib w ssl context fd false name ≡ (ok, some c, w')
      → (c.server_side ≡ false) × (c.verify_peer ≡ context.verify_peer)
  unfolding open_connection
  open_connection-keeps w w' none context fd name c e = ground arith
  open_connection-keeps w w' (some n) context fd name c e = ground arith

  -- A connection that was made went through `open_connection`.
  connection_create-opened :
      (w w' : W) (context : Context) (fd : Socket) (name : Option Bytes) (c : Connection)
      → connection_create lib w context fd false name ≡ (ok, some c, w')
      → let r = lib.ssl_new (lib.calloc w).1 context.ctx in
        open_connection lib r.1 r.0 context fd false name ≡ (ok, some c, w')
  unfolding connection_create
  connection_create-opened w w' context fd name c e = ground arith

  handshake-checks :
      (w : W) (c : Connection)
      → c.server_side ≡ false
      → c.verify_peer ≡ true
      → (connection_handshake lib w c).0 ≡ ok
      → lib.verify_ok (connection_handshake lib w c).2 c.ssl ≡ true
  unfolding connection_handshake call_failed map_ssl_error
  handshake-checks w c side verify e = ground (arith, e)

  -- OpenSSL's `X509_VERIFY_PARAM_set1_host`: when it returns 1, the host name that the certificate of the
  -- peer has to show is the given one.
  -- The calls on an `SSL` keep that name.
  pub record SetsHost (expected : W → ℕ → Option Bytes) : Type 0 where
    pub set1_host :
        (w : W) (ssl : ℕ) (name : Bytes)
        → (lib.set1_host w ssl name).0 ≡ true
        → expected (lib.set1_host w ssl name).1 ssl ≡ some name
    pub do_handshake : (w : W) (ssl : ℕ) → expected (lib.do_handshake w ssl).1 ssl ≡ expected w ssl
    pub read : (w : W) (ssl n : ℕ) → expected (lib.read w ssl n).1 ssl ≡ expected w ssl
    pub write :
        (w : W) (ssl : ℕ) (bytes : Bytes) → expected (lib.write w ssl bytes).1 ssl ≡ expected w ssl
    pub shutdown : (w : W) (ssl : ℕ) → expected (lib.shutdown w ssl).1 ssl ≡ expected w ssl

  module _ (expected : W → ℕ → Option Bytes) (laws : SetsHost expected) where
    set_hostname-expects :
        (w : W) (c : Connection) (name : Bytes)
        → c.verify_peer ≡ true
        → is_empty name ≡ false
        → (set_hostname lib w c (some name)).0 ≡ ok
        → expected (set_hostname lib w c (some name)).1 c.ssl ≡ some name
    unfolding set_hostname
    set_hostname-expects w c name v n e =
        let w1 = (lib.set_host_name w c.ssl name).1 in
        ground (arith, laws.set1_host (lib.set_hostflags w1 c.ssl) c.ssl name)

    open_connection-expects :
        (w w' : W) (ssl : Option ℕ) (context : Context) (fd : Socket) (name : Bytes)
        (c : Connection)
        → context.verify_peer ≡ true
        → is_empty name ≡ false
        → open_connection lib w ssl context fd false (some name) ≡ (ok, some c, w')
        → expected w' c.ssl ≡ some name
    unfolding open_connection set_state
    open_connection-expects w w' none context fd name c v n e = ground arith
    open_connection-expects w w' (some s) context fd name c v n e =
        let c0 : Connection = record {
          ssl = s;
          want_read = false;
          want_write = false;
          server_side = false;
          verify_peer = context.verify_peer;
        } in
        let w1 = lib.set_connect_state (lib.set_fd w s fd).1 s in
        ground (arith, set_hostname-expects w1 c0 name v n)

    -- A call on a connection keeps the name.
    call-expects :
        (k : Call) (w : W) (c : Connection) → expected (call lib k w c).2 c.ssl ≡ expected w c.ssl
    unfolding connection_handshake connection_read connection_write connection_shutdown
    call-expects handshake w c = ground (arith, laws.do_handshake w c.ssl)
    call-expects (read n) w c = ground (arith, laws.read w c.ssl n)
    call-expects (write []) w c = ground arith
    call-expects (write (x ∷ xs)) w c = ground (arith, laws.write w c.ssl (x ∷ xs))
    call-expects shutdown w c = ground (arith, laws.shutdown w c.ssl)

    calls-expects :
        (ks : List Call) (w : W) (c : Connection)
        → AllReach ks
        → expected (calls ks w c).1 c.ssl ≡ expected w c.ssl
    calls-expects [] w c h = refl
    calls-expects (k ∷ rest) w c (h, hs) =
        let r = call lib k w c in
        let same : r.1.ssl ≡ c.ssl = (call-Wants lib k w c h).1.0 in
        subst (λ s. expected (calls rest r.2 r.1).1 s ≡ expected r.2 s) same
          (calls-expects rest r.2 r.1 hs)
        ∙ call-expects k w c

    -- A connection to the target that `sockify_tls_connection_create` made for a server name that is not empty,
    -- from a context that `sockify_tls_context_create` made for the target of a configuration without
    -- `target_tls_insecure`. OpenSSL's calls on an `SSL` keep the host name that it is told to expect, and
    -- nothing else changes it between the making of the connection and its calls. If, after any calls on
    -- the connection that get to OpenSSL, a handshake returns SOCKIFY_OK, then OpenSSL has verified the
    -- certificate, and the name that it had to show in that handshake is the server name.
    pub target_handshake-IsVerified :
        (w1 w2 w3 w4 w5 : W) (config : ProxyConfig) (context : Context) (fd : Socket) (name : Bytes)
        (c : Connection) (ks : List Call)
        → config.target_tls_insecure ≡ false
        → context_create lib w1 config false ≡ (ok, some context, w2)
        → is_empty name ≡ false
        → connection_create lib w3 context fd false (some name) ≡ (ok, some c, w4)
        → expected w5 c.ssl ≡ expected w4 c.ssl
        → AllReach ks
        → (connection_handshake lib (calls ks w5 c).1 (calls ks w5 c).0).0 ≡ ok
        → (expected (connection_handshake lib (calls ks w5 c).1 (calls ks w5 c).0).2 c.ssl
            ≡ some name)
          × (lib.verify_ok (connection_handshake lib (calls ks w5 c).1 (calls ks w5 c).0).2 c.ssl
              ≡ true)
    target_handshake-IsVerified w1 w2 w3 w4 w5 config context fd name c ks h made n opened kept
          reach done =
        let (side, verify) = context_create-verifies w1 w2 config context made h in
        let r = lib.ssl_new (lib.calloc w3).1 context.ctx in
        let opened' = connection_create-opened w3 w4 context fd (some name) c opened in
        let (side', verify') = open_connection-keeps r.1 w4 r.0 context fd (some name) c opened' in
        let (same, same_side, same_verify) = calls-Same ks w5 c reach in
        let c' = (calls ks w5 c).0 in
        let w6 = (calls ks w5 c).1 in
        (
          subst (λ s. expected (connection_handshake lib w6 c').2 s ≡ expected w6 s) same
                (call-expects handshake w6 c')
              ∙ calls-expects ks w5 c reach
              ∙ kept
              ∙ open_connection-expects r.1 w4 r.0 context fd name c verify n opened',
          subst (λ s. lib.verify_ok (connection_handshake lib w6 c').2 s ≡ true) same
              (handshake-checks w6 c' (same_side ∙ side') (same_verify ∙ verify' ∙ verify) done),
        )
