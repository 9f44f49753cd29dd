-- ===== src/Linked.antt =====
-- The `Backend` of src/transport/transport.c and src/proxy/proxy.c, linked with src/net/net_posix.c and
-- src/tls/tls_openssl.c: what the functions named `sockify_net_*` and `sockify_tls_*` are. The memory of the
-- TLS library has a context and a connection at each address; a connection has the address of its `SSL`.
pub mod Meets
pub mod Outside
mod Tests
use sockify.Prelude.{ℕ, Bool, false, Option, none, some, [], Bytes, ◌==◌, if◌then◌else◌}
use sockify.Net.{Calls, net_recv, net_send, socket_error}
use sockify.Net.Addresses.{Sockets, net_close, net_connect}
use sockify.Status.{Status, err_invalid}
use sockify.Tls.{
  Openssl, Context, Connection, connection_create, connection_handshake, connection_read,
  connection_write, connection_shutdown, connection_destroy,
}
use sockify.Transport.{Backend, Socket, Handle}

-- What is below the program: the system, and the memory of the TLS code.
pub record World (W : Type 0) : Type 0 where
  pub system : W
  pub context : ℕ → Context
  pub connection : ℕ → Connection

-- The event loop and the clock, as far as a session calls them.
pub record Events (W : Type 0) : Type 0 where
  pub add : W → Socket → ℕ → Status × W
  pub remove : W → Socket → W
  pub modify : W → Socket → ℕ → W
  pub now : W → ℕ

-- The connection at an address is stored.
abbrev pub store : {W : Type 0} → World W → ℕ → Connection → W → World W
store w h c system = record w {
  system = system;
  connection = λ g. if h == g then c else w.connection g;
}

module _ {W : Type 0} (calls : Calls W) (sockets : Sockets W) (lib : Openssl W)
    (events : Events W) where
  -- `sockify_tls_connection_create`: the new connection is stored.
  abbrev tls_create : World W → ℕ → Socket → Bool → Option Bytes → Status × Handle × World W
  tls_create w context fd server_side name =
      let (rc, made, system) =
        connection_create lib w.system (w.context context) fd server_side name in
      elim made [
        | none ↦ (rc, none, record w { system = system })
        | some c ↦ (rc, some c.ssl, store w c.ssl c system)
      ]

  -- The other functions give SOCKIFY_ERR_INVALID for a null connection.
  abbrev tls_handshake : World W → Handle → Status × World W
  tls_handshake w none = (err_invalid, w)
  tls_handshake w (some h) =
      let (rc, c, system) = connection_handshake lib w.system (w.connection h) in
      (rc, store w h c system)

  abbrev pub tls_read : World W → Handle → ℕ → Status × Bytes × World W
  tls_read w none n = (err_invalid, [], w)
  tls_read w (some h) n =
      let (rc, bytes, c, system) = connection_read lib w.system (w.connection h) n in
      (rc, bytes, store w h c system)

  abbrev pub tls_write : World W → Handle → Bytes → Status × ℕ × World W
  tls_write w none bytes = (err_invalid, 0, w)
  tls_write w (some h) bytes =
      let (rc, n, c, system) = connection_write lib w.system (w.connection h) bytes in
      (rc, n, store w h c system)

  abbrev tls_shutdown : World W → Handle → Status × World W
  tls_shutdown w none = (err_invalid, w)
  tls_shutdown w (some h) =
      let (rc, c, system) = connection_shutdown lib w.system (w.connection h) in
      (rc, store w h c system)

  abbrev pub tls_destroy : World W → Handle → World W
  tls_destroy w none = w
  tls_destroy w (some h) = record w { system = connection_destroy lib w.system (w.connection h) }

  -- `sockify_tls_connection_wants_read`
  abbrev tls_wants_read : World W → Handle → Bool
  tls_wants_read w none = false
  tls_wants_read w (some h) = (w.connection h).want_read

  -- `sockify_tls_connection_wants_write`
  abbrev tls_wants_write : World W → Handle → Bool
  tls_wants_write w none = false
  tls_wants_write w (some h) = (w.connection h).want_write

  -- The backend of the program as it is built with OpenSSL on a POSIX system.
  abbrev pub linked : Backend (World W)
  linked = record {
    net_recv = λ w fd n.
        let (rc, bytes, system) = net_recv calls w.system fd n in
        (rc, bytes, record w { system = system });
    net_send = λ w fd bytes.
        let (rc, n, system) = net_send calls w.system fd bytes in
        (rc, n, record w { system = system });
    net_close = λ w fd. record w { system = net_close sockets w.system fd };
    tls_create = tls_create;
    tls_handshake = tls_handshake;
    tls_read = tls_read;
    tls_write = tls_write;
    tls_shutdown = tls_shutdown;
    tls_destroy = tls_destroy;
    tls_wants_read = tls_wants_read;
    tls_wants_write = tls_wants_write;
    net_connect = λ w host port.
        let (rc, fd, in_progress, system) =
          net_connect sockets w.system (record { host = host; port = port }) in
        (rc, fd, in_progress, record w { system = system });
    loop_add = λ w fd mask.
        let (rc, system) = events.add w.system fd mask in (rc, record w { system = system });
    loop_remove = λ w fd. record w { system = events.remove w.system fd };
    loop_modify = λ w fd mask. record w { system = events.modify w.system fd mask };
    socket_error = λ w fd.
        let (rc, err, system) = socket_error calls w.system fd in
        (rc, err, record w { system = system });
    now = λ w. events.now w.system;
  }
