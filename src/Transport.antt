-- ===== src/Transport.antt =====
-- src/transport/transport.c: one interface over a plain socket and a TLS connection. What lies
-- outside, the sockets of src/net and the TLS library behind src/tls, is a `Backend`: functions of
-- a state `W` of the world, which each call may change.
use sockify.Prelude.{ℕ, Bool, true, false, Option, none, some, Bytes, ◌==◌, ◌&&◌, if◌then◌else◌}
use sockify.Status.{Status, ok, err_invalid, is_ok}

-- `sockify_socket_t`; `none` is `sockify_net_invalid_socket()`.
abbrev pub Socket : Type 0
Socket = Option ℕ

-- A `struct sockify_tls_connection *` or `struct sockify_tls_context *`, `none` where it is null.
abbrev pub Handle : Type 0
Handle = Option ℕ

pub record Backend (W : Type 0) : Type 0 where
  pub net_recv : W → Socket → ℕ → Status × Bytes × W
  pub net_send : W → Socket → Bytes → Status × ℕ × W
  pub net_close : W → Socket → W
  pub tls_create : W → ℕ → Socket → Bool → Option Bytes → Status × Handle × W
  pub tls_handshake : W → Handle → Status × W
  pub tls_read : W → Handle → ℕ → Status × Bytes × W
  pub tls_write : W → Handle → Bytes → Status × ℕ × W
  pub tls_shutdown : W → Handle → Status × W
  pub tls_destroy : W → Handle → W
  pub tls_wants_read : W → Handle → Bool
  pub tls_wants_write : W → Handle → Bool
  pub net_connect : W → Bytes → Bytes → Status × Socket × Bool × W
  pub loop_add : W → Socket → ℕ → Status × W
  pub loop_remove : W → Socket → W
  pub loop_modify : W → Socket → ℕ → W
  pub socket_error : W → Socket → Status × ℕ × W
  pub now : W → ℕ

-- `SOCKIFY_TRANSPORT_PLAIN` and `SOCKIFY_TRANSPORT_TLS`; `sockify_transport_destroy` leaves 0.
abbrev pub plain : ℕ
plain = 1

abbrev pub tls_type : ℕ
tls_type = 2

-- `struct sockify_transport`; `kind` is `type`.
pub record Transport : Type 0 where
  pub kind : ℕ
  pub fd : Socket
  pub tls : Handle

unfoldable pub init_plain : Socket → Transport
init_plain fd = record { kind = plain; fd = fd; tls = none }

abbrev pub is_plain : Transport → Bool
is_plain t = t.kind == plain

abbrev pub has_handle : Handle → Bool
has_handle none = false
has_handle (some _) = true

module _ {W : Type 0} (io : Backend W) where
  -- The results are the return code and `*transport`.
  unfoldable pub init_tls :
      W → Socket → Handle → Bool → Option Bytes → Transport → Status × Transport × W
  init_tls w fd none server_side server_name t = (err_invalid, t, w)
  init_tls w fd (some context) server_side server_name t =
      let (rc, handle, w') = io.tls_create w context fd server_side server_name in
      if is_ok rc
      then (ok, record { kind = tls_type; fd = fd; tls = handle }, w')
      else (rc, record { kind = 0; fd = none; tls = none }, w')

  unfoldable pub handshake : W → Transport → Status × W
  handshake w t = if is_plain t then (ok, w) else io.tls_handshake w t.tls

  -- `buffer_size` bytes at most; the result holds the bytes stored in `buffer`.
  unfoldable pub transport_read : W → Transport → ℕ → Status × Bytes × W
  transport_read w t buffer_size =
      if is_plain t then io.net_recv w t.fd buffer_size else io.tls_read w t.tls buffer_size

  -- The result holds `*written`.
  unfoldable pub transport_write : W → Transport → Bytes → Status × ℕ × W
  transport_write w t buffer =
      if is_plain t then io.net_send w t.fd buffer else io.tls_write w t.tls buffer

  unfoldable pub shutdown : W → Transport → Status × W
  shutdown w t = if is_plain t then (ok, w) else io.tls_shutdown w t.tls

  unfoldable pub destroy : W → Transport → Transport × W
  destroy w t = (
    record { kind = 0; fd = none; tls = none },
    if t.kind == tls_type && has_handle t.tls then io.tls_destroy w t.tls else w,
  )

  unfoldable pub wants_read : W → Transport → Bool
  wants_read w t = if is_plain t then false else io.tls_wants_read w t.tls

  unfoldable pub wants_write : W → Transport → Bool
  wants_write w t = if is_plain t then false else io.tls_wants_write w t.tls
