-- ===== src/Session.antt =====
-- src/proxy/proxy.c: one session, its state and what passes between its client and its target. A
-- handler takes the session and the state of the world and returns both. A session that
-- `session_close` has freed stays a value here, with `closing` 2 and no storage. Where the source reads its
-- memory again, which C leaves undefined, `used_freed` becomes true, and the model goes on with the
-- fields as they were at the `free`.
pub mod Client
pub mod Target
pub mod Events
pub mod Opening
mod Tests
use sockify.Prelude.{
  ℕ, zero, suc, ◌+◌, ◌-◌, ◌*◌, Bool, true, false, not, ◌&&◌, ◌||◌, Option, none, some, List, [],
  ◌∷◌, Bytes, ltb, leb, ◌==◌, ◌!=◌, if◌then◌else◌, length, take, drop,
}
use sockify.Buffer
use sockify.Buffer.{Buffer}
use sockify.Frame.{Parser, Message}
use sockify.Frame.Writer.{write_frame}
use sockify.Status.{Status, ok, err_overflow, err_again, is_ok}
use sockify.Transport.{Backend, Handle, Socket, Transport, destroy}

-- `SOCKIFY_PROXY_IO_CHUNK`
abbrev pub io_chunk : ℕ
io_chunk = 4096

-- What the sessions read of `struct sockify_proxy_config`, and the TLS context of the server.
pub record Config : Type 0 where
  pub read_budget : ℕ
  pub write_budget : ℕ
  pub handshake_timeout_ms : ℕ
  pub idle_timeout_ms : ℕ
  pub connect_timeout_ms : ℕ
  pub target_tls_enabled : Bool
  pub target_tls_context : Handle
  pub target_tls_server_name : Bytes
  pub target_host : Bytes
  pub target_port : Bytes

-- `struct sockify_proxy_session`, but for the links to the server and to other sessions and the
-- storage pointers. `client_out` is `client_out[0..client_out_len)`, and `pending_close_payload` is
-- cut to its length in the same way.
pub record Session : Type 0 where
  pub client_fd : Socket
  pub target_fd : Socket
  pub client_transport : Transport
  pub target_transport : Transport
  pub client_registered : Bool
  pub target_registered : Bool
  pub target_connecting : Bool
  pub client_tls_ready : Bool
  pub target_tls_ready : Bool
  pub handshake_done : Bool
  pub closing : ℕ
  pub pending_close : Bool
  pub pending_close_payload : Bytes
  pub handshake : Bytes
  pub ws_parser : Parser
  pub client_to_target : Buffer
  pub target_to_client : Buffer
  pub client_out : Bytes
  pub client_out_len : ℕ
  pub client_out_pos : ℕ
  pub client_out_capacity : ℕ
  pub created_at : ℕ
  pub connect_started_at : ℕ
  pub last_activity_at : ℕ
  pub used_freed : Bool

abbrev pub min_size : ℕ → ℕ → ℕ
min_size a b = if ltb a b then a else b

abbrev pub has_socket : Socket → Bool
has_socket none = false
has_socket (some _) = true

-- A read of the session's memory: of freed memory if `session_close` has freed it.
abbrev pub seen : Session → Session
seen s = record s { used_freed = s.closing == 2 || s.used_freed }

-- A buffer without storage.
abbrev pub no_buffer : Buffer
no_buffer = record {
  storage = [];
  capacity = 0;
  read_pos = 0;
  write_pos = 0;
  len = 0;
  high_water = 0;
  low_water = 0;
}

-- `session_set_client_out`
unfoldable pub set_client_out : Session → Bytes → Status × Session
set_client_out s bytes =
    if ltb s.client_out_capacity (length bytes)
    then (err_overflow, s)
    else if s.client_out_len != s.client_out_pos
    then (err_again, s)
    else (ok, record s { client_out = bytes; client_out_len = length bytes; client_out_pos = 0 })

-- `session_make_ws_frame`
unfoldable pub make_ws_frame : Session → ℕ → Bytes → Status × Session
make_ws_frame s opcode payload =
    let (rc, written, bytes) =
      write_frame opcode (some payload) (length payload) false s.client_out_capacity in
    if s.client_out_len != s.client_out_pos
    then (err_again, s)
    else if not (is_ok rc)
    then (rc, s)
    else (ok, record s { client_out = bytes; client_out_len = written; client_out_pos = 0 })

module _ {W : Type 0} (io : Backend W) where
  -- `session_touch`
  unfoldable pub touch : Session → W → Session
  touch s w = record s { last_activity_at = io.now w }

  -- `session_close` but for the unlinking: the sockets leave the event loop, the transports are
  -- destroyed, the sockets closed and the storage and the session freed.
  abbrev pub unregister : Bool → Socket → W → W
  unregister registered fd w = if registered then io.loop_remove w fd else w

  abbrev pub close_side : Socket → Transport → W → Transport × W
  close_side fd t w =
      let (t', w') = destroy io w t in if has_socket fd then (t', io.net_close w' fd) else (t, w)

  unfoldable pub close : Session → W → Session × W
  close s w =
      let removed =
        unregister s.target_registered s.target_fd (unregister s.client_registered s.client_fd w) in
      let (client, w1) = close_side s.client_fd s.client_transport removed in
      let (target, w2) = close_side s.target_fd s.target_transport w1 in
      if s.closing == 2 then (seen s, w) else (
        record s {
          closing = 2;
          client_registered = false;
          target_registered = false;
          client_transport = client;
          target_transport = target;
          client_to_target = no_buffer;
          target_to_client = no_buffer;
          client_out = [];
        },
        w2,
      )

-- `session_is_expired`; a `time_t` is a number of seconds, and `difftime` of two of them is exact.
-- A clock that went backwards gives a negative difference, which no limit is below.
abbrev pub elapsed_ms : ℕ → ℕ → ℕ
elapsed_ms now start = (now - start) * 1000

unfoldable pub is_expired : Session → Config → ℕ → Bool
is_expired s config now =
    (s.target_connecting
      && config.connect_timeout_ms != 0
      && s.connect_started_at != 0
      && leb config.connect_timeout_ms (elapsed_ms now s.connect_started_at))
    || (not s.handshake_done
        && config.handshake_timeout_ms != 0
        && leb config.handshake_timeout_ms (elapsed_ms now s.created_at))
    || (s.handshake_done
        && config.idle_timeout_ms != 0
        && leb config.idle_timeout_ms (elapsed_ms now s.last_activity_at))
