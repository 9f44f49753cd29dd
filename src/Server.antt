-- ===== src/Server.antt =====
-- src/proxy/proxy.c: the server. A session in the list `sessions` has a number in place of its
-- address in memory, and the list stands for the chain of `next` pointers from `server->sessions`.
-- `session_close` unlinks a session; here a session that a handler has freed leaves the list when the
-- handler returns.
pub mod Inv
pub mod Loop
pub mod Steps
pub mod Run
pub mod Ends
pub mod Tests
use mathlib.Core.List.{map}
use sockify.Prelude.{
  ℕ, zero, suc, ◌+◌, ◌-◌, ◌*◌, ◌/◌, Bool, true, false, not, ◌&&◌, ◌||◌, Option, none, some, List,
  [], ◌∷◌, Bytes, ltb, leb, ◌==◌, ◌!=◌, if◌then◌else◌, length, replicate, bit_or,
}
use sockify.Buffer
use sockify.Buffer.{Buffer}
use sockify.Config.{ProxyConfig}
use sockify.Frame.{parser_init}
use sockify.Session.{Session, Config, close, no_buffer, io_chunk, is_expired}
use sockify.Session.Events.{event_read, event_write, has_event}
use sockify.Session.Opening.{Side, event_callback}
use sockify.Status.{Status, ok, is_ok, is_again}
use sockify.Transport.{Backend, Socket, Handle, Transport, init_plain, init_tls}

-- `SOCKIFY_WS_MAX_FRAME_PAYLOAD`
abbrev pub max_frame_payload : ℕ
max_frame_payload = 65536

-- What the server calls outside of the sessions: accepting a connection, and allocating memory, which
-- may fail.
pub record Host (W : Type 0) : Type 0 where
  pub io : Backend W
  pub net_accept : W → Socket → Status × Socket × W
  pub alloc : W → ℕ → Bool × W

-- `struct sockify_proxy_server` without the event loop; `next_id` is the number of the next session, and
-- `used_freed` says that the code has read the memory of a freed session.
pub record Server : Type 0 where
  pub config : ProxyConfig
  pub listener_fd : Socket
  pub client_tls_context : Handle
  pub target_tls_context : Handle
  pub active_connections : ℕ
  pub sessions : List (ℕ × Session)
  pub next_id : ℕ
  pub used_freed : Bool

-- What the sessions read of the server.
abbrev pub session_config : Server → Config
session_config server = record {
  read_budget = server.config.read_budget;
  write_budget = server.config.write_budget;
  handshake_timeout_ms = server.config.handshake_timeout_ms;
  idle_timeout_ms = server.config.idle_timeout_ms;
  connect_timeout_ms = server.config.connect_timeout_ms;
  target_tls_enabled = server.config.target_tls_enabled;
  target_tls_context = server.target_tls_context;
  target_tls_server_name = server.config.target_tls_server_name;
  target_host = server.config.target_endpoint.host;
  target_port = server.config.target_endpoint.port;
}

-- `calloc` of a session.
abbrev no_transport : Transport
no_transport = record { kind = 0; fd = none; tls = none }

abbrev pub new_session : Socket → Session
new_session client_fd = record {
  client_fd = client_fd;
  target_fd = none;
  client_transport = no_transport;
  target_transport = no_transport;
  client_registered = false;
  target_registered = false;
  target_connecting = false;
  client_tls_ready = false;
  target_tls_ready = false;
  handshake_done = false;
  closing = 0;
  pending_close = false;
  pending_close_payload = [];
  handshake = [];
  ws_parser = parser_init;
  client_to_target = no_buffer;
  target_to_client = no_buffer;
  client_out = [];
  client_out_len = 0;
  client_out_pos = 0;
  client_out_capacity = 0;
  created_at = 0;
  connect_started_at = 0;
  last_activity_at = 0;
  used_freed = false;
}

-- `buffer_size` of `session_create`
abbrev pub buffer_size_of : ProxyConfig → ℕ
buffer_size_of config =
    if config.buffer_size == 0 || ltb max_frame_payload config.buffer_size
    then max_frame_payload
    else config.buffer_size

abbrev pub make_buffer : ℕ → Buffer
make_buffer size =
    (Buffer.init no_buffer (some (replicate size 0)) size (size * 3 / 4) (size / 4)).1

-- The list without a session.
unfoldable pub unlink : ℕ → List (ℕ × Session) → List (ℕ × Session)
unlink id [] = []
unlink id ((i, s) ∷ rest) = if i == id then rest else (i, s) ∷ unlink id rest

unfoldable pub find : ℕ → List (ℕ × Session) → Option Session
find id [] = none
find id ((i, s) ∷ rest) = if i == id then some s else find id rest

unfoldable pub replace : ℕ → Session → List (ℕ × Session) → List (ℕ × Session)
replace id s' [] = []
replace id s' ((i, s) ∷ rest) = if i == id then (i, s') ∷ rest else (i, s) ∷ replace id s' rest

-- `server_unlink_session`; a session that is not in the list is left alone.
unfoldable pub unlink_session : ℕ → Server → Server
unlink_session id server = elim (find id server.sessions) [
  | none ↦ server
  | some _ ↦ record server {
    sessions = unlink id server.sessions;
    active_connections = server.active_connections - 1;
  }
]

-- The server after a handler of a session returned.
unfoldable pub put_back : ℕ → Session → Server → Server
put_back id s' server =
    if s'.closing == 2
    then unlink_session id (record server { used_freed = s'.used_freed || server.used_freed })
    else record server { sessions = replace id s' server.sessions }

module _ {W : Type 0} (host : Host W) where
  -- The client's transport of a new session, with or without TLS.
  unfoldable pub set_transports : Server → Session → W → Status × Session × W
  set_transports server s w =
      let (rc, t, w1) =
        init_tls host.io w s.client_fd server.client_tls_context true none s.client_transport in
      let client = if server.config.client_tls_enabled then t else init_plain s.client_fd in
      let s1 = record s {
        client_transport = client;
        client_tls_ready = not server.config.client_tls_enabled;
      } in
      let s2 = record s1 {
        target_transport = init_plain none;
        target_tls_ready = not server.config.target_tls_enabled;
        client_out_capacity = io_chunk + 14;
      } in
      if not server.config.client_tls_enabled
      then (ok, s2, w)
      else if is_ok rc
      then (ok, s2, w1)
      else (rc, record s { client_transport = t }, w1)

  -- The buffers and the parser of a new session, and its entry in the event loop.
  unfoldable pub set_buffers : Server → Session → W → Bool × Session × W
  set_buffers server s w =
      let size = buffer_size_of server.config in
      let (first, w1) = host.alloc w size in
      let (second, w2) = host.alloc w1 size in
      let (third, w3) = host.alloc w2 s.client_out_capacity in
      let s1 = record s {
        client_to_target = make_buffer size;
        target_to_client = make_buffer size;
        ws_parser = parser_init;
      } in
      let (rc, w4) =
        host.io.loop_add w3 s.client_fd (
          if server.config.client_tls_enabled then bit_or event_read event_write else event_read) in
      if not (first && second && third)
      then (false, s, w3)
      else if is_ok rc
      then (true, record s1 { client_registered = true }, w4)
      else (false, s1, w4)

  -- `session_create`; the Boolean says that the session was made.
  unfoldable pub session_create : Server → Socket → W → Bool × Server × W
  session_create server client_fd w =
      let (allocated, w0) = host.alloc w 1 in
      let (rc, s, w1) = set_transports server (new_session client_fd) w0 in
      let (made, s1, w2) = set_buffers server s w1 in
      let (_, closed) = close host.io s w1 in
      let (_, closed') = close host.io s1 w2 in
      let s2 = record s1 {
        created_at = host.io.now w2;
        last_activity_at = host.io.now w2;
        connect_started_at = 0;
      } in
      if not allocated
      then (false, server, w0)
      else if not (is_ok rc)
      then (false, server, closed)
      else if not made
      then (false, server, closed')
      else (
        true,
        record server {
          sessions = (server.next_id, s2) ∷ server.sessions;
          active_connections = server.active_connections + 1;
          next_id = server.next_id + 1;
        },
        w2,
      )
