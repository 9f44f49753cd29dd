-- ===== src/Server/Tests.antt =====
-- A server that accepts one client, and one with TLS on both sides that counts its contexts.
use sockify.Prelude.{
  ◌≡◌, length, length-drop, drop, refl, arith, true, false, some, List, [], ◌∷◌, Bytes,
}
use sockify.Config.{ProxyConfig, config_init}
use sockify.Session.Opening.{client_side}
use sockify.Session.Opening.Inv.Ends.{GivesBytes}
use sockify.Server.{Host, Server, new_session}
use sockify.Server.Loop.{Ready, listener, session, clock}
use sockify.Server.Ends.{CountsContexts, Balanced, held, start_proxy-Balanced, shut_down-empty}
use sockify.Server.Run.{System, start_server, start_proxy, shut_down}
use sockify.Status.{ok, err_again}
use sockify.Transport.{Backend}

abbrev quiet : Backend Bytes
quiet = record {
  net_recv = λ log fd n. (err_again, [], log);
  net_send = λ log fd bytes. (ok, 0, log);
  net_close = λ log fd. log;
  tls_create = λ log context fd server name. (ok, some 0, log);
  tls_handshake = λ log h. (ok, log);
  tls_read = λ log h n. (err_again, [], log);
  tls_write = λ log h bytes. (ok, 0, log);
  tls_shutdown = λ log h. (ok, log);
  tls_destroy = λ log h. log;
  tls_wants_read = λ log h. false;
  tls_wants_write = λ log h. false;
  net_connect = λ log host port. (ok, some 6, true, log);
  loop_add = λ log fd events. (ok, log);
  loop_remove = λ log fd. log;
  loop_modify = λ log fd events. log;
  socket_error = λ log fd. (ok, 0, log);
  now = λ log. 0;
}

pub quiet-GivesBytes : GivesBytes quiet
quiet-GivesBytes = record { recv_bytes = λ w fd n. tt; tls_bytes = λ w h n. tt }

abbrev host : Host Bytes
host = record {
  io = quiet;
  net_accept = λ log fd. (ok, some 5, log);
  alloc = λ log size. (true, log);
}

abbrev pub sys : System Bytes
sys = record {
  host = host;
  net_init = λ log. (ok, log);
  net_cleanup = λ log. log;
  net_listen = λ log endpoint backlog. (ok, some 3, log);
  loop_create = λ log. (true, log);
  loop_destroy = λ log. log;
  tls_global_init = λ log. (ok, log);
  tls_global_cleanup = λ log. log;
  tls_is_available = true;
  context_create = λ log config server_side. (ok, some 1, log);
  context_destroy = λ log h. log;
}

abbrev pub ready : List Ready
ready = listener 1 ∷ session 0 client_side 1 ∷ clock ∷ []

abbrev config : ProxyConfig
config = record config_init {
  listen_endpoint = record { host = 97 ∷ []; port = 49 ∷ [] };
  target_endpoint = record { host = 98 ∷ []; port = 50 ∷ [] };
}

-- The number of contexts is the length of the log.
abbrev counting : System Bytes
counting = record sys {
  context_create = λ log config server_side. (ok, some 1, 1 ∷ log);
  context_destroy = λ log h. drop 1 log;
}

counting-CountsContexts : CountsContexts counting (λ log. length log)
counting-CountsContexts = record {
  created = λ w config server_side. (omega arith, refl);
  destroyed = λ w n. omega (arith, length-drop 1 w);
  net_init = λ w. refl;
  net_cleanup = λ w. refl;
  net_listen = λ w endpoint n. refl;
  loop_create = λ w. refl;
  loop_destroy = λ w. refl;
  global_init = λ w. refl;
  global_cleanup = λ w. refl;
  loop_add = λ w fd n. refl;
  loop_remove = λ w fd. refl;
  net_close = λ w fd. refl;
  tls_destroy = λ w h. refl;
}

abbrev both_sides : ProxyConfig
both_sides = record config { client_tls_enabled = true; target_tls_enabled = true }

start_proxy-Balanced_example :
    Balanced counting
      (λ log. length log)
      counting-CountsContexts
      []
      (start_proxy counting both_sides [])
start_proxy-Balanced_example =
    start_proxy-Balanced counting (λ log. length log) counting-CountsContexts both_sides []

-- A server with two contexts and one session.
abbrev running : Server
running = record (start_server both_sides) {
  client_tls_context = some 1;
  target_tls_context = some 1;
  active_connections = 1;
  sessions = (0, new_session (some 5)) ∷ [];
}

shut_down-empty_example :
    let r = shut_down counting running (1 ∷ 1 ∷ []) in
    (r.0.sessions ≡ []) × (r.0.active_connections ≡ 0) × (held r.0 ≡ 0) × (length r.1 ≡ 0)
shut_down-empty_example =
    shut_down-empty counting (λ log. length log) counting-CountsContexts running (1 ∷ 1 ∷ []) refl
