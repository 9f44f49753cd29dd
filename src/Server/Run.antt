-- ===== src/Server/Run.antt =====
-- src/proxy/proxy.c: `sockify_proxy_run` before and after the run of the event loop.
use sockify.Prelude.{ℕ, Bool, true, false, not, ◌||◌, none, [], if◌then◌else◌}
use sockify.Config.{Endpoint, ProxyConfig, validate_config}
use sockify.Server.{Host, Server}
use sockify.Server.Loop.{close_all}
use sockify.Session.Events.{event_read}
use sockify.Status.{Status, ok, err_nomem, err_unsupported, is_ok}
use sockify.Transport.{Socket, Handle, has_handle}

-- What the start and the end of the proxy call: the sockets, the event loop and the TLS library.
pub record System (W : Type 0) : Type 0 where
  pub host : Host W
  pub net_init : W → Status × W
  pub net_cleanup : W → W
  pub net_listen : W → Endpoint → ℕ → Status × Socket × W
  pub loop_create : W → Bool × W
  pub loop_destroy : W → W
  pub tls_global_init : W → Status × W
  pub tls_global_cleanup : W → W
  pub tls_is_available : Bool
  pub context_create : W → ProxyConfig → Bool → Status × Handle × W
  pub context_destroy : W → Handle → W

-- `tls_enabled`
abbrev pub tls_enabled : ProxyConfig → Bool
tls_enabled config = config.client_tls_enabled || config.target_tls_enabled

abbrev pub start_server : ProxyConfig → Server
start_server config = record {
  config = config;
  listener_fd = none;
  client_tls_context = none;
  target_tls_context = none;
  active_connections = 0;
  sessions = [];
  next_id = 0;
  used_freed = false;
}

module _ {W : Type 0} (sys : System W) where
  abbrev pub destroy_context : Handle → W → W
  destroy_context h w = if has_handle h then sys.context_destroy w h else w

  -- `proxy_destroy_tls`
  unfoldable pub proxy_destroy_tls : Server → W → Server × W
  proxy_destroy_tls server w =
      let w1 =
        destroy_context server.target_tls_context (destroy_context server.client_tls_context w) in
      (
        record server { client_tls_context = none; target_tls_context = none },
        if tls_enabled server.config then sys.tls_global_cleanup w1 else w1,
      )

  -- A context for one side, if that side has TLS.
  unfoldable pub side_context : Bool → Server → Bool → W → Status × Handle × W
  side_context enabled server server_side w =
      if enabled then sys.context_create w server.config server_side else (ok, none, w)

  -- `proxy_init_tls`
  unfoldable pub proxy_init_tls : Server → W → Status × Server × W
  proxy_init_tls server w =
      let (rc, w1) = sys.tls_global_init w in
      let (rc_client, client, w2) = side_context server.config.client_tls_enabled server true w1 in
      let with_client = record server { client_tls_context = client } in
      let (rc_target, target, w3) =
        side_context server.config.target_tls_enabled with_client false w2 in
      let with_both = record with_client { target_tls_context = target } in
      let (none_left, d1) = proxy_destroy_tls server w1 in
      let (client_left, d2) = proxy_destroy_tls with_client w2 in
      let (both_left, d3) = proxy_destroy_tls with_both w3 in
      if not (tls_enabled server.config)
      then (ok, server, w)
      else if not (is_ok rc)
      then (rc, server, w1)
      else if not sys.tls_is_available
      then (err_unsupported, none_left, d1)
      else if not (is_ok rc_client)
      then (rc_client, client_left, d2)
      else if not (is_ok rc_target)
      then (rc_target, both_left, d3)
      else (ok, with_both, w3)

  -- The end of `sockify_proxy_run` once there is an event loop.
  unfoldable pub shut_down : Server → W → Server × W
  shut_down server w =
      let (server1, w1) = close_all sys.host server.sessions server w in
      let w2 = sys.host.io.net_close (sys.loop_destroy w1) server1.listener_fd in
      let (server2, w3) = proxy_destroy_tls server1 w2 in (server2, sys.net_cleanup w3)

  -- `sockify_proxy_run` once there is an event loop, up to the call of `sockify_event_loop_run`.
  unfoldable pub open_loop : Server → W → Status × Server × W
  open_loop server w =
      let (rc, w1) = sys.host.io.loop_add w server.listener_fd event_read in
      let (left, w2) = shut_down server w1 in if is_ok rc then (ok, server, w1) else (rc, left, w2)

  -- From the listener on.
  unfoldable pub start_listener : Server → W → Status × Server × W
  start_listener server w =
      let (rc, fd, w1) = sys.net_listen w server.config.listen_endpoint server.config.backlog in
      let listening = record server { listener_fd = fd } in
      let (created, w2) = sys.loop_create w1 in
      let (no_listener, d1) = proxy_destroy_tls listening w1 in
      let (no_loop, d2) = proxy_destroy_tls listening (sys.host.io.net_close w2 fd) in
      if not (is_ok rc)
      then (rc, no_listener, sys.net_cleanup d1)
      else if not created
      then (err_nomem, no_loop, sys.net_cleanup d2)
      else open_loop listening w2

  -- `sockify_proxy_run` up to the call of `sockify_event_loop_run`, which follows if the code is SOCKIFY_OK. With any
  -- other code the run is over.
  unfoldable pub start_proxy : ProxyConfig → W → Status × Server × W
  start_proxy config w =
      let server = start_server config in
      let rc = validate_config config in
      let (rc_net, w1) = sys.net_init w in
      let (rc_tls, server1, w2) = proxy_init_tls server w1 in
      if not (is_ok rc)
      then (rc, server, w)
      else if not (is_ok rc_net)
      then (rc_net, server, w1)
      else if not (is_ok rc_tls)
      then (rc_tls, server1, sys.net_cleanup w2)
      else start_listener server1 w2
