-- ===== src/Server/Loop.antt =====
-- src/proxy/proxy.c: the callbacks of the server. The listener accepts connections, the clock closes sessions past
-- their time limits, and the end of the server closes all.
use sockify.Prelude.{
  ℕ, zero, suc, true, false, ◌&&◌, Option, none, some, List, [], ◌∷◌, leb, ◌==◌, if◌then◌else◌,
}
use sockify.Session.{Session, close, is_expired}
use sockify.Session.Events.{event_read, has_event}
use sockify.Session.Opening.{Side, event_callback}
use sockify.Status.{is_ok}
use sockify.Transport.{Socket}
use sockify.Server.{Host, Server, session_config, find, put_back, session_create}

module _ {W : Type 0} (host : Host W) where
  -- The loop of `listener_callback` with `rounds` left of the budget.
  unfoldable pub accept_loop : ℕ → Server → Socket → W → Server × W
  accept_loop zero server fd w = (server, w)
  accept_loop (suc rounds) server fd w =
      let (rc, client_fd, w1) = host.net_accept w fd in
      let (made, server1, w2) = session_create host server client_fd w1 in
      elim (is_ok rc) [
        | false ↦ (server, w1)
        | true ↦ elim (leb server.config.max_connections server.active_connections) [
          | true ↦ accept_loop rounds server fd (host.io.net_close w1 client_fd)
          | false ↦ elim made [ false ↦ (server1, w2) | true ↦ accept_loop rounds server1 fd w2 ]
        ]
      ]

  -- `listener_callback`
  unfoldable pub listener_callback : Server → Socket → ℕ → W → Server × W
  listener_callback server fd events w =
      if has_event events event_read
      then accept_loop server.config.accept_budget server fd w
      else (server, w)

  -- The loop of `proxy_tick` over the sessions that it has not seen.
  unfoldable pub tick_loop : List (ℕ × Session) → ℕ → Server → W → Server × W
  tick_loop [] now server w = (server, w)
  tick_loop ((id, s) ∷ rest) now server w =
      let (s', w1) = close host.io s w in
      if is_expired s (session_config server) now
      then tick_loop rest now (put_back id s' server) w1
      else tick_loop rest now server w

  -- `proxy_tick`
  unfoldable pub proxy_tick : Server → W → Server × W
  proxy_tick server w =
      if server.config.handshake_timeout_ms == 0
        && server.config.idle_timeout_ms == 0
        && server.config.connect_timeout_ms == 0
      then (server, w)
      else tick_loop server.sessions (host.io.now w) server w

  -- `while (server.sessions != 0) session_close(server.sessions);`
  unfoldable pub close_all : List (ℕ × Session) → Server → W → Server × W
  close_all [] server w = (server, w)
  close_all ((id, s) ∷ rest) server w =
      let (s', w1) = close host.io s w in close_all rest (put_back id s' server) w1

-- What the event loop calls back for: the listener, a session's socket on one side, or the clock.
pub data Ready : Type 0 where
  listener : ℕ → Ready
  session : ℕ → Side → ℕ → Ready
  clock : Ready

module _ {W : Type 0} (host : Host W) where
  -- One callback; `none` means that the fuel of a handler ran out. A callback for a session that is not in
  -- the list reads a side in memory that was freed.
  unfoldable pub call_back : Ready → Server → W → Option (Server × W)
  call_back (listener events) server w =
      some (listener_callback host server server.listener_fd events w)
  call_back clock server w = some (proxy_tick host server w)
  call_back (session id side events) server w = elim (find id server.sessions) [
    | none ↦ some (record server { used_freed = true }, w)
    | some s ↦ elim (event_callback host.io (session_config server) side s events w) [
      | none ↦ none
      | some (s', w') ↦ some (put_back id s' server, w')
    ]
  ]

  -- The callbacks of `sockify_event_loop_run`, in any order that the world makes them.
  unfoldable pub call_backs : List Ready → Server → W → Option (Server × W)
  call_backs [] server w = some (server, w)
  call_backs (r ∷ rest) server w = elim (call_back r server w) [
    | none ↦ none
    | some (server', w') ↦ call_backs rest server' w'
  ]
