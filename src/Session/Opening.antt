-- ===== src/Session/Opening.antt =====
-- src/proxy/proxy.c: how a session answers the HTTP handshake, connects to its target, and reads
-- from its client.
pub mod Inv
pub mod Start
pub mod Opens
mod Tests
use sockify.Prelude.{
  ℕ, zero, suc, ◌+◌, ◌-◌, Bool, true, false, not, ◌&&◌, ◌||◌, Option, none, some, List, [], ◌∷◌,
  ◌++◌, Bytes, ltb, ◌==◌, ◌!=◌, if◌then◌else◌, length, take, drop,
}
use sockify.Buffer.{writable, is_high}
use sockify.Handshake.{max_http_request, build_response}
use sockify.Session.{
  Session, Config, set_client_out, close, seen, touch, min_size, io_chunk, has_socket,
}
use sockify.Session.Client.{process_ws_bytes}
use sockify.Session.Events.{
  event_read, event_write, event_error, has_event, drive_client_tls, update_events,
  handle_target_event,
}
use sockify.Status.{Status, ok, is_ok, is_again}
use sockify.Transport.{Backend, init_plain, transport_read}
use sockify.Session.Target.{write_client}

-- `SESSION_SIDE_CLIENT` and `SESSION_SIDE_TARGET`
pub data Side : Type 0 where
  client_side : Side
  target_side : Side

-- `read_limit` of `session_read_client`
abbrev pub read_limit : Session → ℕ
read_limit s =
    if s.handshake_done then min_size io_chunk (writable s.client_to_target) else io_chunk

module _ {W : Type 0} (io : Backend W) where
  -- `session_register_target`
  unfoldable pub register_target : Session → W → Status × Session × W
  register_target s w =
      let (rc, w1) = io.loop_add w s.target_fd event_write in
      if s.target_registered
      then (ok, s, w)
      else if not (is_ok rc)
      then (rc, s, w1)
      else (ok, record s { target_registered = true }, w1)

  -- `session_start_target`
  unfoldable pub start_target : Config → Session → W → Status × Session × W
  start_target config s w =
      let (rc, fd, in_progress, w1) = io.net_connect w config.target_host config.target_port in
      let s1 = record s { target_fd = fd } in
      let s2 = record s1 {
        target_connecting = in_progress;
        connect_started_at = io.now w1;
        target_transport = init_plain fd;
      } in
      if has_socket s.target_fd
      then (ok, s, w)
      else if not (is_ok rc)
      then (rc, s1, w1)
      else register_target s2 w1

  -- `session_handle_handshake_bytes` behind `session_start_target`: the bytes behind the request.
  unfoldable pub after_handshake : ℕ → Session → W → Option (Session × W)
  after_handshake consumed s w = elim (ltb consumed (length s.handshake)) [
    | false ↦ some (record s { handshake = [] }, w)
    | true ↦ elim (process_ws_bytes io s (drop consumed s.handshake) w) [
      | none ↦ none
      | some (rc, s', w') ↦ some (
          if not (is_ok rc) && not (is_again rc)
          then close io s' w'
          else (record s' { handshake = [] }, w'))
    ]
  ]

  -- `session_handle_handshake_bytes` on an accepted request.
  unfoldable pub accept_handshake : Config → Bytes → ℕ → Session → W → Option (Session × W)
  accept_handshake config response consumed s w =
      let (rc_out, s1) = set_client_out s response in
      let (rc, s2, w1) = start_target config (record s1 { handshake_done = true }) w in
      elim (is_ok rc_out) [
        | false ↦ some (close io s1 w)
        | true ↦ elim (is_ok rc) [
          | false ↦ some (close io s2 w1)
          | true ↦ after_handshake consumed s2 w1
        ]
      ]

  -- `session_handle_handshake_bytes`; `response` holds 256 bytes. `none` means that fuel ran out.
  unfoldable pub handle_handshake_bytes : Config → Session → Bytes → W → Option (Session × W)
  handle_handshake_bytes config s bytes w =
      let s1 = record s { handshake = s.handshake ++ bytes } in
      elim (ltb (max_http_request - length s.handshake) (length bytes)) [
        | true ↦ some (close io s w)
        | false ↦ elim (build_response s1.handshake 256) [
          | none ↦ none
          | some (rc, response_len, consumed, response) ↦
              if is_again rc
              then some (s1, w)
              else if not (is_ok rc)
              then some (close io s1 w)
              else accept_handshake config (take response_len response) consumed s1 w
        ]
      ]

  -- What `session_read_client` makes of the bytes of one read, and whether its loop may go on.
  unfoldable pub client_bytes : Config → Session → Bytes → W → Option (Bool × Session × W)
  client_bytes config s bytes w = elim s.handshake_done [
    | false ↦ elim (handle_handshake_bytes config s bytes w) [
      | none ↦ none
      | some (s', w') ↦ some (s'.handshake_done && not (s'.closing == 2), seen s', w')
    ]
    | true ↦ elim (process_ws_bytes io s bytes w) [
      | none ↦ none
      | some (rc, s', w') ↦
          let (closed, w2) = close io s' w' in
          some (if not (is_ok rc) && not (is_again rc) then (false, closed, w2) else (true, s', w'))
    ]
  ]

  -- The loop of `session_read_client` with `rounds` left of the budget.
  unfoldable pub read_client_loop : ℕ → Config → Session → W → Option (Session × W)
  read_client_loop zero config s w = some (seen s, w)
  read_client_loop (suc rounds) config s w =
      let (rc, bytes, w1) = transport_read io w s.client_transport (read_limit s) in
      elim (not (s.closing == 0) || s.handshake_done && read_limit s == 0) [
        | true ↦ some (seen s, w)
        | false ↦ elim (is_again rc) [
          | true ↦ some (s, w1)
          | false ↦ elim (is_ok rc) [
            | false ↦ some (close io s w1)
            | true ↦ elim (client_bytes config (touch io s w1) bytes w1) [
              | none ↦ none
              | some (go_on, s2, w2) ↦ elim (go_on && not (is_high s2.client_to_target)) [
                | false ↦ some (s2, w2)
                | true ↦ read_client_loop rounds config s2 w2
              ]
            ]
          ]
        ]
      ]

  -- `session_read_client`
  unfoldable pub read_client : Config → Session → W → Option (Session × W)
  read_client config s w = read_client_loop config.read_budget config s w

  -- `session_handle_client_event` behind the read; `s` is the session after it.
  unfoldable pub after_read : Config → ℕ → Session → W → Session × W
  after_read config events s w =
      let (s1, w1) = if has_event events event_write then write_client io config s w else (s, w) in
      if has_event events event_read && s.closing == 2
      then (seen s, w)
      else if has_event events event_write && s1.closing == 2
      then (seen s1, w1)
      else (s1, update_events io s1 w1)

  -- `session_handle_client_event` from the read on.
  unfoldable pub client_data : Config → Session → ℕ → W → Option (Session × W)
  client_data config s events w = elim (has_event events event_read) [
    | false ↦ some (after_read config events s w)
    | true ↦ elim (read_client config s w) [
      | none ↦ none
      | some (s', w') ↦ some (after_read config events s' w')
    ]
  ]

  -- `session_handle_client_event`; `none` means that fuel ran out.
  unfoldable pub handle_client_event : Config → Session → ℕ → W → Option (Session × W)
  handle_client_event config s events w =
      let (rc, s1, w1) = drive_client_tls io s w in
      elim (has_event events event_error) [
        | true ↦ some (close io s w)
        | false ↦ elim s.client_tls_ready [
          | true ↦ client_data config s events w
          | false ↦ elim (is_again rc) [
            | true ↦ some (s1, update_events io s1 w1)
            | false ↦ elim s1.client_tls_ready [
              | false ↦ some (close io s1 w1)
              | true ↦ client_data config s1 events w1
            ]
          ]
        ]
      ]

  -- `session_event_callback`
  unfoldable pub event_callback : Config → Side → Session → ℕ → W → Option (Session × W)
  event_callback config client_side s events w = handle_client_event config s events w
  event_callback config target_side s events w = some (handle_target_event io config s events w)
