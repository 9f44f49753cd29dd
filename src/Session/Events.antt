-- ===== src/Session/Events.antt =====
-- src/proxy/proxy.c: which events a session waits for, and what it does on one of its target.
use sockify.Prelude.{
  ℕ, bit_and, bit_or, Bool, true, false, not, ◌&&◌, ◌||◌, some, ltb, ◌==◌, ◌!=◌, if◌then◌else◌,
  length,
}
use sockify.Buffer.{readable, is_high}
use sockify.Session.{Session, Config, close, seen}
use sockify.Session.Target.{read_target, write_target}
use sockify.Status.{Status, ok, err_sys, is_ok, is_again}
use sockify.Transport.{Backend, Transport, handshake, init_tls, destroy, wants_read, wants_write}

-- `SOCKIFY_EVENT_READ`, `SOCKIFY_EVENT_WRITE` and `SOCKIFY_EVENT_ERROR`
abbrev pub event_read : ℕ
event_read = 1

abbrev pub event_write : ℕ
event_write = 2

abbrev pub event_error : ℕ
event_error = 4

-- `(events & bit) != 0`
abbrev pub has_event : ℕ → ℕ → Bool
has_event events bit = bit_and events bit != 0

module _ {W : Type 0} (io : Backend W) where
  -- `transport_tls_event_mask`
  unfoldable pub tls_event_mask : Transport → W → ℕ
  tls_event_mask t w =
      let events =
        bit_or (if wants_read io w t then event_read else 0)
          (if wants_write io w t then event_write else 0) in
      if events == 0 then bit_or event_read event_write else events

  -- `client_events` of `session_update_events`
  unfoldable pub client_events : Session → W → ℕ
  unfolding tls_event_mask
  client_events s w =
      bit_or
        (if not s.client_tls_ready
          then tls_event_mask s.client_transport w
          else if s.closing == 0 && (not s.handshake_done || not (is_high s.client_to_target))
          then event_read
          else 0)
        (if ltb s.client_out_pos s.client_out_len || readable s.target_to_client != 0
          then event_write
          else 0)

  -- `target_events` of `session_update_events`
  unfoldable pub target_events : Session → W → ℕ
  unfolding tls_event_mask
  target_events s w =
      bit_or
        (if s.target_connecting
          then event_write
          else if not s.target_tls_ready
          then tls_event_mask s.target_transport w
          else if not s.target_connecting && not (is_high s.target_to_client)
          then event_read
          else 0)
        (if s.target_tls_ready && readable s.client_to_target != 0 then event_write else 0)

  -- `session_update_events`
  unfoldable pub update_events : Session → W → W
  unfolding client_events target_events
  update_events s w =
      let w1 =
        if s.client_registered then io.loop_modify w s.client_fd (client_events s w) else w in
      let w2 =
        if s.target_registered then io.loop_modify w1 s.target_fd (target_events s w1) else w1 in
      if s.closing == 2 then w else w2

  -- `session_drive_client_tls`
  unfoldable pub drive_client_tls : Session → W → Status × Session × W
  drive_client_tls s w =
      let (rc, w1) = handshake io w s.client_transport in
      if s.client_tls_ready
      then (ok, s, w)
      else if is_ok rc
      then (ok, record s { client_tls_ready = true }, w1)
      else (rc, s, w1)

  -- `session_drive_target_tls`
  unfoldable pub drive_target_tls : Session → W → Status × Session × W
  drive_target_tls s w =
      let (rc, w1) = handshake io w s.target_transport in
      if s.target_tls_ready
      then (ok, s, w)
      else if is_ok rc
      then (ok, record s { target_tls_ready = true }, w1)
      else (rc, s, w1)

  -- `session_complete_target_connect`
  unfoldable pub complete_target_connect : Config → Session → W → Status × Session × W
  complete_target_connect config s w =
      let (rc, socket_error, w1) = io.socket_error w s.target_fd in
      let s1 = record s {
        target_connecting = false;
        connect_started_at = 0;
        last_activity_at = io.now w1;
      } in
      let (t, w2) = destroy io w1 s1.target_transport in
      let server_name =
        if length config.target_tls_server_name == 0
        then config.target_host
        else config.target_tls_server_name in
      let (rc_tls, t', w3) =
        init_tls io w2 s1.target_fd config.target_tls_context false (some server_name) t in
      let s2 = record s1 { target_transport = t' } in
      if not s.target_connecting
      then (ok, s, w)
      else if not (is_ok rc) || socket_error != 0
      then (err_sys, s, w1)
      else if config.target_tls_enabled
      then if is_ok rc_tls
        then (ok, record s2 { target_tls_ready = false }, w3)
        else (rc_tls, s2, w3)
      else (ok, record s1 { target_tls_ready = true }, w1)

  -- `session_handle_target_event` from the read on.
  unfoldable pub target_data : Config → Session → ℕ → W → Session × W
  unfolding update_events
  target_data config s events w =
      let (s1, w1) = if has_event events event_read then read_target io config s w else (s, w) in
      let (s2, w2) =
        if has_event events event_write then write_target io config s1 w1 else (s1, w1) in
      if s1.closing == 2
      then (seen s1, w1)
      else if s2.closing == 2
      then (seen s2, w2)
      else (s2, update_events s2 w2)

  -- `session_handle_target_event` from the TLS handshake on.
  unfoldable pub target_tls : Config → Session → ℕ → W → Session × W
  unfolding drive_target_tls target_data update_events
  target_tls config s events w =
      let (rc, s1, w1) = drive_target_tls s w in
      if s.target_connecting || s.target_tls_ready
      then target_data config s events w
      else if is_again rc
      then (s1, update_events s1 w1)
      else if not s1.target_tls_ready
      then close io s1 w1
      else target_data config s1 events w1

  -- `session_handle_target_event`
  unfoldable pub handle_target_event : Config → Session → ℕ → W → Session × W
  unfolding complete_target_connect target_tls
  handle_target_event config s events w =
      let (rc, s1, w1) = complete_target_connect config s w in
      if has_event events event_error
      then close io s w
      else if s.target_connecting && has_event events event_write
      then if is_ok rc then target_tls config s1 events w1 else close io s1 w1
      else target_tls config s events w
