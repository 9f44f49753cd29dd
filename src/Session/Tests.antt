-- ===== src/Session/Tests.antt =====
-- The session theorems at inputs that meet their hypotheses: a backend that keeps a log of what it
-- was given, and takes at most two bytes at a time.
use sockify.Prelude.{
  ℕ, ◌≡◌, refl, true, false, Option, some, none, List, [], ◌∷◌, ◌++◌, Bytes, arith, length, take,
  min,
}
use sockify.Buffer.{Buffer}
use sockify.Buffer.Inv.{IsValid}
use sockify.Buffer.Window.{contents}
use sockify.Frame.{parser_init}
use sockify.Frame.Inv.{parser_init-IsWellFormed}
use sockify.Frame.Spec.{allowed, open_after}
use sockify.Session.{Session, Config}
use sockify.Session.Client.{process_ws_bytes}
use sockify.Session.Client.Stream.{InOrder, DataFrame, stream}
use sockify.Session.Client.Frames.{IsOpen, with_data_of, process_ws_bytes-frames}
use sockify.Session.Target.{write_target}
use sockify.Session.Target.Stream.{IsStream}
use sockify.Session.Target.Forward.{Forwards, write_target-Forwards}
use sockify.Session.Opening.{handle_client_event}
use sockify.Session.Opening.Inv.{IsLive, IsEnded}
use sockify.Session.Opening.Inv.Ends.{GivesBytes, handle_client_event-IsEnded}
use sockify.Status.{Status, ok, err_again}
use sockify.Transport.{Backend, Transport}

abbrev take_two : Bytes → Bytes → Status × ℕ × Bytes
take_two log bytes = (ok, min 2 (length bytes), log ++ take (min 2 (length bytes)) bytes)

abbrev pub logged : Backend Bytes
logged = record {
  net_recv = λ log fd n. (err_again, [], log);
  net_send = λ log fd bytes. take_two log bytes;
  net_close = λ log fd. log;
  tls_create = λ log context fd server name. (ok, some 0, log);
  tls_handshake = λ log h. (ok, log);
  tls_read = λ log h n. (err_again, [], log);
  tls_write = λ log h bytes. take_two log bytes;
  tls_shutdown = λ log h. (ok, log);
  tls_destroy = λ log h. log;
  tls_wants_read = λ log h. false;
  tls_wants_write = λ log h. false;
  net_connect = λ log host port. (ok, some 6, true, log);
  loop_add = λ log fd events. (ok, log);
  loop_remove = λ log fd. log;
  loop_modify = λ log fd events. log;
  socket_error = λ log fd. (ok, 0, log);
  now = λ log. 0;
}

abbrev log_of : Bytes → Option ℕ → Bytes
log_of log h = log

logged-IsStream : IsStream logged log_of log_of
logged-IsStream = record {
  send_bound = λ w fd bytes. omega arith;
  send_adds = λ w fd bytes. refl;
  tls_bound = λ w h bytes. omega arith;
  tls_adds = λ w h bytes. refl;
  remove_keeps = λ w fd fd'. refl;
  remove_keeps_tls = λ w fd h. refl;
  close_keeps = λ w fd fd'. refl;
  close_keeps_tls = λ w fd h. refl;
  destroy_keeps = λ w h fd. refl;
  destroy_keeps_tls = λ w h h'. refl;
}

-- "abc" in a storage of eight bytes.
abbrev three_bytes : Buffer
three_bytes = record {
  storage = 97 ∷ 98 ∷ 99 ∷ 0 ∷ 0 ∷ 0 ∷ 0 ∷ 0 ∷ [];
  capacity = 8;
  read_pos = 0;
  write_pos = 3;
  len = 3;
  high_water = 6;
  low_water = 2;
}

three_bytes-IsValid : IsValid three_bytes
three_bytes-IsValid = omega arith

abbrev plain_on : ℕ → Transport
plain_on fd = record { kind = 1; fd = some fd; tls = none }

abbrev pub session : Session
session = record {
  client_fd = some 5;
  target_fd = some 6;
  client_transport = plain_on 5;
  target_transport = plain_on 6;
  client_registered = true;
  target_registered = true;
  target_connecting = false;
  client_tls_ready = true;
  target_tls_ready = true;
  handshake_done = true;
  closing = 0;
  pending_close = false;
  pending_close_payload = [];
  handshake = [];
  ws_parser = parser_init;
  client_to_target = three_bytes;
  target_to_client = three_bytes;
  client_out = [];
  client_out_len = 0;
  client_out_pos = 0;
  client_out_capacity = 4110;
  created_at = 0;
  connect_started_at = 0;
  last_activity_at = 0;
  used_freed = false;
}

abbrev pub config : Config
config = record {
  read_budget = 16;
  write_budget = 16;
  handshake_timeout_ms = 10000;
  idle_timeout_ms = 300000;
  connect_timeout_ms = 10000;
  target_tls_enabled = false;
  target_tls_context = none;
  target_tls_server_name = [];
  target_host = 104 ∷ [];
  target_port = 49 ∷ [];
}

pub session-IsOpen : IsOpen session
unfolding parser_init
session-IsOpen = record {
  not_closing = refl;
  parser = parser_init-IsWellFormed;
  at_start = refl;
  buffer = three_bytes-IsValid;
}

-- A text message in two frames.
abbrev pub two_frames : List DataFrame
two_frames =
    record { fin = false; opcode = 1; key = (1, 2, 3, 4); payload = 104 ∷ 105 ∷ [] }
    ∷ record { fin = true; opcode = 0; key = (5, 6, 7, 8); payload = 33 ∷ [] }
    ∷ []

pub two_frames-InOrder : InOrder session.ws_parser.fragmented_opcode two_frames
unfolding parser_init allowed open_after
two_frames-InOrder = (
  refl,
  refl,
  refl,
  omega arith,
  omega arith,
  omega arith,
  (refl, refl, refl, omega arith, omega arith, omega arith, tt),
)

process_ws_bytes-frames_example :
    (s' : Session) × (process_ws_bytes logged session (stream two_frames) [] ≡ some (ok, s', []))
    × IsOpen s'
    × (contents s'.client_to_target ≡ 97 ∷ 98 ∷ 99 ∷ 104 ∷ 105 ∷ 33 ∷ [])
    × (s' ≡ with_data_of s' session)
process_ws_bytes-frames_example =
    process_ws_bytes-frames logged two_frames session [] session-IsOpen two_frames-InOrder
      (omega arith)

write_target-Forwards_example :
    Forwards logged log_of log_of logged-IsStream
      (plain_on 6)
      (session, 120 ∷ [])
      (write_target logged config session (120 ∷ []))
write_target-Forwards_example =
    write_target-Forwards logged log_of log_of logged-IsStream config session (120 ∷ [])
      three_bytes-IsValid

logged-GivesBytes : GivesBytes logged
logged-GivesBytes = record { recv_bytes = λ w fd n. tt; tls_bytes = λ w h n. tt }

session-IsLive : IsLive session
unfolding parser_init
session-IsLive = record { parser = parser_init-IsWellFormed; request = tt; bounded = omega arith }

handle_client_event-IsEnded_example : IsEnded (handle_client_event logged config session 3 [])
handle_client_event-IsEnded_example =
    handle_client_event-IsEnded logged logged-GivesBytes config session 3 [] session-IsLive

-- A PING comes while a byte waits for the client.
abbrev waiting : Session
waiting = record session { client_out = 1 ∷ []; client_out_len = 1 }
