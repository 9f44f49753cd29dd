-- ===== src/Linked/Tests.antt =====
-- A system with one log of sent bytes and one of bytes written over TLS, which takes two bytes a call.
use sockify.Linked.{Events, linked}
use sockify.Linked.Meets.{linked-Meets}
use sockify.Linked.Outside.{IsOutside, on_socket, on_tls}
use sockify.Net.{Calls, other}
use sockify.Net.Addresses.{Sockets}
use sockify.Net.Stream.{IsSend}
use sockify.Prelude.{ℕ, refl, true, some, [], ◌∷◌, ◌++◌, Bytes, arith, min, length, take}
use sockify.Session.Opening.Inv.Ends.{GivesBytes}
use sockify.Session.Target.Stream.{IsStream}
use sockify.Status.{ok}
use sockify.Tls.{Openssl, want_read}
use sockify.Transport.{Socket}

record Logs : Type 0 where
  sent : Bytes
  written : Bytes

abbrev two : Bytes → ℕ
two bytes = min 2 (length bytes)

abbrev calls : Calls Logs
calls = record {
  recv = λ w fd n. (some (104 ∷ []), other 0, w);
  send = λ w fd bytes.
      (some (two bytes), other 0, record w { sent = w.sent ++ take (two bytes) bytes });
  accept = λ w fd. (some 5, other 0, w);
  set_nodelay = λ w fd. w;
  get_error = λ w fd. (some 0, w);
}

abbrev sockets : Sockets Logs
sockets = record {
  o_nonblock = 2048;
  getaddrinfo = λ w e passive. (some (1 ∷ []), w);
  freeaddrinfo = λ w. w;
  socket = λ w ai. (some 7, w);
  set_reuseaddr = λ w n. (true, w);
  set_nodelay = λ w n. (true, w);
  bind = λ w n ai. (true, w);
  listen = λ w n backlog. (true, w);
  connect = λ w n ai. (true, other 0, w);
  get_flags = λ w n. (some 2, w);
  set_flags = λ w n flags. (true, w);
  close = λ w n. w;
}

abbrev lib : Openssl Logs
lib = record {
  calloc = λ w. (true, w);
  ctx_new = λ w b. (some 7, w);
  ctx_free = λ w n. w;
  set_min_proto = λ w n. w;
  no_renegotiation = λ w n. w;
  set_session_cache = λ w n. w;
  set_verify = λ w n b. w;
  use_certificate_file = λ w n f. (true, w);
  use_private_key_file = λ w n f. (true, w);
  check_private_key = λ w n. (true, w);
  load_verify_locations = λ w n f. (true, w);
  set_default_verify_paths = λ w n. (true, w);
  ssl_new = λ w n. (some 8, w);
  ssl_free = λ w n. w;
  set_fd = λ w n fd. (true, w);
  set_accept_state = λ w n. w;
  set_connect_state = λ w n. w;
  set_host_name = λ w n h. (true, w);
  set_hostflags = λ w n. w;
  set1_host = λ w n h. (true, w);
  do_handshake = λ w n. (some 1, w);
  read = λ w n size. (some (105 ∷ []), w);
  write =
      λ w n bytes. (some (two bytes), record w { written = w.written ++ take (two bytes) bytes });
  shutdown = λ w n. (some 0, w);
  get_error = λ w n r. want_read;
  verify_ok = λ w n. true;
}

abbrev events : Events Logs
events = record {
  add = λ w fd mask. (ok, w);
  remove = λ w fd. w;
  modify = λ w fd mask. w;
  now = λ w. 0;
}

abbrev sent_on : Logs → Socket → Bytes
sent_on w fd = w.sent

abbrev written_on : Logs → ℕ → Bytes
written_on w ssl = w.written

calls-IsSend : IsSend calls sent_on
calls-IsSend = record { bound = λ w fd bytes. omega arith; adds = λ w fd bytes. refl }

logs-IsOutside : IsOutside calls sockets lib events sent_on written_on
logs-IsOutside = record {
  sends = calls-IsSend;
  recv_bytes = λ w fd n. (omega arith, tt);
  read_bytes = λ w ssl n. (omega arith, tt);
  write_bound = λ w ssl bytes. omega arith;
  write_adds = λ w ssl bytes. refl;
  remove_keeps = λ w fd fd'. refl;
  remove_keeps_tls = λ w fd ssl. refl;
  close_keeps = λ w n fd. refl;
  close_keeps_tls = λ w n ssl. refl;
  free_keeps = λ w ssl fd. refl;
  free_keeps_tls = λ w ssl ssl'. refl;
}

linked-Meets_example :
    IsStream (linked calls sockets lib events) (on_socket sent_on) (on_tls written_on)
    × GivesBytes (linked calls sockets lib events)
linked-Meets_example = linked-Meets calls sockets lib events sent_on written_on logs-IsOutside
