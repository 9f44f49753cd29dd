-- ===== src/Tls/Tests.antt =====
-- A run of the TLS code over a library that takes every call, and remembers how many objects it made and
-- the host name that it is told to expect.
use sockify.Prelude.{
  ℕ, ◌+◌, ◌-◌, ◌≡◌, refl, true, false, Option, none, some, [], ◌∷◌, Bytes, arith, length, codes,
}
use sockify.Config.{config_init}
use sockify.Status.{ok}
use sockify.Tls.{
  Openssl, want_read, Context, Connection, context_create, connection_create, connection_handshake,
  setup_context, set_side, load_verify_paths, open_connection, set_state, set_hostname,
}
use sockify.Tls.Released.{Counts, Made, create-Made}
use sockify.Tls.Verified.{SetsHost, calls, target_handshake-IsVerified}
use sockify.Tls.Wants.{Wants, Same, read, call, call-Wants}

record Library : Type 0 where
  live : ℕ
  host : Option Bytes

abbrev taking : Openssl Library
taking = record {
  calloc = λ w. (true, w);
  ctx_new = λ w b. (some 7, record w { live = w.live + 1 });
  ctx_free = λ w n. record w { live = w.live - 1 };
  set_min_proto = λ w n. w;
  no_renegotiation = λ w n. w;
  set_session_cache = λ w n. w;
  set_verify = λ w n b. w;
  use_certificate_file = λ w n f. (true, w);
  use_private_key_file = λ w n f. (true, w);
  check_private_key = λ w n. (true, w);
  load_verify_locations = λ w n f. (true, w);
  set_default_verify_paths = λ w n. (true, w);
  ssl_new = λ w n. (some 8, record w { live = w.live + 1 });
  ssl_free = λ w n. record w { live = w.live - 1 };
  set_fd = λ w n fd. (true, w);
  set_accept_state = λ w n. w;
  set_connect_state = λ w n. w;
  set_host_name = λ w n h. (true, w);
  set_hostflags = λ w n. w;
  set1_host = λ w n h. (true, record w { host = some h });
  do_handshake = λ w n. (some 1, w);
  read = λ w n size. (none, w);
  write = λ w n b. (some (length b), w);
  shutdown = λ w n. (some 0, w);
  get_error = λ w n r. want_read;
  verify_ok = λ w n. true;
}

taking-Counts : Counts taking (λ w. w.live)
taking-Counts = record {
  calloc = λ w. refl;
  ctx_new = λ w b. refl;
  ctx_free = λ w n. refl;
  set_min_proto = λ w n. refl;
  no_renegotiation = λ w n. refl;
  set_session_cache = λ w n. refl;
  set_verify = λ w n b. refl;
  use_certificate_file = λ w n f. refl;
  use_private_key_file = λ w n f. refl;
  check_private_key = λ w n. refl;
  load_verify_locations = λ w n f. refl;
  set_default_verify_paths = λ w n. refl;
  ssl_new = λ w n. refl;
  ssl_free = λ w n. refl;
  set_fd = λ w n fd. refl;
  set_accept_state = λ w n. refl;
  set_connect_state = λ w n. refl;
  set_host_name = λ w n h. refl;
  set_hostflags = λ w n. refl;
  set1_host = λ w n h. refl;
}

taking-SetsHost : SetsHost taking (λ w n. w.host)
taking-SetsHost = record {
  set1_host = λ w ssl name e. refl;
  do_handshake = λ w ssl. refl;
  read = λ w ssl n. refl;
  write = λ w ssl bytes. refl;
  shutdown = λ w ssl. refl;
}

abbrev start : Library
start = record { live = 0; host = none }

abbrev server_name : Bytes
server_name = codes "example.org"

abbrev context : Context
context = record { ctx = 7; server_side = false; verify_peer = true }

abbrev connection : Connection
connection = record {
  ssl = 8;
  want_read = false;
  want_write = false;
  server_side = false;
  verify_peer = true;
}

abbrev one_context : Library
one_context = record { live = 1; host = none }

abbrev both : Library
both = record { live = 2; host = some server_name }

create_context : context_create taking start config_init false ≡ (ok, some context, one_context)
unfolding context_create setup_context set_side load_verify_paths
create_context = refl

create_connection :
    connection_create taking one_context context (some 3) false (some server_name)
    ≡ (ok, some connection, both)
unfolding connection_create open_connection set_state set_hostname
create_connection = refl

handshake_done :
    (connection_handshake taking
      (calls taking (read 100 ∷ []) both connection).1
      (calls taking (read 100 ∷ []) both connection).0).0
    ≡ ok
unfolding connection_handshake
handshake_done = ground arith

call-Wants_example :
    Wants (call taking (read 100) both connection).0 (call taking (read 100) both connection).1
    × Same connection (call taking (read 100) both connection).1
call-Wants_example = call-Wants taking (read 100) both connection (omega arith)

target_handshake-IsVerified_example :
    ((connection_handshake taking
        (calls taking (read 100 ∷ []) both connection).1
        (calls taking (read 100 ∷ []) both connection).0).2.host
      ≡ some server_name)
    × (taking.verify_ok
          (connection_handshake taking
            (calls taking (read 100 ∷ []) both connection).1
            (calls taking (read 100 ∷ []) both connection).0).2
          8
        ≡ true)
target_handshake-IsVerified_example =
    target_handshake-IsVerified taking (λ w n. w.host) taking-SetsHost start one_context one_context
      both both config_init context (some 3) server_name connection (read 100 ∷ []) refl
      create_context refl create_connection refl (omega arith, tt) handshake_done

create-Made_example :
    Made (λ w. w.live) start (context_create taking start config_init true)
    × Made
        (λ w. w.live)
        start
        (connection_create taking start context (some 3) true (some server_name))
create-Made_example =
    create-Made taking (λ w. w.live) taking-Counts start config_init context (some 3) true
      (some server_name)
